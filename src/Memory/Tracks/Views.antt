-- ===== src/Memory/Tracks/Views.antt =====
-- The tracks and events of Midi that the nodes of a heap stand for, and chains that grow by a node.
use mks65_symphony.Prelude.{
  suc, ◌≡◌, ◌≢◌, ap, refl, Option, none, some, List, [], ◌∷◌, ◌++◌, length,
}
use mks65_symphony.Midi.{Bytes, MeventData, Mevent, Mtrack}
use MeventData.{regular, sysex, meta}
use mks65_symphony.Midi.Chain.{last_from}
use mks65_symphony.Memory.{
  Ptr, null, NodeData, regular_node, sysex_node, meta_node, EventNode, TrackNode, Heap, buffer,
}
use mks65_symphony.Memory.Chain.{Cells}
use mks65_symphony.Memory.Chain.Grow.{last_cell, LastIs, relink}
use mks65_symphony.Memory.Tracks.{event_link}
use mks65_symphony.Memory.Tracks.Release.{TrackAt}

abbrev pub Text : Heap → Ptr → Option Bytes → Type 0
Text h p none = p ≡ null
Text h p (some s) = (p ≢ null) × (h p ≡ some (buffer s))

abbrev pub DataView : Heap → NodeData → MeventData → Type 0
DataView h (regular_node r) (regular r') = r ≡ r'
DataView h (sysex_node msg len) (sysex s) = Text h msg s.msg × (len ≡ s.len)
DataView h (meta_node type len bytes) (meta m) =
    Text h bytes m.bytes × (len ≡ m.len) × (type ≡ m.type)
DataView h _ _ = ⊥

pub record EventView (h : Heap) (n : EventNode) (e : Mevent) : Type 0 where
  pub deltatime : n.deltatime ≡ e.deltatime
  pub curtime : n.curtime ≡ e.curtime
  pub contents : DataView h n.event_data e.event_data

abbrev pub Views : Heap → Cells event_link → List Mevent → Type 0
Views h [] [] = Unit
Views h ((p, n) ∷ cs) (e ∷ es) = EventView h n e × Views h cs es
Views h _ _ = ⊥

-- The track at `p` stands for `mt`.
pub record TrackView (h : Heap) (p : Ptr) (t : TrackNode) (cs : Cells event_link) (mt : Mtrack)
    : Type 0 where
  pub at : TrackAt h p t cs
  pub last : LastIs t.last cs
  pub views : Views h cs mt.events
  pub counted : t.len ≡ length cs
  pub len : t.len ≡ mt.len
  pub is_tempotrack : t.is_tempotrack ≡ mt.is_tempotrack
  pub name : Text h t.name mt.name
  pub text : Text h t.text mt.text
  pub instrument : Text h t.instrument mt.instrument

module _ {h g : Heap}
    (same : (a : Ptr) (b : Bytes) → h a ≡ some (buffer b) → g a ≡ some (buffer b)) where
  pub Text-kept : (p : Ptr) (s : Option Bytes) → Text h p s → Text g p s
  Text-kept p none v = v
  Text-kept p (some s) v = (v.0, same p s v.1)

  DataView-kept : (d : NodeData) (e : MeventData) → DataView h d e → DataView g d e
  DataView-kept (regular_node r) (regular r') v = v
  DataView-kept (sysex_node msg len) (sysex s) v = (Text-kept msg s.msg v.0, v.1)
  DataView-kept (meta_node type len bytes) (meta m) v = (Text-kept bytes m.bytes v.0, v.1, v.2)
  DataView-kept (regular_node r) (sysex s) v = v
  DataView-kept (regular_node r) (meta s) v = v
  DataView-kept (sysex_node msg len) (regular s) v = v
  DataView-kept (sysex_node msg len) (meta s) v = v
  DataView-kept (meta_node type len bytes) (regular s) v = v
  DataView-kept (meta_node type len bytes) (sysex s) v = v

  pub EventView-kept : (n : EventNode) (e : Mevent) → EventView h n e → EventView g n e
  EventView-kept n e v = record {
    deltatime = v.deltatime;
    curtime = v.curtime;
    contents = DataView-kept n.event_data e.event_data v.contents;
  }

  pub Views-snoc :
      (cs : Cells event_link) (es : List Mevent) (p : Ptr) (n : EventNode) (e : Mevent)
      → Views h cs es
      → EventView g n e
      → Views g (cs ++ (p, n) ∷ []) (es ++ e ∷ [])
  Views-snoc [] [] p n e v w = (w, tt)
  Views-snoc [] (f ∷ es) p n e v w = absurd v
  Views-snoc (c ∷ cs) [] p n e v w = absurd v
  Views-snoc ((q, m) ∷ cs) (f ∷ es) p n e v w =
      (EventView-kept m f v.0, Views-snoc cs es p n e v.1 w)

pub Views-relink :
    (h : Heap) (c : Ptr × EventNode) (cs : Cells event_link) (es : List Mevent) (p : Ptr)
    → Views h (c ∷ cs) es
    → Views h (relink event_link c cs p) es
Views-relink h c cs [] p v = absurd v
Views-relink h (q, m) [] (e ∷ es) p v =
    (record { deltatime = v.0.deltatime; curtime = v.0.curtime; contents = v.0.contents }, v.1)
Views-relink h (q, m) (d ∷ cs) (e ∷ es) p v = (v.0, Views-relink h d cs es p v.1)

pub length-Views :
    (h : Heap) (cs : Cells event_link) (es : List Mevent) → Views h cs es → length cs ≡ length es
length-Views h [] [] v = refl
length-Views h [] (e ∷ es) v = absurd v
length-Views h (c ∷ cs) [] v = absurd v
length-Views h ((q, m) ∷ cs) (e ∷ es) v = ap suc (length-Views h cs es v.1)

pub last-Views :
    (h : Heap) (c : Ptr × EventNode) (cs : Cells event_link) (e : Mevent) (es : List Mevent)
    → Views h (c ∷ cs) (e ∷ es)
    → EventView h (last_cell c cs).1 (last_from e es)
last-Views h (q, m) [] e [] v = v.0
last-Views h (q, m) [] e (f ∷ es) v = absurd v.1
last-Views h (q, m) (d ∷ cs) e [] v = absurd v.1
last-Views h (q, m) (d ∷ cs) e (f ∷ es) v = last-Views h d cs f es v.1
