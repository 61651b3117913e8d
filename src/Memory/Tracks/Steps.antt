-- ===== src/Memory/Tracks/Steps.antt =====
-- The run of `append_mevent` of server/midi.c on the heap, and what it does to the nodes.
use mks65_symphony.Prelude.{◌≡◌, ◌≢◌, refl, false, some, List, [], ◌∷◌, ◌++◌, ◌==◌, arith, ok}
use mks65_symphony.Midi.{Bytes, Mevent, sub_ulong}
use mks65_symphony.Midi.Chain.{chained}
use mks65_symphony.Memory.{Ptr, null, EventNode, TrackNode, Heap, event, track, buffer, write}
use mks65_symphony.Memory.Chain.{Cells}
use mks65_symphony.Memory.Chain.Grow.{last_cell, relink}
use mks65_symphony.Memory.Tracks.{event_link, append_node}
use mks65_symphony.Memory.Tracks.Grow.{grown}
use mks65_symphony.Memory.Tracks.Release.{load_event-at, load_track-at}
use mks65_symphony.Memory.Tracks.Views.{
  EventView, Views, EventView-kept, Views-snoc, Views-relink, last-Views,
}

pub append_node-first :
    (h : Heap) (p : Ptr) (t : TrackNode) (e : Ptr)
    → p ≢ null
    → h p ≡ some (track t)
    → t.len ≡ 0
    → append_node p e h
      ≡ ok (tt, write h p (some (track (record t { first = e; last = e; len = 1 }))))
unfolding append_node
append_node-first h p t e ne at zero = rw (load_track-at h p t ne at, zero) refl

read_past :
    (h : Heap) (e p : Ptr) (n l : EventNode)
    → h p ≡ some (event l)
    → p ≢ e
    → write h e (some (event n)) p ≡ some (event l)
unfolding write
read_past h e p n l at apart = ground (arith, at, apart)

pub append_node-next :
    (h : Heap) (p : Ptr) (t : TrackNode) (e : Ptr) (n l : EventNode)
    → p ≢ null
    → h p ≡ some (track t)
    → (t.len == 0) ≡ false
    → e ≢ null
    → h e ≡ some (event n)
    → t.last ≢ null
    → h t.last ≡ some (event l)
    → t.last ≢ e
    → append_node p e h ≡ ok (tt, grown h p t e n l)
unfolding append_node
append_node-next h p t e n l ne at some_len e_ne e_at l_ne l_at apart =
    let n' = record n { deltatime = sub_ulong n.curtime l.curtime } in
    rw
      (
        load_track-at h p t ne at,
        some_len,
        load_event-at h e n e_ne e_at,
        load_event-at h t.last l l_ne l_at,
        load_event-at (write h e (some (event n'))) t.last l l_ne
            (read_past h e t.last n' l l_at apart),
      )
      refl

pub Views-next :
    (h g : Heap) (c : Ptr × EventNode) (cs : Cells event_link) (es : List Mevent) (e : Ptr)
    (n : EventNode) (ev : Mevent)
    → ((a : Ptr) (b : Bytes) → h a ≡ some (buffer b) → g a ≡ some (buffer b))
    → Views h (c ∷ cs) es
    → EventView h n ev
    → Views g
        (relink event_link c cs e
          ++ (e, record n { deltatime = sub_ulong n.curtime (last_cell c cs).1.curtime }) ∷ [])
        (es ++ chained es ev ∷ [])
Views-next h g c cs [] e n ev same v w = absurd v
Views-next h g c cs (f ∷ es) e n ev same v w =
    let w' = EventView-kept same n ev w in
    Views-snoc same (relink event_link c cs e) (f ∷ es) e _ _ (Views-relink h c cs (f ∷ es) e v)
      (record {
        deltatime = rw (w.curtime, (last-Views h c cs f es v).curtime) refl;
        curtime = w'.curtime;
        contents = w'.contents;
      })
