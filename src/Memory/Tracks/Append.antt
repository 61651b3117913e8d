-- ===== src/Memory/Tracks/Append.antt =====
-- `append_mevent` of server/midi.c on the heap, against the one on lists of Midi.
use mks65_symphony.Prelude.{
  ◌+◌, ◌≡◌, ◌≢◌, sym, refl, true, false, some, List, [], ◌∷◌, ◌++◌, ◌==◌, arith, length, ok,
  is_some,
}
use mks65_symphony.Midi.{Bytes, Mevent, Mtrack, sub_ulong, append_mevent}
use mks65_symphony.Midi.Chain.{chained, with_event, append_chained}
use mks65_symphony.Memory.{Ptr, null, EventNode, TrackNode, Heap, event, track, buffer, write}
use mks65_symphony.Memory.Cells.{Ends, ends, Owned, Owned-kept, Owned-append}
use mks65_symphony.Memory.Chain.{Cells, Seg, cons, foot}
use mks65_symphony.Memory.Tracks.{event_link, append_node}
use mks65_symphony.Memory.Chain.Grow.{
  last_cell, relink, has-last, Seg-nil, Seg-relink, Seg-last, foot-relink, length-relink,
  LastIs-snoc, Parts, parts,
}
use mks65_symphony.Memory.Tracks.Grow.{
  NewEvent, grown, at_track, at_last, at_event, at_buffer, at_other, still,
}
use mks65_symphony.Memory.Tracks.Steps.{append_node-first, append_node-next, Views-next}
use mks65_symphony.Memory.Tracks.Release.{owns, strings, track_foot}
use mks65_symphony.Memory.Tracks.Views.{Views, TrackView, Text-kept, EventView-kept, length-Views}

-- Some nodes at `p` stand for the track.
abbrev pub StandsFor : Heap → Ptr → Mtrack → Type 0
StandsFor h p mt = (t : TrackNode) × (cs : Cells event_link) × TrackView h p t cs mt

module _ (h : Heap) (p : Ptr) (t : TrackNode) (c : Ptr × EventNode) (cs : Cells event_link)
    (mt : Mtrack) (e : Ptr) (n : EventNode) (ev : Mevent) (v : TrackView h p t (c ∷ cs) mt)
    (new : NewEvent h p t (c ∷ cs) e n ev) where
  abbrev l : EventNode
  l = (last_cell c cs).1

  abbrev n' : EventNode
  n' = record n { deltatime = sub_ulong n.curtime l.curtime }

  abbrev g : Heap
  g = grown h p t e n l

  l_ne : t.last ≢ null
  l_ne = rw v.last (Seg-last event_link c cs v.at.chain).0

  l_at : h t.last ≡ some (event l)
  l_at = rw v.last (Seg-last event_link c cs v.at.chain).1

  divided : Parts event_link h (c ∷ cs) e
  divided =
      parts event_link h (c ∷ cs) e n
        (Owned-append h (foot event_link ((c ∷ cs) ++ (e, n) ∷ [])) (p ∷ [])
          (Owned-append h (owns (strings t)) (foot event_link ((c ∷ cs) ++ (e, n) ∷ []) ++ p ∷ [])
            new.owned).1).0

  l_apart : t.last ≢ e
  l_apart i = ground (arith, i, v.last, divided.apart, has-last event_link c cs)

  same : (a : Ptr) (b : Bytes) → h a ≡ some (buffer b) → g a ≡ some (buffer b)
  same = at_buffer h p e t n l v.at.holds new.holds l_at l_apart

  chain_next : Seg event_link g null t.first (relink event_link c cs e ++ (e, n') ∷ [])
  chain_next =
      Seg-relink event_link c cs e n' v.at.chain divided.nodes divided.apart
        (λ a m i x y. at_other h p e t n l v.at.holds new.holds l_at l_apart a m i (rw v.last x) y)
        (rw (sym v.last) (at_last h p e t n l v.at.holds new.holds l_at l_apart)) new.not_null
        (at_event h p e t n l v.at.holds new.holds l_at l_apart) new.ends

  owned_next : Owned g (track_foot p t (relink event_link c cs e ++ (e, n') ∷ []))
  owned_next =
      Owned-kept h g (track_foot p t (relink event_link c cs e ++ (e, n') ∷ []))
        (still h p e t n l v.at.holds new.holds l_at l_apart)
        (rw (foot-relink event_link c cs e n n' refl) new.owned)

  append_next : Ends (λ _ k. StandsFor k p (with_event mt ev)) (append_node p e h)
  append_next =
      rw
        (append_node-next h p t e n l v.at.not_null v.at.holds some_len new.not_null new.holds l_ne
          l_at l_apart)
        (ends (
          record t { last = e; len = t.len + 1 },
          relink event_link c cs e ++ (e, n') ∷ [],
          record {
            at = record {
              not_null = v.at.not_null;
              holds = at_track h p e t n l v.at.holds new.holds l_at l_apart;
              chain = chain_next;
              owned = owned_next;
            };
            last = LastIs-snoc event_link (relink event_link c cs e) e n';
            views = Views-next h g c cs mt.events e n ev same v.views new.view;
            counted = omega (arith, v.counted, length-relink event_link c cs e n');
            len = omega (arith, v.counted, length-Views h (c ∷ cs) mt.events v.views);
            is_tempotrack = v.is_tempotrack;
            name = Text-kept same t.name mt.name v.name;
            text = Text-kept same t.text mt.text v.text;
            instrument = Text-kept same t.instrument mt.instrument v.instrument;
          },
        ))
    where
      some_len : (t.len == 0) ≡ false
      some_len = ground (arith, v.counted)

abbrev first_heap : Heap → Ptr → TrackNode → Ptr → Heap
first_heap h p t e = write h p (some (track (record t { first = e; last = e; len = 1 })))

module _ (h : Heap) (p : Ptr) (t : TrackNode) (e : Ptr) where
  first_track : first_heap h p t e p ≡ some (track (record t { first = e; last = e; len = 1 }))
  unfolding write
  first_track = ground arith

  first_event :
      (n : EventNode)
      → h p ≡ some (track t)
      → h e ≡ some (event n)
      → first_heap h p t e e ≡ some (event n)
  unfolding write
  first_event n i j = ground (arith, i, j)

  first_buffer :
      (a : Ptr) (b : Bytes)
      → h p ≡ some (track t)
      → h a ≡ some (buffer b)
      → first_heap h p t e a ≡ some (buffer b)
  unfolding write
  first_buffer a b i j = ground (arith, i, j)

  first_still : (a : Ptr) → is_some (h a) ≡ true → is_some (first_heap h p t e a) ≡ true
  unfolding write
  first_still a i = ground (arith, i)

listed :
    (h : Heap) (p : Ptr) (t : TrackNode) (cs : Cells event_link) (mt : Mtrack) (ev : Mevent)
    → TrackView h p t cs mt
    → append_mevent mt ev ≡ ok (with_event mt ev)
listed h p t cs mt ev v = append_chained mt.events mt ev refl counted
  where
    counted : mt.len ≡ length mt.events
    counted = omega (arith, v.len, v.counted, length-Views h cs mt.events v.views)

append_first :
    (h : Heap) (p : Ptr) (t : TrackNode) (mt : Mtrack) (e : Ptr) (n : EventNode) (ev : Mevent)
    → TrackView h p t [] mt
    → NewEvent h p t [] e n ev
    → Ends (λ _ g. StandsFor g p (with_event mt ev)) (append_node p e h)
append_first h p t mt e n ev v new =
    rw (append_node-first h p t e v.at.not_null v.at.holds v.counted) (
      ends (
        record t { first = e; last = e; len = 1 },
        (e, n) ∷ [],
        record {
          at = record {
            not_null = v.at.not_null;
            holds = first_track h p t e;
            chain =
                cons new.not_null (first_event h p t e n v.at.holds new.holds)
                  (Seg-nil event_link new.ends);
            owned =
                Owned-kept h (first_heap h p t e) (track_foot p t ((e, n) ∷ []))
                  (first_still h p t e) new.owned;
          };
          last = refl;
          views = only mt.events v.views;
          counted = refl;
          len = omega (arith, length-Views h [] mt.events v.views);
          is_tempotrack = v.is_tempotrack;
          name = Text-kept same t.name mt.name v.name;
          text = Text-kept same t.text mt.text v.text;
          instrument = Text-kept same t.instrument mt.instrument v.instrument;
        },
      ))
  where
    same : (a : Ptr) (b : Bytes) → h a ≡ some (buffer b) → first_heap h p t e a ≡ some (buffer b)
    same a b i = first_buffer h p t e a b v.at.holds i

    only :
        (es : List Mevent)
        → Views h [] es
        → Views (first_heap h p t e) ((e, n) ∷ []) (es ++ chained es ev ∷ [])
    only [] w = (EventView-kept same n ev new.view, tt)
    only (f ∷ es) w = absurd w

-- For a track of the heap that stands for `mt`, and an event that stands for `ev`, has no next
-- event and shares nothing with the track, `append_mevent` goes through, and the track then stands
-- for what `append_mevent` gives on lists: the same events and `ev` behind them, timed from the one
-- before it, the length one more, and all memory of the track and the event still owned once.
pub append_node-StandsFor :
    (h : Heap) (p : Ptr) (t : TrackNode) (cs : Cells event_link) (mt : Mtrack) (e : Ptr)
    (n : EventNode) (ev : Mevent)
    → TrackView h p t cs mt
    → NewEvent h p t cs e n ev
    → Ends (λ _ g. StandsFor g p (with_event mt ev)) (append_node p e h)
      × (append_mevent mt ev ≡ ok (with_event mt ev))
append_node-StandsFor h p t [] mt e n ev v new =
    (append_first h p t mt e n ev v new, listed h p t [] mt ev v)
append_node-StandsFor h p t (c ∷ cs) mt e n ev v new =
    (append_next h p t c cs mt e n ev v new, listed h p t (c ∷ cs) mt ev v)
