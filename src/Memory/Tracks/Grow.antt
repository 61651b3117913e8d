-- ===== src/Memory/Tracks/Grow.antt =====
-- A new event, and the heap that `append_mevent` of server/midi.c leaves.
use mks65_symphony.Prelude.{◌+◌, ◌≡◌, ◌≢◌, true, some, [], ◌∷◌, ◌++◌, is_some, arith}
use mks65_symphony.Midi.{Bytes, Mevent, sub_ulong}
use mks65_symphony.Memory.{Ptr, null, EventNode, TrackNode, Heap, event, track, buffer, write}
use mks65_symphony.Memory.Cells.{Owned}
use mks65_symphony.Memory.Chain.{Cells}
use mks65_symphony.Memory.Tracks.{event_link}
use mks65_symphony.Memory.Tracks.Release.{track_foot}
use mks65_symphony.Memory.Tracks.Views.{EventView}

-- An event `n` at `e` that stands for `ev` and is in no track yet.
pub record NewEvent (h : Heap) (p : Ptr) (t : TrackNode) (cs : Cells event_link) (e : Ptr)
    (n : EventNode) (ev : Mevent) : Type 0 where
  pub not_null : e ≢ null
  pub holds : h e ≡ some (event n)
  pub ends : n.next ≡ null
  pub view : EventView h n ev
  pub owned : Owned h (track_foot p t (cs ++ (e, n) ∷ []))

-- The heap behind the writes of the branch for a track with events.
abbrev pub grown : Heap → Ptr → TrackNode → Ptr → EventNode → EventNode → Heap
grown h p t e n l =
    write
      (write (write h e (some (event (record n { deltatime = sub_ulong n.curtime l.curtime }))))
        t.last (some (event (record l { next = e }))))
      p (some (track (record t { last = e; len = t.len + 1 })))

module _ (h : Heap) (p e : Ptr) (t : TrackNode) (n l : EventNode) (p_at : h p ≡ some (track t))
    (e_at : h e ≡ some (event n)) (l_at : h t.last ≡ some (event l)) (apart : t.last ≢ e) where
  pub at_track : grown h p t e n l p ≡ some (track (record t { last = e; len = t.len + 1 }))
  unfolding write
  at_track = ground arith

  pub at_last : grown h p t e n l t.last ≡ some (event (record l { next = e }))
  unfolding write
  at_last = ground (arith, p_at, l_at)

  pub at_event :
      grown h p t e n l e ≡ some (event (record n { deltatime = sub_ulong n.curtime l.curtime }))
  unfolding write
  at_event = ground (arith, p_at, e_at, apart)

  pub at_buffer :
      (a : Ptr) (b : Bytes) → h a ≡ some (buffer b) → grown h p t e n l a ≡ some (buffer b)
  unfolding write
  at_buffer a b i = ground (arith, p_at, e_at, l_at, i)

  pub at_other :
      (a : Ptr) (m : EventNode)
      → h a ≡ some (event m)
      → a ≢ t.last
      → a ≢ e
      → grown h p t e n l a ≡ some (event m)
  unfolding write
  at_other a m i x y = ground (arith, p_at, i, x, y)

  pub still : (a : Ptr) → is_some (h a) ≡ true → is_some (grown h p t e n l a) ≡ true
  unfolding write
  still a i = ground (arith, i)
