-- ===== src/Memory/Tracks/Release.antt =====
-- What `free_Mtrack` and `free_Mfile` of server/midi.c give back.
use mks65_symphony.Prelude.{
  ℕ, ◌<◌, ◌≡◌, ◌≢◌, refl, false, some, List, [], ◌∷◌, ◌++◌, ◌==◌, arith, length, ok,
}
use mks65_symphony.Memory.{
  Ptr, null, NodeData, regular_node, sysex_node, meta_node, EventNode, TrackNode, Heap, event,
  track, free, load_event, load_track,
}
use mks65_symphony.Memory.Cells.{
  Ends, ends, Without, Owned, own, free-Live, free-Without, seq-Without, Apart-left,
}
use mks65_symphony.Memory.Chain.{Cells, Seg, foot, Seg-Without, Frees, free_chain-Without}
use mks65_symphony.Memory.Tracks.{
  event_link, block_of, sfree, sfree_each, free_data, free_mevent, next_event, free_mtrack,
}

pub load_event-at :
    (h : Heap) (p : Ptr) (n : EventNode)
    → p ≢ null
    → h p ≡ some (event n)
    → load_event p h ≡ ok (n, h)
unfolding load_event
load_event-at h p n ne at = rw (not_null, at) refl
  where
    not_null : (p == null) ≡ false
    not_null = ground (arith, ne)

pub load_track-at :
    (h : Heap) (p : Ptr) (t : TrackNode)
    → p ≢ null
    → h p ≡ some (track t)
    → load_track p h ≡ ok (t, h)
unfolding load_track
load_track-at h p n ne at = rw (not_null, at) refl
  where
    not_null : (p == null) ≡ false
    not_null = ground (arith, ne)

free_data-Without :
    (h : Heap) (d : NodeData)
    → Owned h (own (block_of d))
    → Ends (λ _. Without (own (block_of d)) h) (free_data d h)
unfolding free_data
free_data-Without h (regular_node r) o = ends λ a. refl
free_data-Without h (sysex_node msg len) o = free-Without h msg o
free_data-Without h (meta_node type len bytes) o = free-Without h bytes o

free_mevent-Frees : Frees event_link next_event free_mevent
unfolding free_mevent next_event
free_mevent-Frees = record {
  reads = λ h p n ne at. rw (load_event-at h p n ne at) refl;
  frees = λ h p n ne at o. rw (load_event-at h p n ne at) (
      seq-Without h (own (block_of n.event_data)) (p ∷ []) o (free_data-Without h n.event_data)
        λ g w d o'. free-Live g p o'.0);
}

-- The addresses that the pointers name.
abbrev pub owns : List Ptr → List Ptr
owns [] = []
owns (s ∷ ss) = own s ++ owns ss

sfree-free : (s : Ptr) (h : Heap) → sfree s h ≡ free s h
unfolding sfree free
sfree-free s h = ground arith

pub sfree_each-Without :
    (h : Heap) (ss : List Ptr)
    → Owned h (owns ss)
    → Ends (λ _. Without (owns ss) h) (sfree_each ss h)
unfolding sfree_each
sfree_each-Without h [] o = ends λ a. refl
sfree_each-Without h (s ∷ ss) o =
    seq-Without h (own s) (owns ss) o (λ o'. rw (sfree-free s h) (free-Without h s o'))
      λ g w d o'. sfree_each-Without g ss o'

abbrev pub strings : TrackNode → List Ptr
strings t = t.name ∷ t.text ∷ t.instrument ∷ []

-- All that a track at `p` with the events `cs` is made of.
abbrev pub track_foot : Ptr → TrackNode → Cells event_link → List Ptr
track_foot p t cs = owns (strings t) ++ (foot event_link cs ++ p ∷ [])

pub record TrackAt (h : Heap) (p : Ptr) (t : TrackNode) (cs : Cells event_link) : Type 0 where
  pub not_null : p ≢ null
  pub holds : h p ≡ some (track t)
  pub chain : Seg event_link h null t.first cs
  pub owned : Owned h (track_foot p t cs)

-- `free_Mtrack` comes to its end, with fuel for one round more than there are events, and frees the
-- track, its strings, its events and their data, each once, and nothing else.
pub free_mtrack-Without :
    (k : ℕ) (h : Heap) (p : Ptr) (t : TrackNode) (cs : Cells event_link)
    → TrackAt h p t cs
    → length cs < k
    → Ends (λ _. Without (track_foot p t cs) h) (free_mtrack k p h)
unfolding free_mtrack
free_mtrack-Without k h p t cs a fuel = rw (load_track-at h p t a.not_null a.holds) (
    seq-Without h (owns (strings t)) (foot event_link cs ++ p ∷ []) a.owned
      (sfree_each-Without h (strings t))
      λ g d w o.
        seq-Without g (foot event_link cs) (p ∷ []) o
          (λ o'.
            free_chain-Without event_link free_mevent-Frees k g
              (Seg-Without event_link h g (owns (strings t)) d
                (Apart-left (owns (strings t)) (foot event_link cs) (p ∷ []) w) a.chain)
              o' fuel)
          λ l _ _ o'. free-Live l p o'.0)
