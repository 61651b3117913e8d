-- ===== src/Memory/Tracks.antt =====
-- `append_mevent` of server/midi.c, and the functions there that free events, tracks and files, on
-- the heap.
pub mod Files
pub mod Append
pub mod Grow
pub mod Release
pub mod Steps
pub mod Views
use mks65_symphony.Prelude.{
  refl, ℕ, zero, suc, ◌+◌, Bool, List, [], ◌∷◌, ◌==◌, if◌then◌else◌, trap, Trap,
}
use Trap.{out_of_bounds}
use mks65_symphony.Midi.{sub_ulong}
use mks65_symphony.Memory.{
  Ptr, null, NodeData, regular_node, sysex_node, meta_node, EventNode, Object, event, track, Cmd,
  fail, pure, ◌>>=◌, ◌>>◌, store, free, load_event, load_track, load_file, load_pointers,
}
use mks65_symphony.Memory.Chain.{free_chain, Link}

-- `append_mevent`, with its writes in the order of the code.
unfoldable pub append_node : Ptr → Ptr → Cmd (Unit {0})
append_node p e = do
  t ← load_track p
  if t.len == 0 then store p (track (record t { first = e; last = e; len = 1 })) else (do
    n ← load_event e
    l ← load_event t.last
    store e (event (record n { deltatime = sub_ulong n.curtime l.curtime }))
    l' ← load_event t.last
    store t.last (event (record l' { next = e }))
    store p (track (record t { last = e; len = t.len + 1 })))

-- The block that an event owns.
abbrev pub block_of : NodeData → Ptr
block_of (regular_node r) = null
block_of (sysex_node msg len) = msg
block_of (meta_node type len bytes) = bytes

abbrev pub event_link : Link EventNode
event_link = record {
  object = event;
  next = λ n. n.next;
  block = λ n. block_of n.event_data;
  set_next = λ n p. record n { next = p };
  next-set_next = λ n p. refl;
  block-set_next = λ n p. refl;
}

unfoldable pub sfree : Ptr → Cmd (Unit {0})
sfree s h = if s == null then pure tt h else free s h

-- Calls of `sfree` in a row.
unfoldable pub sfree_each : List Ptr → Cmd (Unit {0})
unfolding sfree
sfree_each [] = pure tt
sfree_each (s ∷ ss) = sfree s >> sfree_each ss

-- The branches of `free_Mevent` on the kind of event.
unfoldable pub free_data : NodeData → Cmd (Unit {0})
free_data (regular_node r) = pure tt
free_data (meta_node type len bytes) = free bytes
free_data (sysex_node msg len) = free msg

unfoldable pub free_mevent : Ptr → Cmd (Unit {0})
unfolding free_data
free_mevent e = do n ← load_event e; free_data n.event_data; free e

unfoldable pub next_event : Ptr → Cmd Ptr
next_event e = do n ← load_event e; pure n.next

-- `k` bounds the rounds of the loop over the events.
unfoldable pub free_mtrack : ℕ → Ptr → Cmd (Unit {0})
unfolding sfree_each free_chain next_event free_mevent
free_mtrack k p = do
  t ← load_track p
  sfree_each (t.name ∷ t.text ∷ t.instrument ∷ [])
  free_chain next_event free_mevent k t.first
  free p

-- The loop over `mfile->tracks`, which none of its calls changes.
unfoldable pub free_tracks : ℕ → ℕ → List Ptr → Cmd (Unit {0})
unfolding free_mtrack
free_tracks k zero ps = pure tt
free_tracks k (suc n) [] = fail out_of_bounds
free_tracks k (suc n) (p ∷ ps) = free_mtrack k p >> free_tracks k n ps

unfoldable pub free_mfile : ℕ → Ptr → Cmd (Unit {0})
unfolding sfree_each free_tracks
free_mfile k p = do
  f ← load_file p
  sfree_each (f.filename ∷ f.fullpath ∷ f.music_name ∷ f.info_text ∷ f.copyright_info ∷ [])
  ps ← load_pointers f.tracks
  free_tracks k f.ntracks ps
