-- ===== src/Checks/Splitting.antt =====
-- Tests and witnesses for server/midi.c and server/midi_splitter.c.
use mks65_symphony.Prelude.{
  ◌*◌, ℕ, ◌<◌, ◌≡◌, refl, some, List, [], ◌∷◌, map, length, get_elem?, arith, ok, trap, Trap,
}
use Trap.{out_of_bounds}
use mks65_symphony.Midi.{Mtrack, append_mevent, sub_ulong}
use mks65_symphony.Midi.Chain.{IsChained, with_event, append_mevent-IsChained}
use mks65_symphony.Midi.Replay.{append_all, times, replay, replay-append_all}
use mks65_symphony.Midi.Reverse.{reverse_memcpy}
use mks65_symphony.Splitter.{track_num_map, mfile_split_by_tracks}
use mks65_symphony.Splitter.Share.{dealt, sum, track_num_map_lem, track_num_map_overrun}
use mks65_symphony.Splitter.Split.{listed, part_tempo, part_plain}
use mks65_symphony.Splitter.Deal.{IsDealt}
use mks65_symphony.Splitter.Whole.{split_tempo, split_plain, split_plain_overrun}
use mks65_symphony.Checks.Music.{
  event, late_track, late_track-IsChained, file_of, three_tracks, three_tracks-IsFull,
}

-- Three bytes of a longer source, into a longer destination.
reversed : reverse_memcpy (0 ∷ 0 ∷ 0 ∷ 9 ∷ []) (1 ∷ 2 ∷ 3 ∷ 4 ∷ []) 3 ≡ ok (3 ∷ 2 ∷ 1 ∷ 9 ∷ [])
unfolding reverse_memcpy
reversed = refl

-- A destination that is too small is written behind its end.
reversed_overrun : reverse_memcpy (0 ∷ []) (1 ∷ 2 ∷ []) 2 ≡ trap out_of_bounds
unfolding reverse_memcpy
reversed_overrun = refl

-- An allocator that gives four bytes for each that is asked.
abbrev roomy : ℕ → ℕ
roomy n = 4 * n

-- The example in the comment on `track_num_map`: three computers for five tracks.
five_by_three : track_num_map roomy 5 3 ≡ ok (2 ∷ 2 ∷ 1 ∷ [])
unfolding track_num_map
five_by_three = refl

-- A block of just the three bytes that were asked for.
track_num_map_overrun_example : track_num_map (λ n. n) 5 3 ≡ trap out_of_bounds
track_num_map_overrun_example = track_num_map_overrun (λ n. n) 5 3 (omega arith) (omega arith)

track_num_map_example :
    (map : List ℕ) × (track_num_map roomy 5 3 ≡ ok map)
    × (length map ≡ 3)
    × (sum map ≡ 5)
    × ((i : ℕ) → i < 3 → get_elem? map i ≡ some (dealt 5 3 i))
track_num_map_example = track_num_map_lem roomy 5 3 (omega arith) (omega arith)

append_example :
    (append_mevent late_track (event 0 100 64) ≡ ok (with_event late_track (event 0 100 64)))
    × IsChained (with_event late_track (event 0 100 64))
append_example = append_mevent-IsChained late_track (event 0 100 64) late_track-IsChained

replay_example :
    (u : Mtrack) × (append_all
        (record late_track { events = []; len = 0 })
        (event 0 48 60 ∷ event 0 96 62 ∷ [])
      ≡ ok u)
    × (times u.events ≡ 48 ∷ 96 ∷ [])
    × (replay 0 u.events ≡ map (λ (c : ℕ). sub_ulong c 48) (48 ∷ 96 ∷ []))
replay_example =
    replay-append_all (record late_track { events = []; len = 0 }) (event 0 48 60)
      (event 0 96 62 ∷ []) refl refl refl (omega arith)

-- The silence of 48 ticks before the first event is gone.
late_start : replay 0 late_track.events ≡ 0 ∷ 48 ∷ []
unfolding replay
late_start = refl

split_tempo_example :
    (mfile_split_by_tracks roomy (file_of 1 three_tracks) 5
      ≡ ok (some (listed (part_tempo (file_of 1 three_tracks) three_tracks 5) 5 0)))
    × IsDealt 2 5 1
split_tempo_example =
    split_tempo (three_tracks-IsFull 1) roomy 5 refl (omega arith) (omega arith) λ lt. omega arith

split_plain_example :
    (mfile_split_by_tracks roomy (file_of 2 three_tracks) 2
      ≡ ok (some (listed (part_plain (file_of 2 three_tracks) three_tracks 2) 2 0)))
    × IsDealt 3 2 0
split_plain_example =
    split_plain (three_tracks-IsFull 2) roomy 2 (omega arith) (omega arith) (omega arith)
      (omega arith) (omega arith)

overrun_example : mfile_split_by_tracks roomy (file_of 2 three_tracks) 3 ≡ trap out_of_bounds
overrun_example =
    split_plain_overrun (three_tracks-IsFull 2) roomy 3 (omega arith) (omega arith) (omega arith)
      (omega arith)
