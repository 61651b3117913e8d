-- ===== src/Splitter.antt =====
-- server/midi_splitter.c: one MIDI file is split into a file for each computer.
-- `track_num_map` asks malloc for a byte where it needs an int. What it may then write depends on
-- the allocator: `usable n` is how many bytes can be used of a block for which `n` were asked.
pub mod Share
pub mod Split
pub mod Deal
pub mod Branches
pub mod Whole
use mks65_symphony.Prelude.{
  ℕ, zero, suc, ◌+◌, ◌-◌, ◌*◌, ◌/◌, ◌%◌, Bool, true, false, not, ◌&&◌, Option, none, some, List, [],
  ◌∷◌, ◌==◌, ltb, leb, if◌then◌else◌, get_elem?, Result, ok, trap, Trap, ◌>>=◌, ◌>>◌, check, deref,
}
use Trap.{out_of_bounds, div_by_zero, assert_failed}
use mks65_symphony.Midi.{Mtrack, Mfile, mfile_from_headers, mtrack_copy}

-- The loop with the rounds left, `i` and `additional`. The block has `room` bytes, and `map[i]` is
-- four of them.
unfoldable pub fill_map : ℕ → ℕ → ℕ → ℕ → ℕ → Result (List ℕ)
fill_map room zero i base additional = ok []
fill_map room (suc n) i base additional = do
  check (leb (4 * (i + 1)) room) out_of_bounds
  rest ← fill_map room n (i + 1) base (if ltb 0 additional then additional - 1 else additional)
  ok ((if ltb 0 additional then base + 1 else base) ∷ rest)

unfoldable pub track_num_map : (ℕ → ℕ) → ℕ → ℕ → Result (List ℕ)
unfolding fill_map
track_num_map usable src_len dest_len = do
  check (not (dest_len == 0)) div_by_zero
  fill_map (usable dest_len) dest_len 0 (src_len / dest_len) (src_len % dest_len)

-- `Mtrack_copy(mfile->tracks[i])`.
unfoldable pub copy_track : Mfile → ℕ → Result Mtrack
copy_track mfile i = elim (get_elem? mfile.tracks i) [
  | none ↦ trap out_of_bounds
  | some slot ↦ deref slot >>= mtrack_copy
]

-- `nsrc` where it is not negative.
unfoldable pub nsrc_of : Mfile → ℕ
nsrc_of mfile = if mfile.format == 1 then mfile.ntracks - 1 else mfile.ntracks

-- `i % nsrc`. On a file of format 1 without tracks `nsrc` is -1, and the remainder 0.
unfoldable pub wrap_index : Mfile → ℕ → Result ℕ
unfolding nsrc_of
wrap_index mfile i =
    if mfile.format == 1 && mfile.ntracks == 0
    then ok 0
    else do check (not (nsrc_of mfile == 0)) div_by_zero; ok (i % nsrc_of mfile)

abbrev pub headers : Mfile → Mfile
headers mfile =
    mfile_from_headers mfile.format mfile.division mfile.filename mfile.music_name mfile.info_text
      mfile.copyright_info

-- The loop body where there are at least as many computers as tracks, for format 1 ...
unfoldable pub one_each_tempo : Mfile → ℕ → Result Mfile
unfolding copy_track wrap_index
one_each_tempo mfile i = do
  r ← wrap_index mfile i
  check (ltb (r + 1) mfile.ntracks) assert_failed
  tempo ← copy_track mfile 0
  track ← copy_track mfile (r + 1)
  ok (record (headers mfile) {
    ntracks = 2;
    has_tempotrack = true;
    tracks = some tempo ∷ some track ∷ [];
  })

-- ... and for format 2.
unfoldable pub one_each_plain : Mfile → ℕ → Result Mfile
unfolding copy_track wrap_index
one_each_plain mfile i = do
  r ← wrap_index mfile i
  track ← copy_track mfile (r + 1)
  ok (record (headers mfile) { ntracks = 1; has_tempotrack = false; tracks = some track ∷ [] })

unfoldable pub one_each : Mfile → ℕ → Result Mfile
one_each mfile i = if mfile.format == 1 then one_each_tempo mfile i else one_each_plain mfile i

-- The loop over `dtrack_i`, with the rounds left: the tracks `first + dtrack_i * ndest`.
unfoldable pub mix_tracks : Mfile → ℕ → ℕ → ℕ → ℕ → Result (List (Option Mtrack))
unfolding copy_track
mix_tracks mfile ndest first zero dtrack_i = ok []
mix_tracks mfile ndest first (suc n) dtrack_i = do
  check (ltb (first + dtrack_i * ndest) mfile.ntracks) assert_failed
  track ← copy_track mfile (first + dtrack_i * ndest)
  rest ← mix_tracks mfile ndest first n (dtrack_i + 1)
  ok (some track ∷ rest)

-- The loop body where tracks are mixed, for format 1 ...
unfoldable pub mixed_tempo : Mfile → ℕ → ℕ → ℕ → Result Mfile
unfolding copy_track mix_tracks
mixed_tempo mfile ndest total i = do
  tempo ← copy_track mfile 0
  rest ← mix_tracks mfile ndest (i + 1) total 0
  ok (record (headers mfile) { ntracks = total + 1; tracks = some tempo ∷ rest })

-- ... and for format 2.
unfoldable pub mixed_plain : Mfile → ℕ → ℕ → ℕ → Result Mfile
unfolding mix_tracks
mixed_plain mfile ndest total i = do
  rest ← mix_tracks mfile ndest i total 0
  ok (record (headers mfile) { ntracks = total; tracks = rest })

unfoldable pub mixed : Mfile → ℕ → List ℕ → ℕ → Result Mfile
mixed mfile ndest dest_map i = elim (get_elem? dest_map i) [
  | none ↦ trap out_of_bounds
  | some total ↦
      if mfile.format == 1 then mixed_tempo mfile ndest total i else mixed_plain mfile ndest total i
]

-- for (i = 0; i < ndest; i++) mfiles[i] = body(i), with the rounds left.
unfoldable pub each : (ℕ → Result Mfile) → ℕ → ℕ → Result (List Mfile)
each body zero i = ok []
each body (suc n) i = do file ← body i; rest ← each body n (i + 1); ok (file ∷ rest)

-- The branch that mixes tracks.
unfoldable pub split_mixed : (ℕ → ℕ) → Mfile → ℕ → Result (List Mfile)
split_mixed usable mfile ndest = do
  dest_map ← track_num_map usable (nsrc_of mfile) ndest
  each (mixed mfile ndest dest_map) ndest 0

-- `none` is the null pointer that a file of format 0 gives.
unfoldable pub mfile_split_by_tracks : (ℕ → ℕ) → Mfile → ℕ → Result (Option (List Mfile))
mfile_split_by_tracks usable mfile ndest = if mfile.format == 0 then ok none else do
  mfiles ←
      if leb (nsrc_of mfile) ndest
      then each (one_each mfile) ndest 0
      else split_mixed usable mfile ndest
  ok (some mfiles)
