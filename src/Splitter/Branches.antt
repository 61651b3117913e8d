-- ===== src/Splitter/Branches.antt =====
-- The branches of `Mfile_split_by_tracks` in server/midi_splitter.c, given what their loop bodies do.
use mks65_symphony.Prelude.{
  ◌*◌, ℕ, zero, suc, ◌+◌, ◌%◌, ◌≤◌, ◌<◌, ◌≡◌, ◌≢◌, refl, true, false, some, List, [], ◌∷◌, ◌==◌,
  leb, get_elem?, length, arith, Result, ok, trap, Trap, get_elem?-past,
}
use Trap.{out_of_bounds}
use native.Mathlib.Decide.{dec_lt}
use native.Mathlib.Nat.{mod-eq_of_lt}
use mks65_symphony.Midi.{Mtrack, Mfile}
use mks65_symphony.Splitter.{
  nsrc_of, headers, one_each, one_each_plain, one_each_tempo, mixed, mixed_tempo, mixed_plain, each,
  split_mixed, mfile_split_by_tracks, copy_track,
}
use mks65_symphony.Splitter.Share.{dealt, track_num_map_lem}
use mks65_symphony.Splitter.Split.{listed, each-listed, nsrc-plain, wrap_index-ok}

format_is : (m : Mfile) (k : ℕ) → m.format ≡ k → (m.format == k) ≡ true
format_is m k h = ground arith

format_not : (m : Mfile) (k : ℕ) → m.format ≢ k → (m.format == k) ≡ false
format_not m k h = ground arith

-- The two branches, given what the loop body does.
pub split_small :
    (usable : ℕ → ℕ) (m : Mfile) (ndest : ℕ) (files : List Mfile)
    → m.format ≢ 0
    → leb (nsrc_of m) ndest ≡ true
    → each (one_each m) ndest 0 ≡ ok files
    → mfile_split_by_tracks usable m ndest ≡ ok (some files)
unfolding mfile_split_by_tracks
split_small usable m ndest files f small e = rw (format_not m 0 f, small, e) refl

pub split_large :
    (usable : ℕ → ℕ) (m : Mfile) (ndest : ℕ) (part : ℕ → Mfile)
    → m.format ≢ 0
    → leb (nsrc_of m) ndest ≡ false
    → 0 < ndest
    → 4 * ndest ≤ usable ndest
    → ((dest_map : List ℕ) (i : ℕ)
        → get_elem? dest_map i ≡ some (dealt (nsrc_of m) ndest i)
        → i < ndest
        → mixed m ndest dest_map i ≡ ok (part i))
    → mfile_split_by_tracks usable m ndest ≡ ok (some (listed part ndest 0))
unfolding mfile_split_by_tracks split_mixed
split_large usable m ndest part f large pos room body =
    let (dest_map, made, _, _, entry) = track_num_map_lem usable (nsrc_of m) ndest pos room in
    let all =
      each-listed (mixed m ndest dest_map) part ndest 0
        λ i _ lt. body dest_map i (entry i (omega arith)) (omega arith) in
    rw (format_not m 0 f, large, made, all) refl

pub one_each-tempo : (m : Mfile) (i : ℕ) → m.format ≡ 1 → one_each m i ≡ one_each_tempo m i
unfolding one_each
one_each-tempo m i f = rw (format_is m 1 f) refl

pub one_each-plain : (m : Mfile) (i : ℕ) → m.format ≢ 1 → one_each m i ≡ one_each_plain m i
unfolding one_each
one_each-plain m i f = rw (format_not m 1 f) refl

pub mixed-tempo :
    (m : Mfile) (ndest i total : ℕ) (dest_map : List ℕ)
    → m.format ≡ 1
    → get_elem? dest_map i ≡ some total
    → mixed m ndest dest_map i ≡ mixed_tempo m ndest total i
unfolding mixed
mixed-tempo m ndest i total dest_map f e = rw (e, mixed, format_is m 1 f) refl

pub mixed-plain :
    (m : Mfile) (ndest i total : ℕ) (dest_map : List ℕ)
    → m.format ≢ 1
    → get_elem? dest_map i ≡ some total
    → mixed m ndest dest_map i ≡ mixed_plain m ndest total i
unfolding mixed
mixed-plain m ndest i total dest_map f e = rw (e, mixed, format_not m 1 f) refl

pub each-trap :
    (body : ℕ → Result Mfile) (t : Trap) (n i k : ℕ)
    → i ≤ k
    → k < i + n
    → ((j : ℕ) → j < k → (f : Mfile) × (body j ≡ ok f))
    → body k ≡ trap t
    → each body n i ≡ trap t
unfolding each
each-trap body t zero i k ge lt before e = absurd (omega arith)
each-trap body t (suc n) i k ge lt before e = elim (dec_lt i k) [
  | yes p ↦
      let (f, h) = before i p in
      rw (h, each-trap body t n (i + 1) k (omega arith) (omega arith) before e) refl
  | no p ↦ let same : i ≡ k = omega arith in rw (same, e) refl
]

-- One of the two branches, given what the loop body does.
pub split_small-trap :
    (usable : ℕ → ℕ) (m : Mfile) (ndest : ℕ) (t : Trap)
    → m.format ≢ 0
    → leb (nsrc_of m) ndest ≡ true
    → each (one_each m) ndest 0 ≡ trap t
    → mfile_split_by_tracks usable m ndest ≡ trap t
unfolding mfile_split_by_tracks
split_small-trap usable m ndest t f small e = rw (format_not m 0 f, small, e) refl

pub copy_track-past :
    (m : Mfile) (i : ℕ) → length m.tracks ≤ i → copy_track m i ≡ trap out_of_bounds
unfolding copy_track
copy_track-past m i h = rw (get_elem?-past m.tracks i h, copy_track) refl

pub one_each_plain-track :
    (m : Mfile) (i : ℕ) (t : Mtrack)
    → i < m.ntracks
    → m.format ≢ 1
    → copy_track m (i + 1) ≡ ok t
    → (f : Mfile) × (one_each_plain m i ≡ ok f)
unfolding one_each_plain
one_each_plain-track m i t lt g e =
    let n = nsrc-plain m g in
    let w : i % nsrc_of m ≡ i = mod-eq_of_lt (omega arith) in
    (
      record (headers m) { ntracks = 1; has_tempotrack = false; tracks = some t ∷ [] },
      rw (wrap_index-ok m i (omega arith), w, e) refl,
    )

pub one_each_plain-past :
    (m : Mfile) (i : ℕ)
    → i < m.ntracks
    → m.format ≢ 1
    → copy_track m (i + 1) ≡ trap out_of_bounds
    → one_each_plain m i ≡ trap out_of_bounds
unfolding one_each_plain
one_each_plain-past m i lt g e =
    let n = nsrc-plain m g in
    let w : i % nsrc_of m ≡ i = mod-eq_of_lt (omega arith) in
    rw (wrap_index-ok m i (omega arith), w, e) refl
