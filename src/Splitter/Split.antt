-- ===== src/Splitter/Split.antt =====
-- What `Mfile_split_by_tracks` of server/midi_splitter.c gives for a file that was read whole.
use mks65_symphony.Prelude.{
  ◌/◌, inr, inl, Bool-cases, ℕ, zero, suc, ◌+◌, ◌-◌, ◌*◌, ◌%◌, ◌≤◌, ◌<◌, ◌≡◌, ◌≢◌, refl, ap, ◌∙◌,
  true, false, Option, some, List, [], ◌∷◌, map, leb, if◌then◌else◌, get_elem?, length, All, arith,
  Result, ok, lt→ltb,
}
use mathlib.Core.Option
use native.Mathlib.Nat.{mod-lt}
use native.Mathlib.Nat.{div-le_self}
use mks65_symphony.Midi.{Mtrack, Mfile, mtrack_copy, mfile_from_headers}
use mks65_symphony.Midi.Chain.{IsChained, duplicate, mtrack_copy_lem}
use mks65_symphony.Splitter.{
  copy_track, nsrc_of, wrap_index, headers, one_each_tempo, mix_tracks, mixed_tempo, mixed_plain,
  each,
}
use mks65_symphony.Splitter.Share.{dealt, dealt-bounds}

-- The file's slots hold the tracks `ts`, each built by `append_mevent`.
pub record IsFull (m : Mfile) (ts : List Mtrack) : Type 0 where
  pub slots : m.tracks ≡ map some ts
  pub size : m.ntracks ≡ length ts
  pub chained : All IsChained ts

-- A copy of track `s`.
abbrev pub slot : List Mtrack → ℕ → Option Mtrack
slot ts s = Option.map duplicate (get_elem? ts s)

-- The numbers first + d * step, first + (d + 1) * step, ..., `n` of them.
abbrev pub spaced : ℕ → ℕ → ℕ → ℕ → List ℕ
spaced first step zero d = []
spaced first step (suc n) d = (first + d * step) ∷ spaced first step n (d + 1)

-- The source tracks that computer `i` of `ndest` gets out of the `nsrc` ones from `first` on.
abbrev pub share : ℕ → ℕ → ℕ → ℕ → List ℕ
share nsrc ndest first i =
    if leb nsrc ndest
    then (i % nsrc + first) ∷ []
    else spaced (i + first) ndest (dealt nsrc ndest i) 0

-- The file that computer `i` gets out of a file of format 1: the tempo track and its share.
abbrev pub part_tempo : Mfile → List Mtrack → ℕ → ℕ → Mfile
part_tempo m ts ndest i = record (headers m) {
  ntracks = length (share (nsrc_of m) ndest 1 i) + 1;
  has_tempotrack = leb (nsrc_of m) ndest;
  tracks = slot ts 0 ∷ map (slot ts) (share (nsrc_of m) ndest 1 i);
}

-- ... and out of a file of format 2: its share.
abbrev pub part_plain : Mfile → List Mtrack → ℕ → ℕ → Mfile
part_plain m ts ndest i = record (headers m) {
  ntracks = length (share (nsrc_of m) ndest 0 i);
  tracks = map (slot ts) (share (nsrc_of m) ndest 0 i);
}

-- `body i`, `body (i + 1)`, ..., `n` of them.
abbrev pub listed : (ℕ → Mfile) → ℕ → ℕ → List Mfile
listed body zero i = []
listed body (suc n) i = body i ∷ listed body n (i + 1)

copied_slot :
    (ts : List Mtrack) (i : ℕ)
    → All IsChained ts
    → i < length ts
    → (t : Mtrack) × (slot ts i ≡ some (duplicate t))
      × (get_elem? (map some ts) i ≡ some (some t))
      × IsChained t
copied_slot [] i c h = elim h [ ]
copied_slot (t ∷ ts) zero c h = (t, refl, refl, c.0)
copied_slot (t ∷ ts) (suc i) c h = copied_slot ts i c.1 (omega arith)

copy_at :
    (m : Mfile) (i : ℕ) (t : Mtrack)
    → get_elem? m.tracks i ≡ some (some t)
    → copy_track m i ≡ mtrack_copy t
unfolding copy_track
copy_at m i t h = ground arith

module _ {m : Mfile} {ts : List Mtrack} (full : IsFull m ts) where
  pub copy_track-slot :
      (i : ℕ) → i < m.ntracks → (t : Mtrack) × (copy_track m i ≡ ok t) × (slot ts i ≡ some t)
  copy_track-slot i h =
      let (t, e, g, c) = copied_slot ts i full.chained (omega (arith, full.size)) in
      (
        duplicate t,
        copy_at m i t (ap (λ (l : List (Option Mtrack)). get_elem? l i) full.slots ∙ g)
            ∙ mtrack_copy_lem t c,
        e,
      )

  mix_tracks-spaced :
      (ndest first n d : ℕ)
      → ((k : ℕ) → k < n → first + (d + k) * ndest < m.ntracks)
      → mix_tracks m ndest first n d ≡ ok (map (slot ts) (spaced first ndest n d))
  unfolding mix_tracks
  mix_tracks-spaced ndest first zero d h = refl
  mix_tracks-spaced ndest first (suc n) d h =
      let b : first + d * ndest < m.ntracks = omega (arith, h 0) in
      let (t, e, g) = copy_track-slot (first + d * ndest) b in
      let ih = mix_tracks-spaced ndest first n (d + 1) (λ k lt. omega (arith, h (k + 1))) in
      rw (lt→ltb _ _ b, e, ih, g) refl

pub each-listed :
    (body : ℕ → Result Mfile) (spec : ℕ → Mfile) (n i : ℕ)
    → ((k : ℕ) → i ≤ k → k < i + n → body k ≡ ok (spec k))
    → each body n i ≡ ok (listed spec n i)
unfolding each
each-listed body spec zero i h = refl
each-listed body spec (suc n) i h =
    rw
      (
        h i (omega arith) (omega arith),
        each-listed body spec n (i + 1) (λ k ge lt. h k (omega arith) (omega arith)),
      )
      refl

length-spaced : (first step n d : ℕ) → length (spaced first step n d) ≡ n
length-spaced first step zero d = refl
length-spaced first step (suc n) d = ap suc (length-spaced first step n (d + 1))

-- A share has at most one track more than there are.
pub length-share : (nsrc ndest first i : ℕ) → length (share nsrc ndest first i) ≤ nsrc + 1
unfolding dealt
length-share nsrc ndest first i = elim (Bool-cases (leb nsrc ndest)) [
  | inl small ↦ rw small (omega arith)
  | inr large ↦
      let size = length-spaced (i + first) ndest (dealt nsrc ndest i) 0 in
      let few : nsrc / ndest ≤ nsrc = div-le_self nsrc ndest in rw large (ground (arith, size, few))
]

pub wrap_index-ok : (m : Mfile) (i : ℕ) → 0 < nsrc_of m → wrap_index m i ≡ ok (i % nsrc_of m)
unfolding wrap_index nsrc_of
wrap_index-ok m i h = ground arith

pub nsrc-tempo : (m : Mfile) → m.format ≡ 1 → nsrc_of m ≡ m.ntracks - 1
unfolding nsrc_of
nsrc-tempo m h = ground arith

pub nsrc-plain : (m : Mfile) → m.format ≢ 1 → nsrc_of m ≡ m.ntracks
unfolding nsrc_of
nsrc-plain m h = ground arith

module _ {m : Mfile} {ts : List Mtrack} (full : IsFull m ts) (ndest : ℕ) where
  pub one_each_tempo-part :
      m.format ≡ 1
      → 1 < m.ntracks
      → leb (nsrc_of m) ndest ≡ true
      → (i : ℕ) → one_each_tempo m i ≡ ok (part_tempo m ts ndest i)
  unfolding one_each_tempo
  one_each_tempo-part f h small i =
      let n = nsrc-tempo m f in
      let b : i % nsrc_of m + 1 < m.ntracks = omega (arith, mod-lt i {m = nsrc_of m}) in
      let (t0, e0, g0) = copy_track-slot full 0 (omega arith) in
      let (t1, e1, g1) = copy_track-slot full (i % nsrc_of m + 1) b in
      rw (wrap_index-ok m i (omega arith), lt→ltb _ _ b, e0, e1, small, g0, g1) refl

  pub mixed_tempo-part :
      m.format ≡ 1
      → 1 < m.ntracks
      → leb (nsrc_of m) ndest ≡ false
      → (i : ℕ) → i < ndest
      → mixed_tempo m ndest (dealt (nsrc_of m) ndest i) i ≡ ok (part_tempo m ts ndest i)
  unfolding mixed_tempo mfile_from_headers
  mixed_tempo-part f h large i lt =
      let n = nsrc-tempo m f in
      let (t0, e0, g0) = copy_track-slot full 0 (omega arith) in
      let all =
        mix_tracks-spaced full ndest (i + 1) (dealt (nsrc_of m) ndest i) 0
          λ k q. omega (arith, dealt-bounds (nsrc_of m) ndest i k lt q) in
      rw (e0, all, large, g0, length-spaced (i + 1) ndest (dealt (nsrc_of m) ndest i) 0) refl

  pub mixed_plain-part :
      m.format ≢ 1
      → leb (nsrc_of m) ndest ≡ false
      → (i : ℕ) → i < ndest
      → mixed_plain m ndest (dealt (nsrc_of m) ndest i) i ≡ ok (part_plain m ts ndest i)
  unfolding mixed_plain
  mixed_plain-part f large i lt =
      let n = nsrc-plain m f in
      let zero_add : i + 0 ≡ i = omega arith in
      let all =
        mix_tracks-spaced full ndest i (dealt (nsrc_of m) ndest i) 0
          λ k q. omega (arith, dealt-bounds (nsrc_of m) ndest i k lt q) in
      rw (all, large, zero_add, length-spaced i ndest (dealt (nsrc_of m) ndest i) 0) refl
