-- ===== src/Reader/Load.antt =====
-- Opening and reading a MIDI file: `loadfile` and `Mfile_from_file` of server/midi_reader.c.
-- Whether `fopen` succeeds, and the calls that `mfread` makes, are arguments.
use mks65_symphony.Prelude.{
  ◌∙◌, ◌≤◌, ◌*◌, ◌-◌, ℕ, ◌<◌, ◌≡◌, ◌⊎◌, refl, Bool, true, false, Option, none, some, List, [], ◌∷◌,
  ◌++◌, ◌==◌, if◌then◌else◌, has, length, arith, Result, ok, trap, Trap, ◌>>=◌, Bool-cases, inl,
  inr,
}
use Trap.{out_of_bounds}
use mks65_symphony.Midi.{Bytes, Mtrack, Mfile, c_str, new_mfile}
use mks65_symphony.Reader.{run_callbacks}
use mks65_symphony.Reader.Parser.{Trace}
use mks65_symphony.Reader.Build.{
  Chunk, AreTracks, file_calls, Represents, length-Represents, IsFresh, run_callbacks-file,
}
use mks65_symphony.Reader.Reported.{AllUncut, HoldReports, Represents-HoldReports}
use mks65_symphony.Splitter.{mfile_split_by_tracks}
use mks65_symphony.Splitter.Split.{IsFull, listed, part_tempo}
use mks65_symphony.Splitter.Whole.{split_tempo}

-- The C library's `strrchr`: the string from the last `c` on.
abbrev pub strrchr : Bytes → ℕ → Option Bytes
strrchr [] c = none
strrchr (x ∷ s) c = elim (strrchr s c) [
  | some r ↦ some r
  | none ↦ if x == c then some (x ∷ s) else none
]

abbrev pub slash : ℕ
slash = b'/'

-- `strdup(s + 1)`; the terminator of a string is left out of the model, so past an empty string
-- there is nothing to read.
abbrev pub strdup_tail : Bytes → Result Bytes
strdup_tail [] = trap out_of_bounds
strdup_tail (x ∷ s) = ok (c_str s)

-- `filename = strrchr(file, '/')`, or `file` if that is null.
unfoldable pub name_start : Bytes → Bytes
name_start file = elim (strrchr file slash) [ some r ↦ r | none ↦ file ]

-- `none` is the return value -1.
unfoldable pub loadfile : Bool → Bytes → Result (Option Mfile)
unfolding name_start new_mfile
loadfile false file = ok none
loadfile true file = do
  filename ← strdup_tail (name_start file)
  ok (some (record new_mfile { filename = some filename; fullpath = some (c_str file) }))

-- `none` is the null pointer.
unfoldable pub mfile_from_file : Bool → Trace → Bytes → Result (Option Mfile)
unfolding loadfile
mfile_from_file opened calls filepath = do
  loaded ← loadfile opened filepath
  elim loaded [ none ↦ ok none | some mfile ↦ run_callbacks calls mfile >>= λ read. ok (some read) ]

strrchr-none : (s : Bytes) (c : ℕ) → has c s ≡ false → strrchr s c ≡ none
strrchr-none [] c h = refl
strrchr-none (x ∷ s) c h = ground (arith, strrchr-none s c)

strrchr-last :
    (dir base : Bytes) (c : ℕ) → has c base ≡ false → strrchr (dir ++ c ∷ base) c ≡ some (c ∷ base)
strrchr-last [] base c h = ground (arith, strrchr-none base c h)
strrchr-last (x ∷ dir) base c h = ground (arith, strrchr-last dir base c h)

-- The stored file name. Of a path with a slash it is what stands behind the last slash, as meant;
-- of a path without one it is the path less its first character.
loadfile-filename :
    (dir base : Bytes) (x : ℕ) (rest : Bytes)
    → has slash base ≡ false
    → has slash (x ∷ rest) ≡ false
    → (loadfile true (dir ++ slash ∷ base)
        ≡ ok (
            some (record new_mfile {
              filename = some (c_str base);
              fullpath = some (c_str (dir ++ slash ∷ base));
            })))
      × (loadfile true (x ∷ rest)
          ≡ ok (
              some (record new_mfile {
                filename = some (c_str rest);
                fullpath = some (c_str (x ∷ rest));
              })))
unfolding loadfile
loadfile-filename dir base x rest h k = (
  rw (strrchr-last dir base slash h, name_start) refl,
  rw (strrchr-none (x ∷ rest) slash k, name_start) refl,
)

strrchr-cases :
    (s : Bytes) (c : ℕ)
    → (strrchr s c ≡ none) ⊎ ((y : ℕ) × (r : Bytes) × (strrchr s c ≡ some (y ∷ r)))
strrchr-cases [] c = inl refl
strrchr-cases (x ∷ s) c = elim (strrchr-cases s c) [
  | inr (y, r, e) ↦ inr (y, r, rw e refl)
  | inl e ↦ elim (Bool-cases (x == c)) [
    | inl h ↦ inr (x, s, rw (e, h) refl)
    | inr h ↦ inl (rw (e, h) refl)
  ]
]

name_start-cons : (x : ℕ) (s : Bytes) → (y : ℕ) × (r : Bytes) × (name_start (x ∷ s) ≡ y ∷ r)
unfolding name_start
name_start-cons x s = elim (strrchr-cases (x ∷ s) slash) [
  | inl e ↦ (x, s, rw (e, name_start) refl)
  | inr (y, r, e) ↦ (y, r, rw (e, name_start) refl)
]

opened : (x : ℕ) (s : Bytes) → (m0 : Mfile) × (loadfile true (x ∷ s) ≡ ok (some m0)) × IsFresh m0
unfolding loadfile
opened x s =
    let (y, r, e) = name_start-cons x s in
    (
      record new_mfile { filename = some (c_str r); fullpath = some (c_str (x ∷ s)) },
      rw e refl,
      fresh,
    )
  where
    fresh :
        {name path : Option Bytes} → IsFresh (record new_mfile { filename = name; fullpath = path })
    fresh = record { untracked = refl; unread = refl }

-- Loading the calls for a file of tracks whose buffers can be read gives those tracks.
pub load-full :
    (x : ℕ) (path : Bytes) (format division : ℕ) (cs : List Chunk)
    → AreTracks cs
    → (m : Mfile) × (ts : List Mtrack) × (mfile_from_file true
          (file_calls format division cs)
          (x ∷ path)
        ≡ ok (some m))
      × IsFull m ts
      × Represents format 0 cs ts
      × (m.format ≡ format)
      × (m.division ≡ division)
unfolding mfile_from_file
load-full x path format division cs h =
    let (m0, e0, fresh) = opened x path in
    let (m, ts, e, full, r, f, d) = run_callbacks-file m0 format division cs fresh h in
    (m, ts, rw (e0, e) refl, full, r, f, d)

-- Loading a file of format 1 with a tempo track and at least one more, whose buffers can be read and
-- whose system exclusive messages have no zero byte before their last, and splitting it for any number
-- of computers but none, if malloc's block for the map has room for an int for each computer where
-- those are fewer than the tracks behind the tempo track: both return, the file is not null, its
-- tracks hold in order, with their times, the events that the parser reported, the first flagged as
-- the tempo track, and computer `i` gets the tempo track and its share of them. A pitch bend is kept
-- with its bytes in the order in which the handler takes them, and an escape not at all.
pub load_split :
    (usable : ℕ → ℕ) (x : ℕ) (path : Bytes) (division ndest : ℕ) (cs : List Chunk)
    → AreTracks cs
    → AllUncut cs
    → 1 < length cs
    → 0 < ndest
    → (ndest < length cs - 1 → 4 * ndest ≤ usable ndest)
    → (m : Mfile) × (ts : List Mtrack) × (mfile_from_file true (file_calls 1 division cs) (x ∷ path)
        ≡ ok (some m))
      × Represents 1 0 cs ts
      × HoldReports cs ts
      × (mfile_split_by_tracks usable m ndest ≡ ok (some (listed (part_tempo m ts ndest) ndest 0)))
load_split usable x path division ndest cs h uncut many pos room =
    let (m, ts, e, full, r, f, d) = load-full x path 1 division cs h in
    let size : m.ntracks ≡ length cs = full.size ∙ length-Represents 1 0 cs ts r in
    (
      m,
      ts,
      e,
      r,
      Represents-HoldReports 1 0 cs ts h uncut r,
      (split_tempo full usable ndest f (omega (arith, size)) pos
          λ lt. room (omega (arith, size, lt))).0,
    )
