-- ===== src/Writer/Files.antt =====
-- The files that the parts of a split file are written to: server/midi_splitter.c followed by
-- server/midi_writer.c.
use mathlib.Core.List.{append_assoc}
use mathlib.Core.Path.{subst}
use native.Mathlib.Nat.{mod-lt}
use mks65_symphony.Prelude.{
  ℕ, zero, suc, ◌+◌, ◌*◌, ◌<◌, ◌≡◌, refl, sym, ap, ◌∙◌, true, Option, none, some, List, [], ◌∷◌,
  ◌++◌, map, leb, get_elem?, length, length-append, All, arith, ok, Bool-cases, inl, inr,
}
use mks65_symphony.Midi.{Mtrack, Mfile, mfile_from_headers}
use mks65_symphony.Splitter.{nsrc_of}
use mks65_symphony.Splitter.Share.{dealt, dealt-bounds}
use mks65_symphony.Splitter.Split.{IsFull, slot, spaced, share, part_tempo, nsrc-tempo}
use mks65_symphony.Writer.{
  Call, write_track, handle_write_track, tracks_from, MidiFileWriter, mfile_write_to_midi,
}
use mks65_symphony.Writer.Tracks.{calls_of, AreWritable, write_track-calls_of}

-- The calls for track `s` of `ts`.
abbrev pub calls_at : List Mtrack → ℕ → List Call
calls_at ts s = elim (get_elem? ts s) [ none ↦ [] | some t ↦ calls_of t.events ]

abbrev pub AllWritable : List Mtrack → Type 0
AllWritable = All (λ (t : Mtrack). AreWritable t.events)

handle_write_track-slot :
    (f : Mfile) (i s : ℕ) (ts : List Mtrack)
    → get_elem? f.tracks i ≡ some (slot ts s)
    → s < length ts
    → AllWritable ts
    → handle_write_track f i ≡ ok (calls_at ts s)
unfolding handle_write_track write_track
handle_write_track-slot f i s [] e lt h = elim lt [ ]
handle_write_track-slot f i zero (t ∷ ts) e lt h =
    rw (e, handle_write_track) (write_track-calls_of t.events h.0)
handle_write_track-slot f i (suc s) (t ∷ ts) e lt h =
    handle_write_track-slot f i s ts e (omega arith) h.1

get_elem?-map_mid :
    (g : ℕ → Option Mtrack) (pre : List ℕ) (s : ℕ) (ss : List ℕ)
    → get_elem? (map g (pre ++ s ∷ ss)) (length pre) ≡ some (g s)
get_elem?-map_mid g [] s ss = refl
get_elem?-map_mid g (p ∷ pre) s ss = get_elem?-map_mid g pre s ss

tracks_from-slots :
    (f : Mfile) (ts : List Mtrack) (ss pre : List ℕ) (i : ℕ)
    → AllWritable ts
    → f.tracks ≡ map (slot ts) (pre ++ ss)
    → i ≡ length pre
    → All (λ (s : ℕ). s < length ts) ss
    → tracks_from (handle_write_track f) (length ss) i ≡ ok (map (calls_at ts) ss)
tracks_from-slots f ts [] pre i h e at b = refl
tracks_from-slots f ts (s ∷ ss) pre i h e at b =
    let here : get_elem? f.tracks i ≡ some (slot ts s) =
      ap (λ (l : List (Option Mtrack)). get_elem? l i) e
      ∙ ap (get_elem? (map (slot ts) (pre ++ s ∷ ss))) at
      ∙ get_elem?-map_mid (slot ts) pre s ss in
    let rest =
      tracks_from-slots f ts ss (pre ++ s ∷ []) (i + 1) h
        (e ∙ ap (map (slot ts)) (sym (append_assoc pre (s ∷ []) ss)))
        (omega (arith, length-append {0} pre (s ∷ []))) b.1 in
    rw (handle_write_track-slot f i s ts here b.0 h, rest) refl

-- A file whose slots are copies of the tracks `ss` of `ts` is written whole.
file_written :
    (w : MidiFileWriter) (f : Mfile) (ts : List Mtrack) (ss : List ℕ)
    → AllWritable ts
    → f.tracks ≡ map (slot ts) ss
    → f.ntracks ≡ length ss
    → All (λ (s : ℕ). s < length ts) ss
    → mfile_write_to_midi w true f
      ≡ ok (w.encode f.format (length ss) f.division (map (calls_at ts) ss))
unfolding mfile_write_to_midi
file_written w f ts ss h e n b =
    ap (λ (k : ℕ). w.mfwrite (handle_write_track f) f.format k f.division) n
    ∙ w.calls_each_track (handle_write_track f) f.format (length ss) f.division
    ∙ rw (tracks_from-slots f ts ss [] 0 h e refl b) refl

spaced-bounds :
    (first step n d top : ℕ)
    → ((k : ℕ) → k < n → first + (d + k) * step < top)
    → All (λ (s : ℕ). s < top) (spaced first step n d)
spaced-bounds first step zero d top h = tt
spaced-bounds first step (suc n) d top h =
    (omega (arith, h 0), spaced-bounds first step n (d + 1) top λ k lt. omega (arith, h (k + 1)))

-- The tracks of a share are tracks of the file.
pub share-bounds :
    (n m first i : ℕ) → 0 < n → i < m → All (λ (s : ℕ). s < n + first) (share n m first i)
share-bounds n m first i pos lt = elim (Bool-cases (leb n m)) [
  | inl small ↦ rw small (omega (arith, mod-lt i {m = n}), tt)
  | inr large ↦ rw large (
      spaced-bounds (i + first) m (dealt n m i) 0 (n + first)
        λ k q. omega (arith, dealt-bounds n m i k lt q))
]

-- The file of computer `i` is written whole: the bytes encode a file with the source's format and
-- division, as many tracks as there are calls for, and for each the calls for the source's events:
-- first the tempo track, then the tracks of the computer's share.
pub part_tempo-written :
    (w : MidiFileWriter) (m : Mfile) (ts : List Mtrack) (ndest i : ℕ)
    → IsFull m ts
    → AllWritable ts
    → m.format ≡ 1
    → 1 < m.ntracks
    → i < ndest
    → let tracks : List ℕ = 0 ∷ share (nsrc_of m) ndest 1 i in
      mfile_write_to_midi w true (part_tempo m ts ndest i)
      ≡ ok (w.encode 1 (length tracks) m.division (map (calls_at ts) tracks))
unfolding mfile_from_headers
part_tempo-written w m ts ndest i full h f many lt =
    let n = nsrc-tempo m f in
    let e : nsrc_of m + 1 ≡ length ts = omega (arith, full.size) in
    let all : All (λ (s : ℕ). s < length ts) (0 ∷ share (nsrc_of m) ndest 1 i) = (
      omega arith,
      subst (λ (top : ℕ). All (λ (s : ℕ). s < top) (share (nsrc_of m) ndest 1 i)) e
          (share-bounds (nsrc_of m) ndest 1 i (omega arith) lt),
    ) in
    file_written w (part_tempo m ts ndest i) ts (0 ∷ share (nsrc_of m) ndest 1 i) h refl
      (omega arith) all
    ∙ ap
        (λ (k : ℕ). ok (
          w.encode k (length (0 ∷ share (nsrc_of m) ndest 1 i)) m.division
            (map (calls_at ts) (0 ∷ share (nsrc_of m) ndest 1 i))))
        f
