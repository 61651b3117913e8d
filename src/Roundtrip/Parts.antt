-- ===== src/Roundtrip/Parts.antt =====
-- The part of a client, written by server/midi_writer.c and read back by server/midi_reader.c.
use mks65_symphony.Prelude.{
  ℕ, ◌+◌, ◌<◌, ◌^◌, ◌≡◌, ◌∙◌, sym, ap, true, some, List, [], ◌∷◌, map, length, length-map, All,
  arith, ok,
}
use mks65_symphony.Midi.{Bytes, Mtrack, Mfile}
use mks65_symphony.Midi.Chain.{IsChained}
use mks65_symphony.Splitter.{nsrc_of}
use mks65_symphony.Splitter.Split.{IsFull, share, part_tempo}
use mks65_symphony.Writer.{Call, mfile_write_to_midi}
use mks65_symphony.Writer.Files.{calls_at, part_tempo-written}
use mks65_symphony.Reader.Events.{content}
use mks65_symphony.Reader.Build.{AreTracks, Represents}
use mks65_symphony.Reader.Ends.{is_tempo}
use mks65_symphony.Reader.Load.{mfile_from_file, load-full}
use mks65_symphony.Roundtrip.{MidiLibrary, IsSendable, chunk_of}
use mks65_symphony.Roundtrip.Heard.{IsRead-at, AllPlayable, AllPlayable-AllWritable, heard_at}

-- The tracks `us` hold what is heard of the tracks `ss` of `ts`, the first flagged as tempo track.
abbrev pub Hears : List Mtrack → ℕ → List ℕ → List Mtrack → Type 0
Hears ts k [] [] = Unit
Hears ts k (s ∷ ss) (u ∷ us) =
    (content u ≡ heard_at ts s) × (u.is_tempotrack ≡ is_tempo 1 k) × Hears ts (k + 1) ss us
Hears ts k _ _ = ⊥

all-IsSendable :
    (ts : List Mtrack) (ss : List ℕ)
    → All IsChained ts
    → AllPlayable ts
    → All (All IsSendable) (map (calls_at ts) ss)
all-IsSendable ts [] c p = tt
all-IsSendable ts (s ∷ ss) c p = ((IsRead-at ts s c p).sendable, all-IsSendable ts ss c p)

all-AreEvents :
    (ts : List Mtrack) (ss : List ℕ)
    → All IsChained ts
    → AllPlayable ts
    → AreTracks (map chunk_of (map (calls_at ts) ss))
all-AreEvents ts [] c p = tt
all-AreEvents ts (s ∷ ss) c p = ((IsRead-at ts s c p).readable, all-AreEvents ts ss c p)

Represents-Hears :
    (ts : List Mtrack) (k : ℕ) (ss : List ℕ) (us : List Mtrack)
    → All IsChained ts
    → AllPlayable ts
    → Represents 1 k (map chunk_of (map (calls_at ts) ss)) us
    → Hears ts k ss us
Represents-Hears ts k [] [] c p r = tt
Represents-Hears ts k [] (u ∷ us) c p r = absurd r
Represents-Hears ts k (s ∷ ss) [] c p r = absurd r
Represents-Hears ts k (s ∷ ss) (u ∷ us) c p r =
    (r.0 ∙ (IsRead-at ts s c p).same, r.1, Represents-Hears ts (k + 1) ss us c p r.2)

-- A file of format 1 whose tracks are as the reader builds them, with channel messages and meta
-- events only and times that do not go back, split for some computers: what is written for computer
-- `i` and then read by the same program is a full file with the source's division, the tempo track
-- first and flagged as such and then the tracks of the computer's share, each with all its events in
-- order, their times less that of the track's first event, their data the same but for a pitch bend,
-- whose two bytes have changed places.
pub part-read_back :
    (lib : MidiLibrary) (m : Mfile) (ts : List Mtrack) (ndest i x : ℕ) (path : Bytes)
    → IsFull m ts
    → AllPlayable ts
    → m.format ≡ 1
    → 1 < m.ntracks
    → m.division < 2 ^ 16
    → length (share (nsrc_of m) ndest 1 i) + 1 < 2 ^ 16
    → i < ndest
    → (bytes : Bytes) × (m' : Mfile) × (us : List Mtrack) × (mfile_write_to_midi lib.writer true
          (part_tempo m ts ndest i)
        ≡ ok bytes)
      × (mfile_from_file true (lib.mfread bytes) (x ∷ path) ≡ ok (some m'))
      × IsFull m' us
      × Hears ts 0 (0 ∷ share (nsrc_of m) ndest 1 i) us
      × (m'.division ≡ m.division)
part-read_back lib m ts ndest i x path full p f many small few lt =
    let ss : List ℕ = 0 ∷ share (nsrc_of m) ndest 1 i in
    let calls : List (List Call) = map (calls_at ts) ss in
    let (m', us, e, full', r, f', d) =
      load-full x path 1 m.division (map chunk_of calls) (all-AreEvents ts ss full.chained p) in
    (
      lib.writer.encode 1 (length calls) m.division calls,
      m',
      us,
      part_tempo-written lib.writer m ts ndest i full (AllPlayable-AllWritable ts p) f many lt
          ∙ ap (λ (n : ℕ). ok (lib.writer.encode 1 n m.division calls))
              (sym (length-map ss (calls_at ts))),
      rw
          (lib.reads_back 1 m.division calls (omega arith) small
            (omega (arith, length-map ss (calls_at ts))) (all-IsSendable ts ss full.chained p))
          e,
      full',
      Represents-Hears ts 0 ss us full.chained p r,
      d,
    )
