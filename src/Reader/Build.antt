-- ===== src/Reader/Build.antt =====
-- The file that the handlers of server/midi_reader.c build from the calls for a whole MIDI file.
use mathlib.Core.List.{append_assoc, append-nil}
use mathlib.Core.Path.{subst, subst₂}
use mks65_symphony.Prelude.{
  ℕ, suc, ◌+◌, ◌≡◌, refl, sym, ap, ◌∙◌, false, not, ◌&&◌, none, some, List, [], ◌∷◌, ◌++◌, map,
  ◌==◌, length, length-append, replicate, All, arith, ok,
}
use mks65_symphony.Midi.{Mtrack, Mfile, MeventData, new_mtrack}
use mks65_symphony.Midi.Chain.{IsChained}
use mks65_symphony.Reader.{dispatch, run_callbacks, handle_track_start, handle_header}
use mks65_symphony.Reader.Parser.{Trace, trackstart, trackend, header}
use mks65_symphony.Reader.Events.{content, IsExtended}
use mks65_symphony.Reader.Body.{AreEvents, body_content, run_callbacks-append, run-IsExtended}
use mks65_symphony.Reader.Ends.{IsPartial, is_tempo, flagged, handle_track_end-IsPartial}
use mks65_symphony.Splitter.Split.{IsFull}

-- The calls for a track whose last event is at the time `finish`.
pub record Chunk : Type 0 where
  pub body : Trace
  pub finish : ℕ

abbrev pub chunk_calls : Chunk → Trace
chunk_calls c = (0, trackstart) ∷ (c.body ++ (c.finish, trackend) ∷ [])

abbrev pub chunks_calls : List Chunk → Trace
chunks_calls [] = []
chunks_calls (c ∷ cs) = chunk_calls c ++ chunks_calls cs

abbrev pub file_calls : ℕ → ℕ → List Chunk → Trace
file_calls format division cs = (0, header format (length cs) division) ∷ chunks_calls cs

-- The tracks hold the events of the chunks, in order, and the first one of a file of format 1 is
-- the one flagged as the tempo track. `k` is the index of the first track.
abbrev pub Represents : ℕ → ℕ → List Chunk → List Mtrack → Type 0
Represents format k [] [] = Unit
Represents format k (c ∷ cs) (t ∷ ts) =
    (content t ≡ body_content c.body)
    × (t.is_tempotrack ≡ is_tempo format k)
    × Represents format (k + 1) cs ts
Represents format k _ _ = ⊥

pub length-Represents :
    (format k : ℕ) (cs : List Chunk) (ts : List Mtrack)
    → Represents format k cs ts
    → length ts ≡ length cs
length-Represents format k [] [] r = refl
length-Represents format k [] (t ∷ ts) r = absurd r
length-Represents format k (c ∷ cs) [] r = absurd r
length-Represents format k (c ∷ cs) (t ∷ ts) r = ap suc (length-Represents format (k + 1) cs ts r.2)

abbrev started : Mfile → Mfile
started m = record m { cur_track = some new_mtrack }

new_mtrack-IsChained : IsChained new_mtrack
unfolding new_mtrack
new_mtrack-IsChained = record { counted = refl; deltas = tt }

new_mtrack-content : content new_mtrack ≡ []
unfolding new_mtrack
new_mtrack-content = refl

new_mtrack-plain : new_mtrack.is_tempotrack ≡ false
unfolding new_mtrack
new_mtrack-plain = refl

run-chunk :
    (c : Chunk) (m : Mfile) (ts : List Mtrack) (rest : ℕ)
    → AreEvents c.body
    → IsPartial m ts (suc rest)
    → (m' : Mfile) × (t : Mtrack) × (run_callbacks (chunk_calls c) m ≡ ok m')
      × IsPartial m' (ts ++ t ∷ []) rest
      × (content t ≡ body_content c.body)
      × (t.is_tempotrack ≡ is_tempo m.format (length ts))
      × (m'.format ≡ m.format)
      × (m'.division ≡ m.division)
unfolding run_callbacks dispatch handle_track_start
run-chunk c m ts rest h p =
    let (m1, e1, x) = run-IsExtended c.body (started m) new_mtrack h refl new_mtrack-IsChained in
    let p1 = kept m1 x in
    let (m2, e2, p2, f2, d2) =
      handle_track_end-IsPartial m1 x.track ts rest p1 x.current x.chain
        (x.flag ∙ new_mtrack-plain) in
    (
      m2,
      flagged x.track (is_tempo m1.format (length ts)),
      run_callbacks-append c.body _ (started m) ∙ rw e1 (rw e2 refl),
      p2,
      x.holds ∙ ap (λ (l : List (ℕ × MeventData)). l ++ body_content c.body) new_mtrack-content,
      ap (λ (f : ℕ). is_tempo f (length ts)) x.format,
      f2 ∙ x.format,
      d2 ∙ x.division,
    )
  where
    kept :
        (m1 : Mfile)
        → IsExtended (started m) new_mtrack (body_content c.body) m1
        → IsPartial m1 ts (suc rest)
    kept m1 x = record {
      slots = x.tracks ∙ p.slots;
      size = x.ntracks ∙ p.size;
      index = x.index ∙ p.index;
      chained = p.chained;
      tempo_seen =
          x.tempo_seen
          ∙ p.tempo_seen
          ∙ ap (λ (f : ℕ). f == 1 && not (length ts == 0)) (sym x.format);
    }

abbrev pub AreTracks : List Chunk → Type 0
AreTracks = All (λ (c : Chunk). AreEvents c.body)

run-chunks :
    (cs : List Chunk) (m : Mfile) (ts : List Mtrack)
    → AreTracks cs
    → IsPartial m ts (length cs)
    → (m' : Mfile) × (us : List Mtrack) × (run_callbacks (chunks_calls cs) m ≡ ok m')
      × IsPartial m' (ts ++ us) 0
      × Represents m.format (length ts) cs us
      × (m'.format ≡ m.format)
      × (m'.division ≡ m.division)
unfolding run_callbacks
run-chunks [] m ts h p =
    (m, [], refl, subst (λ l. IsPartial m l 0) (sym (append-nil ts)) p, tt, refl, refl)
run-chunks (c ∷ cs) m ts h p =
    let (m1, t, e1, p1, holds, flag, f1, d1) = run-chunk c m ts (length cs) h.0 p in
    let (m2, us, e2, p2, r, f2, d2) = run-chunks cs m1 (ts ++ t ∷ []) h.1 p1 in
    let next : length (ts ++ t ∷ []) ≡ length ts + 1 = length-append ts (t ∷ []) in
    (
      m2,
      t ∷ us,
      run_callbacks-append (chunk_calls c) (chunks_calls cs) m ∙ rw e1 e2,
      subst (λ l. IsPartial m2 l 0) (append_assoc ts (t ∷ []) us) p2,
      (holds, flag, subst₂ (λ f k. Represents f k cs us) f1 next r),
      f2 ∙ f1,
      d2 ∙ d1,
    )

-- An `mfile` that no track was read into.
pub record IsFresh (m : Mfile) : Type 0 where
  pub untracked : m.has_tempotrack ≡ false
  pub unread : m.cur_track_index ≡ 0

-- On a fresh `mfile`, the calls for a file of tracks whose buffers can be read all return. The
-- file then has the header's format and division, every slot of its array holds a track, none is
-- left over, track `j` holds in order the events that the reader keeps of the `j`-th chunk (channel
-- messages and meta events whole, a system exclusive message up to its first zero byte, a pitch bend
-- with its bytes in the order in which the handler takes them), and exactly the first track of a file
-- of format 1 is flagged as the tempo track.
pub run_callbacks-file :
    (m0 : Mfile) (format division : ℕ) (cs : List Chunk)
    → IsFresh m0
    → AreTracks cs
    → (m : Mfile) × (ts : List Mtrack) × (run_callbacks (file_calls format division cs) m0 ≡ ok m)
      × IsFull m ts
      × Represents format 0 cs ts
      × (m.format ≡ format)
      × (m.division ≡ division)
unfolding run_callbacks dispatch handle_header
run_callbacks-file m0 format division cs fresh h =
    let (m, ts, e, p, r, f, d) = run-chunks cs _ [] h first in
    (
      m,
      ts,
      e,
      record {
        slots = p.slots ∙ append-nil (map some ts);
        size = omega (arith, p.size);
        chained = p.chained;
      },
      r,
      f,
      d,
    )
  where
    headed : Mfile
    headed = record m0 {
      division = division;
      format = format;
      ntracks = length cs;
      tracks = replicate (length cs) none;
    }

    first : IsPartial headed [] (length cs)
    first = record {
      slots = refl;
      size = omega arith;
      index = fresh.unread;
      chained = tt;
      tempo_seen = fresh.untracked ∙ ground arith;
    }
