-- ===== src/Concert/Events.antt =====
-- Which events that server/midi_reader.c builds can be written whole by server/midi_writer.c.
use mathlib.Core.Path.{subst}
use mks65_symphony.Prelude.{
  ℕ, zero, suc, ◌+◌, ◌≤◌, ◌≡◌, refl, sym, ap, true, List, [], ◌∷◌, ◌++◌, map, length, length-append,
  take, leb, ◌==◌, All, arith, Bool-cases, inl, inr,
}
use mks65_symphony.Midi.{Bytes, Mevent, MeventData, Mtrack, c_str}
use mks65_symphony.Reader.Parser.{Callback, Trace}
use Callback.{
  header, trackstart, trackend, noteon, noteoff, pressure, parameter, pitchbend, program,
  chanpressure, sysex, metamisc, seqspecific, text, eot, seqnum, timesig, smpte, tempo, keysig,
  error, arbitrary,
}
use mks65_symphony.Reader.Events.{described, IsEvent, meta_message, stamp}
use mks65_symphony.Reader.Body.{AreEvents, body_content}
use mks65_symphony.Reader.Reported.{IsUncut, AreUncut, AllUncut}
use mks65_symphony.Reader.Build.{Chunk, AreTracks, Represents}
use mks65_symphony.Writer.Tracks.{IsWritable, AreWritable}
use mks65_symphony.Writer.Files.{AllWritable}

abbrev pub DataWritable : List (ℕ × MeventData) → Type 0
DataWritable = All (λ (p : ℕ × MeventData). IsWritable p.1)

length-take : (n : ℕ) (s : Bytes) → n ≤ length s → length (take n s) ≡ n
length-take zero s h = refl
length-take (suc n) [] h = absurd (omega arith)
length-take (suc n) (x ∷ s) h = ap suc (length-take n s (omega arith))

meta_message-IsWritable :
    (type n : ℕ) (m : Bytes) → leb n (length m) ≡ true → IsWritable (meta_message type n m)
meta_message-IsWritable type n m h = elim (Bool-cases (n == 0)) [
  | inl z ↦ rw z z
  | inr z ↦
      let le : n ≤ length m = ground arith in
      let all : leb n (length (take n m)) ≡ true = ground (arith, length-take n m le) in rw z all
]

described-DataWritable :
    (now : ℕ) (c : Callback) → IsEvent c → IsUncut c → DataWritable (described now c)
described-DataWritable now (noteon c p v) h u = (omega arith, tt)
described-DataWritable now (noteoff c p v) h u = (omega arith, tt)
described-DataWritable now (pressure c p v) h u = (omega arith, tt)
described-DataWritable now (parameter c p v) h u = (omega arith, tt)
described-DataWritable now (pitchbend c m l) h u = (omega arith, tt)
described-DataWritable now (program c p) h u = (omega arith, tt)
described-DataWritable now (chanpressure c p) h u = (omega arith, tt)
described-DataWritable now (sysex n m) h u =
    (ground (arith, length-append (c_str m) (0 ∷ []), u), tt)
described-DataWritable now (metamisc t n m) h u = (meta_message-IsWritable t n m h, tt)
described-DataWritable now (seqspecific n m) h u = (meta_message-IsWritable 0x7f n m h, tt)
described-DataWritable now (text t n m) h u = (meta_message-IsWritable t n m h, tt)
described-DataWritable now eot h u = (refl, tt)
described-DataWritable now (seqnum m) h u = (meta_message-IsWritable 0x00 2 m h, tt)
described-DataWritable now (timesig m) h u = (meta_message-IsWritable 0x58 4 m h, tt)
described-DataWritable now (smpte m) h u = (meta_message-IsWritable 0x54 5 m h, tt)
described-DataWritable now (tempo m) h u = (meta_message-IsWritable 0x51 3 m h, tt)
described-DataWritable now (keysig m) h u = (meta_message-IsWritable 0x59 2 m h, tt)
described-DataWritable now (header f n d) h u = tt
described-DataWritable now trackstart h u = tt
described-DataWritable now trackend h u = tt
described-DataWritable now (arbitrary n m) h u = tt
described-DataWritable now (error m) h u = tt

append-DataWritable :
    (xs ys : List (ℕ × MeventData)) → DataWritable xs → DataWritable ys → DataWritable (xs ++ ys)
append-DataWritable [] ys a b = b
append-DataWritable (x ∷ xs) ys a b = (a.0, append-DataWritable xs ys a.1 b)

body_content-DataWritable :
    (body : Trace) → AreEvents body → AreUncut body → DataWritable (body_content body)
body_content-DataWritable [] h u = tt
body_content-DataWritable ((now, c) ∷ body) h u =
    append-DataWritable (described now c) (body_content body) (described-DataWritable now c h.0 u.0)
      (body_content-DataWritable body h.1 u.1)

events-AreWritable : (es : List Mevent) → DataWritable (map stamp es) → AreWritable es
events-AreWritable [] h = tt
events-AreWritable (e ∷ es) h = (h.0, events-AreWritable es h.1)

-- Tracks that hold the events of such calls can be written whole.
pub Represents-AllWritable :
    (format k : ℕ) (cs : List Chunk) (ts : List Mtrack)
    → AreTracks cs
    → AllUncut cs
    → Represents format k cs ts
    → AllWritable ts
Represents-AllWritable format k [] [] h u r = tt
Represents-AllWritable format k [] (t ∷ ts) h u r = absurd r
Represents-AllWritable format k (c ∷ cs) [] h u r = absurd r
Represents-AllWritable format k (c ∷ cs) (t ∷ ts) h u r = (
  events-AreWritable t.events
      (subst DataWritable (sym r.0) (body_content-DataWritable c.body h.0 u.0)),
  Represents-AllWritable format (k + 1) cs ts h.1 u.1 r.2,
)
