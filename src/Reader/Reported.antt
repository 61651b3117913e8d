-- ===== src/Reader/Reported.antt =====
-- What the reader of server/midi_reader.c keeps, against what the parser reports, where no system
-- exclusive message is cut.
use mathlib.Core.Path.{subst}
use mks65_symphony.Prelude.{
  ℕ, zero, suc, ◌+◌, ◌≤◌, ◌≡◌, refl, sym, ap, true, some, List, [], ◌∷◌, ◌++◌, ◌==◌, length, take,
  All, arith, Bool-cases, inl, inr,
}
use mks65_symphony.Midi.{Bytes, Mtrack, MeventData, c_str, has_nul}
use mks65_symphony.Reader.Parser.{Callback, Trace}
use Callback.{
  header, trackstart, trackend, noteon, noteoff, pressure, parameter, pitchbend, program,
  chanpressure, sysex, metamisc, seqspecific, text, eot, seqnum, timesig, smpte, tempo, keysig,
  error, arbitrary,
}
use mks65_symphony.Reader.Events.{described, IsEvent, content}
use mks65_symphony.Reader.Body.{AreEvents, body_content}
use mks65_symphony.Reader.Build.{Chunk, AreTracks, Represents}

-- A system exclusive message is copied up to its first zero byte, so it must not have one before
-- its last byte.
abbrev pub IsUncut : Callback → Type 0
IsUncut (sysex n m) = n ≤ length (c_str m) + 1
IsUncut _ = Unit

abbrev pub AreUncut : Trace → Type 0
AreUncut = All (λ (p : ℕ × Callback). IsUncut p.1)

abbrev pub AllUncut : List Chunk → Type 0
AllUncut = All (λ (c : Chunk). AreUncut c.body)

-- What is kept of a callback is what it reports: of a system exclusive message all `n` bytes.
abbrev pub IsReport : Callback → MeventData → Type 0
IsReport (sysex n m) d =
    (b : Bytes) × (d ≡ MeventData.sysex (record { msg = some b; len = n })) × (take n b ≡ take n m)
IsReport c d = described 0 c ≡ (0, d) ∷ []

-- The events are those of the calls, each at its time, in order. Of an escape nothing is kept.
pub data AllReported : Trace → List (ℕ × MeventData) → Type 0 where
  none_left : AllReported [] []
  kept :
      (now : ℕ) (c : Callback) {d : MeventData} {body : Trace} {es : List (ℕ × MeventData)}
      → IsReport c d
      → AllReported body es
      → AllReported ((now, c) ∷ body) ((now, d) ∷ es)
  skipped :
      (now n : ℕ) (m : Bytes) {body : Trace} {es : List (ℕ × MeventData)}
      → AllReported body es
      → AllReported ((now, arbitrary n m) ∷ body) es

abbrev pub HoldReports : List Chunk → List Mtrack → Type 0
HoldReports [] [] = Unit
HoldReports (c ∷ cs) (t ∷ ts) = AllReported c.body (content t) × HoldReports cs ts
HoldReports _ _ = ⊥

c_str-take :
    (n : ℕ) (m : Bytes)
    → has_nul m ≡ true
    → n ≤ length (c_str m) + 1
    → take n (c_str m ++ 0 ∷ []) ≡ take n m
c_str-take zero m h le = refl
c_str-take (suc n) [] h le = cc
c_str-take (suc n) (c ∷ m) h le = elim (Bool-cases (c == 0)) [
  | inl z ↦
      let short : suc n ≤ 0 + 1 = rw z at le in
      let last : n ≡ 0 = omega (arith, short) in
      let nul : c ≡ 0 = ground (arith, z) in rw z (rw (last, nul) refl)
  | inr nz ↦
      let more : suc n ≤ suc (length (c_str m)) + 1 = rw nz at le in
      rw nz (ap (λ (l : Bytes). c ∷ l) (c_str-take n m (rw nz at h) (omega (arith, more))))
]

uncut-AllReported :
    (body : Trace) → AreEvents body → AreUncut body → AllReported body (body_content body)
uncut-AllReported [] h u = none_left
uncut-AllReported ((now, c) ∷ body) h u = one c h.0 u.0 (uncut-AllReported body h.1 u.1)
  where
    one :
        (c : Callback)
        → IsEvent c
        → IsUncut c
        → AllReported body (body_content body)
        → AllReported ((now, c) ∷ body) (described now c ++ body_content body)
    one (noteon c p v) h u r = kept now _ refl r
    one (noteoff c p v) h u r = kept now _ refl r
    one (pressure c p v) h u r = kept now _ refl r
    one (parameter c p v) h u r = kept now _ refl r
    one (pitchbend c l m) h u r = kept now _ refl r
    one (program c p) h u r = kept now _ refl r
    one (chanpressure c p) h u r = kept now _ refl r
    one (sysex n m) h u r = kept now (sysex n m) (_, refl, c_str-take n m h u) r
    one (metamisc t n m) h u r = kept now _ refl r
    one (seqspecific n m) h u r = kept now _ refl r
    one (text t n m) h u r = kept now _ refl r
    one eot h u r = kept now _ refl r
    one (seqnum m) h u r = kept now _ refl r
    one (timesig m) h u r = kept now _ refl r
    one (smpte m) h u r = kept now _ refl r
    one (tempo m) h u r = kept now _ refl r
    one (keysig m) h u r = kept now _ refl r
    one (arbitrary n m) h u r = skipped now n m r
    one (header f n d) h u r = absurd h
    one trackstart h u r = absurd h
    one trackend h u r = absurd h
    one (error m) h u r = absurd h

-- Tracks that the reader builds hold what was reported, if nothing is cut.
pub Represents-HoldReports :
    (format k : ℕ) (cs : List Chunk) (ts : List Mtrack)
    → AreTracks cs
    → AllUncut cs
    → Represents format k cs ts
    → HoldReports cs ts
Represents-HoldReports format k [] [] h u r = tt
Represents-HoldReports format k [] (t ∷ ts) h u r = absurd r
Represents-HoldReports format k (c ∷ cs) [] h u r = absurd r
Represents-HoldReports format k (c ∷ cs) (t ∷ ts) h u r = (
  subst (AllReported c.body) (sym r.0) (uncut-AllReported c.body h.0 u.0),
  Represents-HoldReports format (k + 1) cs ts h.1 u.1 r.2,
)
