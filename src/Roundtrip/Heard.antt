-- ===== src/Roundtrip/Heard.antt =====
-- What server/midi_reader.c is told of a track that server/midi_writer.c wrote.
use mks65_symphony.Prelude.{
  ℕ, zero, suc, ◌+◌, ◌-◌, ◌≤◌, ◌<◌, ◌^◌, ◌≡◌, ◌∙◌, refl, ap, none, some, List, [], ◌∷◌, get_elem?,
  All, arith,
}
use mks65_symphony.Midi.{MeventData, Mevent, Mtrack}
use mks65_symphony.Midi.Chain.{IsChained, DeltasFrom, Deltas}
use mks65_symphony.Writer.{Call}
use mks65_symphony.Writer.Tracks.{call_of, calls_of, AreWritable}
use mks65_symphony.Writer.Files.{calls_at, AllWritable}
use mks65_symphony.Reader.Body.{AreEvents, body_content}
use mks65_symphony.Roundtrip.{delta_of, IsSendable, IsCarried, returned, reports}
use mks65_symphony.Roundtrip.Reports.{described-reported, call_of-IsSendable, IsCarried-IsWritable}

-- Each event at least as late as the one before it, by less than 2 ^ 28 ticks.
abbrev pub AscendFrom : ℕ → List Mevent → Type 0
AscendFrom t [] = Unit
AscendFrom t (e ∷ es) =
    (t ≤ e.curtime) × (e.curtime < t + 2 ^ 28) × (e.curtime < 2 ^ 64) × AscendFrom e.curtime es

-- A track as the reader builds it: no system exclusive message, its first event without a delta
-- time, its times ascending.
abbrev pub IsPlayable : List Mevent → Type 0
IsPlayable [] = Unit
IsPlayable (e ∷ es) =
    (e.deltatime ≡ 0)
    × (e.curtime < 2 ^ 64)
    × AscendFrom e.curtime es
    × All (λ (f : Mevent). IsCarried f.event_data) (e ∷ es)

-- What is read of the events of a track whose first event is at `start`.
abbrev pub heard_from : ℕ → List Mevent → List (ℕ × MeventData)
heard_from start [] = []
heard_from start (e ∷ es) = (e.curtime - start, returned e.event_data) ∷ heard_from start es

abbrev pub heard : List Mevent → List (ℕ × MeventData)
heard [] = []
heard (e ∷ es) = heard_from e.curtime (e ∷ es)

delta_of-call_of : (delta : ℕ) (d : MeventData) → delta_of (call_of delta d) ≡ delta
delta_of-call_of delta (MeventData.regular r) = refl
delta_of-call_of delta (MeventData.sysex s) = refl
delta_of-call_of delta (MeventData.meta m) = refl

abbrev AllCarried : List Mevent → Type 0
AllCarried = All (λ (f : Mevent). IsCarried f.event_data)

-- What the reader is told of calls that the writer made, from the time `now` on.
pub record IsRead (now : ℕ) (calls : List Call) (events : List (ℕ × MeventData)) : Type 0 where
  pub same : body_content (reports now calls) ≡ events
  pub readable : AreEvents (reports now calls)
  pub sendable : All IsSendable calls

IsRead-cons :
    (now then_ : ℕ) (f : Mevent) (calls : List Call) (events : List (ℕ × MeventData))
    → now + f.deltatime ≡ then_
    → f.deltatime < 2 ^ 28
    → IsCarried f.event_data
    → IsRead then_ calls events
    → IsRead now
        (call_of f.deltatime f.event_data ∷ calls)
        ((then_, returned f.event_data) ∷ events)
IsRead-cons now then_ f calls events at lt c rest = record {
  same = rw (step, (described-reported then_ f.deltatime f.event_data c).0, rest.same) refl;
  readable = rw step ((described-reported then_ f.deltatime f.event_data c).1, rest.readable);
  sendable = (call_of-IsSendable f.deltatime f.event_data lt c, rest.sendable);
}
  where
    step : now + delta_of (call_of f.deltatime f.event_data) ≡ then_
    step = ap (λ (d : ℕ). now + d) (delta_of-call_of f.deltatime f.event_data) ∙ at

IsRead-from :
    (start : ℕ) (e : Mevent) (es : List Mevent)
    → start ≤ e.curtime
    → e.curtime < 2 ^ 64
    → DeltasFrom e es
    → AscendFrom e.curtime es
    → AllCarried es
    → IsRead (e.curtime - start) (calls_of es) (heard_from start es)
IsRead-from start e [] le lt d a c = record { same = refl; readable = tt; sendable = tt }
IsRead-from start e (f ∷ es) le lt d a c =
    IsRead-cons (e.curtime - start) (f.curtime - start) f (calls_of es) (heard_from start es)
      (omega (arith, delta, a.0)) (omega (arith, delta, a.1)) c.0
      (IsRead-from start f es (omega (arith, a.0)) a.2 d.1 a.3 c.1)
  where
    delta : f.deltatime ≡ f.curtime - e.curtime
    delta = d.0 ∙ omega (arith, a.0, a.2)

IsRead-heard : (es : List Mevent) → Deltas es → IsPlayable es → IsRead 0 (calls_of es) (heard es)
IsRead-heard [] d p = record { same = refl; readable = tt; sendable = tt }
IsRead-heard (e ∷ es) d p =
    IsRead-cons 0 (e.curtime - e.curtime) e (calls_of es) (heard_from e.curtime es)
      (omega (arith, p.0)) (omega (arith, p.0)) p.3.0
      (IsRead-from e.curtime e es (omega arith) p.1 d p.2 p.3.1)

AllCarried-AreWritable : (es : List Mevent) → AllCarried es → AreWritable es
AllCarried-AreWritable [] c = tt
AllCarried-AreWritable (e ∷ es) c =
    (IsCarried-IsWritable e.event_data c.0, AllCarried-AreWritable es c.1)

abbrev pub AllPlayable : List Mtrack → Type 0
AllPlayable = All (λ (t : Mtrack). IsPlayable t.events)

IsPlayable-AreWritable : (es : List Mevent) → IsPlayable es → AreWritable es
IsPlayable-AreWritable [] p = tt
IsPlayable-AreWritable (e ∷ es) p = AllCarried-AreWritable (e ∷ es) p.3

pub AllPlayable-AllWritable : (ts : List Mtrack) → AllPlayable ts → AllWritable ts
AllPlayable-AllWritable [] p = tt
AllPlayable-AllWritable (t ∷ ts) p =
    (IsPlayable-AreWritable t.events p.0, AllPlayable-AllWritable ts p.1)

-- What is heard of track `s`.
abbrev pub heard_at : List Mtrack → ℕ → List (ℕ × MeventData)
heard_at ts s = elim (get_elem? ts s) [ none ↦ [] | some t ↦ heard t.events ]

pub IsRead-at :
    (ts : List Mtrack) (s : ℕ)
    → All IsChained ts
    → AllPlayable ts
    → IsRead 0 (calls_at ts s) (heard_at ts s)
IsRead-at [] s c p = record { same = refl; readable = tt; sendable = tt }
IsRead-at (t ∷ ts) zero c p = IsRead-heard t.events c.0.deltas p.0
IsRead-at (t ∷ ts) (suc s) c p = IsRead-at ts s c.1 p.1
