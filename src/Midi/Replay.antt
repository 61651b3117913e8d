-- ===== src/Midi/Replay.antt =====
-- What the delta times of `append_mevent` of server/midi.c mean to one who plays the track.
use mathlib.Core.Path.{subst}
use mathlib.Core.List.{append_assoc, append-nil}
use mks65_symphony.Prelude.{
  ℕ, ◌+◌, ◌<◌, ◌≡◌, refl, sym, ap, List, [], ◌∷◌, ◌++◌, ◌%◌, ◌^◌, map, arith, ◌∙◌, All, Result, ok,
  ◌>>=◌,
}
use mks65_symphony.Midi.{Mevent, Mtrack, sub_ulong, append_mevent}
use mks65_symphony.Midi.Chain.{
  Deltas, DeltasFrom, IsChained, chained, with_event, append_chained, append_mevent-IsChained,
}

-- The times at which a player that starts at `now` comes to each event, by adding up delta times.
unfoldable pub replay : ℕ → List Mevent → List ℕ
replay now [] = []
replay now (e ∷ es) = let now' = (now + e.deltatime) % 2 ^ 64 in now' ∷ replay now' es

abbrev pub times : List Mevent → List ℕ
times = map (λ (e : Mevent). e.curtime)

abbrev pub InRange : List Mevent → Type 0
InRange es = All (λ (t : ℕ). t < 2 ^ 64) (times es)

replay-DeltasFrom :
    (t0 : ℕ) (e : Mevent) (es : List Mevent)
    → t0 < 2 ^ 64
    → InRange (e ∷ es)
    → DeltasFrom e es
    → replay (sub_ulong e.curtime t0) es ≡ map (λ f. sub_ulong f.curtime t0) es
unfolding replay
replay-DeltasFrom t0 e [] h r d = refl
replay-DeltasFrom t0 e (f ∷ es) h r d =
    rw step (ap (λ (l : List ℕ). sub_ulong f.curtime t0 ∷ l) (replay-DeltasFrom t0 f es h r.1 d.1))
  where
    step : (sub_ulong e.curtime t0 + f.deltatime) % 2 ^ 64 ≡ sub_ulong f.curtime t0
    step = omega arith

replay-IsChained :
    (t : Mtrack) (e : Mevent) (es : List Mevent)
    → IsChained t
    → t.events ≡ e ∷ es
    → e.deltatime ≡ 0
    → InRange (e ∷ es)
    → replay 0 (e ∷ es) ≡ map (λ f. sub_ulong f.curtime e.curtime) (e ∷ es)
unfolding replay
replay-IsChained t e es c h z r = rw start (
    ap (λ (l : List ℕ). sub_ulong e.curtime e.curtime ∷ l)
      (replay-DeltasFrom e.curtime e es r.0 r (subst Deltas h c.deltas)))
  where
    start : (0 + e.deltatime) % 2 ^ 64 ≡ sub_ulong e.curtime e.curtime
    start = omega arith

-- Calls of `append_mevent` in a row, as the reader makes them.
unfoldable pub append_all : Mtrack → List Mevent → Result Mtrack
append_all t [] = ok t
append_all t (e ∷ es) = append_mevent t e >>= λ u. append_all u es

-- What comes of them: a track with new events behind the old ones, at the times of `es`.
record IsGrown (t u : Mtrack) (es : List Mevent) : Type 0 where
  rest : List Mevent
  made : append_all t es ≡ ok u
  chain : IsChained u
  behind : u.events ≡ t.events ++ rest
  same : times rest ≡ times es

chained-time : (es : List Mevent) (e : Mevent) → (chained es e).curtime ≡ e.curtime
chained-time [] e = refl
chained-time (f ∷ es) e = refl

append_all-IsGrown : (t : Mtrack) (es : List Mevent) → IsChained t → (u : Mtrack) × IsGrown t u es
unfolding append_all
append_all-IsGrown t [] c = (
  t,
  record { rest = []; made = refl; chain = c; behind = sym (append-nil t.events); same = refl },
)
append_all-IsGrown t (e ∷ es) c =
    let (one, more) = append_mevent-IsChained t e c in
    let x = chained t.events e in
    let (u, g) = append_all-IsGrown (with_event t e) es more in
    (
      u,
      record {
        rest = x ∷ g.rest;
        made = rw one g.made;
        chain = g.chain;
        behind = g.behind ∙ append_assoc t.events (x ∷ []) g.rest;
        same = rw (chained-time t.events e) (ap (λ (l : List ℕ). e.curtime ∷ l) g.same);
      },
    )

since-times :
    (t0 : ℕ) (es : List Mevent)
    → map (λ f. sub_ulong f.curtime t0) es ≡ map (λ c. sub_ulong c t0) (times es)
since-times t0 [] = refl
since-times t0 (e ∷ es) = ap (λ (l : List ℕ). sub_ulong e.curtime t0 ∷ l) (since-times t0 es)

-- Into an empty track `append_mevent` puts events one after the other, the first with the delta time
-- 0 of a fresh event: no call faults, the track has the events' times in order, and adding up its
-- delta times comes to each event at its own time less the time of the first. The distances between
-- events are right, and a silence before the first event is lost.
pub replay-append_all :
    (t : Mtrack) (e : Mevent) (es : List Mevent)
    → t.events ≡ []
    → t.len ≡ 0
    → e.deltatime ≡ 0
    → InRange (e ∷ es)
    → (u : Mtrack) × (append_all t (e ∷ es) ≡ ok u)
      × (times u.events ≡ times (e ∷ es))
      × (replay 0 u.events ≡ map (λ c. sub_ulong c e.curtime) (times (e ∷ es)))
unfolding append_all
replay-append_all t e es none_yet zero_len fresh range =
    let one = append_chained [] t e none_yet zero_len in
    let t1 = record t { events = e ∷ []; len = 1 } in
    let (u, g) = append_all-IsGrown t1 es (record { counted = refl; deltas = tt }) in
    let same : times (e ∷ g.rest) ≡ times (e ∷ es) = ap (λ (l : List ℕ). e.curtime ∷ l) g.same in
    let inside : InRange (e ∷ g.rest) = subst (All (λ (c : ℕ). c < 2 ^ 64)) (sym same) range in
    (
      u,
      rw one g.made,
      ap times g.behind ∙ same,
      ap (replay 0) g.behind
          ∙ replay-IsChained u e g.rest g.chain g.behind fresh inside
          ∙ since-times e.curtime (e ∷ g.rest)
          ∙ ap (map (λ c. sub_ulong c e.curtime)) same,
    )
