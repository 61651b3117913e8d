-- ===== src/Reader/Body.antt =====
-- A track's body: the calls of the event handlers of server/midi_reader.c in a row.
use mathlib.Core.List.{append_assoc}
use mks65_symphony.Prelude.{
  ℕ, ◌≡◌, refl, ap, ◌∙◌, some, List, [], ◌∷◌, ◌++◌, All, Result, ok, ◌>>=◌, trap,
}
use mks65_symphony.Midi.{Mtrack, Mfile, MeventData}
use mks65_symphony.Midi.Chain.{IsChained}
use mks65_symphony.Reader.{dispatch, run_callbacks}
use mks65_symphony.Reader.Parser.{Callback, Trace}
use mks65_symphony.Reader.Events.{described, IsEvent, content, IsExtended}
use mks65_symphony.Reader.Handlers.{dispatch-IsExtended, unchanged}

abbrev pub AreEvents : Trace → Type 0
AreEvents = All (λ (p : ℕ × Callback). IsEvent p.1)

-- The events that a body stands for.
abbrev pub body_content : Trace → List (ℕ × MeventData)
body_content [] = []
body_content ((now, c) ∷ calls) = described now c ++ body_content calls

pub run_callbacks-append :
    (xs ys : Trace) (m : Mfile)
    → run_callbacks (xs ++ ys) m ≡ (run_callbacks xs m >>= run_callbacks ys)
unfolding run_callbacks
run_callbacks-append [] ys m = refl
run_callbacks-append ((now, c) ∷ xs) ys m =
    after (dispatch now c m) (λ m'. run_callbacks-append xs ys m')
  where
    after :
        (r : Result Mfile)
        → ((m' : Mfile) → run_callbacks (xs ++ ys) m' ≡ (run_callbacks xs m' >>= run_callbacks ys))
        → (r >>= run_callbacks (xs ++ ys)) ≡ ((r >>= run_callbacks xs) >>= run_callbacks ys)
    after (ok m') ih = ih m'
    after (trap t) ih = refl

extended-trans :
    {m m' m'' : Mfile} {t : Mtrack} {new more : List (ℕ × MeventData)} (x : IsExtended m t new m')
    → IsExtended m' x.track more m''
    → IsExtended m t (new ++ more) m''
extended-trans {t} {new} {more} x y = record {
  track = y.track;
  current = y.current;
  holds =
      y.holds
      ∙ ap (λ (l : List (ℕ × MeventData)). l ++ more) x.holds
      ∙ append_assoc (content t) new more;
  chain = y.chain;
  flag = y.flag ∙ x.flag;
  format = y.format ∙ x.format;
  division = y.division ∙ x.division;
  ntracks = y.ntracks ∙ x.ntracks;
  tracks = y.tracks ∙ x.tracks;
  index = y.index ∙ x.index;
  tempo_seen = y.tempo_seen ∙ x.tempo_seen;
}

-- All the calls of a body return, and the current track then ends with the body's events.
pub run-IsExtended :
    (body : Trace) (m : Mfile) (t : Mtrack)
    → AreEvents body
    → m.cur_track ≡ some t
    → IsChained t
    → (m' : Mfile) × (run_callbacks body m ≡ ok m') × IsExtended m t (body_content body) m'
unfolding run_callbacks
run-IsExtended [] m t h cur chain = (m, refl, unchanged cur chain)
run-IsExtended ((now, c) ∷ body) m t h cur chain =
    let (m1, e1, x1) = dispatch-IsExtended cur chain now c h.0 in
    let (m2, e2, x2) = run-IsExtended body m1 x1.track h.1 x1.current x1.chain in
    (m2, rw e1 e2, extended-trans x1 x2)
