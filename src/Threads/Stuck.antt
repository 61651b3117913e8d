-- ===== src/Threads/Stuck.antt =====
-- When `handle_play` of server/cmd_handlers.c does not return from the barrier.
use mks65_symphony.Prelude.{
  ℕ, zero, suc, ◌<◌, ◌≡◌, refl, Bool, true, false, some, List, [], ◌∷◌, ◌++◌, map, get_elem?,
  length, set, arith,
}
use mks65_symphony.Threads.{
  Pc, connected, released, finished, gone, at_gate, System, setup, Move, greet, wake, send_file,
  fail, answer, tell_play, waits, let_go, Step, accept, write_files, signal, enter, thread,
  open_barrier, Reach, here, next,
}
use mks65_symphony.Threads.Counts.{total, total-lt}
use mks65_symphony.Threads.Safety.{
  Invariant, Reach-Invariant, step-Invariant, setup-Invariant, all_in,
}

-- A thread that will not come to the barrier: it has passed it or has closed its connection.
abbrev pub is_past : Pc → Bool
is_past released = true
is_past finished = true
is_past gone = true
is_past _ = false

abbrev pub past_at : List Pc → ℕ → Bool
past_at [] i = false
past_at (p ∷ ps) zero = is_past p
past_at (p ∷ ps) (suc i) = past_at ps i

past-waits : (p : Pc) → is_past p ≡ true → waits p ≡ 0
past-waits p h = ground arith

Move-past : {b : Bool} {p p' : Pc} → Move b p p' → is_past p ≡ true → is_past p' ≡ true
Move-past greet h = cc
Move-past (wake e) h = cc
Move-past send_file h = cc
Move-past fail h = cc
Move-past answer h = cc
Move-past tell_play h = refl

past-some :
    (ps : List Pc) (i : ℕ)
    → past_at ps i ≡ true
    → (p : Pc) × (get_elem? ps i ≡ some p) × (is_past p ≡ true)
past-some [] i h = cc
past-some (p ∷ ps) zero h = (p, refl, h)
past-some (p ∷ ps) (suc i) h = past-some ps i h

past-lt : (ps : List Pc) (i : ℕ) → past_at ps i ≡ true → total ps < length ps
past-lt ps i h = let (p, at, past) = past-some ps i h in total-lt ps i p at (past-waits p past)

past-set :
    (b : Bool) (ps : List Pc) (i j : ℕ) (p p' : Pc)
    → get_elem? ps j ≡ some p
    → Move b p p'
    → past_at ps i ≡ true
    → past_at (set ps j p') i ≡ true
past-set b [] i j p p' at m h = h
past-set b (q ∷ ps) zero zero p p' at m h = Move-past m cc
past-set b (q ∷ ps) (suc i) zero p p' at m h = h
past-set b (q ∷ ps) zero (suc j) p p' at m h = h
past-set b (q ∷ ps) (suc i) (suc j) p p' at m h = past-set b ps i j p p' at m h

let_go-past : (p : Pc) → is_past p ≡ true → is_past (let_go p) ≡ true
let_go-past p h = ground arith

past-let_go : (ps : List Pc) (i : ℕ) → past_at ps i ≡ true → past_at (map let_go ps) i ≡ true
past-let_go [] i h = h
past-let_go (p ∷ ps) zero h = let_go-past p h
past-let_go (p ∷ ps) (suc i) h = past-let_go ps i h

past-snoc : (ps : List Pc) (i : ℕ) → past_at ps i ≡ true → past_at (ps ++ connected ∷ []) i ≡ true
past-snoc [] i h = cc
past-snoc (p ∷ ps) zero h = h
past-snoc (p ∷ ps) (suc i) h = past-snoc ps i h

-- What lasts: the main thread in the barrier, and a thread that will not come to it.
pub record Blocked (i : ℕ) (s : System) : Type 0 where
  pub invariant : Invariant s
  pub inside : s.main ≡ at_gate
  pub missing : past_at s.threads i ≡ true

step-Blocked : {i : ℕ} {s t : System} → Blocked i s → Step s t → Blocked i t
step-Blocked {i} {s} b st = record {
  invariant = step-Invariant b.invariant st;
  inside = inside_after s b st;
  missing = missing_after s b st;
}
  where
    inside_after : (s : System) → Blocked i s → {t : System} → Step s t → t.main ≡ at_gate
    inside_after s b (accept h a) = b.inside
    inside_after s b (write_files h l) = cc (b.inside, h)
    inside_after s b (signal h) = cc (b.inside, h)
    inside_after s b (enter h) = refl
    inside_after s b (thread j at m) = b.inside
    inside_after s b (open_barrier k e full) =
        let (all, one) = all_in s k b.invariant e full in
        let fewer = past-lt s.threads i b.missing in ground arith

    missing_after :
        (s : System) → Blocked i s → {t : System} → Step s t → past_at t.threads i ≡ true
    missing_after s b (accept h a) = past-snoc s.threads i b.missing
    missing_after s b (write_files h l) = b.missing
    missing_after s b (signal h) = b.missing
    missing_after s b (enter h) = b.missing
    missing_after s b (thread j {p} {p'} at m) =
        past-set s.midi_ready s.threads i j p p' at m b.missing
    missing_after s b (open_barrier k e full) = past-let_go s.threads i b.missing

Reach-Blocked : {i : ℕ} {s t : System} → Blocked i s → Reach s t → Blocked i t
Reach-Blocked b here = b
Reach-Blocked b (next r st) = step-Blocked (Reach-Blocked b r) st

-- If, in a state that the server reaches before the first `reconnect`, `handle_play` is in
-- `pthread_barrier_wait` while the thread of some client has closed its connection on an error, or
-- has passed the barrier in an earlier `play`, then `handle_play` never returns: the main thread
-- is there in every later state.
pub play-blocked :
    (s t : System) (i : ℕ)
    → Reach setup s
    → s.main ≡ at_gate
    → past_at s.threads i ≡ true
    → Reach s t
    → t.main ≡ at_gate
play-blocked s t i r h past later = let b = Reach-Blocked start later in b.inside
  where
    start : Blocked i s
    start = record { invariant = Reach-Invariant setup-Invariant r; inside = h; missing = past }
