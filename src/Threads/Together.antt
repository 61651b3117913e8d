-- ===== src/Threads/Together.antt =====
-- A run of the threads of server/server_thread.c in which nothing fails.
use mathlib.Core.List.{append_assoc}
use mathlib.Core.Path.{subst}
use mks65_symphony.Prelude.{
  ℕ, zero, suc, ◌+◌, ◌*◌, ◌<◌, ◌≡◌, ap, refl, true, false, some, List, [], ◌∷◌, ◌++◌, map,
  get_elem?, length, length-replicate, set, replicate, arith,
}
use mks65_symphony.Threads.{
  Pc, connected, waiting, sending, awaiting, at_barrier, released, finished, MainPc, idle, at_gate,
  System, setup, Move, greet, wake, send_file, answer, tell_play, waits, let_go, accept,
  write_files, signal, enter, thread, open_barrier, Reach, here, next,
}

Reach-trans : {s t u : System} → Reach s t → Reach t u → Reach s u
Reach-trans r here = r
Reach-trans r (next q st) = next (Reach-trans r q) st

abbrev moved : System → ℕ → List Pc → System
moved s arrived threads = record s { arrived = arrived; threads = threads }

get-mid : (xs ys : List Pc) (p : Pc) → get_elem? (xs ++ p ∷ ys) (length xs) ≡ some p
get-mid [] ys p = refl
get-mid (x ∷ xs) ys p = get-mid xs ys p

set-mid : (xs ys : List Pc) (p p' : Pc) → set (xs ++ p ∷ ys) (length xs) p' ≡ (xs ++ p' ∷ []) ++ ys
set-mid [] ys p p' = refl
set-mid (x ∷ xs) ys p p' = ap (λ (l : List Pc). x ∷ l) (set-mid xs ys p p')

-- All threads take the same step, one after the other.
sweep :
    (s : System) (xs : List Pc) (k a b : ℕ) (p p' : Pc)
    → Move s.midi_ready p p'
    → a + k * waits p' ≡ b
    → Reach (moved s a (xs ++ replicate k p)) (moved s b (xs ++ replicate k p'))
sweep s xs zero a b p p' m e =
    let same : a ≡ b = omega (arith, e) in
    subst (λ (c : ℕ). Reach (moved s a (xs ++ [])) (moved s c (xs ++ []))) same here
sweep s xs (suc k) a b p p' m e =
    let first : Reach (moved s a (xs ++ p ∷ replicate k p))
        (moved s (a + waits p') ((xs ++ p' ∷ []) ++ replicate k p)) =
      subst
        (λ (l : List Pc). Reach (moved s a (xs ++ p ∷ replicate k p)) (moved s (a + waits p') l))
        (set-mid xs (replicate k p) p p')
        (next here (thread (length xs) (get-mid xs (replicate k p) p) m)) in
    let sum : a + waits p' + k * waits p' ≡ b = omega (arith, e) in
    subst (λ (l : List Pc). Reach (moved s a (xs ++ p ∷ replicate k p)) (moved s b l))
      (append_assoc xs (p' ∷ []) (replicate k p'))
      (Reach-trans first (sweep s (xs ++ p' ∷ []) k (a + waits p') b p p' m sum))

replicate-snoc : (n : ℕ) (p : Pc) → replicate n p ++ p ∷ [] ≡ replicate (suc n) p
replicate-snoc zero p = refl
replicate-snoc (suc n) p = ap (λ (l : List Pc). p ∷ l) (replicate-snoc n p)

all_connect : (n : ℕ) → Reach setup (moved setup 0 (replicate n connected))
all_connect zero = here
all_connect (suc n) =
    subst (λ (l : List Pc). Reach setup (moved setup 0 l)) (replicate-snoc n connected)
      (next (all_connect n) (accept refl refl))

map-let_go : (n : ℕ) → map let_go (replicate n at_barrier) ≡ replicate n released
map-let_go zero = refl
map-let_go (suc n) = ap (λ (l : List Pc). released ∷ l) (map-let_go n)

abbrev after_signal : ℕ → MainPc → ℕ → Pc → System
after_signal n main arrived p = record {
  accepting = false;
  midi_ready = true;
  barrier = some (n + 1);
  arrived = arrived;
  main = main;
  threads = replicate n p;
  former = 0;
}

entered : (n : ℕ) → 0 < n → Reach setup (after_signal n at_gate 1 waiting)
entered n pos =
    let joined =
      Reach-trans (all_connect n) (sweep setup [] n 0 0 connected waiting greet (omega arith)) in
    let many = length-replicate n waiting in
    let r =
      next (next (next joined (write_files refl (omega (arith, many)))) (signal refl))
        (enter refl) in
    subst
      (λ (k : ℕ).
        Reach setup (record (after_signal n at_gate 1 waiting) { barrier = some (k + 1) }))
      many r

-- For any number of clients but none there is a run from the server's start in which `handle_play`
-- comes back from its barrier and every client has been told to play.
pub all_play :
    (n : ℕ)
    → 0 < n
    → (s : System) × Reach setup s × (s.main ≡ idle) × (s.threads ≡ replicate n finished)
all_play n pos =
    let s = after_signal n at_gate 1 waiting in
    let there = Reach-trans (entered n pos) (
      Reach-trans (sweep s [] n 1 1 waiting sending (wake refl) (omega arith)) (
        Reach-trans (sweep s [] n 1 1 sending awaiting send_file (omega arith))
          (sweep s [] n 1 (n + 1) awaiting at_barrier answer (omega arith)))) in
    let opened : Reach setup (after_signal n idle 0 released) =
      subst (λ (l : List Pc). Reach setup (record (after_signal n idle 0 released) { threads = l }))
        (map-let_go n) (next there (open_barrier (n + 1) refl refl)) in
    let done =
      Reach-trans opened (
        sweep (after_signal n idle 0 released) [] n 0 0 released finished tell_play
          (omega arith)) in
    (after_signal n idle 0 finished, done, refl, refl)
