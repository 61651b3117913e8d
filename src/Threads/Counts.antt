-- ===== src/Threads/Counts.antt =====
-- Counting the threads of server/server_thread.c that wait at the barrier.
use mks65_symphony.Prelude.{
  ℕ, zero, suc, ◌+◌, ◌≤◌, ◌<◌, ◌≡◌, refl, Bool, true, false, some, List, [], ◌∷◌, ◌++◌, map,
  get_elem?, length, set, All, arith,
}
use mks65_symphony.Threads.{Pc, connected, released, finished, waits, let_go}

pub total : List Pc → ℕ
total [] = 0
total (p ∷ ps) = waits p + total ps

waits-le : (p : Pc) → waits p ≤ 1
waits-le p = ground arith

pub total-le : (ps : List Pc) → total ps ≤ length ps
unfolding total
total-le [] = omega arith
total-le (p ∷ ps) = omega (arith, waits-le p, total-le ps)

pub total-nil : total [] ≡ 0
unfolding total
total-nil = refl

pub total-set :
    (ps : List Pc) (i : ℕ) (p p' : Pc)
    → get_elem? ps i ≡ some p
    → total (set ps i p') + waits p ≡ total ps + waits p'
unfolding total
total-set [] i p p' h = cc
total-set (q ∷ ps) zero p p' h = ground arith
total-set (q ∷ ps) (suc i) p p' h = omega (arith, total-set ps i p p' h)

pub total-snoc : (ps : List Pc) → total (ps ++ connected ∷ []) ≡ total ps
unfolding total
total-snoc [] = refl
total-snoc (p ∷ ps) = omega (arith, total-snoc ps)

pub total-let_go : (ps : List Pc) → total (map let_go ps) ≡ 0
unfolding total
total-let_go [] = refl
total-let_go (p ∷ ps) = ground (arith, total-let_go ps)

-- A thread that does not wait is missing in the count.
pub total-lt :
    (ps : List Pc) (i : ℕ) (p : Pc) → get_elem? ps i ≡ some p → waits p ≡ 0 → total ps < length ps
unfolding total
total-lt [] i p h w = cc
total-lt (q ∷ ps) zero p h w = ground (arith, total-le ps)
total-lt (q ∷ ps) (suc i) p h w = omega (arith, waits-le q, total-lt ps i p h w)

abbrev pub is_after : Pc → Bool
is_after released = true
is_after finished = true
is_after _ = false

abbrev pub AreAfter : List Pc → Type 0
AreAfter = All (λ (p : Pc). is_after p ≡ true)

abbrev pub AreBefore : List Pc → Type 0
AreBefore = All (λ (p : Pc). is_after p ≡ false)

-- If all wait, all are let go.
pub let_go-AreAfter : (ps : List Pc) → total ps ≡ length ps → AreAfter (map let_go ps)
unfolding total
let_go-AreAfter [] h = tt
let_go-AreAfter (p ∷ ps) h =
    (ground (arith, total-le ps), let_go-AreAfter ps (ground (arith, total-le ps, waits-le p)))

pub All-set :
    (b : Bool) (ps : List Pc) (i : ℕ) (p' : Pc)
    → is_after p' ≡ b
    → All (λ (p : Pc). is_after p ≡ b) ps
    → All (λ (p : Pc). is_after p ≡ b) (set ps i p')
All-set b [] i p' h a = tt
All-set b (p ∷ ps) zero p' h a = (h, a.1)
All-set b (p ∷ ps) (suc i) p' h a = (a.0, All-set b ps i p' h a.1)

pub All-get :
    (b : Bool) (ps : List Pc) (i : ℕ) (p : Pc)
    → All (λ (q : Pc). is_after q ≡ b) ps
    → get_elem? ps i ≡ some p
    → is_after p ≡ b
All-get b [] i p a h = cc
All-get b (q ∷ ps) zero p a h = ground arith
All-get b (q ∷ ps) (suc i) p a h = All-get b ps i p a.1 h

pub AreBefore-snoc : (ps : List Pc) → AreBefore ps → AreBefore (ps ++ connected ∷ [])
AreBefore-snoc [] a = (refl, tt)
AreBefore-snoc (p ∷ ps) a = (a.0, AreBefore-snoc ps a.1)
