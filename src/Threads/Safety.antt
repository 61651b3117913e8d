-- ===== src/Threads/Safety.antt =====
-- The state that the threads of server/server_thread.c share, at every point of every run.
use mks65_symphony.Prelude.{
  ℕ, ◌+◌, ◌≤◌, ◌≡◌, ◌∙◌, sym, ap, ◌⊎◌, inl, inr, refl, Bool, true, false, Option, none, some, List,
  [], ◌∷◌, ◌++◌, map, get_elem?, length, length-set, set, drop, arith,
}
use mks65_symphony.Threads.{
  Pc, connected, finished, MainPc, idle, writing, signalled, at_gate, System, setup, barrier_count,
  Move, greet, wake, send_file, fail, answer, tell_play, waits, main_waits, let_go, main_let_go,
  Step, accept, write_files, signal, enter, thread, open_barrier, Reach, here, next,
}
use mks65_symphony.Threads.Counts.{
  total, total-le, total-nil, total-set, total-snoc, total-let_go, is_after, AreAfter, AreBefore,
  let_go-AreAfter, All-set, All-get, AreBefore-snoc,
}

pub record Invariant (s : System) : Type 0 where
  pub gate : s.arrived ≡ total s.threads + main_waits s.main
  pub count : (k : ℕ) → s.barrier ≡ some k → k ≡ length s.threads + 1
  pub closed : (k : ℕ) → s.barrier ≡ some k → s.accepting ≡ false
  pub shut : s.main ≡ writing → s.accepting ≡ false
  pub phase : AreBefore s.threads ⊎ (AreAfter s.threads × (s.accepting ≡ false))
  pub one_list : s.former ≡ 0

pub setup-Invariant : Invariant setup
setup-Invariant = record {
  gate = omega (arith, total-nil);
  count = λ k h. cc;
  closed = λ k h. cc;
  shut = λ h. cc;
  phase = inl tt;
  one_list = refl;
}

length-let_go : (ps : List Pc) → length (map let_go ps) ≡ length ps
length-let_go [] = refl
length-let_go (p ∷ ps) = ground (arith, length-let_go ps)

pub Move-waits : {b : Bool} {p p' : Pc} → Move b p p' → waits p ≡ 0
Move-waits greet = refl
Move-waits (wake h) = refl
Move-waits send_file = refl
Move-waits fail = refl
Move-waits answer = refl
Move-waits tell_play = refl

Move-is_after : {b : Bool} {p p' : Pc} → Move b p p' → is_after p' ≡ is_after p
Move-is_after greet = refl
Move-is_after (wake h) = refl
Move-is_after send_file = refl
Move-is_after fail = refl
Move-is_after answer = refl
Move-is_after tell_play = refl

-- A list in which all have passed stays so, and one in which none has.
set-phase :
    (s : System) (i : ℕ) (p p' : Pc)
    → get_elem? s.threads i ≡ some p
    → is_after p' ≡ is_after p
    → AreBefore s.threads ⊎ (AreAfter s.threads × (s.accepting ≡ false))
    → AreBefore (set s.threads i p') ⊎ (AreAfter (set s.threads i p') × (s.accepting ≡ false))
set-phase s i p p' at same (inl a) =
    inl (All-set false s.threads i p' (same ∙ All-get false s.threads i p a at) a)
set-phase s i p p' at same (inr a) =
    inr ((All-set true s.threads i p' (same ∙ All-get true s.threads i p a.0 at) a.0), a.1)

main_waits-le : (m : MainPc) → main_waits m ≤ 1
main_waits-le m = ground arith

-- The barrier opens only with every client's thread and the main thread in it.
pub all_in :
    (s : System) (k : ℕ)
    → Invariant s
    → s.barrier ≡ some k
    → s.arrived ≡ k
    → (total s.threads ≡ length s.threads) × (main_waits s.main ≡ 1)
all_in s k inv b full =
    let n = total-le s.threads in
    let m = main_waits-le s.main in
    (omega (arith, n, m, inv.gate, inv.count k b), omega (arith, n, m, inv.gate, inv.count k b))

accept-phase :
    (s : System)
    → s.accepting ≡ true
    → AreBefore s.threads ⊎ (AreAfter s.threads × (s.accepting ≡ false))
    → AreBefore (s.threads ++ connected ∷ [])
      ⊎ (AreAfter (s.threads ++ connected ∷ []) × (s.accepting ≡ false))
accept-phase s a (inl b) = inl (AreBefore-snoc s.threads b)
accept-phase s a (inr b) = inr (cc (b.1, a))

shut-phase :
    (s : System)
    → AreBefore s.threads ⊎ (AreAfter s.threads × (s.accepting ≡ false))
    → AreBefore s.threads ⊎ (AreAfter s.threads × (false ≡ false))
shut-phase s (inl b) = inl b
shut-phase s (inr b) = inr (b.0, refl)

signal-count :
    (o : Option ℕ) (ps : List Pc) (k : ℕ)
    → ((j : ℕ) → o ≡ some j → j ≡ length ps + 1)
    → some (barrier_count o ps) ≡ some k
    → k ≡ length ps + 1
signal-count none ps k count b = cc
signal-count (some j) ps k count b = cc (count j refl)

main_let_go-waits : (m : MainPc) → main_waits (main_let_go m) ≡ 0
main_let_go-waits idle = refl
main_let_go-waits writing = refl
main_let_go-waits signalled = refl
main_let_go-waits at_gate = refl

pub step-Invariant : {s t : System} → Invariant s → Step s t → Invariant t
step-Invariant {s} inv (accept h a) = record {
  gate = omega (arith, total-snoc s.threads, inv.gate);
  count = λ k b. cc (inv.closed k b);
  closed = λ k b. inv.closed k b;
  shut = inv.shut;
  phase = accept-phase s a inv.phase;
  one_list = inv.one_list;
}
step-Invariant {s} inv (write_files h l) = record {
  gate = inv.gate ∙ ap (λ (m : MainPc). total s.threads + main_waits m) h;
  count = inv.count;
  closed = λ k b. refl;
  shut = λ e. refl;
  phase = shut-phase s inv.phase;
  one_list = inv.one_list;
}
step-Invariant {s} inv (signal h) = record {
  gate = inv.gate ∙ ap (λ (m : MainPc). total s.threads + main_waits m) h;
  count = λ k b.
      signal-count s.barrier s.threads k inv.count
        (ap (λ (f : ℕ). some (barrier_count s.barrier (drop f s.threads))) (sym inv.one_list) ∙ b);
  closed = λ k b. inv.shut h;
  shut = λ e. inv.shut h;
  phase = inv.phase;
  one_list = inv.one_list;
}
step-Invariant {s} inv (enter h) = record {
  gate = let e = ap main_waits h in omega (arith, e, inv.gate);
  count = inv.count;
  closed = inv.closed;
  shut = λ e. cc;
  phase = inv.phase;
  one_list = inv.one_list;
}
step-Invariant {s} inv (thread i {p} {p'} at m) = record {
  gate = omega (arith, inv.gate, total-set s.threads i p p' at, Move-waits m);
  count = λ k b. inv.count k b ∙ ap (λ (n : ℕ). n + 1) (sym (length-set s.threads i p'));
  closed = inv.closed;
  shut = inv.shut;
  phase = set-phase s i p p' at (Move-is_after m) inv.phase;
  one_list = inv.one_list;
}
step-Invariant {s} inv (open_barrier k b full) = record {
  gate = omega (arith, total-let_go s.threads, main_let_go-waits s.main);
  count = λ j e. inv.count j e ∙ ap (λ (n : ℕ). n + 1) (sym (length-let_go s.threads));
  closed = inv.closed;
  shut = λ e. inv.closed k b;
  phase = inr (let_go-AreAfter s.threads (all_in s k inv b full).0, inv.closed k b);
  one_list = inv.one_list;
}

pub Reach-Invariant : {s t : System} → Invariant s → Reach s t → Invariant t
Reach-Invariant inv here = inv
Reach-Invariant inv (next r st) = step-Invariant (Reach-Invariant inv r) st

-- In every state that the server reaches from its start before the first `reconnect`: once the
-- thread of one client has told it to play, every client's thread has passed the barrier, so each
-- of them has sent its file and has had an answer, or the end of the connection; and no client is
-- accepted any more.
pub finished-AreAfter :
    (s : System) (i : ℕ)
    → Reach setup s
    → get_elem? s.threads i ≡ some finished
    → AreAfter s.threads × (s.accepting ≡ false)
finished-AreAfter s i r at = after (Reach-Invariant setup-Invariant r).phase
  where
    after :
        AreBefore s.threads ⊎ (AreAfter s.threads × (s.accepting ≡ false))
        → AreAfter s.threads × (s.accepting ≡ false)
    after (inl b) = cc (All-get false s.threads i finished b at)
    after (inr a) = a
