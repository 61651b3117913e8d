-- ===== src/Threads.antt =====
-- The threads of the server: `server_thread` of server/server_thread.c for each client, and the
-- main thread with `handle_play`, `create_midi_files` and `handle_socket` of server/cmd_handlers.c,
-- as interleaved steps over the condition, the barrier and the list of threads that they share.
-- `Reach` is a run without `reconnect`, `Run` is any run. `create_midi_files` returns or ends the
-- process, with which every run ends, as does a thread that cannot open its client's file.
pub mod Counts
pub mod Safety
pub mod Stuck
pub mod Together
use mks65_symphony.Prelude.{
  ℕ, zero, suc, ◌+◌, ◌<◌, ◌≡◌, Bool, true, false, Option, none, some, List, [], ◌∷◌, ◌++◌, map,
  get_elem?, length, set, drop,
}

-- Where the thread of a client stands: before the greeting is out; before or in the wait for
-- `midi_ready`; sending the file; waiting for the client's answer; in `pthread_barrier_wait`;
-- behind it; having sent CLIENT_PLAY and returned; having closed the connection on an error.
pub data Pc : Type 0 where
  connected waiting sending awaiting at_barrier released finished gone : Pc

-- The main thread: reading commands or accepting clients; in `create_midi_files`; in `handle_play`
-- with `midi_ready` set and the barrier there; in its `pthread_barrier_wait`.
pub data MainPc : Type 0 where
  idle writing signalled at_gate : MainPc

-- The first `former` threads are from before the last `reconnect`: they go on, with the condition and
-- the barrier that all share, and are no more in the list `clients`.
pub record System : Type 0 where
  pub accepting : Bool
  pub midi_ready : Bool
  pub barrier : Option ℕ
  pub arrived : ℕ
  pub main : MainPc
  pub threads : List Pc
  pub former : ℕ

abbrev pub setup : System
setup = record {
  accepting = true;
  midi_ready = false;
  barrier = none;
  arrived = 0;
  main = idle;
  threads = [];
  former = 0;
}

abbrev pub clients_of : System → List Pc
clients_of s = drop s.former s.threads

-- `if (!barrier_initialized) pthread_barrier_init(..., clients->len + 1)`.
abbrev pub barrier_count : Option ℕ → List Pc → ℕ
barrier_count none threads = length threads + 1
barrier_count (some k) threads = k

-- One step of a client's thread.
pub data Move (midi_ready : Bool) : Pc → Pc → Type 0 where
  greet : Move midi_ready connected waiting
  wake : midi_ready ≡ true → Move midi_ready waiting sending
  send_file : Move midi_ready sending awaiting
  fail : Move midi_ready sending gone
  answer : Move midi_ready awaiting at_barrier
  tell_play : Move midi_ready released finished

-- Whether a thread counts as waiting at the barrier.
abbrev pub waits : Pc → ℕ
waits at_barrier = 1
waits _ = 0

abbrev pub main_waits : MainPc → ℕ
main_waits at_gate = 1
main_waits _ = 0

-- What the barrier does to a thread when it opens.
abbrev pub let_go : Pc → Pc
let_go at_barrier = released
let_go p = p

abbrev pub main_let_go : MainPc → MainPc
main_let_go at_gate = idle
main_let_go m = m

-- `pthread_barrier_wait` is two steps: one arrives, and once the count is reached all go on.
pub data Step (s : System) : System → Type 0 where
  accept :
      s.main ≡ idle
      → s.accepting ≡ true
      → Step s (record s { threads = s.threads ++ connected ∷ [] })
  write_files :
      s.main ≡ idle
      → 0 < length (clients_of s)
      → Step s (record s { accepting = false; midi_ready = false; main = writing })
  signal :
      s.main ≡ writing
      → Step s (record s {
        midi_ready = true;
        barrier = some (barrier_count s.barrier (clients_of s));
        main = signalled;
      })
  enter : s.main ≡ signalled → Step s (record s { arrived = s.arrived + 1; main = at_gate })
  thread :
      (i : ℕ) {p p' : Pc}
      → get_elem? s.threads i ≡ some p
      → Move s.midi_ready p p'
      → Step s (record s { threads = set s.threads i p'; arrived = s.arrived + waits p' })
  open_barrier :
      (k : ℕ)
      → s.barrier ≡ some k
      → s.arrived ≡ k
      → Step s (record s { arrived = 0; main = main_let_go s.main; threads = map let_go s.threads })

-- Without `reconnect`.
pub data Reach (s : System) : System → Type 0 where
  here : Reach s s
  next : {t u : System} → Reach s t → Step t u → Reach s u

-- With `handle_reconnect`, which starts a new list and accepts clients again.
pub data Run (s : System) : System → Type 0 where
  start : Run s s
  step : {t u : System} → Run s t → Step t u → Run s u
  reconnect :
      {t : System}
      → Run s t
      → t.main ≡ idle
      → Run s (record t { accepting = true; former = length t.threads })

pub Reach-Run : {s t : System} → Reach s t → Run s t
Reach-Run here = start
Reach-Run (next r st) = step (Reach-Run r) st
