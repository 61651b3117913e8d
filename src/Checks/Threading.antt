-- ===== src/Checks/Threading.antt =====
-- Witnesses for the threads of server/server_thread.c.
use mks65_symphony.Prelude.{ℕ, ◌≡◌, refl, true, false, some, [], ◌∷◌, arith}
use mks65_symphony.Threads.{
  Pc, waiting, sending, at_barrier, finished, gone, MainPc, idle, at_gate, System, setup, greet,
  wake, send_file, fail, answer, tell_play, accept, write_files, signal, enter, thread,
  open_barrier, Reach, here, next, Run, reconnect, Reach-Run,
}
use mks65_symphony.Threads.Counts.{AreAfter}
use mks65_symphony.Threads.Safety.{finished-AreAfter}
use mks65_symphony.Threads.Stuck.{play-blocked}
use mks65_symphony.Threads.Together.{all_play}

-- One client; `play` waits in the barrier and the client's thread stands at `p`.
abbrev playing : Pc → System
playing p = record {
  accepting = false;
  midi_ready = true;
  barrier = some 2;
  arrived = 1;
  main = at_gate;
  threads = p ∷ [];
  former = 0;
}

-- The barrier is open.
abbrev opened : MainPc → ℕ → Pc → System
opened m arrived p = record {
  accepting = false;
  midi_ready = true;
  barrier = some 2;
  arrived = arrived;
  main = m;
  threads = p ∷ [];
  former = 0;
}

abbrev one_client : Pc → System
one_client p = record setup { threads = p ∷ [] }

started : Reach setup (one_client waiting)
started = next (next here (accept refl refl)) (thread 0 refl greet)

entered : Reach setup (playing waiting)
entered = next (next (next started (write_files refl (omega arith))) (signal refl)) (enter refl)

sent : Reach setup (playing sending)
sent = next entered (thread 0 refl (wake refl))

all_there : Reach setup (record (playing at_barrier) { arrived = 2 })
all_there = next (next sent (thread 0 refl send_file)) (thread 0 refl answer)

told : Reach setup (opened idle 0 finished)
told = next (next all_there (open_barrier 2 refl refl)) (thread 0 refl tell_play)

finished_example : AreAfter (finished ∷ []) × (false ≡ false)
finished_example = finished-AreAfter (opened idle 0 finished) 0 told refl

failed : Reach setup (playing gone)
failed = next sent (thread 0 refl fail)

-- `reconnect` after that: clients are accepted again, with the finished thread still there.
reopened : Run setup (record (opened idle 0 finished) { accepting = true; former = 1 })
reopened = reconnect (Reach-Run told) refl

blocked_example : at_gate ≡ at_gate
blocked_example = play-blocked (playing gone) (playing gone) 0 failed refl refl here

-- A second `play`, after the first one went well.
again : Reach setup (opened at_gate 1 finished)
again = next (next (next told (write_files refl (omega arith))) (signal refl)) (enter refl)

all_play_example :
    (s : System) × Reach setup s
    × (s.main ≡ idle)
    × (s.threads ≡ finished ∷ finished ∷ finished ∷ [])
all_play_example = all_play 3 (omega arith)
