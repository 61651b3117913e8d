-- ===== src/Server/Main.antt =====
-- The whole of main in server/shell.c, with its signal handler and the ways in which it ends.
-- `select` is never restarted behind a signal's handler: it then returns -1.
use mks65_symphony.Prelude.{
  ℕ, Bool, true, false, Option, none, List, [], ◌∷◌, if◌then◌else◌, Result, ok, ◌>>=◌,
}
use mks65_symphony.Commands.State.{Host, ServerState, new_server}
use mks65_symphony.Commands.{handle_quit, setup_connections}
use mks65_symphony.Sockets.{Attempt, setup_server}
use mks65_symphony.Server.{Ready, line, server_turn}

-- SIGWINCH and SIGINT.
pub data Signal : Type 0 where
  sigwinch sigint : Signal

-- What a round of the loop meets: a signal while `select` waits or between its calls, another
-- failure of `select`, an unknown descriptor, or something ready; or that the thread of a client
-- finds that its file does not open, which `server_thread` answers with exit(1) for the process. No
-- thread comes to that before `midi_ready` is set.
pub data Turn : Type 0 where
  signal_in_select signal_between : Signal → Turn
  select_failed unknown : Turn
  no_client_file : Turn
  ready : Ready → Turn

pub record MainState : Type 0 where
  pub server : ServerState
  pub sigwinch_received : Bool

-- The process has ended: its status, the globals, and the sockets that `shell_cleanup` closed.
pub record Ended : Type 0 where
  pub status : ℕ
  pub server : ServerState
  pub closed : List ℕ

pub data Outcome : Type 0 where
  waiting : MainState → Outcome
  ended : Ended → Outcome

-- `line` and `args` are freed as well, and readline's handler is removed.
unfoldable pub shell_cleanup : ℕ → ServerState → ℕ → Outcome
shell_cleanup sockfd s status = ended (record { status = status; server = s; closed = sockfd ∷ [] })

unfoldable pub shell_exit : ℕ → ServerState → Result Outcome
unfolding shell_cleanup
shell_exit sockfd s =
    handle_quit (record s { running = false }) >>= λ r. ok (shell_cleanup sockfd r.1 1)

unfoldable pub sighandler : ℕ → Signal → MainState → Result Outcome
unfolding shell_exit
sighandler sockfd sigwinch m = ok (waiting (record m { sigwinch_received = true }))
sighandler sockfd sigint m = shell_exit sockfd m.server

-- `perror("select"); shell_cleanup(); exit(4);`
unfoldable pub after_select : ℕ → Outcome → Outcome
unfolding shell_cleanup
after_select sockfd (waiting m) = shell_cleanup sockfd m.server 4
after_select sockfd (ended e) = ended e

-- `exit(1)` without any cleaning up.
unfoldable pub thread_exit : ServerState → Outcome
thread_exit s = ended (record { status = 1; server = s; closed = [] })

-- At the end of a line of input, which readline gives as a null pointer, `cb_linehandler` calls
-- `shell_exit`.
unfoldable pub main_turn : Host → ℕ → Turn → MainState → Result Outcome
unfolding sighandler after_select shell_exit thread_exit
main_turn host sockfd (signal_in_select sig) m =
    sighandler sockfd sig m >>= λ o. ok (after_select sockfd o)
main_turn host sockfd (signal_between sig) m = sighandler sockfd sig m
main_turn host sockfd select_failed m = ok (after_select sockfd (waiting m))
main_turn host sockfd no_client_file m =
    ok (if m.server.midi_ready then thread_exit m.server else waiting m)
main_turn host sockfd unknown m = ok (waiting (record m { sigwinch_received = false }))
main_turn host sockfd (ready (line none)) m = shell_exit sockfd m.server
main_turn host sockfd (ready e) m = server_turn host e m.server >>= λ s.
    ok (waiting (record { server = s; sigwinch_received = false }))

-- `while (running)`, and the cleaning up behind it.
unfoldable pub main_loop : Host → ℕ → List Turn → MainState → Result Outcome
unfolding main_turn shell_cleanup
main_loop host sockfd [] m =
    ok (if m.server.running then waiting m else shell_cleanup sockfd m.server 0)
main_loop host sockfd (t ∷ turns) m =
    let next = main_turn host sockfd t m >>= λ o. elim o [
      | waiting m' ↦ main_loop host sockfd turns m'
      | ended e ↦ ok (ended e)
    ] in
    if m.server.running then next else ok (shell_cleanup sockfd m.server 0)

-- The globals once `main` comes to its loop.
unfoldable pub main_start : MainState
unfolding setup_connections
main_start = record {
  server = record (setup_connections new_server) { running = true };
  sigwinch_received = false;
}

unfoldable pub server_main :
    Host → (ℕ → Bool) → Option (List Attempt) → Bool → List Turn → Result Outcome
unfolding main_loop main_start setup_server
server_main host sets addresses can_listen turns =
    setup_server sets addresses can_listen >>= λ r. main_loop host r.0 turns main_start
