-- ===== src/Server.antt =====
-- The loop of main in server/shell.c: each turn takes a line from readline, or a connection from the
-- listening socket. The wait of `handle_play` in its barrier stands in Threads.antt.
pub mod Ends
pub mod Main
pub mod Numbered
use mks65_symphony.Prelude.{
  ℕ, Bool, true, false, Option, none, some, List, [], ◌∷◌, if◌then◌else◌, Result, ok, trap, Trap,
  ◌>>=◌, ◌>>◌, ◌&&◌,
}
use Trap.{uninitialised, exited}
use mks65_symphony.Midi.{Bytes}
use mks65_symphony.Shell.{Handler, Reaction, exits, ignored, calls, says, cb_linehandler}
use mks65_symphony.Commands.State.{Host, ServerState}
use mks65_symphony.Commands.{
  Returns, handle_load, handle_play, handle_pause, handle_resume, handle_loop, handle_noloop,
  handle_restart, handle_seek, handle_status, handle_quit, handle_reconnect, handle_socket,
}

-- What `select` finds ready: a line that readline has whole, or the listening socket, whose `accept`
-- may fail, and for which pthread_create may start no thread.
pub data Ready : Type 0 where
  line : Option Bytes → Ready
  connection : (accepted starts : Bool) → Ready

abbrev pub state_of : Returns → Result ServerState
state_of r = r >>= λ p. ok p.1

-- `(cur_cmd->fn)()`. The table calls `load` and `seek` only with an argument.
abbrev pub call : Host → Handler → ServerState → Result ServerState
call host Handler.handle_load s = trap uninitialised
call host Handler.handle_play s = state_of (handle_play host s)
call host Handler.handle_pause s = state_of (handle_pause s)
call host Handler.handle_resume s = state_of (handle_resume s)
call host Handler.handle_restart s = state_of (handle_restart s)
call host Handler.handle_seek s = trap uninitialised
call host Handler.handle_loop s = state_of (handle_loop s)
call host Handler.handle_noloop s = state_of (handle_noloop s)
call host Handler.handle_status s = handle_status host s >>= λ shown. ok s
call host Handler.handle_quit s = state_of (handle_quit s)
call host Handler.handle_reconnect s = ok (handle_reconnect s)
call host Handler.handle_help s = ok s

-- `(cur_cmd->fn)(args[1])`.
abbrev pub call_with : Host → Handler → Bytes → ServerState → Result ServerState
call_with host Handler.handle_load arg s = state_of (handle_load host arg s)
call_with host Handler.handle_seek arg s = state_of (handle_seek host arg s)
call_with host fn arg s = call host fn s

-- `shell_exit` ends with exit(1).
abbrev pub react : Host → Reaction → ServerState → Result ServerState
react host exits s = trap (exited 1)
react host ignored s = ok s
react host (says messages) s = ok s
react host (calls fn none) s = call host fn s
react host (calls fn (some arg)) s = call_with host fn arg s

-- `new_server_thread`, which exits without a thread.
unfoldable pub new_server_thread : (starts : Bool) → Result (Unit {0})
new_server_thread starts = if starts then ok tt else trap (exited 1)

-- `handle_socket` starts a thread before it puts the client into its list, if it takes the client.
unfoldable pub client_thread : (taken starts : Bool) → Result (Unit {0})
client_thread taken starts = if taken then new_server_thread starts else ok tt

abbrev pub server_turn : Host → Ready → ServerState → Result ServerState
server_turn host (line text) s = cb_linehandler text >>= λ r. react host r s
server_turn host (connection accepted starts) s =
    client_thread (accepted && s.accepting_clients) starts >> ok (handle_socket accepted s).1

-- `while (running)`, for as long as something is ready.
unfoldable pub server_loop : Host → List Ready → ServerState → Result ServerState
server_loop host [] s = ok s
server_loop host (e ∷ events) s =
    let next = server_turn host e s >>= server_loop host events in if s.running then next else ok s
