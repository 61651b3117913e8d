-- ===== src/Commands.antt =====
-- The handlers of server/cmd_handlers.c, over its globals. Each gives the value that it returns, -1
-- as `none`, and the new state. What `handle_play` does up to `pthread_barrier_wait` stands here;
-- the wait, and the clients' threads, stand in Threads.antt.
pub mod Numbers
pub mod State
pub mod Files
pub mod Seek
pub mod Clients
pub mod Play
pub mod Again
use mks65_symphony.Prelude.{
  ℕ, zero, suc, ◌+◌, ◌*◌, ◌/◌, Bool, true, false, Option, none, some, List, [], ◌∷◌, ◌++◌, ◌==◌,
  leb, if◌then◌else◌, length, Result, ok, trap, Trap, ◌>>=◌, ◌>>◌, check,
}
use Trap.{out_of_bounds, overflow, div_by_zero}
use mks65_symphony.Midi.{Bytes, Mfile}
use mks65_symphony.Reader.Load.{mfile_from_file}
use mks65_symphony.Player.{
  Fluid, PlayerState, player_setup, player_add_midi_file, player_play, player_pause, player_seek,
  player_setloop, player_restart, player_cleanup, player_get_total_ticks, player_get_cur_tick,
  player_get_status,
}
use Numbers.{isnum, atoi, int_max}
use State.{Host, ServerState}
use Files.{create_midi_files}

abbrev pub Returns : Type 0
Returns = Result (Option ℕ × ServerState)

abbrev pub with_player : ServerState → (PlayerState → PlayerState) → ServerState
with_player s f = record s { player = f s.player }

unfoldable pub setup_connections : ServerState → ServerState
setup_connections s = record s { clients = []; tid = 0; accepting_clients = true }

unfoldable pub clear_connections : ServerState → ServerState
clear_connections s = record s { clients = []; tid = 0 }

-- A file that cannot be loaded replaces the one that was.
abbrev pub loaded : ServerState → Option Mfile → Option ℕ × ServerState
loaded s none = (none, record s { mfile = none })
loaded s (some m) = (some 0, record s { mfile = some m })

unfoldable pub handle_load : Host → Bytes → ServerState → Returns
handle_load host filepath s =
    if host.is_midifile filepath
    then (mfile_from_file (host.opens filepath) (host.parse filepath) filepath >>= λ m.
        ok (loaded s m))
    else ok (none, s)

-- The path that `player_add_midi_file` gets; `Mfile_from_file` has set it.
abbrev pub path_of : Mfile → Bytes
path_of m = elim m.fullpath [ none ↦ [] | some path ↦ path ]

abbrev pub add_loaded : Host → Mfile → ServerState → ServerState
add_loaded host m s =
    with_player (with_player s (player_setup host.fluid)) (player_add_midi_file (path_of m))

unfoldable pub play_alone : Host → Mfile → ServerState → ServerState
play_alone host m s =
    let t = add_loaded host m s in if host.server_noplay then t else with_player t player_play

abbrev pub count_of : Option ℕ → ℕ → ℕ
count_of none n = n + 1
count_of (some k) n = k

unfoldable pub play_with_clients : Host → Mfile → ServerState → Result ServerState
play_with_clients host m s = do
  t ← create_midi_files host s
  let u : ServerState = record t {
    midi_ready = true;
    barrier = some (count_of t.barrier (length t.clients));
  }
  ok (if host.server_noplay then u else add_loaded host m u)

abbrev pub play_file : Host → Option Mfile → ServerState → Returns
play_file host none s = ok (none, s)
play_file host (some m) s =
    if length s.clients == 0
    then ok (some 1, play_alone host m s)
    else play_with_clients host m s >>= λ t. ok (some 1, t)

unfoldable pub handle_play : Host → ServerState → Returns
unfolding play_alone play_with_clients
handle_play host s = play_file host s.mfile s

unfoldable pub handle_pause : ServerState → Returns
handle_pause s = ok (some 0, with_player s player_pause)

unfoldable pub handle_resume : ServerState → Returns
handle_resume s = ok (some 0, with_player s player_play)

unfoldable pub handle_loop : ServerState → Returns
handle_loop s = ok (some 0, with_player s (player_setloop 1))

unfoldable pub handle_noloop : ServerState → Returns
handle_noloop s = ok (some 0, with_player s (player_setloop 0))

unfoldable pub handle_restart : ServerState → Returns
handle_restart s = ok (some 0, with_player s player_restart)

-- `val[n-1]`, and the text before it.
unfoldable pub last_byte : Bytes → Option (Bytes × ℕ)
last_byte [] = none
last_byte (c ∷ s) = elim (last_byte s) [
  | none ↦ some ([], c)
  | some (front, d) ↦ some (c ∷ front, d)
]

abbrev pub seek_part : Host → ℕ → ServerState → Returns
seek_part host p s =
    let ticks = p * player_get_total_ticks host.fluid s.player in
    if leb p 100
    then (check (leb ticks int_max) overflow
        >> ok (some 0, with_player s (player_seek (ticks / 100))))
    else ok (none, s)

unfoldable pub seek_percent : Host → Bytes → ServerState → Returns
seek_percent host val s = if isnum val then (atoi val >>= λ p. seek_part host p s) else ok (none, s)

unfoldable pub seek_tick : Bytes → ServerState → Returns
seek_tick val s =
    if isnum val
    then (atoi val >>= λ tick. ok (some 0, with_player s (player_seek tick)))
    else ok (none, s)

-- By the text before the last byte, and the last byte.
abbrev pub seek_by : Host → Option (Bytes × ℕ) → Bytes → ServerState → Returns
seek_by host none val s = trap out_of_bounds
seek_by host (some (front, c)) val s =
    if c == 37 then seek_percent host front s else seek_tick val s

unfoldable pub handle_seek : Host → Bytes → ServerState → Returns
unfolding last_byte
handle_seek host val s = seek_by host (last_byte val) val s

-- What `handle_status` prints of the player: its status, the position, the end, the percentage.
abbrev pub position : Host → ServerState → Option ℕ → Result (Option (ℕ × ℕ × ℕ × ℕ))
position host s none = ok none
position host s (some status) =
    let cur = player_get_cur_tick host.fluid s.player in
    let total = player_get_total_ticks host.fluid s.player in
    check (leb (100 * cur) int_max) overflow
    >> (if total == 0 then trap div_by_zero else ok (some (status, cur, total, 100 * cur / total)))

unfoldable pub handle_status : Host → ServerState → Result (Option (ℕ × ℕ × ℕ × ℕ))
handle_status host s = player_get_status host.fluid s.player >>= position host s

-- The threads are cancelled, and what the globals point at is freed and not used again.
unfoldable pub handle_quit : ServerState → Returns
handle_quit s = ok (some 2, record (with_player s player_cleanup) { running = false })

unfoldable pub handle_reconnect : ServerState → ServerState
unfolding setup_connections clear_connections
handle_reconnect s = setup_connections (clear_connections s)

-- Whether `accept` gives a connection. 1 is an error, 2 a connection that is closed at once; with
-- a new client the function ends without a return.
abbrev pub taken : Bool → ServerState → Option ℕ × ServerState
taken true s = (none, record s { clients = s.clients ++ s.tid ∷ []; tid = s.tid + 1 })
taken false s = (some 2, s)

unfoldable pub handle_socket : Bool → ServerState → Option ℕ × ServerState
handle_socket false s = (some 1, s)
handle_socket true s = taken s.accepting_clients s
