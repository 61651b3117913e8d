-- ===== src/Client.antt =====
-- client/client.c, with `confirm_connection` of client/socket_client.c and the codes of
-- client_protocol.h: the client's loop over what the server sends. The socket is a parameter: the
-- bytes still to come, and whether it then reports an error or the end of the connection.
pub mod Main
pub mod Reads
pub mod Commands
pub mod Play
pub mod Short
use mks65_symphony.Prelude.{
  ℕ, zero, suc, ◌+◌, ◌-◌, ◌≤◌, Bool, true, false, Option, none, some, List, [], ◌∷◌, ◌++◌, map,
  ◌==◌, if◌then◌else◌, length, take, drop, Result, ok, trap, Trap, ◌>>=◌, ◌>>◌, check,
}
use Trap.{uninitialised, out_of_bounds, exited}
use mks65_symphony.Midi.{Bytes}
use mks65_symphony.Transfer.{Transferred, recvall, ntohl}
use Reads.{Stream, ReadResult, failed, got, read, after}

abbrev pub client_play : ℕ
client_play = 0

abbrev pub client_pause : ℕ
client_pause = 1

abbrev pub client_resume : ℕ
client_resume = 2

abbrev pub client_seek : ℕ
client_seek = 3

abbrev pub client_loop : ℕ
client_loop = 4

abbrev pub client_noloop : ℕ
client_noloop = 5

abbrev pub client_nfile : ℕ
client_nfile = 6

abbrev pub client_quit : ℕ
client_quit = 7

-- What the client does to its player, and a byte that it sends to the server.
pub data Action : Type 0 where
  play : Action
  pause : Action
  seek : (tick : ℕ) → Action
  set_loop : (looping : Bool) → Action
  add_mem : (buff : Bytes) → Action
  sends : (byte : ℕ) → Action

-- The byte that says that the file is there. It is not CLIENT_READY of client_protocol.h, which is 10.
abbrev pub ready : Action
ready = sends 1

-- The variables of `main`, and what it has done so far, the last first.
pub record ClientState : Type 0 where
  pub sbuf : ℕ
  pub fbuff : Option Bytes
  pub running : Bool
  pub actions : List Action
  pub stream : Stream

abbrev pub does : ClientState → Action → ClientState
does c a = record c { actions = a ∷ c.actions }

-- `read(sockfd, &sbuf, 1)`: nothing is stored where it fails or gives no byte.
unfoldable pub stored_command : ClientState → ReadResult → ClientState
stored_command c (got (b ∷ [])) = record c { sbuf = b; stream = after 1 c.stream }
stored_command c _ = c

unfoldable pub read_command : ClientState → ClientState
unfolding stored_command
read_command c = stored_command c (read 1 c.stream)

-- A tick of which not all four bytes came is used with bytes that were never set.
unfoldable pub tick_of : Bytes → Result ℕ
tick_of (a ∷ b ∷ c ∷ d ∷ []) = ok (ntohl a b c d)
tick_of _ = trap uninitialised

-- The case CLIENT_SEEK; `client_exit` exits with EXIT_FAILURE.
unfoldable pub seek_case : ClientState → Result ClientState
unfolding tick_of
seek_case c = elim (read 4 c.stream) [
  | failed ↦ trap (exited 1)
  | got bytes ↦
      tick_of bytes >>= λ tick. ok (does (record c { stream = after 4 c.stream }) (seek tick))
]

-- `fsize` starts as 0, so bytes that do not come are 0.
unfoldable pub size_of : Bytes → ℕ
size_of [] = 0
size_of (a ∷ []) = ntohl a 0 0 0
size_of (a ∷ b ∷ []) = ntohl a b 0 0
size_of (a ∷ b ∷ c ∷ []) = ntohl a b c 0
size_of (a ∷ b ∷ c ∷ d ∷ s) = ntohl a b c d

-- The buffer and the stream behind it; `none` is the null pointer.
unfoldable pub receive_file : Stream → ℕ → Result (Option (Bytes × Stream))
receive_file s fsize = do
  r ← recvall (map some (s.pieces fsize s.incoming)) fsize
  ok (if r.failed then none else some (r.moved, after fsize s))

unfoldable pub get_file : Stream → Result (Option (Bytes × Stream))
get_file s = elim (read 4 s) [
  | failed ↦ ok none
  | got bytes ↦ receive_file (after (length bytes) s) (size_of bytes)
]

-- The case CLIENT_NFILE, once the file is there. The `sbuf` that it sends is another variable.
unfoldable pub take_file : ClientState → Bytes → Stream → Result ClientState
take_file c buff s =
    if s.can_send
    then ok (record c { fbuff = some buff; actions = ready ∷ add_mem buff ∷ c.actions; stream = s })
    else trap (exited 1)

unfoldable pub nfile_case : ClientState → Result ClientState
nfile_case c = do
  file ← get_file c.stream
  elim file [ none ↦ trap (exited 1) | some (buff, s) ↦ take_file c buff s ]

unfoldable pub switch : ClientState → Result ClientState
switch c =
    if c.sbuf == client_play
    then ok (does c play)
    else if c.sbuf == client_pause
    then ok (does c pause)
    else if c.sbuf == client_resume
    then ok (does c play)
    else if c.sbuf == client_seek
    then seek_case c
    else if c.sbuf == client_loop
    then ok (does c (set_loop true))
    else if c.sbuf == client_noloop
    then ok (does c (set_loop false))
    else if c.sbuf == client_nfile
    then nfile_case c
    else if c.sbuf == client_quit
    then ok (record c { running = false })
    else ok c

-- One round of the loop; after CLIENT_QUIT there is none.
unfoldable pub client_step : ClientState → Result ClientState
client_step c = if c.running then switch (read_command c) else ok c

unfoldable pub client_run : ℕ → ClientState → Result ClientState
client_run zero c = ok c
client_run (suc rounds) c = client_step c >>= client_run rounds

-- The greeting: at most 10 bytes, the last one overwritten, and the client's number.
unfoldable pub confirm_connection : Stream → Result (Option (Bytes × ℕ × Stream))
unfolding tick_of
confirm_connection s = elim (read 10 s) [
  | failed ↦ ok none
  | got [] ↦ trap out_of_bounds
  | got (b ∷ buf) ↦
      let rest = after (suc (length buf)) s in
      elim (read 4 rest) [
        | failed ↦ ok none
        | got bytes ↦
            tick_of bytes >>= λ id. ok (some (take (length buf) (b ∷ buf), id, after 4 rest))
      ]
]
