-- ===== src/Session.antt =====
-- `server_thread` of server/server_thread.c from its first call to its last: the bytes that it
-- writes to its client. What its calls return is a parameter: the replies of `send`, in order for
-- each `sendall`; the file that `get_midi_filename` names, `none` if `fopen` fails; whether `fread`
-- fails. What it waits for, `midi_ready` and the barrier, stands in Threads.antt.
pub mod Meeting
pub mod Program
use mks65_symphony.Prelude.{
  ℕ, zero, suc, ◌+◌, ◌%◌, ◌^◌, Bool, true, false, Option, none, some, List, [], ◌∷◌, ◌++◌, ltb,
  if◌then◌else◌, length, take, Result, ok, trap, Trap, ◌>>=◌,
}
use Trap.{exited}
use mks65_symphony.Midi.{Bytes}
use mks65_symphony.Transfer.{Transferred, sendall, htonl}
use mks65_symphony.Client.{client_play, client_nfile}

pub record Replies : Type 0 where
  pub greeting : Option ℕ
  pub id : List (Option ℕ)
  pub new_file : Option ℕ
  pub size : List (Option ℕ)
  pub file : List (Option ℕ)
  pub fread_fails : Bool
  pub play : Option ℕ

-- `return EXIT_SUCCESS`, or `handle_error`.
pub data Ending : Type 0 where
  returned closed : Ending

-- "connected" and its NUL.
abbrev pub connected : Bytes
connected = 99 ∷ 111 ∷ 110 ∷ 110 ∷ 101 ∷ 99 ∷ 116 ∷ 101 ∷ 100 ∷ 0 ∷ []

-- What one call of `send` puts on the wire.
abbrev pub send : Option ℕ → Bytes → Bytes
send none buf = []
send (some k) buf = take k buf

-- `sendall` takes the length as an int; of a negative one, as of 0, it sends nothing.
abbrev pub as_int : ℕ → ℕ
as_int n = if ltb n (2 ^ 31) then n else 0

-- From the barrier on. The client's answer is read, but not looked at.
unfoldable pub send_play : Replies → Bytes → Transferred → Result (Ending × Bytes)
send_play r wire body =
    if body.failed
    then ok (closed, wire ++ body.moved)
    else ok (returned, wire ++ body.moved ++ send r.play (client_play ∷ []))

unfoldable pub send_data : Replies → Bytes → Bytes → Result (Ending × Bytes)
unfolding send_play
send_data r wire content =
    let fsize = length content % 2 ^ 32 in
    sendall r.size (htonl fsize) 4 >>= λ size.
    if r.fread_fails
    then ok (closed, wire ++ size.moved)
    else sendall r.file (take fsize content) (as_int fsize) >>= send_play r (wire ++ size.moved)

unfoldable pub send_file : Replies → Bytes → Option Bytes → Result (Ending × Bytes)
unfolding send_data
send_file r wire none = trap (exited 1)
send_file r wire (some content) = send_data r (wire ++ send r.new_file (client_nfile ∷ [])) content

unfoldable pub server_thread : Replies → ℕ → Option Bytes → Result (Ending × Bytes)
unfolding send_file
server_thread r tid file = sendall r.id (htonl (tid % 2 ^ 32)) 4 >>= λ id.
    send_file r (send r.greeting connected ++ id.moved) file
