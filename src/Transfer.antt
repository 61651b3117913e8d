-- ===== src/Transfer.antt =====
-- Moving bytes over a socket: `sendall` of server/server_thread.c, `recvall` of
-- client/socket_client.c, and the 32-bit numbers in network order that both sides use.
-- `send` and `recv` are parameters: the list of what their calls return, in order.
pub mod Whole
pub mod Received
pub mod Words
use mks65_symphony.Prelude.{
  ℕ, zero, suc, ◌+◌, ◌*◌, ◌/◌, ◌%◌, ◌^◌, Bool, true, false, Option, none, some, List, [], ◌∷◌, ◌++◌,
  ltb, if◌then◌else◌, length, take, drop, Result, ok, trap, Trap, ◌>>=◌, ◌>>◌, check,
}
use Trap.{uninitialised, overflow, out_of_fuel}
use mks65_symphony.Midi.{Bytes}

-- What the calls return: whether -1, the value left in `*len`, and the bytes that went over, for
-- `sendall` onto the wire and for `recvall` into the buffer.
pub record Transferred : Type 0 where
  pub failed : Bool
  pub len : ℕ
  pub moved : Bytes

-- The end of both functions. `n` is what the last call returned, `none` if there was no call and
-- `n` has no value, and `some none` for -1.
unfoldable pub finish : ℕ → Bytes → Option (Option ℕ) → Result Transferred
finish total moved none = trap uninitialised
finish total moved (some none) = ok (record { failed = true; len = total; moved = moved })
finish total moved (some (some n)) = ok (record { failed = false; len = total; moved = moved })

-- `none` is a failed call of `send`. When no reply is left the call goes on waiting.
unfoldable pub send_loop :
    List (Option ℕ) → Bytes → ℕ → ℕ → Bytes → Option (Option ℕ) → Result Transferred
unfolding finish
send_loop [] buf len total moved n =
    if ltb total len then trap out_of_fuel else finish total moved n
send_loop (none ∷ replies) buf len total moved n =
    if ltb total len then finish total moved (some none) else finish total moved n
send_loop (some k ∷ replies) buf len total moved n =
    let rest =
      send_loop replies buf len (total + k) (moved ++ take k (drop total buf)) (some (some k)) in
    if ltb total len then rest else finish total moved n

-- `*len` is an int. `buf` is what can be read from the buffer on, `len` bytes of it or more.
unfoldable pub sendall : List (Option ℕ) → Bytes → ℕ → Result Transferred
unfolding send_loop
sendall replies buf len = send_loop replies buf len 0 [] none

-- A call of `recv` gives a piece of what was sent, an empty one when the peer has closed.
unfoldable pub recv_loop :
    List (Option Bytes) → ℕ → ℕ → Bytes → Option (Option ℕ) → Result Transferred
unfolding finish
recv_loop [] len total moved n = if ltb total len then trap out_of_fuel else finish total moved n
recv_loop (none ∷ replies) len total moved n =
    if ltb total len then finish total moved (some none) else finish total moved n
recv_loop (some piece ∷ replies) len total moved n =
    let rest =
      recv_loop replies len (total + length piece) (moved ++ piece) (some (some (length piece))) in
    if ltb total len then rest else finish total moved n

-- `*len` is unsigned, `bytesleft` an int: from 2 ^ 31 on it is negative, and `recv` is asked for more
-- bytes than the buffer has.
unfoldable pub recvall : List (Option Bytes) → ℕ → Result Transferred
unfolding recv_loop
recvall replies len = do check (ltb len (2 ^ 31)) overflow; recv_loop replies len 0 [] none

-- The four bytes of `htonl(n)` in memory, and `ntohl` of such bytes.
unfoldable pub htonl : ℕ → Bytes
htonl n = n / 2 ^ 24 % 2 ^ 8 ∷ n / 2 ^ 16 % 2 ^ 8 ∷ n / 2 ^ 8 % 2 ^ 8 ∷ n % 2 ^ 8 ∷ []

unfoldable pub ntohl : ℕ → ℕ → ℕ → ℕ → ℕ
ntohl a b c d = a * 2 ^ 24 + b * 2 ^ 16 + c * 2 ^ 8 + d
