-- ===== src/Client/Short.antt =====
-- A read of client/client.c that comes short: the four bytes of a file's size are read by one call,
-- which gives what has arrived.
use mks65_symphony.Prelude.{
  ℕ, ◌<◌, ◌≡◌, ◌^◌, ◌/◌, refl, Option, none, some, List, [], ◌∷◌, ◌++◌, length, trap, Trap,
}
use Trap.{uninitialised}
use native.Mathlib.Nat.{div-eq_of_lt}
use mks65_symphony.Midi.{Bytes}
use mks65_symphony.Transfer.{recvall, htonl, ntohl}
use mks65_symphony.Client.{ClientState, size_of, receive_file, get_file, nfile_case}

recvall-nothing : (replies : List (Option Bytes)) → recvall replies 0 ≡ trap uninitialised
unfolding recvall
recvall-nothing [] = refl
recvall-nothing (none ∷ replies) = refl
recvall-nothing (some piece ∷ replies) = refl

-- If of a file's size, below 2 ^ 24, only the first byte has arrived when it is read, the client
-- takes the size for 0 and `recvall` answers with a variable that was never set.
pub nfile_case-short :
    (c : ClientState) (file rest : Bytes) (more : Bytes → ℕ)
    → length file < 2 ^ 24
    → more (htonl (length file) ++ file ++ rest) ≡ 0
    → nfile_case (record c {
      stream = record c.stream {
        incoming = htonl (length file) ++ file ++ rest;
        arrived = some more;
      };
    })
      ≡ trap uninitialised
unfolding nfile_case get_file receive_file size_of htonl ntohl
nfile_case-short c file rest more lt h =
    let first : length file / 2 ^ 24 ≡ 0 = div-eq_of_lt lt in rw (h, first, recvall-nothing _) refl
