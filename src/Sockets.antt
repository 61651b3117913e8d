-- ===== src/Sockets.antt =====
-- `setup_server` of server/socket.c and `connect_to` of client/socket_client.c: the loops over the
-- addresses that `getaddrinfo` gives. What the system's calls return for each is a parameter.
pub mod First
use mks65_symphony.Prelude.{
  ℕ, Bool, true, false, Option, none, some, List, [], ◌∷◌, Result, ok, trap, Trap, if◌then◌else◌,
}
use Trap.{exited}

-- An address for which `socket` fails, `bind` or `connect` fails, or all goes well.
pub data Attempt : Type 0 where
  no_socket : Attempt
  refused : (sockfd : ℕ) → Attempt
  done : (sockfd : ℕ) → Attempt

-- The descriptor and those closed, the last first. `sets` says for which `setsockopt` succeeds.
unfoldable pub bind_first : (ℕ → Bool) → List Attempt → List ℕ → Result (ℕ × List ℕ)
bind_first sets [] closed = trap (exited 1)
bind_first sets (no_socket ∷ p) closed = bind_first sets p closed
bind_first sets (refused sockfd ∷ p) closed =
    let rest = bind_first sets p (sockfd ∷ closed) in if sets sockfd then rest else trap (exited 1)
bind_first sets (done sockfd ∷ p) closed =
    if sets sockfd then ok (sockfd, closed) else trap (exited 1)

abbrev pub listens : Bool → ℕ × List ℕ → Result (ℕ × List ℕ)
listens true r = ok r
listens false r = trap (exited 1)

-- The addresses, `none` if `getaddrinfo` fails: then the function returns 1.
unfoldable pub setup_server : (ℕ → Bool) → Option (List Attempt) → Bool → Result (ℕ × List ℕ)
unfolding bind_first
setup_server sets none can_listen = ok (1, [])
setup_server sets (some servinfo) can_listen = elim (bind_first sets servinfo []) [
  | ok r ↦ listens can_listen r
  | trap t ↦ trap t
]

-- -1 is `none`.
unfoldable pub connect_first : List Attempt → List ℕ → Option ℕ × List ℕ
connect_first [] closed = (none, closed)
connect_first (no_socket ∷ p) closed = connect_first p closed
connect_first (refused sockfd ∷ p) closed = connect_first p (sockfd ∷ closed)
connect_first (done sockfd ∷ p) closed = (some sockfd, closed)

unfoldable pub connect_to : Option (List Attempt) → Option ℕ × List ℕ
unfolding connect_first
connect_to none = (none, [])
connect_to (some servinfo) = connect_first servinfo []
