-- ===== src/Client/Main.antt =====
-- The whole of main in client/client.c: from the command line to the loop and its end. The addresses
-- and the stream of the socket that was connected are arguments.
use mks65_symphony.Prelude.{
  ℕ, true, Option, none, some, List, [], ltb, if◌then◌else◌, ◌∷◌, Result, ok, ◌>>=◌,
}
use mks65_symphony.Sockets.{Attempt, connect_to}
use mks65_symphony.Client.{ClientState, confirm_connection, client_run}
use mks65_symphony.Client.Reads.{Stream}

-- Where the client stands: it has exited with a status and with these sockets closed, or it goes on
-- in its loop.
pub data Client : Type 0 where
  gone : (status : ℕ) (closed : List ℕ) → Client
  looping : ClientState → Client

-- The variables of `main` before the loop. The player has been set up.
unfoldable pub client_start : Stream → ClientState
client_start s = record { sbuf = 0; fbuff = none; running = true; actions = []; stream = s }

-- Behind the loop: `close(sockfd)` and the status 0.
unfoldable pub client_end : ℕ → List ℕ → ClientState → Client
client_end sockfd closed c = if c.running then looping c else gone 0 (sockfd ∷ closed)

-- `client_exit` closes the socket.
unfoldable pub serve_client : ℕ → ℕ → List ℕ → Stream → Result Client
unfolding client_start client_end
serve_client rounds sockfd closed s = do
  confirmed ← confirm_connection s
  elim confirmed [
    | none ↦ ok (gone 1 (sockfd ∷ closed))
    | some (greeting, id, rest) ↦
        client_run rounds (client_start rest) >>= λ c. ok (client_end sockfd closed c)
  ]

-- With `rounds` rounds of the loop.
unfoldable pub client_main : ℕ → Option (List Attempt) → Stream → ℕ → Result Client
unfolding serve_client
client_main argc addresses s rounds =
    let connected = connect_to addresses in
    if ltb 2 argc then ok (gone 1 []) else elim connected.0 [
      | none ↦ ok (gone 1 connected.1)
      | some sockfd ↦ serve_client rounds sockfd connected.1 s
    ]
