-- ===== src/Server/Ends.antt =====
-- How main of server/shell.c can end.
use mks65_symphony.Prelude.{ℕ, ◌≡◌, refl, true, false, ◌⊎◌, inl, [], ◌∷◌}
use mks65_symphony.Player.{player_cleanup}
use mks65_symphony.Commands.State.{ServerState}
use mks65_symphony.Commands.{with_player, handle_quit}
use mks65_symphony.Server.Main.{Ended, Outcome, waiting, ended, shell_cleanup, shell_exit}
use mks65_symphony.Server.Numbered.{IfOk}

-- The globals that `handle_quit` leaves: the player's objects are deleted.
abbrev pub quitted : ServerState → ServerState
quitted s = record (with_player s player_cleanup) { running = false }

-- The loop is to go on, or the command was `quit`.
abbrev GoesOn : ServerState → Type 0
GoesOn t = (t.running ≡ true) ⊎ ((s : ServerState) × (t ≡ quitted s))

-- The ways to end: by `quit`, by SIGINT or the end of the input, each having deleted what the player
-- had, and by a failure of `select` with all that was there left as it was.
pub data EndsBy (e : Ended) : Type 0 where
  quit : (s : ServerState) → e.status ≡ 0 → e.server ≡ quitted s → EndsBy e
  exited_shell : (s : ServerState) → e.status ≡ 1 → e.server ≡ quitted s → EndsBy e
  left : e.status ≡ 4 → e.server.running ≡ true → EndsBy e

-- The way to end by the thread of a client: nothing is closed and nothing deleted.
pub record IsLeftOpen (e : Ended) : Type 0 where
  pub status : e.status ≡ 1
  pub closed : e.closed ≡ []
  pub running : e.server.running ≡ true

abbrev pub IsRight : ℕ → Outcome → Type 0
IsRight sockfd (waiting m) = m.server.running ≡ true
IsRight sockfd (ended e) = ((e.closed ≡ sockfd ∷ []) × EndsBy e) ⊎ IsLeftOpen e

-- Within the loop a server that waits may have been told to quit.
abbrev IsNext : ℕ → Outcome → Type 0
IsNext sockfd (waiting m) = GoesOn m.server
IsNext sockfd (ended e) = IsRight sockfd (ended e)

shell_exit-IsNext : (sockfd : ℕ) (s : ServerState) → IfOk (IsNext sockfd) (shell_exit sockfd s)
unfolding shell_exit handle_quit shell_cleanup
shell_exit-IsNext sockfd s = inl (refl, exited_shell s refl refl)
