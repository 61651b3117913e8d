-- ===== src/Checks/Serving.antt =====
-- Witnesses for the whole of main in server/shell.c.
use mks65_symphony.Prelude.{true, List, [], ◌∷◌}
use mks65_symphony.Sockets.{Attempt, no_socket, refused, done}
use mks65_symphony.Server.{connection}
use mks65_symphony.Server.Main.{sigwinch, sigint, Turn, signal_in_select, signal_between, ready}

abbrev three_addresses : List Attempt
three_addresses = no_socket ∷ refused 3 ∷ done 4 ∷ []

-- A resize between two calls, a client, and ^C.
abbrev some_turns : List Turn
some_turns = signal_between sigwinch ∷ ready (connection true true) ∷ signal_in_select sigint ∷ []
