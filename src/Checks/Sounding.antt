-- ===== src/Checks/Sounding.antt =====
-- Witnesses for server/midi_player.c, and for the loops over addresses of server/socket.c and
-- client/socket_client.c.
use mks65_symphony.Prelude.{◌≡◌, refl, true, none, some, [], ◌∷◌, length, ok, trap, Trap}
use Trap.{exited}
use mks65_symphony.Player.{Fluid, player_ready, player_setup, player_cleanup, at_start}
use mks65_symphony.Player.Lifetime.{
  all_safe, op_setup, op_play, op_add_file, op_seek, perform_all, player-safe,
}
use mks65_symphony.Sockets.{no_socket, refused, done, setup_server, connect_to}
use mks65_symphony.Sockets.First.{first-serves}

-- Its objects are numbered by the calls before.
abbrev fluid : Fluid
fluid = record {
  new = λ log. some (length log);
  get_status = λ log. player_ready;
  total_ticks = λ log. 960;
  current_tick = λ log. 0;
}

player_example :
    all_safe
      (player_cleanup (
        perform_all fluid
          (op_add_file [] ∷ op_play ∷ op_setup ∷ op_seek 3 ∷ [])
          (player_setup fluid at_start))).log
    ≡ true
player_example =
    player-safe fluid (λ log. (length log, refl))
      (op_add_file [] ∷ op_play ∷ op_setup ∷ op_seek 3 ∷ [])

serves_example :
    (setup_server (λ fd. true) (some (no_socket ∷ refused 3 ∷ done 4 ∷ [])) true ≡ ok (4, 3 ∷ []))
    × (connect_to (some (no_socket ∷ refused 3 ∷ done 4 ∷ [])) ≡ (some 4, 3 ∷ []))
    × (setup_server (λ fd. true) (some (no_socket ∷ refused 3 ∷ [])) true ≡ trap (exited 1))
    × (connect_to (some (no_socket ∷ refused 3 ∷ [])) ≡ (none, 3 ∷ []))
serves_example =
    first-serves (λ fd. true) (no_socket ∷ refused 3 ∷ []) [] 4 (λ fd. refl) (tt, (tt, tt))
