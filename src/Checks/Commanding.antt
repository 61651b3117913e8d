-- ===== src/Checks/Commanding.antt =====
-- Tests and witnesses for server/shell.c, server/utils.c and server/cmd_handlers.c.
use mks65_symphony.Prelude.{
  ◌*◌, ℕ, ◌+◌, ◌≡◌, ◌≤◌, ◌⊎◌, refl, true, false, some, [], ◌∷◌, ◌++◌, arith, ok, trap, Trap,
}
use Trap.{uninitialised, null_deref, div_by_zero}
use mks65_symphony.Midi.{Bytes}
use mks65_symphony.Shell.{
  Handler, missing_argument, command_not_found, calls, says, cmds, run, find, split_and_find,
  cb_linehandler,
}
use mks65_symphony.Shell.Lines.{
  parse_line, count_char, space, store_words, store_tokens, strtok, skip, word, behind,
}
use mks65_symphony.Shell.Words.{split, slots, parse_line_lem}
use mks65_symphony.Shell.Dispatch.{lookup, reaction, cb_linehandler_lem, cb_linehandler-blank}
use mks65_symphony.Player.{
  player_ready, player_seek, Fluid, player_get_status, player_get_total_ticks, player_get_cur_tick,
  at_start,
}
use mks65_symphony.Commands.{
  handle_seek, handle_play, handle_status, handle_reconnect, setup_connections, clear_connections,
  with_player, last_byte, seek_percent,
}
use mks65_symphony.Commands.Numbers.{isnum, atoi, value}
use mks65_symphony.Commands.State.{Host, ServerState, a_directory, new_server}
use mks65_symphony.Commands.Play.{CanPlay}
use mks65_symphony.Commands.Clients.{connected}
use mks65_symphony.Commands.Again.{reconnect-stale, handle_status_lem}
use mks65_symphony.Checks.Music.{file_of, three_tracks, three_tracks-IsFull, counting}

-- "seek  50%", with two spaces.
abbrev seek_line : Bytes
seek_line = 115 ∷ 101 ∷ 101 ∷ 107 ∷ 32 ∷ 32 ∷ 53 ∷ 48 ∷ 37 ∷ []

line_example :
    (k : ℕ) × (count_char seek_line space + 1 ≡ 2 + k)
    × (parse_line seek_line
        ≡ ok (slots ((115 ∷ 101 ∷ 101 ∷ 107 ∷ []) ∷ (53 ∷ 48 ∷ 37 ∷ []) ∷ []) k, 2 + k))
unfolding split
line_example = parse_line_lem seek_line (115 ∷ 101 ∷ 101 ∷ 107 ∷ []) ((53 ∷ 48 ∷ 37 ∷ []) ∷ []) refl

reaction_example :
    (k : ℕ) × (count_char seek_line space + 1 ≡ 2 + k)
    × (cb_linehandler (some seek_line)
        ≡ reaction
            (lookup cmds (115 ∷ 101 ∷ 101 ∷ 107 ∷ []))
            (115 ∷ 101 ∷ 101 ∷ 107 ∷ [])
            ((53 ∷ 48 ∷ 37 ∷ []) ∷ [])
            k)
unfolding split
reaction_example =
    cb_linehandler_lem seek_line (115 ∷ 101 ∷ 101 ∷ 107 ∷ []) ((53 ∷ 48 ∷ 37 ∷ []) ∷ []) refl

blank_example : cb_linehandler (some (32 ∷ 32 ∷ [])) ≡ trap null_deref
unfolding split
blank_example = cb_linehandler-blank 32 (32 ∷ []) refl

abbrev seek_word : Bytes
seek_word = 115 ∷ 101 ∷ 101 ∷ 107 ∷ []

called : cb_linehandler (some seek_line) ≡ ok (calls Handler.handle_seek (some (53 ∷ 48 ∷ 37 ∷ [])))
unfolding cb_linehandler split_and_find find run parse_line store_words store_tokens strtok skip
    word behind count_char
called = refl

-- A command without its argument: both messages.
missing :
    cb_linehandler (some seek_word)
    ≡ ok (says (missing_argument seek_word ∷ command_not_found seek_word ∷ []))
unfolding cb_linehandler split_and_find find run parse_line store_words store_tokens strtok skip
    word behind count_char
missing = refl

-- The same with a space behind it.
never_set : cb_linehandler (some (seek_word ++ 32 ∷ [])) ≡ trap uninitialised
unfolding cb_linehandler split_and_find find run parse_line store_words store_tokens strtok skip
    word behind count_char
never_set = refl

-- A player that has been set up, of a file of 960 ticks, half way through.
abbrev fluid : Fluid
fluid = record {
  new = λ log. some 1;
  get_status = λ log. player_ready;
  total_ticks = λ log. 960;
  current_tick = λ log. 480;
}

abbrev pub host : Host
host = record {
  server_noplay = true;
  fluid = fluid;
  is_midifile = λ path. true;
  opens = λ path. true;
  parse = λ path. [];
  writer = counting;
  usable = λ n. 4 * n;
  can_write = λ path. true;
  cwd = 47 ∷ [];
  stat = λ path. a_directory;
}

abbrev server : ServerState
server = record new_server {
  mfile = some (file_of 1 three_tracks);
  player = record at_start { player = some 1 };
}

-- "%" alone is taken for 0%.
bare_percent : handle_seek host (37 ∷ []) server ≡ ok (some 0, with_player server (player_seek 0))
unfolding handle_seek last_byte seek_percent isnum atoi value player_get_total_ticks
bare_percent = refl

-- After a `play` with two clients.
abbrev played : ServerState
played = record server { midi_ready = true; barrier = some 3; accepting_clients = false }

played-CanPlay : CanPlay host (handle_reconnect played) (file_of 1 three_tracks) three_tracks
unfolding handle_reconnect setup_connections clear_connections
played-CanPlay = record {
  full = three_tracks-IsFull 1;
  writable = omega arith;
  format = refl;
  tracks = omega arith;
  directory = λ e. cc e;
  files = λ i. refl;
  room = λ n lt. omega arith;
}

reconnect_example :
    ((connected 5 (handle_reconnect played)).midi_ready ≡ true)
    × (t : ServerState) × (handle_play host (connected 5 (handle_reconnect played))
        ≡ ok (some 1, t))
    × (t.barrier ≡ some 3)
reconnect_example =
    reconnect-stale host played (file_of 1 three_tracks) three_tracks 5 3 refl refl refl
      played-CanPlay (omega arith) (omega arith)

status_example :
    ((percent : ℕ) × (handle_status host server ≡ ok (some (0, 480, 960, percent)))
      × (percent ≤ 100))
    ⊎ ((player_get_total_ticks fluid server.player ≡ 0)
        × (handle_status host server ≡ trap div_by_zero))
unfolding player_get_status player_get_total_ticks player_get_cur_tick
status_example = handle_status_lem host server 0 refl (omega arith) (omega arith)
