-- ===== src/Checks/Whole.antt =====
-- Witnesses for the server's loop, and for the whole way of a file over both programs.
use mks65_symphony.Prelude.{
  ℕ, ◌≡◌, refl, true, false, some, [], ◌∷◌, map, length, ok, ◌>>=◌, trap, Trap,
}
use Trap.{exited}
use mks65_symphony.Reader.Build.{file_calls}
use mks65_symphony.Writer.{MidiFileWriter, tracks_from}
use mks65_symphony.Session.{Replies}
use mks65_symphony.Commands.State.{Host, new_server}
use mks65_symphony.Commands.Clients
use mks65_symphony.Server.{
  line, connection, server_turn, client_thread, new_server_thread, server_loop,
}
use mks65_symphony.Server.Numbered.{IfOk, IsNumbered, server_loop-IsNumbered}
use mks65_symphony.Checks.Music.{chunks}
use mks65_symphony.Checks.Commanding.{host}

-- A writer whose files have a header of four bytes and a byte for each track.
abbrev header_first : MidiFileWriter
header_first = record {
  encode = λ format ntracks division calls. 77 ∷ 84 ∷ 104 ∷ 100 ∷ map length calls;
  mfwrite = λ writetrack format ntracks division.
      tracks_from writetrack ntracks 0 >>= λ calls. ok (77 ∷ 84 ∷ 104 ∷ 100 ∷ map length calls);
  calls_each_track = λ writetrack format ntracks division. refl;
}

abbrev pub concert_host : Host
concert_host = record host { writer = header_first; parse = λ path. file_calls 1 96 chunks }

-- Every call takes all that it is given.
abbrev at_once : ℕ → Replies
at_once size = record {
  greeting = some 10;
  id = some 4 ∷ [];
  new_file = some 1;
  size = some 4 ∷ [];
  file = some size ∷ [];
  fread_fails = false;
  play = some 1;
}

-- Two clients, "reconnect", another client.
clients-IsNumbered : IfOk IsNumbered (
    server_loop concert_host
      (connection true true
        ∷ connection true true
        ∷ line (some (114 ∷ 101 ∷ 99 ∷ 111 ∷ 110 ∷ 110 ∷ 101 ∷ 99 ∷ 116 ∷ []))
        ∷ connection true true
        ∷ [])
      new_server)
clients-IsNumbered =
    server_loop-IsNumbered concert_host
      (connection true true
        ∷ connection true true
        ∷ line (some (114 ∷ 101 ∷ 99 ∷ 111 ∷ 110 ∷ 110 ∷ 101 ∷ 99 ∷ 116 ∷ []))
        ∷ connection true true
        ∷ [])
      new_server refl

-- A client that is taken and for which no thread can be started ends the server.
no_thread : server_turn concert_host (connection true false) new_server ≡ trap (exited 1)
unfolding client_thread new_server_thread
no_thread = refl
