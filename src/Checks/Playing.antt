-- ===== src/Checks/Playing.antt =====
-- Tests and witnesses for the loop of client/client.c and for its meeting with a thread of
-- server/server_thread.c.
use mks65_symphony.Prelude.{
  ℕ, ◌≡◌, ◌++◌, refl, ap, true, false, none, some, List, [], ◌∷◌, take, arith, ok,
}
use mks65_symphony.Midi.{Bytes}
use mks65_symphony.Transfer.{htonl, ntohl, sendall}
use mks65_symphony.Transfer.Received.{joined, AreNonempty}
use mks65_symphony.Client.{
  ClientState, Action, ready, client_run, confirm_connection, client_step, switch, read_command,
}
use mks65_symphony.Client.Reads.{Stream, Delivers}
use mks65_symphony.Client.Commands.{Command, client_run-commands, client_run-ended}
use mks65_symphony.Client.Main.{gone, client_main}
use mks65_symphony.Sockets.{Attempt, no_socket, refused, done, connect_to}
use mks65_symphony.Session.{Replies, server_thread, returned, closed, connected}
use mks65_symphony.Session.Meeting.{Works, server_thread-client}

-- A network that hands over one byte at a time.
abbrev singles : Bytes → List Bytes
singles [] = []
singles (b ∷ s) = (b ∷ []) ∷ singles s

abbrev pub bytewise : Stream
bytewise = record {
  incoming = [];
  broken = false;
  can_send = true;
  arrived = none;
  pieces = λ (n : ℕ) (t : Bytes). singles (take n t);
}

joined-singles : (s : Bytes) → joined (singles s) ≡ s
joined-singles [] = refl
joined-singles (b ∷ s) = ap (λ (t : Bytes). b ∷ t) (joined-singles s)

singles-nonempty : (s : Bytes) → AreNonempty (singles s)
singles-nonempty [] = tt
singles-nonempty (b ∷ s) = (omega arith, singles-nonempty s)

pub bytewise-Delivers : Delivers bytewise
bytewise-Delivers = record {
  whole = λ n t l. joined-singles (take n t);
  nonempty = λ n t. singles-nonempty (take n t);
}

abbrev pub client : ClientState
client = record { sbuf = 0; fbuff = none; running = true; actions = []; stream = bytewise }

-- The greeting "connected" with its NUL, and the number 3.
greeting_example :
    confirm_connection (record bytewise {
      incoming = 99 ∷ 111 ∷ 110 ∷ 110 ∷ 101 ∷ 99 ∷ 116 ∷ 101 ∷ 100 ∷ 0 ∷ 0 ∷ 0 ∷ 0 ∷ 3 ∷ 6 ∷ [];
    })
    ≡ ok (
        some (
          99 ∷ 111 ∷ 110 ∷ 110 ∷ 101 ∷ 99 ∷ 116 ∷ 101 ∷ 100 ∷ [],
          3,
          record bytewise { incoming = 6 ∷ [] },
        ))
unfolding confirm_connection ntohl
greeting_example = refl

commands_example :
    (c' : ClientState) × (client_run 3 (record client {
      stream = record bytewise { incoming = 0 ∷ 3 ∷ 0 ∷ 0 ∷ 2 ∷ 1 ∷ 1 ∷ 7 ∷ [] };
    })
      ≡ ok c')
    × (c'.actions ≡ Action.pause ∷ Action.seek 513 ∷ Action.play ∷ [])
    × (c'.stream.incoming ≡ 7 ∷ [])
    × (c'.running ≡ true)
unfolding htonl
commands_example =
    client_run-commands client (Command.play ∷ Command.seek 513 ∷ Command.pause ∷ []) (7 ∷ [])
      (tt, (omega arith, (tt, tt)))

ended_example :
    (c' : ClientState) × (client_run 3
        (record client { stream = record bytewise { incoming = [] }; sbuf = 1 })
      ≡ ok c')
    × (c'.actions ≡ Action.pause ∷ Action.pause ∷ Action.pause ∷ [])
    × (c'.running ≡ true)
ended_example = client_run-ended 3 client Command.pause tt

abbrev replies : Replies
replies = record {
  greeting = some 10;
  id = some 3 ∷ some 1 ∷ [];
  new_file = some 1;
  size = some 4 ∷ [];
  file = some 2 ∷ [];
  fread_fails = false;
  play = some 1;
}

replies-Works : Works replies 2
replies-Works = record {
  greeting = refl;
  id = record {
    first = 3;
    others = 1 ∷ [];
    listed = refl;
    positive = (omega arith, (omega arith, tt));
    all = refl;
  };
  new_file = refl;
  size = record { first = 4; others = []; listed = refl; positive = (omega arith, tt); all = refl };
  file = record { first = 2; others = []; listed = refl; positive = (omega arith, tt); all = refl };
  reads = refl;
  play = refl;
}

meeting_example :
    (wire : Bytes) × (s : Stream) × (c' : ClientState) × (server_thread replies 1
        (some (77 ∷ 84 ∷ []))
      ≡ ok (returned, wire))
    × (confirm_connection (record bytewise { incoming = wire; arrived = none })
        ≡ ok (some (take 9 connected, 1, s)))
    × (client_run 2 (record client { stream = s }) ≡ ok c')
    × (c'.actions ≡ Action.play ∷ ready ∷ Action.add_mem (77 ∷ 84 ∷ []) ∷ [])
    × (c'.stream.incoming ≡ [])
    × (c'.running ≡ true)
meeting_example =
    server_thread-client replies 1 (77 ∷ 84 ∷ []) client replies-Works (omega arith) (omega arith)
      bytewise-Delivers refl

abbrev refusing : List Attempt
refusing = no_socket ∷ refused 3 ∷ []

-- CLIENT_QUIT ends the loop, and the client closes its socket.
quit_by_server :
    client_main 1
      (some (refusing ++ done 4 ∷ []))
      (record bytewise { incoming = connected ++ htonl 1 ++ 7 ∷ [] })
      1
    ≡ ok (gone 0 (4 ∷ 3 ∷ []))
unfolding client_main htonl connect_to confirm_connection client_run client_step switch read_command
quit_by_server = refl

-- A server that is not this program: there is no greeting to read, and the client exits.
no_greeting :
    client_main 1 (some (refusing ++ done 4 ∷ [])) (record bytewise { broken = true }) 1
    ≡ ok (gone 1 (4 ∷ 3 ∷ []))
unfolding client_main connect_to confirm_connection
no_greeting = refl

-- The file's first two bytes go out, then the connection breaks.
broken_off :
    server_thread (record replies { file = some 2 ∷ none ∷ [] }) 1 (some (77 ∷ 84 ∷ 104 ∷ []))
    ≡ ok (closed, connected ++ 0 ∷ 0 ∷ 0 ∷ 1 ∷ 6 ∷ 0 ∷ 0 ∷ 0 ∷ 3 ∷ 77 ∷ 84 ∷ [])
unfolding server_thread sendall htonl
broken_off = refl
