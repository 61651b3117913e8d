-- ===== src/Session/Meeting.antt =====
-- The two ends of a connection: `server_thread` of server/server_thread.c writes, and
-- `confirm_connection` and the loop of client/client.c read.
use mks65_symphony.Prelude.{
  ℕ, ◌<◌, ◌≡◌, ◌∙◌, sym, ap, refl, ◌%◌, ◌^◌, true, false, Option, none, some, List, [], ◌∷◌, ◌++◌,
  map, ltb, length, take, take-length, lt→ltb, ok, arith,
}
use native.Mathlib.Nat.{mod-lt, mod-eq_of_lt}
use mathlib.Core.List.{append-nil}
use mks65_symphony.Midi.{Bytes}
use mks65_symphony.Transfer.{sendall, htonl}
use mks65_symphony.Transfer.Whole.{ArePositive, sum, sendall-all}
use mks65_symphony.Transfer.Words.{ntohl-htonl}
use mks65_symphony.Client.{ClientState, ready, add_mem, play, confirm_connection, client_run}
use mks65_symphony.Client.Reads.{Stream, Delivers}
use mks65_symphony.Client.Play.{file_message, client_run-play}
use mks65_symphony.Session.{
  Replies, returned, connected, send, send_play, send_data, send_file, server_thread,
}

-- The calls of `send` take `n` bytes together, at least one each.
pub record Takes (replies : List (Option ℕ)) (n : ℕ) : Type 0 where
  pub first : ℕ
  pub others : List ℕ
  pub listed : replies ≡ map some (first ∷ others)
  pub positive : ArePositive (first ∷ others)
  pub all : sum (first ∷ others) ≡ n

sendall-Takes :
    (rs : List (Option ℕ)) (buf : Bytes) (n : ℕ)
    → Takes rs n
    → sendall rs buf n ≡ ok (record { failed = false; len = n; moved = take n buf })
sendall-Takes rs buf n t =
    ap (λ (l : List (Option ℕ)). sendall l buf n)
      (t.listed ∙ sym (append-nil (map some (t.first ∷ t.others))))
    ∙ sendall-all t.first t.others [] buf n t.positive t.all

-- The network takes over all that the thread sends to the client.
pub record Works (r : Replies) (fsize : ℕ) : Type 0 where
  pub greeting : r.greeting ≡ some 10
  pub id : Takes r.id 4
  pub new_file : r.new_file ≡ some 1
  pub size : Takes r.size 4
  pub file : Takes r.file fsize
  pub reads : r.fread_fails ≡ false
  pub play : r.play ≡ some 1

send_play-all :
    (r : Replies) (wire : Bytes) (n : ℕ) (file : Bytes)
    → r.play ≡ some 1
    → send_play r wire (record { failed = false; len = n; moved = file })
      ≡ ok (returned, wire ++ file ++ 0 ∷ [])
unfolding send_play
send_play-all r wire n file h = rw h refl

send_data-all :
    (r : Replies) (wire file : Bytes)
    → Works r (length file)
    → length file < 2 ^ 31
    → send_data r wire file ≡ ok (returned, (wire ++ htonl (length file)) ++ file ++ 0 ∷ [])
unfolding send_data htonl
send_data-all r wire file w lt =
    let small : length file % 2 ^ 32 ≡ length file = mod-eq_of_lt (omega arith) in
    let int : ltb (length file) (2 ^ 31) ≡ true = lt→ltb (length file) (2 ^ 31) lt in
    rw
      (
        small,
        sendall-Takes r.size (htonl (length file)) 4 w.size,
        w.reads,
        int,
        take-length file,
        sendall-Takes r.file file (length file) w.file,
        take-length file,
      )
      (send_play-all r (wire ++ htonl (length file)) (length file) file w.play)

send_file-all :
    (r : Replies) (wire file : Bytes)
    → Works r (length file)
    → length file < 2 ^ 31
    → send_file r wire (some file)
      ≡ ok (returned, ((wire ++ 6 ∷ []) ++ htonl (length file)) ++ file ++ 0 ∷ [])
unfolding send_file
send_file-all r wire file w lt =
    ap (λ (o : Option ℕ). send_data r (wire ++ send o (6 ∷ [])) file) w.new_file
    ∙ send_data-all r (wire ++ 6 ∷ []) file w lt

pub server_thread-all :
    (r : Replies) (tid : ℕ) (file : Bytes)
    → Works r (length file)
    → length file < 2 ^ 31
    → server_thread r tid (some file)
      ≡ ok (returned, connected ++ htonl (tid % 2 ^ 32) ++ file_message file ++ 0 ∷ [])
unfolding server_thread htonl
server_thread-all r tid file w lt =
    let id = htonl (tid % 2 ^ 32) in
    rw (sendall-Takes r.id id 4 w.id) (
      ap (λ (o : Option ℕ). send_file r (send o connected ++ id) (some file)) w.greeting
      ∙ send_file-all r (connected ++ id) file w lt)

confirm_connection-id :
    (s : Stream) (tid : ℕ) (rest : Bytes)
    → confirm_connection
        (record s { incoming = connected ++ htonl (tid % 2 ^ 32) ++ rest; arrived = none })
      ≡ ok (some (take 9 connected, tid % 2 ^ 32, record s { incoming = rest; arrived = none }))
unfolding confirm_connection htonl
confirm_connection-id s tid rest =
    rw (ntohl-htonl (tid % 2 ^ 32) (omega (arith, mod-lt tid {m = 2 ^ 32}))) refl

-- The whole of a connection on which nothing fails and a read finds its bytes arrived, for a
-- nonempty file below 2 ^ 31 bytes. The server's thread returns; of what it has written the client
-- confirms the connection, with the thread's number and the greeting "connected", then in two
-- rounds takes exactly the thread's file into its player, answers, and plays, and is still
-- running; and nothing is left on the wire.
pub server_thread-client :
    (r : Replies) (tid : ℕ) (file : Bytes) (c : ClientState)
    → Works r (length file)
    → 0 < length file
    → length file < 2 ^ 31
    → Delivers c.stream
    → c.stream.can_send ≡ true
    → (wire : Bytes) × (s : Stream) × (c' : ClientState) × (server_thread r tid (some file)
        ≡ ok (returned, wire))
      × (confirm_connection (record c.stream { incoming = wire; arrived = none })
          ≡ ok (some (take 9 connected, tid % 2 ^ 32, s)))
      × (client_run 2 (record c { running = true; stream = s }) ≡ ok c')
      × (c'.actions ≡ play ∷ ready ∷ add_mem file ∷ c.actions)
      × (c'.stream.incoming ≡ [])
      × (c'.running ≡ true)
unfolding htonl
server_thread-client r tid file c w pos lt d sends =
    let message = file_message file ++ 0 ∷ [] in
    let (c', run, acts, _, left, still) = client_run-play c d sends file [] pos (omega arith) in
    (
      connected ++ htonl (tid % 2 ^ 32) ++ message,
      record c.stream { incoming = message; arrived = none },
      c',
      server_thread-all r tid file w lt,
      confirm_connection-id c.stream tid message,
      run,
      acts,
      left,
      still,
    )
