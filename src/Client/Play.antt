-- ===== src/Client/Play.antt =====
-- A new file and the start of playing, from the bytes of server/server_thread.c to the player of
-- client/client.c.
use mathlib.Core.List.{append_assoc, append-nil}
use mks65_symphony.Prelude.{
  ℕ, ◌<◌, ◌≤◌, ◌^◌, ◌≡◌, refl, ap, ◌∙◌, true, false, none, some, List, [], ◌∷◌, ◌++◌, map, length,
  length-append, length-take, take, take-append, drop-append, arith, ok,
}
use mks65_symphony.Midi.{Bytes}
use mks65_symphony.Transfer.{recvall, htonl}
use mks65_symphony.Transfer.Words.{ntohl-htonl}
use mks65_symphony.Transfer.Received.{joined, AreNonempty, recvall-all}
use mks65_symphony.Client.Reads.{Stream, Delivers, incoming-Delivers, after}
use mks65_symphony.Client.Commands.{Command, waiting, performed, step-performed}
use mks65_symphony.Client.{
  ClientState, ready, add_mem, play, read_command, switch, size_of, receive_file, get_file,
  take_file, nfile_case, client_step, client_run,
}

recvall-joined :
    (ps : List Bytes) (file : Bytes)
    → AreNonempty ps
    → joined ps ≡ file
    → 0 < length file
    → length file < 2 ^ 31
    → recvall (map some ps) (length file)
      ≡ ok (record { failed = false; len = length file; moved = file })
recvall-joined [] file h j pos lt = absurd (omega (arith, ap length j))
recvall-joined (p ∷ ps) file h j pos lt =
    rw (append-nil, j) at (recvall-all p ps [] (length file) h (ap length j) lt)

pub receive_file-first :
    (s : Stream) (n : ℕ)
    → Delivers s
    → 0 < n
    → n ≤ length s.incoming
    → n < 2 ^ 31
    → receive_file s n ≡ ok (some (take n s.incoming, after n s))
unfolding receive_file
receive_file-first s n d pos le lt =
    let size = length-take n s.incoming le in
    let all =
      recvall-joined (s.pieces n s.incoming) (take n s.incoming) (d.nonempty n s.incoming)
        (d.whole n s.incoming le) (omega (arith, size, pos)) (omega (arith, size, lt)) in
    rw (rw size at all) refl

receive_file-whole :
    (s : Stream) (file rest : Bytes)
    → Delivers s
    → 0 < length file
    → length file < 2 ^ 31
    → receive_file (record s { incoming = file ++ rest }) (length file)
      ≡ ok (some (file, record s { incoming = rest }))
receive_file-whole s file rest d pos lt =
    let t = record s { incoming = file ++ rest } in
    let first =
      receive_file-first t (length file) (incoming-Delivers s (file ++ rest) s.arrived d) pos
        (omega (arith, length-append {0} file rest)) lt in
    rw (take-append file rest, drop-append file rest) at first

-- The file that a server thread sends: its code, its size in network order, its bytes.
abbrev pub file_message : Bytes → Bytes
file_message file = 6 ∷ htonl (length file) ++ file

-- The client's state once it has taken a file over.
abbrev pub loaded : ClientState → Bytes → ClientState
loaded c file = record c { sbuf = 6; fbuff = some file; actions = ready ∷ add_mem file ∷ c.actions }

get_file-whole :
    (s : Stream) (file rest : Bytes)
    → Delivers s
    → 0 < length file
    → length file < 2 ^ 31
    → get_file (record s { incoming = htonl (length file) ++ (file ++ rest); arrived = none })
      ≡ ok (some (file, record s { incoming = rest; arrived = none }))
unfolding get_file size_of htonl
get_file-whole s file rest d pos lt = rw (ntohl-htonl (length file) (omega (arith, lt))) (
    receive_file-whole (record s { arrived = none }) file rest
      (incoming-Delivers s s.incoming none d) pos lt)

take_file-sent :
    (c : ClientState) (buff : Bytes) (s : Stream)
    → s.can_send ≡ true
    → take_file c buff s
      ≡ ok (record c { fbuff = some buff; actions = ready ∷ add_mem buff ∷ c.actions; stream = s })
unfolding take_file
take_file-sent c buff s h = ground arith

module _ (c : ClientState) (delivers : Delivers c.stream) (sends : c.stream.can_send ≡ true) where
  nfile_case-loaded :
      (file rest : Bytes)
      → 0 < length file
      → length file < 2 ^ 31
      → nfile_case (record (waiting c (htonl (length file) ++ (file ++ rest))) { sbuf = 6 })
        ≡ ok (waiting (loaded c file) rest)
  unfolding nfile_case
  nfile_case-loaded file rest pos lt =
      rw (get_file-whole c.stream file rest delivers pos lt)
        (take_file-sent _ file (record c.stream { incoming = rest; arrived = none }) sends)

  step-loaded :
      (file rest : Bytes)
      → 0 < length file
      → length file < 2 ^ 31
      → client_step (waiting c (file_message file ++ rest)) ≡ ok (waiting (loaded c file) rest)
  unfolding client_step read_command switch
  step-loaded file rest pos lt =
      ap (λ (l : Bytes). nfile_case (record (waiting c l) { sbuf = 6 }))
        (append_assoc (htonl (length file)) file rest)
      ∙ nfile_case-loaded file rest pos lt

  -- What a server thread sends for a nonempty file below 2 ^ 31 bytes, the file and then
  -- CLIENT_PLAY, over a socket that delivers and where all has arrived: in two rounds the client
  -- loads exactly that file into its player, answers that it is ready, and only then plays; it
  -- goes on with what comes behind.
  pub client_run-play :
      (file rest : Bytes)
      → 0 < length file
      → length file < 2 ^ 31
      → (c' : ClientState) × (client_run 2 (waiting c (file_message file ++ 0 ∷ rest)) ≡ ok c')
        × (c'.actions ≡ play ∷ ready ∷ add_mem file ∷ c.actions)
        × (c'.fbuff ≡ some file)
        × (c'.stream.incoming ≡ rest)
        × (c'.running ≡ true)
  unfolding client_run
  client_run-play file rest pos lt = (
    waiting (performed (loaded c file) Command.play) rest,
    rw (step-loaded file (0 ∷ rest) pos lt, step-performed (loaded c file) Command.play rest tt)
        refl,
    refl,
    refl,
    refl,
    refl,
  )
