-- ===== src/Checks/Transferring.antt =====
-- Tests and witnesses for the socket loops of server/server_thread.c and client/socket_client.c.
use mks65_symphony.Prelude.{
  ◌≡◌, refl, true, false, none, some, [], ◌∷◌, replicate, arith, ok, trap, Trap,
}
use Trap.{out_of_fuel}
use mks65_symphony.Midi.{Bytes}
use mks65_symphony.Transfer.{sendall, recvall, htonl}
use mks65_symphony.Transfer.Whole.{sendall-all, sendall_failed}
use mks65_symphony.Transfer.Received.{sendall-recvall, recvall_closed}

port_bytes : htonl 14440 ≡ 0 ∷ 0 ∷ 56 ∷ 104 ∷ []
unfolding htonl
port_bytes = refl

abbrev packet : Bytes
packet = 10 ∷ 20 ∷ 30 ∷ 40 ∷ 50 ∷ []

sent_example :
    sendall (some 2 ∷ some 3 ∷ none ∷ []) packet 5
    ≡ ok (record { failed = false; len = 5; moved = packet })
sent_example = sendall-all 2 (3 ∷ []) (none ∷ []) packet 5 (omega arith) refl

send_failed_example :
    sendall (some 2 ∷ none ∷ []) packet 5
    ≡ ok (record { failed = true; len = 2; moved = 10 ∷ 20 ∷ [] })
send_failed_example = sendall_failed (2 ∷ []) [] packet 5 (omega arith) (omega arith)

transfer_example :
    (sendall (some 2 ∷ some 3 ∷ []) packet 5
      ≡ ok (record { failed = false; len = 5; moved = packet }))
    × (recvall (some (10 ∷ []) ∷ some (20 ∷ 30 ∷ 40 ∷ 50 ∷ []) ∷ []) 5
        ≡ ok (record { failed = false; len = 5; moved = packet }))
transfer_example =
    sendall-recvall packet 2 (3 ∷ []) (10 ∷ []) ((20 ∷ 30 ∷ 40 ∷ 50 ∷ []) ∷ []) (omega arith) refl
      (omega arith) refl (omega arith)

closed_example : recvall (some (10 ∷ 20 ∷ []) ∷ replicate 7 (some [])) 5 ≡ trap out_of_fuel
closed_example = recvall_closed ((10 ∷ 20 ∷ []) ∷ []) 7 5 (omega arith) (omega arith)
