-- ===== src/Transfer/Received.antt =====
-- What `recvall` of client/socket_client.c promises, and that it spins once the peer has closed.
use mathlib.Core.List.{append_assoc, append-nil}
use mks65_symphony.Prelude.{
  inr, inl, Bool-cases, if◌then◌else◌, ◌^◌, ℕ, zero, suc, ◌+◌, ◌<◌, ◌≤◌, ◌≡◌, refl, ap, ◌∙◌, true,
  false, Option, none, some, List, [], ◌∷◌, ◌++◌, map, ltb, length, length-append, take-length,
  replicate, All, arith, ok, trap, Trap, lt→ltb,
}
use Trap.{overflow, uninitialised, out_of_fuel}
use mks65_symphony.Midi.{Bytes}
use mks65_symphony.Transfer.{finish, recv_loop, recvall, sendall}
use mks65_symphony.Transfer.Whole.{sum, ArePositive, sendall-all, send_loop-done}

-- Pieces put together.
abbrev pub joined : List Bytes → Bytes
joined [] = []
joined (p ∷ ps) = p ++ joined ps

abbrev pub AreNonempty : List Bytes → Type 0
AreNonempty = All (λ (p : Bytes). 0 < length p)

abbrev last_piece : Option (Option ℕ) → List Bytes → Option (Option ℕ)
last_piece n [] = n
last_piece n (p ∷ ps) = last_piece (some (some (length p))) ps

recv_loop-prefix :
    (ps : List Bytes) (tail : List (Option Bytes)) (len total : ℕ) (moved : Bytes)
    (n : Option (Option ℕ))
    → AreNonempty ps
    → total + length (joined ps) ≤ len
    → recv_loop (map some ps ++ tail) len total moved n
      ≡ recv_loop tail len (total + length (joined ps)) (moved ++ joined ps) (last_piece n ps)
unfolding recv_loop
recv_loop-prefix [] tail len total moved n h le =
    let e : total + 0 ≡ total = omega arith in rw (e, append-nil) refl
recv_loop-prefix (p ∷ ps) tail len total moved n h le =
    let cut = length-append p (joined ps) in
    let go : ltb total len ≡ true = lt→ltb total len (omega (arith, h.0)) in
    let e : total + length (p ++ joined ps) ≡ total + length p + length (joined ps) = omega arith in
    rw (go, e, ← append_assoc moved p (joined ps))
      (recv_loop-prefix ps tail len (total + length p) (moved ++ p) (some (some (length p))) h.1
        (omega arith))

recv_loop-done :
    (tail : List (Option Bytes)) (len : ℕ) (moved : Bytes) (n : Option (Option ℕ))
    → recv_loop tail len len moved n ≡ finish len moved n
unfolding recv_loop
recv_loop-done [] len moved n = ground arith
recv_loop-done (none ∷ tail) len moved n = ground arith
recv_loop-done (some p ∷ tail) len moved n = ground arith

last_piece-some :
    (k : ℕ) (ps : List Bytes) → (l : ℕ) × (last_piece (some (some k)) ps ≡ some (some l))
last_piece-some k [] = (k, refl)
last_piece-some k (p ∷ ps) = last_piece-some (length p) ps

pub recvall-all :
    (p : Bytes) (ps : List Bytes) (tail : List (Option Bytes)) (len : ℕ)
    → AreNonempty (p ∷ ps)
    → length (joined (p ∷ ps)) ≡ len
    → len < 2 ^ 31
    → recvall (map some (p ∷ ps) ++ tail) len
      ≡ ok (record { failed = false; len = len; moved = joined (p ∷ ps) })
unfolding recvall
recvall-all p ps tail len h e int =
    let (l, last) = last_piece-some (length p) ps in
    let total : 0 + length (joined (p ∷ ps)) ≡ len = omega (arith, e) in
    rw (lt→ltb len (2 ^ 31) int) (
      recv_loop-prefix (p ∷ ps) tail len 0 [] none h (omega (arith, e))
      ∙ rw (total, last) (recv_loop-done tail len (joined (p ∷ ps)) (some (some l))))

-- What one side sends the other side receives: however the calls of `send` cut up a nonempty
-- buffer below 2 ^ 31 bytes, and however the wire's bytes come in, each call moving a byte at
-- least, both functions return 0 with the full length, and the receiver's buffer is the sender's.
pub sendall-recvall :
    (buf : Bytes) (k : ℕ) (ks : List ℕ) (p : Bytes) (ps : List Bytes)
    → ArePositive (k ∷ ks)
    → sum (k ∷ ks) ≡ length buf
    → AreNonempty (p ∷ ps)
    → joined (p ∷ ps) ≡ buf
    → length buf < 2 ^ 31
    → (sendall (map some (k ∷ ks)) buf (length buf)
        ≡ ok (record { failed = false; len = length buf; moved = buf }))
      × (recvall (map some (p ∷ ps)) (length buf)
          ≡ ok (record { failed = false; len = length buf; moved = buf }))
sendall-recvall buf k ks p ps pos e h j int = (
  rw (append-nil, take-length buf) at (sendall-all k ks [] buf (length buf) pos e),
  rw (append-nil, j) at (recvall-all p ps [] (length buf) h (ap length j) int),
)

stalled :
    (k len total : ℕ) (moved : Bytes) (n : Option (Option ℕ))
    → total < len
    → recv_loop (replicate k (some [])) len total moved n ≡ trap out_of_fuel
unfolding recv_loop
stalled zero len total moved n lt = rw (lt→ltb total len lt) refl
stalled (suc k) len total moved n lt =
    let e : total + 0 ≡ total = omega arith in
    rw (lt→ltb total len lt, e) (stalled k len total (moved ++ []) (some (some 0)) lt)

-- Once the peer has closed before all has come, `recv` returns 0 each time, and `recvall` calls it
-- again and again: after any number `k` of such calls it has not returned, for a length that an int
-- holds; for one from 2 ^ 31 on it has not either, the model ends where `bytesleft` is negative.
pub recvall_closed :
    (ps : List Bytes) (k len : ℕ)
    → AreNonempty ps
    → length (joined ps) < len
    → recvall (map some ps ++ replicate k (some [])) len
      ≡ trap (if ltb len (2 ^ 31) then out_of_fuel else overflow)
unfolding recvall
recvall_closed ps k len h lt =
    let waits =
      recv_loop-prefix ps (replicate k (some [])) len 0 [] none h (omega arith)
      ∙ stalled k len _ _ _ (omega arith) in
    elim (Bool-cases (ltb len (2 ^ 31))) [ inl int ↦ rw int waits | inr over ↦ rw over refl ]

-- With nothing to move, both functions test the result of a call that was never made.
nothing_to_move :
    (sends : List (Option ℕ)) (recvs : List (Option Bytes)) (buf : Bytes)
    → (sendall sends buf 0 ≡ trap uninitialised) × (recvall recvs 0 ≡ trap uninitialised)
unfolding sendall recvall finish
nothing_to_move sends recvs buf =
    (send_loop-done sends buf 0 [] none, recv_loop-done recvs 0 [] none)
