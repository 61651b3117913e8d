-- ===== src/Transfer/Whole.antt =====
-- What `sendall` and `recvall` promise: everything arrives in order however the calls cut it up,
-- a failure reports how far they came, and what happens when nothing more comes.
use mks65_symphony.Prelude.{
  ℕ, zero, suc, ◌+◌, ◌<◌, ◌≤◌, ◌≡◌, refl, ap, ◌∙◌, true, false, Option, none, some, List, [], ◌∷◌,
  ◌++◌, map, ltb, take, drop, All, arith, ok, lt→ltb,
}
use mks65_symphony.Midi.{Bytes}
use mks65_symphony.Transfer.{finish, send_loop, sendall}

abbrev pub sum : List ℕ → ℕ
sum [] = 0
sum (k ∷ ks) = k + sum ks

abbrev pub ArePositive : List ℕ → Type 0
ArePositive = All (λ (k : ℕ). 0 < k)

take-more : (a b : ℕ) (s : Bytes) → take a s ++ take b (drop a s) ≡ take (a + b) s
take-more zero b s = let e : 0 + b ≡ b = omega arith in rw e refl
take-more (suc a) b [] = let e : suc a + b ≡ suc (a + b) = omega arith in rw e (nothing b)
  where
    nothing : (b : ℕ) → take {A = ℕ} b [] ≡ []
    nothing zero = refl
    nothing (suc b) = refl
take-more (suc a) b (x ∷ s) =
    let e : suc a + b ≡ suc (a + b) = omega arith in
    rw e (ap (λ (l : Bytes). x ∷ l) (take-more a b s))

-- What `n` holds after the replies.
abbrev last_reply : Option (Option ℕ) → List ℕ → Option (Option ℕ)
last_reply n [] = n
last_reply n (k ∷ ks) = last_reply (some (some k)) ks

send_loop-prefix :
    (ks : List ℕ) (tail : List (Option ℕ)) (buf : Bytes) (len total : ℕ) (n : Option (Option ℕ))
    → ArePositive ks
    → total + sum ks ≤ len
    → send_loop (map some ks ++ tail) buf len total (take total buf) n
      ≡ send_loop tail buf len (total + sum ks) (take (total + sum ks) buf) (last_reply n ks)
unfolding send_loop
send_loop-prefix [] tail buf len total n pos le =
    let e : total + 0 ≡ total = omega arith in rw e refl
send_loop-prefix (k ∷ ks) tail buf len total n pos le =
    let go : ltb total len ≡ true = lt→ltb total len (omega (arith, pos.0)) in
    let e : total + (k + sum ks) ≡ total + k + sum ks = omega arith in
    rw (go, take-more total k buf, e)
      (send_loop-prefix ks tail buf len (total + k) (some (some k)) pos.1 (omega arith))

-- Nothing is called any more once all is sent.
pub send_loop-done :
    (tail : List (Option ℕ)) (buf : Bytes) (len : ℕ) (moved : Bytes) (n : Option (Option ℕ))
    → send_loop tail buf len len moved n ≡ finish len moved n
unfolding send_loop
send_loop-done [] buf len moved n = ground arith
send_loop-done (none ∷ tail) buf len moved n = ground arith
send_loop-done (some k ∷ tail) buf len moved n = ground arith

last_reply-some : (k : ℕ) (ks : List ℕ) → (l : ℕ) × (last_reply (some (some k)) ks ≡ some (some l))
last_reply-some k [] = (k, refl)
last_reply-some k (j ∷ ks) = last_reply-some j ks

-- Calls of `send` that take at least a byte each and `len` bytes together, however they cut the
-- buffer up: `sendall` returns 0, leaves `len` as it was, and the buffer's first `len` bytes are on
-- the wire in order; later replies are not asked for.
pub sendall-all :
    (k : ℕ) (ks : List ℕ) (tail : List (Option ℕ)) (buf : Bytes) (len : ℕ)
    → ArePositive (k ∷ ks)
    → sum (k ∷ ks) ≡ len
    → sendall (map some (k ∷ ks) ++ tail) buf len
      ≡ ok (record { failed = false; len = len; moved = take len buf })
unfolding sendall
sendall-all k ks tail buf len pos e =
    let (l, last) = last_reply-some k ks in
    let total : 0 + sum (k ∷ ks) ≡ len = omega (arith, e) in
    send_loop-prefix (k ∷ ks) tail buf len 0 none pos (omega (arith, e))
    ∙ rw (total, last) (send_loop-done tail buf len (take len buf) (some (some l)))

-- Calls that take `sum ks` bytes, fewer than `len`, and then one that fails: `sendall` returns -1
-- and reports how many bytes went out, which are the buffer's first ones.
pub sendall_failed :
    (ks : List ℕ) (tail : List (Option ℕ)) (buf : Bytes) (len : ℕ)
    → ArePositive ks
    → sum ks < len
    → sendall (map some ks ++ none ∷ tail) buf len
      ≡ ok (record { failed = true; len = sum ks; moved = take (sum ks) buf })
unfolding sendall
sendall_failed ks tail buf len pos lt =
    let total : 0 + sum ks ≡ sum ks = omega arith in
    send_loop-prefix ks (none ∷ tail) buf len 0 none pos (omega arith)
    ∙ rw (total) (stop (sum ks) (last_reply none ks) lt)
  where
    stop :
        (t : ℕ) (n : Option (Option ℕ))
        → t < len
        → send_loop (none ∷ tail) buf len t (take t buf) n
          ≡ ok (record { failed = true; len = t; moved = take t buf })
    stop t n h = rw (lt→ltb t len h) refl
