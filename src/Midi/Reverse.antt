-- ===== src/Midi/Reverse.antt =====
-- `reverse_memcpy` of server/midi.c, which its other functions no longer call: a copy of memory from
-- right to left.
use mathlib.Core.List.{reverse_aux, reverse, reverse_aux-eq, append_assoc}
use mks65_symphony.Prelude.{
  ℕ, zero, suc, ◌+◌, ◌-◌, ◌≤◌, ◌<◌, ◌≡◌, refl, ap, ◌∙◌, none, some, [], ◌∷◌, ◌++◌, ltb, lt→ltb,
  length, length-append, length-set, get_elem?, set, drop, arith, Result, ok, trap, Trap, ◌>>=◌,
  ◌>>◌, check,
}
use Trap.{out_of_bounds}
use mks65_symphony.Midi.Types.{Bytes}

unfoldable byte_at : Bytes → ℕ → Result ℕ
byte_at src i = elim (get_elem? src i) [ none ↦ trap out_of_bounds | some b ↦ ok b ]

unfoldable byte_set : Bytes → ℕ → ℕ → Result Bytes
byte_set dest i b = do check (ltb i (length dest)) out_of_bounds; ok (set dest i b)

-- The loop from `i` on, with `k` rounds left.
unfoldable reverse_from : ℕ → ℕ → ℕ → Bytes → Bytes → Result Bytes
reverse_from zero i n dest src = ok dest
reverse_from (suc k) i n dest src = do
  b ← byte_at src i
  dest' ← byte_set dest (n - 1 - i) b
  reverse_from k (i + 1) n dest' src

unfoldable pub reverse_memcpy : Bytes → Bytes → ℕ → Result Bytes
unfolding reverse_from byte_at byte_set
reverse_memcpy dest src n = reverse_from n 0 n dest src

byte_at-middle : (pre xs : Bytes) (b : ℕ) → byte_at (pre ++ b ∷ xs) (length pre) ≡ ok b
unfolding byte_at
byte_at-middle [] xs b = refl
byte_at-middle (p ∷ pre) xs b = byte_at-middle pre xs b

byte_set-within : (dest : Bytes) (i b : ℕ) → i < length dest → byte_set dest i b ≡ ok (set dest i b)
unfolding byte_set
byte_set-within dest i b lt = rw (lt→ltb i (length dest) lt) refl

drop-set :
    (dest : Bytes) (k b : ℕ) → k < length dest → drop k (set dest k b) ≡ b ∷ drop (suc k) dest
drop-set [] k b h = absurd (omega (arith, h))
drop-set (d ∷ dest) zero b h = refl
drop-set (d ∷ dest) (suc k) b h = drop-set dest k b (omega (arith, h))

reverse_from-step :
    (k i n b : ℕ) (dest dest' src : Bytes)
    → byte_at src i ≡ ok b
    → byte_set dest (n - 1 - i) b ≡ ok dest'
    → reverse_from (suc k) i n dest src ≡ reverse_from k (i + 1) n dest' src
unfolding reverse_from
reverse_from-step k i n b dest dest' src read write =
    ap
      (λ (r : Result ℕ).
        r >>= λ c. byte_set dest (n - 1 - i) c >>= λ d. reverse_from k (i + 1) n d src)
      read
    ∙ ap (λ (r : Result Bytes). r >>= λ d. reverse_from k (i + 1) n d src) write

reverse_from-all :
    (pre xs tail dest : Bytes) (n : ℕ)
    → n ≡ length pre + length xs
    → length xs ≤ length dest
    → reverse_from (length xs) (length pre) n dest (pre ++ (xs ++ tail))
      ≡ ok (reverse_aux xs (drop (length xs) dest))
unfolding reverse_from
reverse_from-all pre [] tail dest n e le = refl
reverse_from-all pre (b ∷ xs) tail dest n e le =
    let lt : length xs < length dest = omega (arith, le) in
    let at_end : n - 1 - length pre ≡ length xs = omega (arith, e) in
    let longer : length (pre ++ b ∷ []) ≡ length pre + 1 =
      omega (arith, length-append pre (b ∷ [])) in
    let rest =
      reverse_from-all (pre ++ b ∷ []) xs tail (set dest (length xs) b) n (omega (arith, longer, e))
        (omega (arith, length-set dest (length xs) b, lt)) in
    let write : byte_set dest (n - 1 - length pre) b ≡ ok (set dest (length xs) b) =
      rw at_end (byte_set-within dest (length xs) b lt) in
    reverse_from-step (length xs) (length pre) n b dest (set dest (length xs) b)
      (pre ++ b ∷ (xs ++ tail)) (byte_at-middle pre (xs ++ tail) b) write
    ∙ rw (longer, append_assoc pre (b ∷ []) (xs ++ tail), drop-set dest (length xs) b lt) at rest

-- `n` bytes of the source, which may go on behind them, come into the destination, which has room
-- for them, in reverse order; what lies behind them in the destination stays. Nothing is read or
-- written out of bounds.
pub reverse_memcpy_lem :
    (src tail dest : Bytes)
    → length src ≤ length dest
    → reverse_memcpy dest (src ++ tail) (length src) ≡ ok (reverse src ++ drop (length src) dest)
unfolding reverse_memcpy
reverse_memcpy_lem src tail dest le =
    reverse_from-all [] src tail dest (length src) (omega arith) le
    ∙ ap ok (reverse_aux-eq src (drop (length src) dest))
