-- ===== src/Commands/Numbers.antt =====
-- Decimal numbers: `isnum` of server/cmd_handlers.c, and what the code uses of `atoi` and of the
-- conversion %d.
use mks65_symphony.Prelude.{
  ℕ, zero, suc, ◌+◌, ◌-◌, ◌*◌, ◌/◌, ◌%◌, ◌^◌, ◌<◌, ◌≤◌, ◌≡◌, refl, ◌∙◌, ap, Bool, true, false, ◌&&◌,
  [], ◌∷◌, ltb, leb, if◌then◌else◌, arith, Result, ok, Trap, ◌>>◌, check, Bool-cases, inl, inr,
  length,
}
use native.Mathlib.Nat.{mod-lt}
use Trap.{overflow}
use mks65_symphony.Midi.{Bytes}

abbrev pub isdigit : ℕ → Bool
isdigit c = leb 48 c && leb c 57

unfoldable pub isnum : Bytes → Bool
isnum [] = true
isnum (c ∷ s) = isdigit c && isnum s

abbrev pub int_max : ℕ
int_max = 2 ^ 31 - 1

-- The value of the digits that the text begins with, behind those of `n`.
unfoldable pub value : ℕ → Bytes → ℕ
value n [] = n
value n (c ∷ s) = let rest = value (n * 10 + (c - 48)) s in if isdigit c then rest else n

-- `atoi` of a text that begins with no blank and no sign. For a value outside int, C defines nothing.
unfoldable pub atoi : Bytes → Result ℕ
atoi s = let n = value 0 s in check (leb n int_max) overflow >> ok n

-- %d of a number that is not negative; the fuel bounds the number of digits.
unfoldable pub digits : ℕ → ℕ → Bytes → Bytes
digits zero n s = s
digits (suc fuel) n s =
    let more = digits fuel (n / 10) ((48 + n % 10) ∷ s) in if ltb n 10 then (48 + n) ∷ s else more

unfoldable pub decimal : ℕ → Bytes
decimal n = digits (n + 1) n []

value-digit : (n d : ℕ) (s : Bytes) → d < 10 → value n ((48 + d) ∷ s) ≡ value (n * 10 + d) s
unfolding value
value-digit n d s lt =
    let is : isdigit (48 + d) ≡ true = ground arith in
    let v : 48 + d - 48 ≡ d = omega arith in rw (is, v) refl

value-digits : (fuel n : ℕ) (s : Bytes) → n < fuel → value 0 (digits fuel n s) ≡ value n s
unfolding digits
value-digits zero n s lt = absurd (omega arith)
value-digits (suc fuel) n s lt = elim (Bool-cases (ltb n 10)) [
  | inl h ↦
      let small : n < 10 = ground arith in
      let z : 0 * 10 + n ≡ n = omega arith in
      rw h (value-digit 0 n s small ∙ ap (λ (m : ℕ). value m s) z)
  | inr h ↦
      let big : 10 ≤ n = ground arith in
      let less : n / 10 < fuel = omega arith in
      let m : n % 10 < 10 = omega (arith, mod-lt n {m = 10}) in
      let z : n / 10 * 10 + n % 10 ≡ n = omega arith in
      rw h (
        value-digits fuel (n / 10) ((48 + n % 10) ∷ s) less
        ∙ value-digit (n / 10) (n % 10) s m
        ∙ ap (λ (m : ℕ). value m s) z)
]

isnum-digit : (d : ℕ) (s : Bytes) → d < 10 → isnum s ≡ true → isnum ((48 + d) ∷ s) ≡ true
unfolding isnum
isnum-digit d s lt h = let is : isdigit (48 + d) ≡ true = ground arith in rw (is, h) refl

isnum-digits : (fuel n : ℕ) (s : Bytes) → n < fuel → isnum s ≡ true → isnum (digits fuel n s) ≡ true
unfolding digits
isnum-digits zero n s lt h = absurd (omega arith)
isnum-digits (suc fuel) n s lt h = elim (Bool-cases (ltb n 10)) [
  | inl e ↦ rw e (isnum-digit n s (ground arith) h)
  | inr e ↦
      let big : 10 ≤ n = ground arith in
      let m : n % 10 < 10 = omega (arith, mod-lt n {m = 10}) in
      rw e
        (isnum-digits fuel (n / 10) ((48 + n % 10) ∷ s) (omega arith) (isnum-digit (n % 10) s m h))
]

pub isnum-decimal : (n : ℕ) → isnum (decimal n) ≡ true
unfolding decimal isnum
isnum-decimal n = isnum-digits (n + 1) n [] (omega arith) refl

-- `atoi` reads back any number that is printed with %d and fits an int.
pub atoi-decimal : (n : ℕ) → n ≤ int_max → atoi (decimal n) ≡ ok n
unfolding atoi decimal value
atoi-decimal n h =
    let fits : leb n int_max ≡ true = ground arith in
    rw (value-digits (n + 1) n [] (omega arith), fits) refl

digits-cons :
    (fuel n : ℕ) (s : Bytes) → n < fuel → (c : ℕ) × (r : Bytes) × (digits fuel n s ≡ c ∷ r)
unfolding digits
digits-cons zero n s lt = absurd (omega arith)
digits-cons (suc fuel) n s lt = elim (Bool-cases (ltb n 10)) [
  | inl h ↦ (48 + n, s, rw h refl)
  | inr h ↦
      let big : 10 ≤ n = ground arith in
      let (c, r, e) = digits-cons fuel (n / 10) ((48 + n % 10) ∷ s) (omega arith) in (c, r, rw h e)
]

pub decimal-cons : (n : ℕ) → (c : ℕ) × (r : Bytes) × (decimal n ≡ c ∷ r)
unfolding decimal
decimal-cons n = digits-cons (n + 1) n [] (omega arith)

-- Numbers below 1000 have up to three digits.
digits-1 : (fuel n : ℕ) (s : Bytes) → n < 10 → length (digits (suc fuel) n s) ≤ length s + 1
unfolding digits
digits-1 fuel n s lt = let h : ltb n 10 ≡ true = ground arith in rw h (omega arith)

digits-2 :
    (fuel n : ℕ) (s : Bytes)
    → n < 100
    → n < suc fuel
    → length (digits (suc fuel) n s) ≤ length s + 2
unfolding digits
digits-2 zero n s lt f = let h : ltb n 10 ≡ true = ground arith in rw h (omega arith)
digits-2 (suc fuel) n s lt f = elim (Bool-cases (ltb n 10)) [
  | inl h ↦ rw h (omega arith)
  | inr h ↦ rw h (omega (arith, digits-1 fuel (n / 10) ((48 + n % 10) ∷ s) (omega arith)))
]

digits-3 :
    (fuel n : ℕ) (s : Bytes)
    → n < 1000
    → n < suc fuel
    → length (digits (suc fuel) n s) ≤ length s + 3
unfolding digits
digits-3 zero n s lt f = let h : ltb n 10 ≡ true = ground arith in rw h (omega arith)
digits-3 (suc fuel) n s lt f = elim (Bool-cases (ltb n 10)) [
  | inl h ↦ rw h (omega arith)
  | inr h ↦ more (ground arith) h
]
  where
    more : 10 ≤ n → ltb n 10 ≡ false → length (digits (suc (suc fuel)) n s) ≤ length s + 3
    more big h =
        rw h (omega (arith, digits-2 fuel (n / 10) ((48 + n % 10) ∷ s) (omega arith) (omega arith)))

pub length-decimal : (n : ℕ) → n < 1000 → length (decimal n) ≤ 3
unfolding decimal
length-decimal n lt = let e : n + 1 ≡ suc n = omega arith in rw e (digits-3 n n [] lt (omega arith))
