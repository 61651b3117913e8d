-- ===== src/Splitter/Deal.antt =====
-- That each track of the source is dealt to some computer, and to one only where tracks are mixed:
-- the indices that the loops of server/midi_splitter.c name.
use mks65_symphony.Prelude.{
  ℕ, zero, suc, ◌+◌, ◌*◌, ◌/◌, ◌%◌, ◌≤◌, ◌<◌, ◌≡◌, ap, true, false, ◌==◌, leb, arith, Bool-cases,
  inl, inr, has,
}
use native.Mathlib.Decide.{dec_lt}
use native.Mathlib.Nat.{mod-lt, div-add-mod, mod-eq_of_lt}
use mks65_symphony.Splitter.Share.{dealt, dealt-covers, mul_mono}
use mks65_symphony.Splitter.Split.{spaced, share}

has-spaced :
    (first step n d k : ℕ)
    → d ≤ k
    → k < d + n
    → has (first + k * step) (spaced first step n d) ≡ true
has-spaced first step zero d k h lt = absurd (omega arith)
has-spaced first step (suc n) d k h lt = elim (dec_lt d k) [
  | yes p ↦ ground (arith, has-spaced first step n (d + 1) k (omega arith) (omega arith))
  | no p ↦ let e : k ≡ d = omega arith in rw e (ground arith)
]

share-covers :
    (n m first s : ℕ)
    → 0 < m
    → s < n
    → (i : ℕ) × (i < m) × (has (s + first) (share n m first i) ≡ true)
share-covers n m first s hm hs = elim (Bool-cases (leb n m)) [
  | inl small ↦ (s, ground arith, rw (small, mod-eq_of_lt hs) (ground arith))
  | inr large ↦ (s % m, mod-lt s hm, rw large (mixed_in large))
]
  where
    mixed_in :
        leb n m ≡ false → has (s + first) (spaced (s % m + first) m (dealt n m (s % m)) 0) ≡ true
    mixed_in large =
        let e : s + first ≡ s % m + first + s / m * m = omega (arith, div-add-mod s m) in
        rw e (
          has-spaced (s % m + first) m (dealt n m (s % m)) 0 (s / m) (omega arith)
            (omega (arith, dealt-covers n m s hm hs)))

-- A number that was listed is of that form.
spaced-has :
    (a first step n d : ℕ) → has a (spaced first step n d) ≡ true → (k : ℕ) × (a ≡ first + k * step)
spaced-has a first step zero d h = cc
spaced-has a first step (suc n) d h = elim (Bool-cases (a == first + d * step)) [
  | inl here ↦ (d, ground arith)
  | inr there ↦ spaced-has a first step n (d + 1) (rw there at h)
]

residue_unique : (m i j k l : ℕ) → i < m → j < m → i + k * m ≡ j + l * m → i ≡ j
residue_unique m i j k l hi hj e = elim (dec_lt k l) [
  | yes p ↦ absurd (omega (arith, mul_mono k l m p))
  | no p ↦ elim (dec_lt l k) [
    | yes q ↦ absurd (omega (arith, mul_mono l k m q))
    | no q ↦ let same : k ≡ l = omega arith in omega (arith, ap (λ (x : ℕ). x * m) same)
  ]
]

share-disjoint :
    (n m first a i j : ℕ)
    → m < n
    → i < m
    → j < m
    → has a (share n m first i) ≡ true
    → has a (share n m first j) ≡ true
    → i ≡ j
share-disjoint n m first a i j h hi hj p q =
    let large : leb n m ≡ false = ground arith in
    let (k, e) = spaced-has a (i + first) m (dealt n m i) 0 (rw large at p) in
    let (l, f) = spaced-has a (j + first) m (dealt n m j) 0 (rw large at q) in
    residue_unique m i j k l hi hj (omega arith)

-- The tracks of a file of `n` tracks from `first` on reach `m` computers: each goes to some
-- computer, and to one only if the computers are fewer.
pub record IsDealt (n m first : ℕ) : Type 0 where
  pub covered : (s : ℕ) → s < n → (i : ℕ) × (i < m) × (has (s + first) (share n m first i) ≡ true)
  pub apart :
      (a i j : ℕ)
      → m < n
      → i < m
      → j < m
      → has a (share n m first i) ≡ true
      → has a (share n m first j) ≡ true
      → i ≡ j

pub share-IsDealt : (n m first : ℕ) → 0 < m → IsDealt n m first
share-IsDealt n m first h = record {
  covered = λ s lt. share-covers n m first s h lt;
  apart = λ a i j. share-disjoint n m first a i j;
}
