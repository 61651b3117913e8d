-- ===== src/Splitter/Share.antt =====
-- How many tracks, and which, each computer gets: the arithmetic of server/midi_splitter.c.
use mks65_symphony.Prelude.{
  ℕ, zero, suc, ◌+◌, ◌-◌, ◌*◌, ◌/◌, ◌%◌, ◌≤◌, ◌<◌, ◌≡◌, refl, ap, ◌∙◌, some, List, [], ◌∷◌, ltb,
  if◌then◌else◌, get_elem?, length, arith, ok, leb, le→leb, lt→not_leb, Bool-cases, inl, inr, trap,
  Trap, ◌==◌, false,
}
use Trap.{out_of_bounds}
use mks65_symphony.Splitter.{fill_map, track_num_map}
use native.Mathlib.Decide.{dec_lt}
use native.Mathlib.Nat.{mod-lt, div-add-mod}

-- The tracks of computer `i` when `n` tracks are dealt in turn to `m` computers.
unfoldable pub dealt : ℕ → ℕ → ℕ → ℕ
dealt n m i = n / m + (if ltb i (n % m) then 1 else 0)

positive : (m : ℕ) → 0 < m → (m == 0) ≡ false
positive m h = ground arith

abbrev pub sum : List ℕ → ℕ
sum [] = 0
sum (x ∷ xs) = x + sum xs

-- What is to stand in the array: `base`, and one more in the first `k` cells.
abbrev entries : ℕ → ℕ → ℕ → List ℕ
entries zero base k = []
entries (suc n) base k =
    (if ltb 0 k then base + 1 else base) ∷ entries n base (if ltb 0 k then k - 1 else k)

fill_map-entries :
    (room n i base k : ℕ) → 4 * (i + n) ≤ room → fill_map room n i base k ≡ ok (entries n base k)
unfolding fill_map
fill_map-entries room zero i base k h = refl
fill_map-entries room (suc n) i base k h =
    rw
      (
        le→leb (4 * (i + 1)) room (omega arith),
        fill_map-entries room n (i + 1) base (if ltb 0 k then k - 1 else k) (omega arith),
      )
      refl

fill_map-overrun :
    (room n i base k : ℕ)
    → 0 < n
    → room < 4 * (i + n)
    → fill_map room n i base k ≡ trap out_of_bounds
unfolding fill_map
fill_map-overrun room zero i base k pos h = elim pos [ ]
fill_map-overrun room (suc zero) i base k pos h =
    rw (lt→not_leb (4 * (i + 1)) room (omega arith)) refl
fill_map-overrun room (suc (suc n)) i base k pos h = elim (Bool-cases (leb (4 * (i + 1)) room)) [
  | inl fits ↦
      rw
        (
          fits,
          fill_map-overrun room (suc n) (i + 1) base (if ltb 0 k then k - 1 else k) (omega arith)
              (omega arith),
        )
        refl
  | inr past ↦ rw past refl
]

length-entries : (n base k : ℕ) → length (entries n base k) ≡ n
length-entries zero base k = refl
length-entries (suc n) base k = ap suc (length-entries n base _)

entries-get :
    (n base k i : ℕ)
    → i < n
    → get_elem? (entries n base k) i ≡ some (base + (if ltb i k then 1 else 0))
entries-get zero base k i h = elim h [ ]
entries-get (suc n) base k zero h = ground arith
entries-get (suc n) base k (suc i) h =
    ground (arith, entries-get n base (k - 1) i (omega arith), entries-get n base k i (omega arith))

sum-entries : (n base k : ℕ) → k ≤ n → sum (entries n base k) ≡ n * base + k
sum-entries zero base k h = omega arith
sum-entries (suc n) base k h = ground (arith, sum-entries n base (k - 1), sum-entries n base k)

-- If malloc's block has room for an int for each computer, and there is a computer, the map exists,
-- has an entry for each computer, which holds the number of tracks dealt to it, and its entries add
-- up to the number of tracks.
pub track_num_map_lem :
    (usable : ℕ → ℕ) (n m : ℕ)
    → 0 < m
    → 4 * m ≤ usable m
    → (map : List ℕ) × (track_num_map usable n m ≡ ok map)
      × (length map ≡ m)
      × (sum map ≡ n)
      × ((i : ℕ) → i < m → get_elem? map i ≡ some (dealt n m i))
unfolding track_num_map dealt
track_num_map_lem usable n m h room = (
  entries m (n / m) (n % m),
  rw (positive m h) (fill_map-entries (usable m) m 0 (n / m) (n % m) (omega arith)),
  length-entries m (n / m) (n % m),
  sum-entries m (n / m) (n % m) (omega (arith, mod-lt n h)) ∙ div-add-mod n m,
  λ i lt. entries-get m (n / m) (n % m) i lt,
)

-- The code asks for one byte for each computer. If malloc's block has less than four for each, and
-- the C standard promises no more than was asked, the array is written past its end.
pub track_num_map_overrun :
    (usable : ℕ → ℕ) (n m : ℕ)
    → 0 < m
    → usable m < 4 * m
    → track_num_map usable n m ≡ trap out_of_bounds
unfolding track_num_map
track_num_map_overrun usable n m h room =
    rw (positive m h) (fill_map-overrun (usable m) m 0 (n / m) (n % m) h (omega arith))

pub mul_mono : (a b m : ℕ) → a < b → a * m + m ≤ b * m
mul_mono a b m h = grind arith

-- Every track that the loop of the mixing branch names is one of the `n` tracks, so its assert
-- never fails, and every track `s` below `n` is named by computer `s % m` in round `s / m`.
pub dealt-bounds : (n m i d : ℕ) → i < m → d < dealt n m i → i + d * m < n
unfolding dealt
dealt-bounds n m i d hi hd = elim (dec_lt d (n / m)) [
  | yes p ↦ omega (arith, div-add-mod n m, mul_mono d (n / m) m p)
  | no p ↦
      let e : d ≡ n / m = ground arith in
      let r : i < n % m = ground arith in omega (arith, div-add-mod n m, ap (λ (x : ℕ). x * m) e)
]

pub dealt-covers : (n m s : ℕ) → 0 < m → s < n → s / m < dealt n m (s % m)
unfolding dealt
dealt-covers n m s hm hs = ground (
  arith,
  div-add-mod n m,
  div-add-mod s m,
  mod-lt n {m = m},
  mod-lt s {m = m},
  mul_mono (n / m) (s / m) m,
)
