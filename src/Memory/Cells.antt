-- ===== src/Memory/Cells.antt =====
-- What a heap holds, and what is left of it when a set of addresses has been freed.
use mks65_symphony.Prelude.{
  ◌≡◌, ◌≢◌, refl, Bool, true, false, ◌||◌, none, List, [], ◌∷◌, ◌++◌, ◌==◌, if◌then◌else◌, has,
  is_some, arith, Result, ok, Option-cases, inl, inr,
}
use mathlib.Core.Bool.{or_assoc}
use mks65_symphony.Memory.{Ptr, null, Heap, write, run_on, Cmd, free}

-- The call comes to its end, with a result and a heap that `Post` holds of.
pub data Ends {A : Type 0} (Post : A → Heap → Type 0) : Result (A × Heap) → Type 0 where
  ends : {result : A} {left : Heap} → Post result left → Ends Post (ok (result, left))

pub weaken :
    {A : Type 0} {Post Post' : A → Heap → Type 0} {run : Result (A × Heap)}
    → Ends Post run
    → ((result : A) (left : Heap) → Post result left → Post' result left)
    → Ends Post' run
weaken (ends holds) also = ends (also _ _ holds)

pub follow :
    {A B : Type 0} {Post : A → Heap → Type 0} {Post' : B → Heap → Type 0} {run : Result (A × Heap)}
    {rest : A → Cmd B}
    → Ends Post run
    → ((result : A) (left : Heap) → Post result left → Ends Post' (rest result left))
    → Ends Post' (run_on run rest)
follow (ends holds) goes_on = goes_on _ _ holds

-- `g` is `h` less what stood at the addresses of `xs`.
abbrev pub Without : List Ptr → Heap → Heap → Type 0
Without xs h g = (a : Ptr) → g a ≡ (if has a xs then none else h a)

abbrev pub Live : Heap → Ptr → Type 0
Live h p = (p ≢ null) × (is_some (h p) ≡ true)

-- Different objects of the heap, all there.
abbrev pub Owned : Heap → List Ptr → Type 0
Owned h [] = Unit
Owned h (p ∷ ps) = Live h p × (has p ps ≡ false) × Owned h ps

abbrev pub Apart : List Ptr → List Ptr → Type 0
Apart xs ys = (a : Ptr) → has a xs ≡ true → has a ys ≡ false

-- The address that a pointer names, which is none for a null pointer.
abbrev pub own : Ptr → List Ptr
own p = if p == null then [] else p ∷ []

pub has-append :
    (a : Ptr) (front back : List Ptr) → has a (front ++ back) ≡ (has a front || has a back)
has-append a [] back = refl
has-append a (p ∷ front) back = rw (has-append a front back, or_assoc)

module _ (h g : Heap) (xs : List Ptr) (w : Without xs h g) where
  pub Owned-Without : (ps : List Ptr) → Owned h ps → Apart ps xs → Owned g ps
  Owned-Without [] o d = tt
  Owned-Without (p ∷ ps) o d =
      ((o.0.0, kept), o.1, Owned-Without ps o.2 λ a i. d a (ground (arith, i)))
    where
      kept : is_some (g p) ≡ true
      kept = ground (arith, w p, d p, o.0.1)

pub Owned-kept :
    (h g : Heap) (ps : List Ptr)
    → ((a : Ptr) → is_some (h a) ≡ true → is_some (g a) ≡ true)
    → Owned h ps
    → Owned g ps
Owned-kept h g [] same o = tt
Owned-kept h g (p ∷ ps) same o = ((o.0.0, same p o.0.1), o.1, Owned-kept h g ps same o.2)

pub Owned-append :
    (h : Heap) (xs ys : List Ptr) → Owned h (xs ++ ys) → Owned h xs × Owned h ys × Apart xs ys
Owned-append h [] ys o = (tt, o, λ a i. ground (arith, i))
Owned-append h (x ∷ xs) ys o =
    let rest = Owned-append h xs ys o.2 in
    ((o.0, ground (arith, has-append x xs ys, o.1), rest.0), rest.1, apart rest.2)
  where
    apart : Apart xs ys → Apart (x ∷ xs) ys
    apart d a i = ground (arith, has-append x xs ys, o.1, d a, i)

pub Owned-none : (h : Heap) (ps : List Ptr) (a : Ptr) → Owned h ps → h a ≡ none → has a ps ≡ false
Owned-none h [] a o e = refl
Owned-none h (p ∷ ps) a o e = ground (arith, Owned-none h ps a o.2 e, o.0.1, e)

pub Owned-insert :
    (h : Heap) (x : Ptr) (xs ys : List Ptr)
    → Live h x
    → has x (xs ++ ys) ≡ false
    → Owned h (xs ++ ys)
    → Owned h (xs ++ x ∷ ys)
Owned-insert h x [] ys live out o = (live, out, o)
Owned-insert h x (y ∷ xs) ys live out o =
    (o.0, other, Owned-insert h x xs ys live (ground (arith, out)) o.2)
  where
    other : has y (xs ++ x ∷ ys) ≡ false
    other = ground (arith, has-append y xs (x ∷ ys), has-append y xs ys, out, o.1)

pub Without-append :
    (h g k : Heap) (xs ys : List Ptr) → Without xs h g → Without ys g k → Without (xs ++ ys) h k
Without-append h g k xs ys v w a = ground (arith, has-append a xs ys, v a, w a)

free-live :
    (h : Heap) (p : Ptr)
    → (p == null) ≡ false
    → is_some (h p) ≡ true
    → free p h ≡ ok (tt, write h p none)
unfolding free
free-live h p e i = elim (Option-cases (h p)) [
  | inl none' ↦ absurd (ground (arith, none', i))
  | inr (c, some') ↦ rw (e, some') refl
]

free-null : (h : Heap) (p : Ptr) → (p == null) ≡ true → free p h ≡ ok (tt, h)
unfolding free
free-null h p e = rw e refl

pub free-Live : (h : Heap) (p : Ptr) → Live h p → Ends (λ _. Without (p ∷ []) h) (free p h)
unfolding write
free-Live h p live = rw (free-live h p not_null live.1) (ends λ a. ground arith)
  where
    not_null : (p == null) ≡ false
    not_null = ground (arith, live.0)

pub free-Without : (h : Heap) (p : Ptr) → Owned h (own p) → Ends (λ _. Without (own p) h) (free p h)
free-Without h p o = by_null (p == null) refl o
  where
    by_null :
        (b : Bool)
        → (p == null) ≡ b
        → Owned h (if b then [] else p ∷ [])
        → Ends (λ _. Without (own p) h) (free p h)
    by_null true e live = rw (free-null h p e, e) (ends λ a. refl)
    by_null false e live = rw e (free-Live h p live.0)

-- One command after another, each on its own part of the heap.
pub seq-Without :
    (h : Heap) (xs ys : List Ptr) {r : Result (Unit {0} × Heap)} {k : Cmd (Unit {0})}
    → Owned h (xs ++ ys)
    → (Owned h xs → Ends (λ _. Without xs h) r)
    → ((g : Heap) → Without xs h g → Apart xs ys → Owned g ys → Ends (λ _. Without ys g) (k g))
    → Ends (λ _. Without (xs ++ ys) h) (run_on r λ _. k)
seq-Without h xs ys o first then_ =
    let parts = Owned-append h xs ys o in
    follow (first parts.0) λ _ g w.
      weaken
        (then_ g w parts.2 (Owned-Without h g xs w ys parts.1 λ a i. ground (arith, parts.2 a, i)))
        λ _ l v. Without-append h g l xs ys w v

pub Apart-left : (xs ys zs : List Ptr) → Apart xs (ys ++ zs) → Apart xs ys
Apart-left xs ys zs d a i = ground (arith, has-append a ys zs, d a, i)

pub Apart-right : (xs ys zs : List Ptr) → Apart xs (ys ++ zs) → Apart xs zs
Apart-right xs ys zs d a i = ground (arith, has-append a ys zs, d a, i)
