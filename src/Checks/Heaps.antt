-- ===== src/Checks/Heaps.antt =====
-- Heaps by their objects, with tests of what they own and of what is unused.
use mks65_symphony.Prelude.{
  ℕ, ◌≡◌, ◌≢◌, Bool, true, false, not, ◌&&◌, is_some, Option-cases, inl, inr, none, some, List, [],
  ◌∷◌, ◌==◌, if◌then◌else◌, arith, has,
}
use mks65_symphony.Memory.{Ptr, null, Object, Heap}
use mks65_symphony.Memory.Cells.{Owned}
use mks65_symphony.Memory.Threads.Connections.{Unused}

abbrev pub heap_of : List (Ptr × Object) → Heap
heap_of [] a = none
heap_of ((p, o) ∷ os) a = if a == p then some o else heap_of os a

abbrev owned_test : Heap → List Ptr → Bool
owned_test h [] = true
owned_test h (p ∷ ps) = not (p == null) && (is_some (h p) && (not (has p ps) && owned_test h ps))

pub owned_lem : (h : Heap) (ps : List Ptr) → owned_test h ps ≡ true → Owned h ps
owned_lem h [] e = tt
owned_lem h (p ∷ ps) e = (
  ((λ i. ground (arith, i, e)), ground (arith, e)),
  ground (arith, e),
  owned_lem h ps (ground (arith, e)),
)

abbrev unused_test : Heap → List Ptr → Bool
unused_test h [] = true
unused_test h (p ∷ ps) =
    not (p == null) && (not (is_some (h p)) && (not (has p ps) && unused_test h ps))

pub unused_lem : (h : Heap) (ps : List Ptr) → unused_test h ps ≡ true → Unused h ps
unused_lem h [] e = tt
unused_lem h (p ∷ ps) e =
    ((λ i. ground (arith, i, e)), nothing, ground (arith, e), unused_lem h ps (ground (arith, e)))
  where
    nothing : h p ≡ none
    nothing = elim (Option-cases (h p)) [
      | inl empty ↦ empty
      | inr (o, full) ↦ absurd (ground (arith, full, e))
    ]

pub positive : (n : ℕ) → (n == null) ≡ false → n ≢ null
positive n e i = ground (arith, e, i)
