-- ===== src/Memory/Threads/Connections.antt =====
-- The list of threads from `setup_connections` to `clear_connections` of server/cmd_handlers.c.
use mks65_symphony.Prelude.{
  ℕ, ◌≡◌, ◌≢◌, refl, false, none, List, [], ◌∷◌, ◌++◌, ◌==◌, has, arith, map,
}
use mathlib.Core.List.{append_assoc, append-nil}
use mathlib.Core.Path.{subst}
use mks65_symphony.Memory.{Ptr, null, Heap, tlist, write}
use mks65_symphony.Memory.Cells.{Ends, ends, follow, weaken}
use mks65_symphony.Memory.Chain.{nil}
use mks65_symphony.Memory.Threads.{Arrival, new_tlist, add_clients}
use mks65_symphony.Memory.Threads.Append.{threads}
use mks65_symphony.Memory.Threads.Arrive.{Holding, alloc-ok, add_client-Holding}

-- Addresses that `malloc` may give one after the other where `h` stands: all different.
abbrev pub Unused : Heap → List Ptr → Type 0
Unused h [] = Unit
Unused h (p ∷ ps) = (p ≢ null) × (h p ≡ none) × (has p ps ≡ false) × Unused h ps

-- What the clients of a list get.
abbrev pub places : List Arrival → List Ptr
places [] = []
places (a ∷ arrivals) = a.arg_at ∷ a.node_at ∷ places arrivals

pub new_tlist-ListOver :
    (b : Heap) (p : Ptr)
    → p ≢ null
    → b p ≡ none
    → Ends (λ q g. (q ≡ p) × Holding b p [] g × ((a : Ptr) → a ≢ p → g a ≡ b a)) (new_tlist p b)
unfolding new_tlist write
new_tlist-ListOver b p ne free_at =
    rw (alloc-ok p (tlist (record { first = null; last = null; len = 0 })) b ne) (
      ends (
        refl,
        (
          record { first = null; last = null; len = 0 },
          [],
          record {
            list_at = record {
              not_null = ne;
              holds = ground arith;
              chain = nil;
              last = tt;
              counted = refl;
              owned = ((ne, ground arith), refl, tt);
            };
            outside = λ a i. ground (arith, i);
            unused = λ a i. ground (arith, i, free_at);
          },
          refl,
        ),
        λ a i. ground (arith, i),
      ))

Unused-kept :
    (g k : Heap) (arg e : Ptr) (qs : List Ptr)
    → ((q : Ptr) → g q ≡ none → (q == arg) ≡ false → (q == e) ≡ false → k q ≡ none)
    → has arg qs ≡ false
    → has e qs ≡ false
    → Unused g qs
    → Unused k qs
Unused-kept g k arg e [] same i j u = tt
Unused-kept g k arg e (q ∷ qs) same i j u = (
  u.0,
  same q u.1 (ground (arith, i)) (ground (arith, j)),
  u.2,
  Unused-kept g k arg e qs same (ground (arith, i)) (ground (arith, j)) u.3,
)

pub add_clients-Holding :
    (b g : Heap) (p : Ptr) (ts : List ℕ) (arrivals : List Arrival)
    → Holding b p ts g
    → Unused g (places arrivals)
    → Ends (λ _ k. Holding b p (ts ++ map (λ a. a.thread) arrivals) k) (add_clients p arrivals g)
unfolding add_clients
add_clients-Holding b g p ts [] h u = ends (rw append-nil h)
add_clients-Holding b g p ts (a ∷ arrivals) (l, cs, o, order) u =
    follow (add_client-Holding b g p l cs a o u.0 u.1 u.3.0 u.3.1 other) λ _ k h'.
      weaken
        (add_clients-Holding b k p (threads cs ++ a.thread ∷ []) arrivals h'.0 (
          Unused-kept g k a.arg_at a.node_at (places arrivals) h'.1 (ground (arith, u.2)) u.3.2
            u.3.3))
        λ _ f h''.
          subst (λ l. Holding b p l f)
            (rw order (append_assoc ts (a.thread ∷ []) (map (λ c. c.thread) arrivals))) h''
  where
    other : a.node_at ≢ a.arg_at
    other i = ground (arith, i, u.2)
