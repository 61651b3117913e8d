-- ===== src/Memory/Threads/Arrive.antt =====
-- A client that joins the list of threads, as at the end of `handle_socket` of
-- server/cmd_handlers.c.
use mks65_symphony.Prelude.{
  ℕ, ◌≡◌, ◌≢◌, ◌∙◌, refl, true, false, ◌||◌, none, some, List, [], ◌∷◌, ◌++◌, ◌==◌, has, is_some,
  arith, ok,
}
use mathlib.Core.List.{append_assoc}
use mks65_symphony.Memory.{
  Ptr, null, Object, thread_arg, ThreadNode, ThreadList, Heap, tnode, write,
}
use mks65_symphony.Memory.Cells.{Ends, weaken, Owned-kept, Owned-none, Owned-insert, has-append}
use mks65_symphony.Memory.Chain.{Cells, foot, Seg-frame}
use mks65_symphony.Memory.Chain.Grow.{foot-append}
use mks65_symphony.Memory.Threads.{thread_link, append_tnode, Arrival, alloc, new_tnode, add_client}
use mks65_symphony.Memory.Threads.Append.{NewNode, Appended, threads, append_tnode-Appended}
use mks65_symphony.Memory.Threads.Lists.{list_foot, ListAt}

-- In `g` a list at `p` stands on memory that was unused in `b`, and nothing else has changed.
pub record ListOver (b g : Heap) (p : Ptr) (l : ThreadList) (cs : Cells thread_link) : Type 0 where
  pub list_at : ListAt g p l cs
  pub outside : (a : Ptr) → has a (list_foot p cs) ≡ false → g a ≡ b a
  pub unused : (a : Ptr) → has a (list_foot p cs) ≡ true → b a ≡ none

-- A list of these threads at `p`.
abbrev pub Holding : Heap → Ptr → List ℕ → Heap → Type 0
Holding b p ts g =
    (l : ThreadList) × (cs : Cells thread_link) × ListOver b g p l cs × (threads cs ≡ ts)

list_foot-snoc :
    (p : Ptr) (cs : Cells thread_link) (e : Ptr) (n : ThreadNode)
    → (n.arg == null) ≡ false
    → list_foot p (cs ++ (e, n) ∷ []) ≡ foot thread_link cs ++ n.arg ∷ e ∷ p ∷ []
list_foot-snoc p cs e n ne =
    rw (foot-append thread_link cs ((e, n) ∷ []), ne)
      (append_assoc (foot thread_link cs) (n.arg ∷ e ∷ []) (p ∷ []))

is_null : (p : Ptr) → p ≢ null → (p == null) ≡ false
is_null p ne = ground (arith, ne)

pub alloc-ok :
    (p : Ptr) (o : Object) (h : Heap) → p ≢ null → alloc p o h ≡ ok (p, write h p (some o))
unfolding alloc
alloc-ok p o h ne = rw (is_null p ne) refl

-- The node of a client that has just been allocated.
module _ (b g : Heap) (p : Ptr) (l : ThreadList) (cs : Cells thread_link) (a : Arrival)
    (o : ListOver b g p l cs) (arg_ne : a.arg_at ≢ null) (arg_unused : g a.arg_at ≡ none)
    (e_ne : a.node_at ≢ null) (e_unused : g a.node_at ≡ none)
    (e_not_arg : a.node_at ≢ a.arg_at) where
  abbrev arg : Ptr
  arg = a.arg_at

  abbrev g1 : Heap
  g1 = write g arg (some (thread_arg (record { socket = a.socket; tid = a.tid })))

  abbrev e : Ptr
  e = a.node_at

  abbrev node : ThreadNode
  node = record { thread = a.thread; arg = arg; next = null }

  abbrev g2 : Heap
  g2 = write g1 e (some (tnode node))

  kept1 : (q : Ptr) → is_some (g q) ≡ true → g1 q ≡ g q
  unfolding write
  kept1 q i = ground (arith, i, arg_unused)

  kept : (q : Ptr) → is_some (g q) ≡ true → g2 q ≡ g q
  unfolding write
  kept q i = ground (arith, i, kept1 q, e_unused)

  still : (q : Ptr) → is_some (g q) ≡ true → is_some (g2 q) ≡ true
  still q i = rw (kept q i) i

  arg_at : g1 arg ≡ some (thread_arg (record { socket = a.socket; tid = a.tid }))
  unfolding write
  arg_at = ground arith

  g1_e : g1 e ≡ none
  unfolding write
  g1_e = ground (arith, e_unused, e_not_arg)

  there : (q : Ptr) → has q (list_foot p cs) ≡ true → is_some (g q) ≡ true
  there q i = ground (arith, i, Owned-none g (list_foot p cs) q o.list_at.owned)

  in_list : (q : Ptr) → has q (foot thread_link cs) ≡ true → has q (list_foot p cs) ≡ true
  in_list q i = ground (arith, i, has-append q (foot thread_link cs) (p ∷ []))

  p_there : is_some (g p) ≡ true
  p_there = ground (arith, o.list_at.holds)

  node_at : g2 e ≡ some (tnode node)
  unfolding write
  node_at = ground arith

  arg_there : is_some (g2 arg) ≡ true
  unfolding write
  arg_there = ground (arith, arg_at)

  out_e : has e (list_foot p cs) ≡ false
  out_e = Owned-none g (list_foot p cs) e o.list_at.owned e_unused

  out_arg : has arg (list_foot p cs) ≡ false
  out_arg = Owned-none g (list_foot p cs) arg o.list_at.owned arg_unused

  out_both : has arg (foot thread_link cs ++ e ∷ p ∷ []) ≡ false
  out_both = ground (
    arith,
    has-append arg (foot thread_link cs) (e ∷ p ∷ []),
    has-append arg (foot thread_link cs) (p ∷ []),
    out_arg,
    e_not_arg,
  )

  list_at' : ListAt g2 p l cs
  list_at' = record {
    not_null = o.list_at.not_null;
    holds = kept p p_there ∙ o.list_at.holds;
    chain = Seg-frame thread_link o.list_at.chain λ q i. kept q (there q (in_list q i));
    last = o.list_at.last;
    counted = o.list_at.counted;
    owned = Owned-kept g g2 (list_foot p cs) still o.list_at.owned;
  }

  new_at : NewNode g2 p cs e node
  new_at = record {
    not_null = e_ne;
    holds = node_at;
    ends = refl;
    owned = rw (list_foot-snoc p cs e node (is_null arg arg_ne)) (
        Owned-insert g2 arg (foot thread_link cs) (e ∷ p ∷ []) (arg_ne, arg_there) out_both
          (Owned-insert g2 e (foot thread_link cs) (p ∷ []) (e_ne, ground (arith, node_at)) out_e
            list_at'.owned));
  }

  add_client-ok : add_client p a g ≡ append_tnode p e g2
  unfolding add_client new_tnode
  add_client-ok =
      rw
        (
          alloc-ok arg (thread_arg (record { socket = a.socket; tid = a.tid })) g arg_ne,
          is_null arg arg_ne,
          alloc-ok e (tnode node) g1 e_ne,
          is_null e e_ne,
        )
        refl

  foot_is :
      {k : Heap} (x : Appended g2 p cs e node k)
      → list_foot p x.cells ≡ foot thread_link cs ++ arg ∷ e ∷ p ∷ []
  foot_is x = rw x.foot_is (list_foot-snoc p cs e node (is_null arg arg_ne))

  in_new :
      {k : Heap} (x : Appended g2 p cs e node k) (q : Ptr)
      → has q (list_foot p x.cells) ≡ (has q (list_foot p cs) || ((q == arg) || (q == e)))
  in_new x q = rw (foot_is x) (
      ground (
        arith,
        has-append q (foot thread_link cs) (arg ∷ e ∷ p ∷ []),
        has-append q (foot thread_link cs) (p ∷ []),
      ))

  far : (q : Ptr) → (q == arg) ≡ false → (q == e) ≡ false → g2 q ≡ g q
  unfolding write
  far q i j = ground (arith, i, j)

  added : (k : Heap) (x : Appended g2 p cs e node k) → ListOver b k p x.list x.cells
  added k x = record {
    list_at = x.at;
    outside = λ q i. ground (arith, i, in_new x q, x.others q, far q, o.outside q);
    unused = λ q i.
        ground
          (arith, i, in_new x q, o.unused q, o.outside q, out_e, out_arg, e_unused, arg_unused);
  }

  pub add_client-Holding :
      Ends
        (λ _ k.
          Holding b p (threads cs ++ a.thread ∷ []) k
          × ((q : Ptr) → g q ≡ none → (q == arg) ≡ false → (q == e) ≡ false → k q ≡ none))
        (add_client p a g)
  add_client-Holding = rw add_client-ok (
      weaken (append_tnode-Appended g2 p l cs e node list_at' new_at) λ _ k x. (
        (x.list, x.cells, added k x, x.order),
        λ q i y z. x.others q (Owned-none g (list_foot p cs) q o.list_at.owned i) ∙ far q y z ∙ i,
      ))
