-- ===== src/Memory/Threads/Reconnect.antt =====
-- What is left of the threads' memory after `clear_connections` and after `handle_quit` of
-- server/cmd_handlers.c.
use mks65_symphony.Prelude.{
  ℕ, zero, suc, ◌<◌, ◌≡◌, ◌≢◌, ◌∙◌, ap, refl, false, List, [], ◌∷◌, ◌==◌, has, arith, length,
  length-map, ok, trap, Trap, All, map,
}
use Trap.{use_after_free}
use mks65_symphony.Memory.{load_thread_arg, Ptr, null, Heap}
use mks65_symphony.Memory.Cells.{Ends, ends, follow, weaken, Without, Owned-append, free-Live}
use mks65_symphony.Memory.Chain.{Cells, Seg, nil, cons, foot}
use mks65_symphony.Memory.Threads.{
  thread_link, Arrival, connections, free_connections, read_arg, free_tlist, cancel_each,
  quit_clients,
}
use mks65_symphony.Memory.Threads.Append.{threads}
use mks65_symphony.Memory.Threads.Arrive.{Holding}
use mks65_symphony.Memory.Threads.Connections.{
  Unused, places, new_tlist-ListOver, add_clients-Holding,
}
use mks65_symphony.Memory.Threads.Lists.{free_tlist-Without, load_tnode-at, load_tlist-at}

length-Holding : (cs : Cells thread_link) → length (threads cs) ≡ length cs
length-Holding cs = length-map cs λ c. c.1.thread

Unused-other :
    (b g : Heap) (p : Ptr) (qs : List Ptr)
    → ((a : Ptr) → a ≢ p → g a ≡ b a)
    → has p qs ≡ false
    → Unused b qs
    → Unused g qs
Unused-other b g p [] same out u = tt
Unused-other b g p (q ∷ qs) same out u =
    (u.0, same q away ∙ u.1, u.2, Unused-other b g p qs same (ground (arith, out)) u.3)
  where
    away : q ≢ p
    away i = ground (arith, i, out)

free_tlist-Holding :
    (b : Heap) (k : ℕ) (p : Ptr) (ts : List ℕ) (g : Heap)
    → Holding b p ts g
    → length ts < k
    → Ends (λ _ f. (a : Ptr) → f a ≡ b a) (free_tlist k p g)
free_tlist-Holding b k p ts g (l, cs, o, order) fuel =
    weaken (free_tlist-Without k g p l cs o.list_at enough)
      λ _ f w a. ground (arith, w a, o.outside a, o.unused a)
  where
    enough : length cs < k
    enough = omega (arith, length-Holding cs, ap length order, fuel)

-- A thread that reads its argument where it has been freed.
abbrev pub ReadsFreed : Heap → List Arrival → Type 0
ReadsFreed g = All (λ (a : Arrival). read_arg a.arg_at g ≡ trap use_after_free)

ReadsFreed-lem :
    (b g : Heap) (arrivals : List Arrival)
    → ((a : Ptr) → g a ≡ b a)
    → Unused b (places arrivals)
    → ReadsFreed g arrivals
unfolding read_arg load_thread_arg
ReadsFreed-lem b g [] same u = tt
ReadsFreed-lem b g (a ∷ arrivals) same u =
    (rw (not_null, same a.arg_at, u.1) refl, ReadsFreed-lem b g arrivals same u.3.3)
  where
    not_null : (a.arg_at == null) ≡ false
    not_null = ground (arith, u.0)

-- From `setup_connections` over any clients that are accepted to the `clear_connections` of a
-- reconnect, where `malloc` gives different places that were unused: the run comes to its end, with
-- fuel for one round more than there are clients, and the heap holds what it held before, at every
-- address. So a thread that has not come to read its argument by then reads freed memory.
pub connections-restored :
    (b : Heap) (k : ℕ) (p : Ptr) (arrivals : List Arrival)
    → Unused b (p ∷ places arrivals)
    → length arrivals < k
    → Ends (λ _ g. ((a : Ptr) → g a ≡ b a) × ReadsFreed g arrivals) (connections k p arrivals b)
unfolding connections free_connections
connections-restored b k p arrivals u fuel =
    weaken
      (follow (new_tlist-ListOver b p u.0 u.1) λ q g made. rw made.0 (
        follow (add_clients-Holding b g p [] arrivals made.1 (still_unused g made.2)) λ _ f held.
          rw (held_not_null held) (
            free_tlist-Holding b k p (map (λ a. a.thread) arrivals) f held
              (omega (arith, fuel, length-map arrivals λ a. a.thread)))))
      λ _ g same. (same, ReadsFreed-lem b g arrivals same u.3)
  where
    held_not_null : {ts : List ℕ} {f : Heap} → Holding b p ts f → (p == null) ≡ false
    held_not_null (l, cs, o, order) = ground (arith, o.list_at.not_null)

    still_unused : (g : Heap) → ((a : Ptr) → a ≢ p → g a ≡ b a) → Unused g (places arrivals)
    still_unused g same = Unused-other b g p (places arrivals) same u.2 u.3

cancel_each-threads :
    (k : ℕ) (h : Heap) {p : Ptr} (cs : Cells thread_link)
    → Seg thread_link h null p cs
    → length cs < k
    → cancel_each k p h ≡ ok (threads cs, h)
unfolding cancel_each
cancel_each-threads zero h cs s fuel = absurd (omega arith)
cancel_each-threads (suc k) h [] nil fuel = refl
cancel_each-threads (suc k) h ((p, n) ∷ cs) (cons ne at s) fuel =
    rw (not_null, load_tnode-at h p n ne at, cancel_each-threads k h cs s (omega arith)) refl
  where
    not_null : (p == null) ≡ false
    not_null = ground (arith, ne)

-- `handle_quit` on a list of threads comes to the end of its loop, with fuel for one round more
-- than there are threads, having cancelled each thread once, in the order in which they came; of
-- the memory of the list it frees the head and nothing else, so every node and its argument stay.
pub quit_clients-Holding :
    (b : Heap) (k : ℕ) (p : Ptr) (ts : List ℕ) (g : Heap)
    → Holding b p ts g
    → length ts < k
    → Ends (λ cancelled f. (cancelled ≡ ts) × Without (p ∷ []) g f) (quit_clients k p g)
unfolding quit_clients
quit_clients-Holding b k p ts g (l, cs, o, order) fuel =
    rw
      (
        load_tlist-at g p l o.list_at.not_null o.list_at.holds,
        cancel_each-threads k g cs o.list_at.chain enough,
      )
      (follow (free-Live g p (Owned-append g (foot thread_link cs) (p ∷ []) o.list_at.owned).1.0)
        λ _ f w. ends (order, w))
  where
    enough : length cs < k
    enough = omega (arith, length-Holding cs, ap length order, fuel)
