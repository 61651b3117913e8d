-- ===== src/Memory/Threads/Append.antt =====
-- What `append_tnode` of server/server_thread.c does to a list of threads.
use mks65_symphony.Prelude.{
  ℕ, ◌+◌, ◌≡◌, ◌≢◌, sym, refl, true, false, some, List, [], ◌∷◌, ◌++◌, ◌==◌, has, is_some, arith,
  length, map,
}
use mks65_symphony.Memory.{Ptr, null, ThreadNode, ThreadList, Heap, tnode, tlist, write}
use mks65_symphony.Memory.Cells.{Ends, ends, Owned, Owned-kept, Owned-append, has-append}
use mks65_symphony.Memory.Chain.{Cells, cons, foot}
use mks65_symphony.Memory.Chain.Grow.{
  last_cell, relink, has-last, Seg-nil, Seg-relink, Seg-last, foot-relink, length-relink,
  LastIs-snoc, Parts, parts,
}
use mks65_symphony.Memory.Threads.{thread_link, append_tnode}
use mks65_symphony.Memory.Threads.Lists.{list_foot, ListAt, load_tnode-at, load_tlist-at}

-- A node that is in no list yet.
pub record NewNode (h : Heap) (p : Ptr) (cs : Cells thread_link) (e : Ptr) (n : ThreadNode)
    : Type 0 where
  pub not_null : e ≢ null
  pub holds : h e ≡ some (tnode n)
  pub ends : n.next ≡ null
  pub owned : Owned h (list_foot p (cs ++ (e, n) ∷ []))

-- The heaps behind the writes of the two branches.
abbrev first_list : Ptr → ThreadList
first_list e = record { first = e; last = e; len = 1 }

abbrev first_heap : Heap → Ptr → Ptr → Heap
first_heap h p e = write h p (some (tlist (first_list e)))

abbrev next_list : ThreadList → Ptr → ThreadList
next_list l e = record l { last = e; len = l.len + 1 }

abbrev next_heap : Heap → Ptr → ThreadList → Ptr → ThreadNode → Heap
next_heap h p l e m =
    write (write h l.last (some (tnode (record m { next = e })))) p (some (tlist (next_list l e)))

abbrev pub threads : Cells thread_link → List ℕ
threads cs = map (λ c. c.1.thread) cs

threads-snoc :
    (cs : Cells thread_link) (e : Ptr) (n : ThreadNode)
    → threads (cs ++ (e, n) ∷ []) ≡ threads cs ++ n.thread ∷ []
threads-snoc [] e n = refl
threads-snoc (c ∷ cs) e n = rw (threads-snoc cs e n) refl

threads-relink :
    (c : Ptr × ThreadNode) (cs : Cells thread_link) (e : Ptr) (n : ThreadNode)
    → threads (relink thread_link c cs e ++ (e, n) ∷ []) ≡ threads (c ∷ cs) ++ n.thread ∷ []
threads-relink c [] e n = refl
threads-relink c (d ∷ cs) e n = rw (threads-relink d cs e n) refl

-- The list at `p` has got the node behind its others, and nothing else has changed.
pub record Appended (h : Heap) (p : Ptr) (cs : Cells thread_link) (e : Ptr) (n : ThreadNode)
    (g : Heap) : Type 0 where
  pub list : ThreadList
  pub cells : Cells thread_link
  pub at : ListAt g p list cells
  pub order : threads cells ≡ threads cs ++ n.thread ∷ []
  pub counted : length cells ≡ length cs + 1
  pub foot_is : foot thread_link cells ≡ foot thread_link (cs ++ (e, n) ∷ [])
  pub others : (a : Ptr) → has a (list_foot p cs) ≡ false → g a ≡ h a

module _ (h : Heap) (p : Ptr) (l : ThreadList) (e : Ptr) (n : ThreadNode) where
  append_first :
      ListAt h p l []
      → NewNode h p [] e n
      → Ends (λ _ g. Appended h p [] e n g) (append_tnode p e h)
  unfolding append_tnode write
  append_first a new =
      rw (load_tlist-at h p l a.not_null a.holds, a.counted)
        (ends (record {
          list = first_list e;
          cells = (e, n) ∷ [];
          at = record {
            not_null = a.not_null;
            holds = ground arith;
            chain =
                cons new.not_null (ground (arith, a.holds, new.holds))
                  (Seg-nil thread_link new.ends);
            last = refl;
            counted = refl;
            owned = Owned-kept h _ (list_foot p ((e, n) ∷ [])) (λ b i. ground (arith, i)) new.owned;
          };
          order = refl;
          counted = refl;
          foot_is = refl;
          others = λ b i. ground (arith, i);
        }))

module _ (h : Heap) (p : Ptr) (l : ThreadList) (c : Ptr × ThreadNode) (cs : Cells thread_link)
    (e : Ptr) (n : ThreadNode) (a : ListAt h p l (c ∷ cs)) (new : NewNode h p (c ∷ cs) e n) where
  abbrev m : ThreadNode
  m = (last_cell c cs).1

  l_ne : l.last ≢ null
  l_ne = rw a.last (Seg-last thread_link c cs a.chain).0

  l_at : h l.last ≡ some (tnode m)
  l_at = rw a.last (Seg-last thread_link c cs a.chain).1

  divided : Parts thread_link h (c ∷ cs) e
  divided =
      parts thread_link h (c ∷ cs) e n
        (Owned-append h (foot thread_link ((c ∷ cs) ++ (e, n) ∷ [])) (p ∷ []) new.owned).0

  l_apart : l.last ≢ e
  l_apart i = ground (arith, i, a.last, divided.apart, has-last thread_link c cs)

  abbrev g : Heap
  g = next_heap h p l e m

  list_at : g p ≡ some (tlist (next_list l e))
  unfolding write
  list_at = ground arith

  last_at : g l.last ≡ some (tnode (record m { next = e }))
  unfolding write
  last_at = ground (arith, a.holds, l_at)

  other_at : (b : Ptr) (x : ThreadNode) → h b ≡ some (tnode x) → b ≢ l.last → g b ≡ some (tnode x)
  unfolding write
  other_at b x i away = ground (arith, a.holds, i, away)

  still : (b : Ptr) → is_some (h b) ≡ true → is_some (g b) ≡ true
  unfolding write
  still b i = ground (arith, i)

  in_foot : has l.last (foot thread_link (c ∷ cs)) ≡ true
  in_foot = rw a.last (has-last thread_link c cs)

  others_at : (b : Ptr) → has b (list_foot p (c ∷ cs)) ≡ false → g b ≡ h b
  unfolding write
  others_at b i = ground (arith, has-append b (foot thread_link (c ∷ cs)) (p ∷ []), i, in_foot)

  append_next : Ends (λ _ k. Appended h p (c ∷ cs) e n k) (append_tnode p e h)
  unfolding append_tnode
  append_next =
      rw (load_tlist-at h p l a.not_null a.holds, some_len, load_tnode-at h l.last m l_ne l_at)
        (ends (record {
          list = next_list l e;
          cells = relink thread_link c cs e ++ (e, n) ∷ [];
          at = record {
            not_null = a.not_null;
            holds = list_at;
            chain =
                Seg-relink thread_link c cs e n a.chain divided.nodes divided.apart
                  (λ b x i y z. other_at b x i (rw a.last y)) (rw (sym a.last) last_at) new.not_null
                  (other_at e n new.holds λ i. l_apart (sym i)) new.ends;
            last = LastIs-snoc thread_link (relink thread_link c cs e) e n;
            counted = omega (arith, a.counted, length-relink thread_link c cs e n);
            owned =
                Owned-kept h g (list_foot p (relink thread_link c cs e ++ (e, n) ∷ [])) still
                  (rw (foot-relink thread_link c cs e n n refl) new.owned);
          };
          order = threads-relink c cs e n;
          counted = length-relink thread_link c cs e n;
          foot_is = foot-relink thread_link c cs e n n refl;
          others = others_at;
        }))
    where
      some_len : (l.len == 0) ≡ false
      some_len = ground (arith, a.counted)

-- `append_tnode` puts a node that is in no list behind the others of a list, in the heap's list
-- and no place else.
pub append_tnode-Appended :
    (h : Heap) (p : Ptr) (l : ThreadList) (cs : Cells thread_link) (e : Ptr) (n : ThreadNode)
    → ListAt h p l cs
    → NewNode h p cs e n
    → Ends (λ _ g. Appended h p cs e n g) (append_tnode p e h)
append_tnode-Appended h p l [] e n a new = append_first h p l e n a new
append_tnode-Appended h p l (c ∷ cs) e n a new = append_next h p l c cs e n a new
