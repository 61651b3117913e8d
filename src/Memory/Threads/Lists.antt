-- ===== src/Memory/Threads/Lists.antt =====
-- Lists of threads on the heap, and what `free_tlist` of server/server_thread.c gives back.
use mks65_symphony.Prelude.{
  ℕ, ◌<◌, ◌≡◌, ◌≢◌, refl, false, some, List, [], ◌∷◌, ◌++◌, ◌==◌, arith, length, ok,
}
use mks65_symphony.Memory.{
  Ptr, null, ThreadNode, ThreadList, Heap, tnode, tlist, load_tnode, load_tlist,
}
use mks65_symphony.Memory.Cells.{Ends, Without, Owned, own, free-Live, free-Without, seq-Without}
use mks65_symphony.Memory.Chain.{Cells, Seg, foot, Frees, free_chain-Without}
use mks65_symphony.Memory.Chain.Grow.{LastIs}
use mks65_symphony.Memory.Threads.{thread_link, free_tnode, next_tnode, free_tlist}

pub load_tnode-at :
    (h : Heap) (p : Ptr) (n : ThreadNode)
    → p ≢ null
    → h p ≡ some (tnode n)
    → load_tnode p h ≡ ok (n, h)
unfolding load_tnode
load_tnode-at h p n ne at = rw (not_null, at) refl
  where
    not_null : (p == null) ≡ false
    not_null = ground (arith, ne)

pub load_tlist-at :
    (h : Heap) (p : Ptr) (l : ThreadList)
    → p ≢ null
    → h p ≡ some (tlist l)
    → load_tlist p h ≡ ok (l, h)
unfolding load_tlist
load_tlist-at h p n ne at = rw (not_null, at) refl
  where
    not_null : (p == null) ≡ false
    not_null = ground (arith, ne)

-- The list, its nodes and what they own.
abbrev pub list_foot : Ptr → Cells thread_link → List Ptr
list_foot p cs = foot thread_link cs ++ p ∷ []

pub record ListAt (h : Heap) (p : Ptr) (l : ThreadList) (cs : Cells thread_link) : Type 0 where
  pub not_null : p ≢ null
  pub holds : h p ≡ some (tlist l)
  pub chain : Seg thread_link h null l.first cs
  pub last : LastIs l.last cs
  pub counted : l.len ≡ length cs
  pub owned : Owned h (list_foot p cs)

free_tnode-Frees : Frees thread_link next_tnode free_tnode
unfolding free_tnode next_tnode
free_tnode-Frees = record {
  reads = λ h p n ne at. rw (load_tnode-at h p n ne at) refl;
  frees = λ h p n ne at o.
      rw (load_tnode-at h p n ne at) (
        seq-Without h (own n.arg) (p ∷ []) o (free-Without h n.arg) λ g w d o'. free-Live g p o'.0);
}

pub free_tlist-Without :
    (k : ℕ) (h : Heap) (p : Ptr) (l : ThreadList) (cs : Cells thread_link)
    → ListAt h p l cs
    → length cs < k
    → Ends (λ _. Without (list_foot p cs) h) (free_tlist k p h)
unfolding free_tlist
free_tlist-Without k h p l cs a fuel = rw (load_tlist-at h p l a.not_null a.holds) (
    seq-Without h (foot thread_link cs) (p ∷ []) a.owned
      (λ o. free_chain-Without thread_link free_tnode-Frees k h a.chain o fuel)
      λ g w d o. free-Live g p o.0)
