-- ===== src/Memory/Chain.antt =====
-- Chains of nodes linked by a `next` pointer, each with a block of its own, and the loop that frees
-- one, as `free_Mtrack` of server/midi.c and `free_tlist` of server/server_thread.c have it.
pub mod Grow
use mks65_symphony.Prelude.{
  ℕ, zero, suc, ◌+◌, ◌<◌, ◌≡◌, ◌≢◌, refl, Bool, true, false, some, List, [], ◌∷◌, ◌++◌, ◌==◌, ◌∙◌,
  ◌||◌, if◌then◌else◌, has, arith, length, ok, trap, Trap,
}
use Trap.{out_of_fuel}
use mks65_symphony.Memory.{Ptr, null, Heap, Object, Cmd, pure, ◌>>=◌, ◌>>◌}
use mks65_symphony.Memory.Cells.{Ends, ends, Without, Owned, Apart, own, has-append, seq-Without}

-- `next` reads the pointer of a node, `free_node` frees the node and its block.
unfoldable pub free_chain : (Ptr → Cmd Ptr) → (Ptr → Cmd (Unit {0})) → ℕ → Ptr → Cmd (Unit {0})
free_chain next free_node zero p h = trap out_of_fuel
free_chain next free_node (suc k) p h =
    if p == null then ok (tt, h) else (do n ← next p; free_node p; free_chain next free_node k n) h

-- A structure with a `next` pointer and a pointer to a block that it owns.
pub record Link (N : Type 0) : Type 0 where
  pub object : N → Object
  pub next : N → Ptr
  pub block : N → Ptr
  pub set_next : N → Ptr → N
  pub next-set_next : (n : N) (p : Ptr) → next (set_next n p) ≡ p
  pub block-set_next : (n : N) (p : Ptr) → block (set_next n p) ≡ block n

module _ {N : Type 0} (L : Link N) where
  abbrev pub Cells : Type 0
  Cells = List (Ptr × N)

  abbrev pub owned : Ptr → N → List Ptr
  owned p n = own (L.block n) ++ p ∷ []

  -- The addresses of the nodes and of their blocks.
  abbrev pub foot : Cells → List Ptr
  foot [] = []
  foot ((p, n) ∷ cs) = owned p n ++ foot cs

  -- From `p` the pointers lead through the nodes `cs` to `stop`.
  pub data Seg (h : Heap) (stop : Ptr) : Ptr → Cells → Type 0 where
    nil : Seg h stop stop []
    cons :
        {p : Ptr} {n : N} {cs : Cells}
        → p ≢ null
        → h p ≡ some (L.object n)
        → Seg h stop (L.next n) cs
        → Seg h stop p ((p, n) ∷ cs)

module _ {N : Type 0} (L : Link N) where
  pub has-owned : (p : Ptr) (n : N) → has p (owned L p n) ≡ true
  has-owned p n = ground (arith, has-append p (own (L.block n)) (p ∷ []))

  pub Seg-frame :
      {h g : Heap} {stop p : Ptr} {cs : Cells L}
      → Seg L h stop p cs
      → ((a : Ptr) → has a (foot L cs) ≡ true → g a ≡ h a)
      → Seg L g stop p cs
  Seg-frame nil same = nil
  Seg-frame (cons {p} {n} {cs} ne at s) same =
      cons ne (same p here ∙ at) (Seg-frame s λ a i. same a (later a i))
    where
      here : has p (foot L ((p, n) ∷ cs)) ≡ true
      here = ground (arith, has-append p (owned L p n) (foot L cs), has-owned p n)

      later : (a : Ptr) → has a (foot L cs) ≡ true → has a (foot L ((p, n) ∷ cs)) ≡ true
      later a i = ground (arith, has-append a (owned L p n) (foot L cs), i)

  -- What was freed elsewhere leaves a chain as it was.
  pub Seg-Without :
      (h g : Heap) (xs : List Ptr)
      → Without xs h g
      → {stop p : Ptr} {cs : Cells L} → Apart xs (foot L cs)
      → Seg L h stop p cs
      → Seg L g stop p cs
  Seg-Without h g xs w apart s = Seg-frame s λ a i. ground (arith, w a, apart a, i)

  -- What the loop relies on.
  pub record Frees (next : Ptr → Cmd Ptr) (free_node : Ptr → Cmd (Unit {0})) : Type 0 where
    pub reads :
        (h : Heap) (p : Ptr) (n : N)
        → p ≢ null
        → h p ≡ some (L.object n)
        → next p h ≡ ok (L.next n, h)
    pub frees :
        (h : Heap) (p : Ptr) (n : N)
        → p ≢ null
        → h p ≡ some (L.object n)
        → Owned h (owned L p n)
        → Ends (λ _. Without (owned L p n) h) (free_node p h)

  module _ {next : Ptr → Cmd Ptr} {free_node : Ptr → Cmd (Unit {0})}
      (f : Frees next free_node) where
    -- The loop gives back exactly the nodes of its chain and their blocks, each once.
    pub free_chain-Without :
        (k : ℕ) (h : Heap) {p : Ptr} {cs : Cells L}
        → Seg L h null p cs
        → Owned h (foot L cs)
        → length cs < k
        → Ends (λ _. Without (foot L cs) h) (free_chain next free_node k p h)
    unfolding free_chain
    free_chain-Without zero h s o fuel = absurd (omega arith)
    free_chain-Without (suc k) h nil o fuel = ends λ a. refl
    free_chain-Without (suc k) h (cons {p} {n} {cs} ne at s) o fuel =
        rw (not_null, f.reads h p n ne at)
          (seq-Without h (owned L p n) (foot L cs) o (f.frees h p n ne at) λ g w apart o'.
            free_chain-Without k g (Seg-Without h g (owned L p n) w apart s) o' (omega arith))
      where
        not_null : (p == null) ≡ false
        not_null = ground (arith, ne)
