-- ===== src/Memory/Chain/Grow.antt =====
-- A chain of nodes that has grown by one behind its last.
use mks65_symphony.Prelude.{
  ◌+◌, ◌≡◌, ◌≢◌, ◌∙◌, sym, refl, true, false, ◌||◌, some, List, [], ◌∷◌, ◌++◌, has, arith, length,
}
use mathlib.Core.Path.{subst}
use mathlib.Core.List.{append_assoc}
use mks65_symphony.Memory.{Ptr, null, Heap}
use mks65_symphony.Memory.Cells.{Owned, Apart, has-append, Owned-append}
use mks65_symphony.Memory.Chain.{Link, Cells, Seg, nil, cons, foot, owned, has-owned}

module _ {N : Type 0} where
  abbrev pub last_cell : Ptr × N → List (Ptr × N) → Ptr × N
  last_cell c [] = c
  last_cell c (d ∷ cs) = last_cell d cs

  abbrev pub LastIs : Ptr → List (Ptr × N) → Type 0
  LastIs p [] = Unit
  LastIs p (c ∷ cs) = p ≡ (last_cell c cs).0

module _ {N : Type 0} (L : Link N) where
  -- The chain with its last node led on to `e`.
  abbrev pub relink : Ptr × N → Cells L → Ptr → Cells L
  relink (p, n) [] e = (p, L.set_next n e) ∷ []
  relink (p, n) (d ∷ cs) e = (p, n) ∷ relink d cs e

  pub has-last : (c : Ptr × N) (cs : Cells L) → has (last_cell c cs).0 (foot L (c ∷ cs)) ≡ true
  has-last (q, m) [] = ground (arith, has-append q (owned L q m) [], has-owned L q m)
  has-last (q, m) (d ∷ cs) =
      ground (arith, has-append (last_cell d cs).0 (owned L q m) (foot L (d ∷ cs)), has-last d cs)

  pub foot-relink :
      (c : Ptr × N) (cs : Cells L) (e : Ptr) (n n' : N)
      → L.block n' ≡ L.block n
      → foot L (relink c cs e ++ (e, n') ∷ []) ≡ foot L ((c ∷ cs) ++ (e, n) ∷ [])
  foot-relink (q, m) [] e n n' same = rw (L.block-set_next m e, same) refl
  foot-relink (q, m) (d ∷ cs) e n n' same = rw (foot-relink d cs e n n' same) refl

  pub Seg-nil : {h : Heap} {stop p : Ptr} → p ≡ stop → Seg L h stop p []
  Seg-nil {h} {stop} i = subst (λ q. Seg L h stop q []) (sym i) nil

  -- A chain whose last node was led on to a new one.
  pub Seg-relink :
      {h g : Heap} (c : Ptr × N) (cs : Cells L) (e : Ptr) (n : N) {q : Ptr}
      → Seg L h null q (c ∷ cs)
      → Owned h (foot L (c ∷ cs))
      → has e (foot L (c ∷ cs)) ≡ false
      → ((a : Ptr) (m : N)
          → h a ≡ some (L.object m)
          → a ≢ (last_cell c cs).0
          → a ≢ e
          → g a ≡ some (L.object m))
      → g (last_cell c cs).0 ≡ some (L.object (L.set_next (last_cell c cs).1 e))
      → e ≢ null
      → g e ≡ some (L.object n)
      → L.next n ≡ null
      → Seg L g null q (relink c cs e ++ (e, n) ∷ [])
  Seg-relink {g} (q, m) [] e n (cons ne at s) o out same gl e_ne ge end = cons ne gl (
      subst (λ r. Seg L g null r ((e, n) ∷ [])) (sym (L.next-set_next m e))
        (cons e_ne ge (Seg-nil end)))
  Seg-relink {h} (q, m) (d ∷ cs) e n (cons ne at s) o out same gl e_ne ge end =
      let parts = Owned-append h (owned L q m) (foot L (d ∷ cs)) o in
      cons ne (same q m at (not_last (parts.2 q (has-owned L q m))) not_new)
        (Seg-relink d cs e n s parts.1 (ground (arith, both)) same gl e_ne ge end)
    where
      both : (has e (owned L q m) || has e (foot L (d ∷ cs))) ≡ false
      both = sym (has-append e (owned L q m) (foot L (d ∷ cs))) ∙ out

      not_last : has q (foot L (d ∷ cs)) ≡ false → q ≢ (last_cell d cs).0
      not_last away i = ground (arith, i, away, has-last d cs)

      not_new : q ≢ e
      not_new i = ground (arith, i, both, has-owned L q m)

  pub Seg-last :
      {h : Heap} (c : Ptr × N) (cs : Cells L) {q : Ptr}
      → Seg L h null q (c ∷ cs)
      → ((last_cell c cs).0 ≢ null) × (h (last_cell c cs).0 ≡ some (L.object (last_cell c cs).1))
  Seg-last (q, m) [] (cons ne at s) = (ne, at)
  Seg-last (q, m) (d ∷ cs) (cons ne at s) = Seg-last d cs s

  last_cell-snoc :
      (c : Ptr × N) (cs : Cells L) (e : Ptr) (n : N) → e ≡ (last_cell c (cs ++ (e, n) ∷ [])).0
  last_cell-snoc c [] e n = refl
  last_cell-snoc c (d ∷ cs) e n = last_cell-snoc d cs e n

  pub LastIs-snoc : (cs : Cells L) (e : Ptr) (n : N) → LastIs e (cs ++ (e, n) ∷ [])
  LastIs-snoc [] e n = refl
  LastIs-snoc (c ∷ cs) e n = last_cell-snoc c cs e n

  pub length-relink :
      (c : Ptr × N) (cs : Cells L) (e : Ptr) (n : N)
      → length (relink c cs e ++ (e, n) ∷ []) ≡ length (c ∷ cs) + 1
  length-relink (q, m) [] e n = refl
  length-relink (q, m) (d ∷ cs) e n = omega (arith, length-relink d cs e n)

  pub foot-append : (cs ds : Cells L) → foot L (cs ++ ds) ≡ foot L cs ++ foot L ds
  foot-append [] ds = refl
  foot-append ((q, m) ∷ cs) ds =
      rw (foot-append cs ds) (sym (append_assoc (owned L q m) (foot L cs) (foot L ds)))

  -- What a chain owns, apart from a node that is to come behind it.
  pub record Parts (h : Heap) (cs : Cells L) (e : Ptr) : Type 0 where
    pub nodes : Owned h (foot L cs)
    pub apart : has e (foot L cs) ≡ false

  pub parts :
      (h : Heap) (cs : Cells L) (e : Ptr) (n : N)
      → Owned h (foot L (cs ++ (e, n) ∷ []))
      → Parts h cs e
  parts h cs e n o =
      let split =
        Owned-append h (foot L cs) (foot L ((e, n) ∷ []))
          (subst (Owned h) (foot-append cs ((e, n) ∷ [])) o) in
      record { nodes = split.0; apart = out split.2 }
    where
      here : has e (foot L ((e, n) ∷ [])) ≡ true
      here = ground (arith, has-append e (owned L e n) [], has-owned L e n)

      out : Apart (foot L cs) (foot L ((e, n) ∷ [])) → has e (foot L cs) ≡ false
      out d = ground (arith, d e, here)
