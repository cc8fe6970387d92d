-- ===== src/Merkle/Append/Invariant.antt =====
-- The invariant of the incremental tree, and what `append` does to it on every branch.
use b402_solana.Common.{
  ℕ, zero, suc, ◌+◌, ◌-◌, ◌%◌, ◌^◌, ◌<◌, ◌≡◌, ◌≢◌, ◌⊎◌, inl, inr, refl, sym, ap, ◌∙◌, arith, List,
  [], ◌∷◌, ◌++◌, length, get_or, set, length-set, length-append, get_or-append_last,
  get_or-set_self, get_or-set_ne, Result, ok, err, Result-cases, true,
}
use b402_solana.Protocol.Poseidon.{merkle_node_hash}
use b402_solana.Merkle.{
  ClientMerkleTree, MerkleError, capacity_exceeded, carry, walk_up, place, append,
}
use b402_solana.Merkle.Shift.{shr, shr-suc, shr-zero, shr-eq-zero, shr-pow}
use b402_solana.Merkle.Cells.{cell, merkle_root}
use b402_solana.Merkle.ZeroCache.{IsCache}
use b402_solana.Merkle.Append.Carry.{
  Fits, Carried, Outcome, carry-Outcome, walk_up-cell, rise_even, left_sibling,
}

-- What holds of an initialised tree between calls.
pub record IsTree (raw : List ℕ → ℕ) (t : ClientMerkleTree) : Type 0 where
  pub started : t.initialized ≡ true
  pub counted : t.leaf_count ≡ length t.leaves
  pub within : t.leaf_count < 2 ^ t.depth
  pub sized : length t.frontier ≡ t.depth
  pub cached : IsCache raw t.depth t.zero_cache
  pub fits : Fits raw t.depth (length t.leaves) t.leaves t.frontier
  pub rooted : t.root ≡ merkle_root raw t.depth t.leaves

-- The tree with given fields, initialised.
abbrev pub tree_of : List ℕ → List ℕ → List ℕ → ℕ → ℕ → ClientMerkleTree
tree_of xs frontier cache root depth = record {
  leaf_count = length xs;
  frontier = frontier;
  zero_cache = cache;
  root = root;
  leaves = xs;
  depth = depth;
  initialized = true;
}

module _ (raw : List ℕ → ℕ) where
  pub tree_of_lem :
      (t : ClientMerkleTree)
      → IsTree raw t
      → tree_of t.leaves t.frontier t.zero_cache t.root t.depth ≡ t
  tree_of_lem t h = λ i. record t { leaf_count = sym h.counted i; initialized = sym h.started i }

  lt_cases : (a b : ℕ) → (a < b) ⊎ (a ≡ b) ⊎ (b < a)
  lt_cases a b = grind arith

  shr_above :
      (n l k m : ℕ)
      → shr (suc n) l ≡ suc (shr n l)
      → shr n l % 2 ≡ 0
      → k ≡ suc l + m
      → shr (suc n) k ≡ shr n k
  shr_above n l k zero next clear e =
      let at : k ≡ suc l = omega arith in rw at (omega (arith, shr-suc n l, shr-suc (suc n) l))
  shr_above n l k (suc m) next clear e =
      let at : k ≡ suc (suc l + m) = omega arith in
      rw at (
        omega (
          arith,
          shr-suc n (suc l + m),
          shr-suc (suc n) (suc l + m),
          shr_above n l (suc l + m) m next clear refl,
        ))

  module _ (xs : List ℕ) (leaf depth : ℕ) (frontier cache : List ℕ) (l c : ℕ)
      (sized : length frontier ≡ depth) (cached : IsCache raw depth cache)
      (fits : Fits raw depth (length xs) xs frontier)
      (found : Carried raw depth (length xs) (xs ++ leaf ∷ []) l c) where
    Fits-after : Fits raw depth (suc (length xs)) (xs ++ leaf ∷ []) (set frontier l c)
    Fits-after k h odd = elim (lt_cases k l) [
      | inl low ↦ absurd (omega (arith, found.even_below k low))
      | inr (inl here) ↦
          let there : shr (suc (length xs)) l - 1 ≡ shr (length xs) l = omega (arith, found.next) in
          rw here (
            get_or-set_self frontier l c 0 (omega (arith, found.below))
            ∙ found.node
            ∙ ap (cell raw l (xs ++ leaf ∷ [])) (sym there))
      | inr (inr high) ↦
          let same : shr (suc (length xs)) k ≡ shr (length xs) k =
            shr_above (length xs) l k (k - suc l) found.next found.clear (omega arith) in
          let odd' : shr (length xs) k % 2 ≡ 1 = omega arith in
          let apart : l ≢ k = λ e. absurd (omega arith) in
          rw same (
            get_or-set_ne frontier l k c 0 apart
            ∙ left_sibling raw xs leaf depth frontier fits k h odd')
    ]

    root_after :
        walk_up raw
          (depth - suc l)
          (suc l)
          (length xs)
          (set frontier l c)
          cache
          (merkle_node_hash raw c (get_or cache l 0))
        ≡ cell raw depth (xs ++ leaf ∷ []) (shr (length xs) depth)
    root_after =
        walk_up-cell raw xs leaf depth frontier fits (set frontier l c) cache cached left
          (depth - suc l) (suc l) _ (omega (arith, found.below))
          (rise_even raw xs leaf depth frontier fits (set frontier l c) cache cached left l c
            found.below found.clear found.node)
      where
        left :
            (k : ℕ)
            → k < depth
            → shr (length xs) k % 2 ≡ 1
            → get_or (set frontier l c) k 0 ≡ get_or frontier k 0
        left k h odd =
            get_or-set_ne frontier l k c 0
              (λ e. omega (arith, ap (λ (t : ℕ). shr (length xs) t % 2) e, found.clear))

  -- The tree and the result of a successful call.
  abbrev pub Extends : ClientMerkleTree → ℕ → ClientMerkleTree × Result MerkleError (ℕ × ℕ) → Type 0
  Extends t leaf r =
      IsTree raw r.0
      × (r.0.leaves ≡ t.leaves ++ leaf ∷ [])
      × (r.0.depth ≡ t.depth)
      × (r.1 ≡ ok (t.leaf_count, merkle_root raw t.depth (t.leaves ++ leaf ∷ [])))

  -- A call that throws has pushed the leaf and changed nothing else.
  abbrev pub Overflows : ClientMerkleTree → ℕ → Type 0
  Overflows t leaf =
      append raw t leaf ≡ (record t { leaves = t.leaves ++ leaf ∷ [] }, err capacity_exceeded)

  module _ (xs : List ℕ) (leaf depth : ℕ) (frontier cache : List ℕ) (root : ℕ)
      (h : IsTree raw (tree_of xs frontier cache root depth)) (deep : 0 < depth) where
    started_carry :
        Outcome raw depth
          (length xs)
          (xs ++ leaf ∷ [])
          (carry raw (suc depth) depth (length xs) frontier 0 leaf)
    started_carry =
        carry-Outcome raw xs leaf depth frontier h.fits (suc depth) 0 leaf (omega arith) deep
          (sym first) (omega (arith, shr-zero (length xs), shr-zero (suc (length xs))))
          (λ j p. absurd (omega arith))
      where
        first : cell raw 0 (xs ++ leaf ∷ []) (shr (length xs) 0) ≡ leaf
        first = unfold cell in rw shr-zero (get_or-append_last xs leaf _)

    place-Extends :
        (l c : ℕ)
        → suc (length xs) < 2 ^ depth
        → Carried raw depth (length xs) (xs ++ leaf ∷ []) l c
        → Extends (tree_of xs frontier cache root depth) leaf (
            place raw
              (record (tree_of xs frontier cache root depth) { leaves = xs ++ leaf ∷ [] })
              l
              c)
    unfolding place merkle_root
    place-Extends l c room found = (
      record {
        started = refl;
        counted = count;
        within = room;
        sized = length-set frontier l c ∙ h.sized;
        cached = h.cached;
        fits = rw (← count) fitted;
        rooted = at_root;
      },
      refl,
      refl,
      ap (λ (r : ℕ). ok (length xs, r)) at_root,
    )
      where
        count : suc (length xs) ≡ length (xs ++ leaf ∷ [])
        count = omega (arith, length-append xs (leaf ∷ []))

        fitted : Fits raw depth (suc (length xs)) (xs ++ leaf ∷ []) (set frontier l c)
        fitted = Fits-after xs leaf depth frontier cache l c h.sized h.cached h.fits found

        top : shr (length xs) depth ≡ 0
        top = shr-eq-zero depth (length xs) (omega arith)

        at_root :
            walk_up raw
              (depth - suc l)
              (suc l)
              (length xs)
              (set frontier l c)
              cache
              (merkle_node_hash raw c (get_or cache l 0))
            ≡ cell raw depth (xs ++ leaf ∷ []) 0
        at_root =
            root_after xs leaf depth frontier cache l c h.sized h.cached h.fits found
            ∙ ap (cell raw depth (xs ++ leaf ∷ [])) top

    pub append_literal :
        suc (length xs) < 2 ^ depth
        → Extends
            (tree_of xs frontier cache root depth)
            leaf
            (append raw (tree_of xs frontier cache root depth) leaf)
    unfolding append
    append_literal room =
        elim (Result-cases (carry raw (suc depth) depth (length xs) frontier 0 leaf)) [
          | inl ((l, c), e) ↦ rw e (place-Extends l c room (rw e at started_carry))
          | inr (x, e) ↦
              absurd
                (omega (arith, (rw e at started_carry).1, shr-eq-zero depth (suc (length xs)) room))
        ]

    -- The entries that a path of the new leaf reads are the cells on its left.
    pub frontier_literal :
        suc (length xs) < 2 ^ depth
        → (k : ℕ) → k < depth
        → shr (length xs) k % 2 ≡ 1
        → get_or (append raw (tree_of xs frontier cache root depth) leaf).0.frontier k 0
          ≡ cell raw k (xs ++ leaf ∷ []) (shr (length xs) k - 1)
    unfolding append place
    frontier_literal room k p odd =
        elim (Result-cases (carry raw (suc depth) depth (length xs) frontier 0 leaf)) [
          | inl ((l, c), e) ↦
              let found : Carried raw depth (length xs) (xs ++ leaf ∷ []) l c =
                rw e at started_carry in
              let apart : l ≢ k =
                λ e. omega (arith, ap (λ (t : ℕ). shr (length xs) t % 2) e, found.clear) in
              rw e (
                get_or-set_ne frontier l k c 0 apart
                ∙ left_sibling raw xs leaf depth frontier h.fits k p odd)
          | inr (x, e) ↦
              absurd
                (omega (arith, (rw e at started_carry).1, shr-eq-zero depth (suc (length xs)) room))
        ]

    pub overflow_literal :
        suc (length xs) ≡ 2 ^ depth → Overflows (tree_of xs frontier cache root depth) leaf
    unfolding append
    overflow_literal full =
        elim (Result-cases (carry raw (suc depth) depth (length xs) frontier 0 leaf)) [
          | inl ((l, c), e) ↦
              let found : Carried raw depth (length xs) (xs ++ leaf ∷ []) l c =
                rw e at started_carry in
              absurd (
                omega (
                  arith,
                  shr_above (length xs) l depth (depth - suc l) found.next found.clear
                      (omega (arith, found.below)),
                  shr-eq-zero depth (length xs) (omega arith),
                  ap (λ (t : ℕ). shr t depth) full,
                  shr-pow depth,
                ))
          | inr (x, e) ↦ rw e (rw (rw e at started_carry).0 refl)
        ]
