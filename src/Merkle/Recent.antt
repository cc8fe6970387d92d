-- ===== src/Merkle/Recent.antt =====
-- `proveMostRecentLeaf` against `prove`.
use b402_solana.Common.{
  ℕ, zero, suc, ◌+◌, ◌-◌, ◌/◌, ◌%◌, ◌^◌, ◌≤◌, ◌<◌, ◌≡◌, refl, sym, ap, ◌∙◌, subst, arith, pos, List,
  [], ◌∷◌, ◌++◌, length, length-append, get_or, Bytes, bit_and, bit_and-one, Bool-cases, inl, inr,
  true, ◌==◌, ok, get_or-append_last, le→ltb,
}
use b402_solana.Merkle.{
  ClientMerkleTree, le_to_big, bit_at, recent_siblings, recent_bits, prove_most_recent_leaf, append,
  prove,
}
use b402_solana.Merkle.Shift.{shr, shr-suc, shr-zero}
use b402_solana.Merkle.Cells.{cell, cell-beyond}
use b402_solana.Merkle.Append.{append-Extends, deep_of_room}
use b402_solana.Merkle.Append.Invariant.{IsTree, tree_of_lem, frontier_literal}
use b402_solana.Merkle.Paths.{path_of, sibling_cells, prove-path}

-- The byte strings hold the numbers, level by level.
abbrev pub Encodes : ℕ → List Bytes → List ℕ → Type 0
Encodes depth bs xs = (k : ℕ) → k < depth → le_to_big (get_or bs k []) ≡ get_or xs k 0

module _ (raw : List ℕ → ℕ) where
  -- What the new frontier holds beside the new leaf's path.
  append-frontier :
      (t : ClientMerkleTree) (leaf : ℕ)
      → IsTree raw t
      → suc t.leaf_count < 2 ^ t.depth
      → (k : ℕ) → k < t.depth
      → shr t.leaf_count k % 2 ≡ 1
      → get_or (append raw t leaf).0.frontier k 0
        ≡ cell raw k (t.leaves ++ leaf ∷ []) (shr t.leaf_count k - 1)
  append-frontier t leaf h =
      subst
        (λ u.
          IsTree raw u
          → suc u.leaf_count < 2 ^ u.depth
          → (k : ℕ) → k < u.depth
          → shr u.leaf_count k % 2 ≡ 1
          → get_or (append raw u leaf).0.frontier k 0
            ≡ cell raw k (u.leaves ++ leaf ∷ []) (shr u.leaf_count k - 1))
        (tree_of_lem raw t h)
        (λ h' room.
          frontier_literal raw t.leaves leaf t.depth t.frontier t.zero_cache t.root h'
            (deep_of_room (length t.leaves) t.depth room) room)
        h

  recent_bits-path_of : (n k i j : ℕ) → j ≡ shr i k → recent_bits n k i ≡ path_of n j
  unfolding recent_bits path_of bit_at
  recent_bits-path_of zero k i j e = refl
  recent_bits-path_of (suc n) k i j e =
      let rest = recent_bits-path_of n (suc k) i (j / 2) (omega (arith, shr-suc i k)) in
      rw (rest, ← e) (ground (arith, bit_and-one j))

  module _ (xs : List ℕ) (i depth : ℕ) (last : length xs ≤ suc i) (frontier_le zero_le : List Bytes)
      (left : (k : ℕ)
        → k < depth
        → shr i k % 2 ≡ 1
        → le_to_big (get_or frontier_le k []) ≡ cell raw k xs (shr i k - 1))
      (empty : (k : ℕ)
        → k < depth
        → (j : ℕ) → shr i k < j
        → le_to_big (get_or zero_le k []) ≡ cell raw k xs j) where
    recent_siblings-cells :
        (n k j : ℕ)
        → n + k ≡ depth
        → j ≡ shr i k
        → recent_siblings n k i frontier_le zero_le ≡ sibling_cells raw xs n k j
    unfolding recent_siblings sibling_cells bit_at
    recent_siblings-cells zero k j e at = refl
    recent_siblings-cells (suc n) k j e at =
        let rest =
          recent_siblings-cells n (suc k) (j / 2) (omega arith) (omega (arith, shr-suc i k)) in
        elim (Bool-cases (bit_and j 1 == 1)) [
          | inl right ↦
              let beside : le_to_big (get_or frontier_le k []) ≡ cell raw k xs (j - 1) =
                left k (omega arith) (ground (arith, bit_and-one j))
                ∙ ap (λ (t : ℕ). cell raw k xs (t - 1)) (sym at) in
              rw (rest, ← at, right, beside)
          | inr other ↦ rw (rest, ← at, other, empty k (omega arith) (j + 1) (omega arith))
        ]

    recent_path :
        (leaf root : ℕ)
        → length frontier_le ≡ depth
        → depth ≤ length zero_le
        → prove_most_recent_leaf leaf (pos i) root frontier_le zero_le depth
          ≡ ok (record {
            leaf = leaf;
            leaf_index = i;
            siblings = sibling_cells raw xs depth 0 i;
            path_bits = path_of depth i;
            root = root;
          })
    unfolding prove_most_recent_leaf
    recent_path leaf root p q =
        let same : (length frontier_le == depth) ≡ true = ground arith in
        rw (
          same,
          le→ltb (length zero_le) depth q,
          recent_siblings-cells depth 0 i (omega arith) (sym (shr-zero i)),
          recent_bits-path_of depth 0 i i (sym (shr-zero i)),
        )

  -- Right behind an `append`, `proveMostRecentLeaf` makes from the tree's frontier and zero cache,
  -- given as little-endian bytes, the very proof that `prove` makes from all the leaves.
  pub prove_most_recent_leaf-prove :
      (t : ClientMerkleTree) (leaf : ℕ) (frontier_le zero_le : List Bytes)
      → IsTree raw t
      → suc t.leaf_count < 2 ^ t.depth
      → length frontier_le ≡ t.depth
      → t.depth ≤ length zero_le
      → Encodes t.depth frontier_le (append raw t leaf).0.frontier
      → Encodes t.depth zero_le t.zero_cache
      → prove_most_recent_leaf leaf
          (pos t.leaf_count)
          (append raw t leaf).0.root
          frontier_le
          zero_le
          t.depth
        ≡ prove raw (append raw t leaf).0 t.leaf_count
  prove_most_recent_leaf-prove t leaf frontier_le zero_le h room p q frontier cache =
      let (h', leaves, depth, _) = append-Extends raw t leaf h room in
      let u = (append raw t leaf).0 in
      let count : length (t.leaves ++ leaf ∷ []) ≡ suc t.leaf_count =
        omega (arith, length-append t.leaves (leaf ∷ []), h.counted) in
      let stored : t.leaf_count < u.leaf_count =
        omega (arith, h'.counted, ap (length {0}) leaves, count) in
      let last : get_or u.leaves t.leaf_count 0 ≡ leaf =
        rw (leaves, h.counted) (get_or-append_last t.leaves leaf 0) in
      recent_path (t.leaves ++ leaf ∷ []) t.leaf_count t.depth (omega arith) frontier_le zero_le
        (λ k below odd. frontier k below ∙ append-frontier t leaf h room k below odd)
        (λ k below j above.
          cache k below
          ∙ h.cached k (omega arith)
          ∙ sym (cell-beyond raw k _ t.leaf_count j (omega arith) above))
        leaf u.root p q
      ∙ sym ((prove-path raw u t.leaf_count h' stored).0 ∙ rw (last, leaves, depth))
