-- ===== src/Merkle/Paths.antt =====
-- `prove`: the path of a leaf leads to the root.
use b402_solana.Common.{
  ℕ, zero, suc, ◌+◌, ◌-◌, ◌*◌, ◌/◌, ◌≤◌, ◌<◌, ◌≡◌, refl, sym, ap, ◌∙◌, arith, List, [], ◌∷◌, length,
  get_or, get_or-beyond, bit_and, bit_and-one, Bool-cases, inl, inr, ltb, if◌then◌else◌, ◌==◌, ok,
  err, lt→leb, le→leb,
}
use b402_solana.Protocol.Poseidon.{merkle_node_hash, merkle_zero_seed}
use b402_solana.Merkle.{
  ClientMerkleTree, MerkleProof, index_out_of_range, next_level, prove_levels, prove,
}
use b402_solana.Merkle.Shift.{shr, shr-zero, shr_half, shr-eq-zero}
use b402_solana.Merkle.Cells.{cell, zeros, merkle_root, fold_path, cell_of_right, cell_of_left}
use b402_solana.Merkle.ZeroCache.{IsCache}
use b402_solana.Merkle.Append.Invariant.{IsTree}

-- The position beside `j`, and the bits of `j` from the lowest.
abbrev pub sibling_of : ℕ → ℕ
sibling_of j = if bit_and j 1 == 1 then j - 1 else j + 1

unfoldable pub path_of : ℕ → ℕ → List ℕ
path_of zero j = []
path_of (suc n) j = (if bit_and j 1 == 1 then 1 else 0) ∷ path_of n (j / 2)

double : (j : ℕ) → 2 * suc j ≡ suc (suc (2 * j))
double j = omega arith

double_suc : (j : ℕ) → 2 * suc j + 1 ≡ suc (suc (2 * j + 1))
double_suc j = omega arith

get_or_default : (xs : List ℕ) (i d e : ℕ) → i < length xs → get_or xs i d ≡ get_or xs i e
get_or_default [] i d e h = elim h [ ]
get_or_default (x ∷ xs) zero d e h = refl
get_or_default (x ∷ xs) (suc i) d e h = get_or_default xs i d e (omega arith)

module _ (raw : List ℕ → ℕ) where
  -- The siblings of the path from position `j` at height `k`, over `n` levels.
  unfoldable pub sibling_cells : List ℕ → ℕ → ℕ → ℕ → List ℕ
  sibling_cells xs zero k j = []
  sibling_cells xs (suc n) k j = cell raw k xs (sibling_of j) ∷ sibling_cells xs n (suc k) (j / 2)

  step_up :
      (xs : List ℕ) (k j : ℕ)
      → (if (if bit_and j 1 == 1 then 1 else 0) == 1
          then merkle_node_hash raw (cell raw k xs (sibling_of j)) (cell raw k xs j)
          else merkle_node_hash raw (cell raw k xs j) (cell raw k xs (sibling_of j)))
        ≡ cell raw (suc k) xs (j / 2)
  step_up xs k j = elim (Bool-cases (bit_and j 1 == 1)) [
    | inl right ↦
        let up : j ≡ 2 * (j / 2) + 1 = ground (arith, bit_and-one j) in
        let left : j - 1 ≡ 2 * (j / 2) = omega arith in
        rw (right, left) (cell_of_right raw k xs j (j / 2) up)
    | inr other ↦
        let up : j ≡ 2 * (j / 2) = ground (arith, bit_and-one j) in
        let right : j + 1 ≡ 2 * (j / 2) + 1 = omega arith in
        rw (other, right) (cell_of_left raw k xs j (j / 2) up)
  ]

  -- Such a path leads from the node to its ancestor `n` levels up.
  pub fold_path-sibling_cells :
      (xs : List ℕ) (n k j m : ℕ)
      → n + k ≡ m
      → fold_path raw (cell raw k xs j) (sibling_cells xs n k j) (path_of n j)
        ≡ cell raw m xs (shr j n)
  unfolding fold_path sibling_cells path_of
  fold_path-sibling_cells xs zero k j m e = let at : m ≡ k = omega arith in rw at (rw shr-zero)
  fold_path-sibling_cells xs (suc n) k j m e =
      rw (step_up xs k j, shr_half) (fold_path-sibling_cells xs n (suc k) (j / 2) m (omega arith))

  -- A list of nodes is level `k` of the tree over `xs`.
  abbrev pub IsLevel : List ℕ → ℕ → List ℕ → Type 0
  IsLevel xs k nodes = (j : ℕ) → get_or nodes j (zeros raw k) ≡ cell raw k xs j

  next_level-get_or :
      (z : ℕ) (nodes : List ℕ) (j : ℕ)
      → get_or (next_level raw z nodes) j (merkle_node_hash raw z z)
        ≡ merkle_node_hash raw (get_or nodes (2 * j) z) (get_or nodes (2 * j + 1) z)
  unfolding next_level
  next_level-get_or z [] j = refl
  next_level-get_or z (l ∷ []) zero = refl
  next_level-get_or z (l ∷ []) (suc j) = rw (double_suc j, double j)
  next_level-get_or z (l ∷ r ∷ rest) zero = refl
  next_level-get_or z (l ∷ r ∷ rest) (suc j) =
      rw (double_suc j, double j) (next_level-get_or z rest j)

  module _ (xs : List ℕ) (depth : ℕ) (cache : List ℕ) (cached : IsCache raw depth cache) where
    sibling-cell :
        (k i : ℕ) (nodes : List ℕ)
        → k ≤ depth
        → IsLevel xs k nodes
        → (if ltb i (length nodes) then get_or nodes i 0 else get_or cache k 0) ≡ cell raw k xs i
    sibling-cell k i nodes h level = elim (Bool-cases (ltb i (length nodes))) [
      | inl inside ↦ rw inside (get_or_default nodes i 0 (zeros raw k) (ground arith) ∙ level i)
      | inr outside ↦
          rw outside
            (cached k h ∙ sym (get_or-beyond nodes i (zeros raw k) (ground arith)) ∙ level i)
    ]

    next_level-IsLevel :
        (k : ℕ) (nodes : List ℕ)
        → k ≤ depth
        → IsLevel xs k nodes
        → IsLevel xs (suc k) (next_level raw (get_or cache k 0) nodes)
    unfolding zeros cell
    next_level-IsLevel k nodes h level j =
        rw (cached k h)
          (next_level-get_or (zeros raw k) nodes j ∙ cc (level (2 * j), level (2 * j + 1)))

    pub prove_levels-path :
        (n k j : ℕ) (nodes : List ℕ)
        → n + k ≡ depth
        → IsLevel xs k nodes
        → ((prove_levels raw n k j cache nodes).0 ≡ sibling_cells xs n k j)
          × ((prove_levels raw n k j cache nodes).1 ≡ path_of n j)
          × IsLevel xs depth (prove_levels raw n k j cache nodes).2
    unfolding prove_levels sibling_cells path_of
    prove_levels-path zero k j nodes e level =
        let at : depth ≡ k = omega arith in (refl, refl, rw at level)
    prove_levels-path (suc n) k j nodes e level =
        let (siblings, bits, top) =
          prove_levels-path n (suc k) (j / 2) _ (omega arith)
            (next_level-IsLevel k nodes (omega arith) level) in
        (rw (sibling-cell k (sibling_of j) nodes (omega arith) level, siblings), rw bits, top)

  -- The proof that the tree over the leaves holds for an index.
  abbrev pub proof_of : ClientMerkleTree → ℕ → MerkleProof
  proof_of t index = record {
    leaf = get_or t.leaves index 0;
    leaf_index = index;
    siblings = sibling_cells t.leaves t.depth 0 index;
    path_bits = path_of t.depth index;
    root = t.root;
  }

  pub fold_path-proof_of :
      (t : ClientMerkleTree) (index : ℕ)
      → IsTree raw t
      → index < t.leaf_count
      → fold_path raw
          (proof_of t index).leaf
          (proof_of t index).siblings
          (proof_of t index).path_bits
        ≡ t.root
  unfolding cell merkle_root
  fold_path-proof_of t index h stored =
      let leaf : get_or t.leaves index 0 ≡ cell raw 0 t.leaves index =
        get_or_default t.leaves index 0 (merkle_zero_seed raw) (omega (arith, h.counted)) in
      let top : shr index t.depth ≡ 0 = shr-eq-zero t.depth index (omega (arith, h.within)) in
      ap
        (λ (x : ℕ).
          fold_path raw x (sibling_cells t.leaves t.depth 0 index) (path_of t.depth index))
        leaf
      ∙ fold_path-sibling_cells t.leaves t.depth 0 index t.depth (omega arith)
      ∙ ap (cell raw t.depth t.leaves) top
      ∙ sym h.rooted

  -- In a tree with the invariant, `prove` returns for a stored index its leaf, the cells beside its
  -- path, the bits of the index and the tree's root, and this path leads from the leaf to the root.
  pub prove-path :
      (t : ClientMerkleTree) (index : ℕ)
      → IsTree raw t
      → index < t.leaf_count
      → (prove raw t index ≡ ok (proof_of t index))
        × (fold_path raw
              (proof_of t index).leaf
              (proof_of t index).siblings
              (proof_of t index).path_bits
            ≡ t.root)
  unfolding prove merkle_root
  prove-path t index h stored =
      let (siblings, bits, top) =
        prove_levels-path t.leaves t.depth t.zero_cache h.cached t.depth 0 index t.leaves
          (omega arith) (λ j. unfold cell zeros in refl) in
      let root : get_or (prove_levels raw t.depth 0 index t.zero_cache t.leaves).2 0
            (get_or t.zero_cache t.depth 0)
          ≡ t.root =
        rw (h.cached t.depth (omega arith)) (top 0 ∙ sym h.rooted) in
      (
        rw (h.started, lt→leb t.leaf_count index stored, siblings, bits, root),
        fold_path-proof_of t index h stored,
      )

  -- `prove` refuses an index that is not stored.
  pub prove-beyond :
      (t : ClientMerkleTree) (index : ℕ)
      → IsTree raw t
      → t.leaf_count ≤ index
      → prove raw t index ≡ err index_out_of_range
  unfolding prove
  prove-beyond t index h beyond = rw (h.started, le→leb t.leaf_count index beyond)
