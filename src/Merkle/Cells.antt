-- ===== src/Merkle/Cells.antt =====
-- The tree that the client stands for: the complete binary tree over the leaves, with the zero leaf
-- behind them. It is described without a frontier, a cache or levels of nodes.
use b402_solana.Common.{
  ℕ, zero, suc, ◌+◌, ◌*◌, ◌≤◌, ◌<◌, ◌≡◌, refl, arith, List, [], ◌∷◌, length, get_or, get_or-beyond,
  if◌then◌else◌, ◌==◌,
}
use b402_solana.Protocol.Poseidon.{merkle_node_hash, merkle_zero_seed}
use b402_solana.Merkle.Shift.{shr, shr-zero, shr-suc}

module _ (raw : List ℕ → ℕ) where
  -- The node at height `k` and position `i`.
  unfoldable pub cell : ℕ → List ℕ → ℕ → ℕ
  cell zero xs i = get_or xs i (merkle_zero_seed raw)
  cell (suc k) xs i = merkle_node_hash raw (cell k xs (2 * i)) (cell k xs (2 * i + 1))

  unfoldable pub merkle_root : ℕ → List ℕ → ℕ
  unfolding cell
  merkle_root depth xs = cell depth xs 0

  -- The root of an empty subtree of height `k`.
  unfoldable pub zeros : ℕ → ℕ
  zeros zero = merkle_zero_seed raw
  zeros (suc k) = merkle_node_hash raw (zeros k) (zeros k)

  -- The root that a leaf, its siblings and its path bits lead to, as the circuit computes it.
  unfoldable pub fold_path : ℕ → List ℕ → List ℕ → ℕ
  fold_path cur (s ∷ ss) (b ∷ bs) =
      fold_path (if b == 1 then merkle_node_hash raw s cur else merkle_node_hash raw cur s) ss bs
  fold_path cur _ _ = cur

  pub cell-nil : (k i : ℕ) → cell k [] i ≡ zeros k
  unfolding cell zeros
  cell-nil zero i = refl
  cell-nil (suc k) i = cc (cell-nil k (2 * i), cell-nil k (2 * i + 1))

  -- Behind the last leaf, `n`, there are empty subtrees only.
  pub cell-beyond :
      (k : ℕ) (xs : List ℕ) (n j : ℕ) → length xs ≤ suc n → shr n k < j → cell k xs j ≡ zeros k
  unfolding cell zeros
  cell-beyond zero xs n j h p = get_or-beyond xs j _ (omega (arith, shr-zero n))
  cell-beyond (suc k) xs n j h p = cc (
    cell-beyond k xs n (2 * j) h (omega (arith, shr-suc n k)),
    cell-beyond k xs n (2 * j + 1) h (omega (arith, shr-suc n k)),
  )

  -- A node over the first `n` leaves depends on those only.
  pub cell_agree :
      (k : ℕ) (xs ys : List ℕ) (n j : ℕ)
      → ((i : ℕ) → i < n → (d : ℕ) → get_or xs i d ≡ get_or ys i d)
      → j < shr n k
      → cell k xs j ≡ cell k ys j
  unfolding cell
  cell_agree zero xs ys n j h p = h j (omega (arith, shr-zero n)) _
  cell_agree (suc k) xs ys n j h p = cc (
    cell_agree k xs ys n (2 * j) h (omega (arith, shr-suc n k)),
    cell_agree k xs ys n (2 * j + 1) h (omega (arith, shr-suc n k)),
  )

  -- The node above a right child, and above a left child.
  pub cell_of_right :
      (k : ℕ) (xs : List ℕ) (i j : ℕ)
      → i ≡ 2 * j + 1
      → merkle_node_hash raw (cell k xs (2 * j)) (cell k xs i) ≡ cell (suc k) xs j
  unfolding cell
  cell_of_right k xs i j e = rw e

  pub cell_of_left :
      (k : ℕ) (xs : List ℕ) (i j : ℕ)
      → i ≡ 2 * j
      → merkle_node_hash raw (cell k xs i) (cell k xs (2 * j + 1)) ≡ cell (suc k) xs j
  unfolding cell
  cell_of_left k xs i j e = rw e
