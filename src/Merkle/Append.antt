-- ===== src/Merkle/Append.antt =====
-- `append` keeps the incremental tree equal to the tree over all leaves.
pub mod Carry
pub mod Invariant
use b402_solana.Common.{
  ℕ, zero, suc, ◌+◌, ◌*◌, ◌/◌, ◌%◌, ◌^◌, ◌≤◌, ◌<◌, ◌≡◌, refl, sym, ap, ◌∙◌, subst, arith, List, [],
  ◌∷◌, ◌++◌, length, append_assoc, append-nil, length-replicate, length-append,
}
use native.Mathlib.Nat.{pow-suc, pow-zero}
use b402_solana.Merkle.{ClientMerkleTree, append, init, new_tree}
use b402_solana.Merkle.Shift.{shr, shr-eq-zero}
use b402_solana.Merkle.Cells.{merkle_root}
use b402_solana.Merkle.ZeroCache.{init-new_tree}
use Invariant.{IsTree, Extends, Overflows, tree_of_lem, append_literal, overflow_literal}

pow_pos : (k : ℕ) → 0 < 2 ^ k
pow_pos zero = omega (arith, pow-zero 2)
pow_pos (suc k) = omega (arith, pow-suc 2 k, pow_pos k)

pub deep_of_room : (n depth : ℕ) → suc n < 2 ^ depth → 0 < depth
deep_of_room n zero h = absurd (omega (arith, pow-zero 2))
deep_of_room n (suc depth) h = omega arith

module _ (raw : List ℕ → ℕ) where
  -- In a tree with room behind the new leaf, `append` succeeds: it returns the leaf's index and the
  -- root of the complete tree over all leaves, the new one last, and the tree it leaves behind
  -- satisfies the invariant again.
  pub append-Extends :
      (t : ClientMerkleTree) (leaf : ℕ)
      → IsTree raw t
      → suc t.leaf_count < 2 ^ t.depth
      → Extends raw t leaf (append raw t leaf)
  append-Extends t leaf h =
      subst
        (λ u.
          IsTree raw u → suc u.leaf_count < 2 ^ u.depth → Extends raw u leaf (append raw u leaf))
        (tree_of_lem raw t h)
        (λ h' room.
          append_literal raw t.leaves leaf t.depth t.frontier t.zero_cache t.root h'
            (deep_of_room (length t.leaves) t.depth room) room)
        h

  -- The last position of the tree is never filled: where one leaf is missing, `append` throws, and
  -- has pushed the leaf onto `leaves` without counting it.
  pub append-Overflows :
      (t : ClientMerkleTree) (leaf : ℕ)
      → IsTree raw t
      → 0 < t.depth
      → suc t.leaf_count ≡ 2 ^ t.depth
      → Overflows raw t leaf
  append-Overflows t leaf h =
      subst
        (λ u. IsTree raw u → 0 < u.depth → suc u.leaf_count ≡ 2 ^ u.depth → Overflows raw u leaf)
        (tree_of_lem raw t h)
        (λ h' deep full.
          overflow_literal raw t.leaves leaf t.depth t.frontier t.zero_cache t.root h' deep full)
        h

  -- A fresh tree, initialised, satisfies the invariant.
  pub init-IsTree : (depth : ℕ) → IsTree raw (init raw (new_tree depth))
  unfolding init new_tree
  init-IsTree depth = record {
    started = refl;
    counted = refl;
    within = pow_pos depth;
    sized = length-replicate depth 0;
    cached = (init-new_tree raw depth).0;
    fits = λ k h odd. absurd (omega (arith, shr-eq-zero k 0 (pow_pos k)));
    rooted = (init-new_tree raw depth).1;
  }

  -- The tree after a sequence of calls.
  unfoldable pub append_all : ClientMerkleTree → List ℕ → ClientMerkleTree
  append_all t [] = t
  append_all t (x ∷ xs) = append_all (append raw t x).0 xs

  append_all-IsTree :
      (t : ClientMerkleTree) (xs : List ℕ)
      → IsTree raw t
      → length t.leaves + length xs < 2 ^ t.depth
      → IsTree raw (append_all t xs)
        × ((append_all t xs).leaves ≡ t.leaves ++ xs)
        × ((append_all t xs).depth ≡ t.depth)
  unfolding append_all
  append_all-IsTree t [] h room = (h, sym (append-nil t.leaves), refl)
  append_all-IsTree t (x ∷ xs) h room =
      let (h', leaves, depth, _) = append-Extends t x h (omega (arith, h.counted)) in
      let (good, all, deep) =
        append_all-IsTree (append raw t x).0 xs h'
          (rw (leaves, depth) (omega (arith, length-append t.leaves (x ∷ [])))) in
      (good, rw (all, leaves) (append_assoc t.leaves (x ∷ []) xs), deep ∙ depth)

  -- Appending leaves one by one to a fresh tree, fewer than fill it, gives the root of the complete
  -- tree over them, and counts them.
  pub append_all-init :
      (depth : ℕ) (xs : List ℕ)
      → length xs < 2 ^ depth
      → let t = append_all (init raw (new_tree depth)) xs in
        (t.root ≡ merkle_root raw depth xs)
        × (t.leaves ≡ xs)
        × (t.leaf_count ≡ length xs)
        × IsTree raw t
  unfolding init new_tree
  append_all-init depth xs room =
      let (h, leaves, deep) =
        append_all-IsTree (init raw (new_tree depth)) xs (init-IsTree depth) (omega arith) in
      (rw (leaves, deep) at h.rooted, leaves, h.counted ∙ ap length leaves, h)
