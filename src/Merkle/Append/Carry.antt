-- ===== src/Merkle/Append/Carry.antt =====
-- The two loops of `append`, at the leaf `leaf` behind the leaves `xs`.
use b402_solana.Common.{
  ℕ, zero, suc, ◌+◌, ◌-◌, ◌*◌, ◌%◌, ◌<◌, ◌≡◌, ◌⊎◌, inl, inr, refl, sym, ap, ◌∙◌, arith, List, [],
  ◌∷◌, ◌++◌, length, get_or, length-append, get_or-append_left, Result, ok, err, if◌then◌else◌, leb,
  ◌==◌, Bool-cases, bit_and-one, true,
}
use b402_solana.Protocol.Poseidon.{merkle_node_hash}
use b402_solana.Merkle.{MerkleError, capacity_exceeded, bit_at, carry, walk_up}
use b402_solana.Merkle.Shift.{shr, shr-suc}
use b402_solana.Merkle.Cells.{cell, cell-beyond, cell_agree, cell_of_right, cell_of_left}
use b402_solana.Merkle.ZeroCache.{IsCache}

pub bit_at-mod : (n k : ℕ) → bit_at n k ≡ shr n k % 2
unfolding bit_at
bit_at-mod n k = bit_and-one (shr n k)

lt_suc-cases : (j k : ℕ) → j < suc k → (j < k) ⊎ (j ≡ k)
lt_suc-cases j k p = grind arith

even_upto :
    (m k : ℕ)
    → ((j : ℕ) → j < k → shr m j % 2 ≡ 0)
    → shr m k % 2 ≡ 0
    → (j : ℕ) → j < suc k
    → shr m j % 2 ≡ 0
even_upto m k low here j p = elim (lt_suc-cases j k p) [ inl q ↦ low j q | inr e ↦ rw e here ]

-- At every level where the count `n` of leaves has a one, the frontier holds the last full subtree.
abbrev pub Fits : (List ℕ → ℕ) → ℕ → ℕ → List ℕ → List ℕ → Type 0
Fits raw depth n xs frontier =
    (k : ℕ) → k < depth → shr n k % 2 ≡ 1 → get_or frontier k 0 ≡ cell raw k xs (shr n k - 1)

-- What `carry` has found when it stops at level `l` with the node `c`.
pub record Carried (raw : List ℕ → ℕ) (depth n : ℕ) (ys : List ℕ) (l c : ℕ) : Type 0 where
  pub below : l < depth
  pub node : c ≡ cell raw l ys (shr n l)
  pub clear : shr n l % 2 ≡ 0
  pub next : shr (suc n) l ≡ suc (shr n l)
  pub even_below : (k : ℕ) → k < l → shr (suc n) k % 2 ≡ 0

abbrev pub Outcome : (List ℕ → ℕ) → ℕ → ℕ → List ℕ → Result MerkleError (ℕ × ℕ) → Type 0
Outcome raw depth n ys (ok (l, c)) = Carried raw depth n ys l c
Outcome raw depth n ys (err e) = (e ≡ capacity_exceeded) × (shr (suc n) depth ≡ suc (shr n depth))

module _ (raw : List ℕ → ℕ) (xs : List ℕ) (leaf depth : ℕ) (frontier : List ℕ)
    (fits : Fits raw depth (length xs) xs frontier) where
  abbrev n : ℕ
  n = length xs

  abbrev ys : List ℕ
  ys = xs ++ leaf ∷ []

  pub left_sibling :
      (k : ℕ) → k < depth → shr n k % 2 ≡ 1 → get_or frontier k 0 ≡ cell raw k ys (shr n k - 1)
  left_sibling k h odd =
      fits k h odd
      ∙ cell_agree raw k xs ys n (shr n k - 1)
          (λ i p d. sym (get_or-append_left xs (leaf ∷ []) i d p)) (omega arith)

  -- One round of `carry` climbs from a right child to its parent.
  climb :
      (k cur : ℕ)
      → k < depth
      → shr n k % 2 ≡ 1
      → cur ≡ cell raw k ys (shr n k)
      → merkle_node_hash raw (get_or frontier k 0) cur ≡ cell raw (suc k) ys (shr n (suc k))
  climb k cur h odd e =
      let left : shr n k - 1 ≡ 2 * shr n (suc k) = omega (arith, shr-suc n k) in
      let right : shr n k ≡ 2 * shr n (suc k) + 1 = omega (arith, shr-suc n k) in
      let sibling : get_or frontier k 0 ≡ cell raw k ys (2 * shr n (suc k)) =
        left_sibling k h odd ∙ ap (cell raw k ys) left in
      rw (sibling, e) (cell_of_right raw k ys (shr n k) (shr n (suc k)) right)

  pub carry-Outcome :
      (fuel k cur : ℕ)
      → fuel + k ≡ suc depth
      → k < depth
      → cur ≡ cell raw k ys (shr n k)
      → shr (suc n) k ≡ suc (shr n k)
      → ((j : ℕ) → j < k → shr (suc n) j % 2 ≡ 0)
      → Outcome raw depth n ys (carry raw fuel depth n frontier k cur)
  unfolding carry
  carry-Outcome zero k cur f h e next even = absurd (omega arith)
  carry-Outcome (suc fuel) k cur f h e next even = elim (Bool-cases (bit_at n k == 1)) [
    | inr stop ↦ rw stop (record {
      below = h;
      node = e;
      clear = ground (arith, bit_at-mod n k);
      next = next;
      even_below = even;
    })
    | inl more ↦
        let odd : shr n k % 2 ≡ 1 = ground (arith, bit_at-mod n k) in
        let next' : shr (suc n) (suc k) ≡ suc (shr n (suc k)) =
          omega (arith, shr-suc n k, shr-suc (suc n) k) in
        elim (Bool-cases (leb depth (suc k))) [
          | inl full ↦
              let last : depth ≡ suc k = ground arith in rw (more, full) (refl, rw last next')
          | inr room ↦
              rw (more, room)
                (carry-Outcome fuel (suc k) _ (omega arith) (ground arith) (climb k cur h odd e)
                  next' (even_upto (suc n) k even (omega arith)))
        ]
  ]

  -- The walk to the root, from the parent of the last full left subtree.
  module _ (frontier' cache : List ℕ) (cached : IsCache raw depth cache)
      (left : (k : ℕ)
        → k < depth
        → shr n k % 2 ≡ 1
        → get_or frontier' k 0 ≡ get_or frontier k 0) where
    rise :
        (k cur : ℕ)
        → k < depth
        → cur ≡ cell raw k ys (shr n k)
        → (if bit_at n k == 0
            then merkle_node_hash raw cur (get_or cache k 0)
            else merkle_node_hash raw (get_or frontier' k 0) cur)
          ≡ cell raw (suc k) ys (shr n (suc k))
    rise k cur h e = elim (Bool-cases (bit_at n k == 0)) [
      | inl even ↦
          let at : shr n k ≡ 2 * shr n (suc k) = ground (arith, bit_at-mod n k, shr-suc n k) in
          let empty : get_or cache k 0 ≡ cell raw k ys (2 * shr n (suc k) + 1) =
            cached k (omega arith)
            ∙ sym (
                cell-beyond raw k ys n _ (omega (arith, length-append xs (leaf ∷ [])))
                  (omega arith)) in
          rw (even, e, empty) (cell_of_left raw k ys (shr n k) (shr n (suc k)) at)
      | inr other ↦
          let odd : shr n k % 2 ≡ 1 = ground (arith, bit_at-mod n k) in
          rw (other, left k h odd) (climb k cur h odd e)
    ]

    pub rise_even :
        (k cur : ℕ)
        → k < depth
        → shr n k % 2 ≡ 0
        → cur ≡ cell raw k ys (shr n k)
        → merkle_node_hash raw cur (get_or cache k 0) ≡ cell raw (suc k) ys (shr n (suc k))
    rise_even k cur h even e =
        let zero_bit : (bit_at n k == 0) ≡ true = ground (arith, bit_at-mod n k) in
        rw zero_bit at (rise k cur h e)

    pub walk_up-cell :
        (m k cur : ℕ)
        → m + k ≡ depth
        → cur ≡ cell raw k ys (shr n k)
        → walk_up raw m k n frontier' cache cur ≡ cell raw depth ys (shr n depth)
    unfolding walk_up
    walk_up-cell zero k cur f e = let last : k ≡ depth = omega arith in rw (← last) e
    walk_up-cell (suc m) k cur f e =
        walk_up-cell m (suc k) _ (omega arith) (rise k cur (omega arith) e)
