-- ===== src/Actions/Slots.antt =====
-- One slot of the circuits: a slot that is marked as a dummy, and a spent note with the path that the
-- client's tree gives for it.
use b402_solana.Common.{
  ℕ, zero, suc, ◌-◌, ◌*◌, ◌/◌, ◌^◌, ◌<◌, ◌≡◌, inl, inr, refl, sym, ap, ◌∙◌, arith, List, [], ◌∷◌,
  length, replicate, get_or, All, Bool-cases, ◌==◌, ok, bit_and,
}
use b402_solana.Protocol.Encoding.{commit, nullifier, mk_node, spend_key_pub}
use b402_solana.Protocol.Encoding.Tags.{domain_tag_fr}
use b402_solana.Protocol.Poseidon.{
  commitment_hash, nullifier_hash, poseidon_tagged, merkle_node_hash, spending_pub,
}
use b402_solana.Merkle.{ClientMerkleTree, prove}
use b402_solana.Merkle.Cells.{fold_path}
use b402_solana.Merkle.Paths.{prove-path, path_of, sibling_cells, proof_of}
use b402_solana.Merkle.Append.Invariant.{IsTree}
use b402_solana.Actions.Circuit.{Context, IsBit, computed_root, Spends, Creates}

zero_bits : (n : ℕ) → All IsBit (replicate n 0)
zero_bits zero = tt
zero_bits (suc n) = (inl refl, zero_bits n)

path_of-bits : (n j : ℕ) → (length (path_of n j) ≡ n) × All IsBit (path_of n j)
unfolding path_of
path_of-bits zero j = (refl, tt)
path_of-bits (suc n) j =
    let (size, bits) = path_of-bits n (j / 2) in
    elim (Bool-cases (bit_and j 1 == 1)) [
      | inl right ↦ rw right (ap suc size, (inr refl, bits))
      | inr left ↦ rw left (ap suc size, (inl refl, bits))
    ]

-- A value of 64 bits under its selector.
pub weighted-bound : (dummy v : ℕ) → v < 2 ^ 64 → (1 - dummy) * v < 2 ^ 64
weighted-bound zero v h = omega arith
weighted-bound (suc d) v h = let none : 1 - suc d ≡ 0 = omega arith in rw none (omega arith)

module _ (raw : List ℕ → ℕ) where
  computed_root-fold_path :
      (siblings bits : List ℕ) (cur : ℕ)
      → computed_root raw (domain_tag_fr mk_node) cur siblings bits
        ≡ fold_path raw cur siblings bits
  unfolding computed_root fold_path merkle_node_hash poseidon_tagged
  computed_root-fold_path [] bits cur = refl
  computed_root-fold_path (s ∷ siblings) [] cur = refl
  computed_root-fold_path (s ∷ siblings) (b ∷ bits) cur = elim (Bool-cases (b == 1)) [
    | inl right ↦ rw right (computed_root-fold_path siblings bits _)
    | inr left ↦ rw left (computed_root-fold_path siblings bits _)
  ]

  length-sibling_cells : (xs : List ℕ) (n k j : ℕ) → length (sibling_cells raw xs n k j) ≡ n
  unfolding sibling_cells
  length-sibling_cells xs zero k j = refl
  length-sibling_cells xs (suc n) k j = ap suc (length-sibling_cells xs n (suc k) (j / 2))

  -- A slot that is marked as a dummy.
  pub dummy-Spends :
      (c : Context) (siblings : List ℕ)
      → length siblings ≡ 26
      → Spends raw 26 c 0 0 0 1 0 1 0 siblings (replicate 26 0)
  dummy-Spends c siblings size = record {
    in_range = omega arith;
    selector = inr refl;
    path_length = size;
    bits_length = refl;
    path_bits = zero_bits 26;
    member = omega arith;
    nullified = omega arith;
    same_mint = omega arith;
  }

  pub dummy-Creates : (c : Context) (token_mint : ℕ) → Creates raw c token_mint 0 0 0 1 0
  dummy-Creates c token_mint = record {
    in_range = omega arith;
    selector = inr refl;
    committed = omega arith;
    same_mint = omega arith;
  }

  abbrev pub our_context : ℕ → ℕ → Context
  our_context root token_mint = record {
    commit_tag = domain_tag_fr commit;
    null_tag = domain_tag_fr nullifier;
    mk_node_tag = domain_tag_fr mk_node;
    spend_key_pub_tag = domain_tag_fr spend_key_pub;
    merkle_root = root;
    public_token_mint = token_mint;
  }

  -- A note of a key that the tree holds.
  pub prove-Spends :
      (t : ClientMerkleTree) (token_mint value random priv j : ℕ)
      → IsTree raw t
      → t.depth ≡ 26
      → j < t.leaf_count
      → get_or t.leaves j 0 ≡ commitment_hash raw token_mint value random (spending_pub raw priv)
      → value < 2 ^ 64
      → (prove raw t j ≡ ok (proof_of raw t j))
        × Spends raw 26
            (our_context t.root token_mint)
            token_mint
            value
            random
            priv
            j
            0
            (nullifier_hash raw priv j)
            (proof_of raw t j).siblings
            (proof_of raw t j).path_bits
  unfolding commitment_hash nullifier_hash poseidon_tagged spending_pub
  prove-Spends t token_mint value random priv j tree deep stored leaf small =
      let (proved, rooted) = prove-path raw t j tree stored in
      let (counted, bits) = path_of-bits t.depth j in
      let path = proof_of raw t j in
      let member = computed_root-fold_path path.siblings path.path_bits path.leaf ∙ rooted in
      (
        proved,
        record {
          in_range = small;
          selector = inl refl;
          path_length = length-sibling_cells t.leaves t.depth 0 j ∙ deep;
          bits_length = counted ∙ deep;
          path_bits = bits;
          member =
              ap (λ (r : ℕ). 1 * r)
                (ap
                    (λ (c : ℕ).
                      computed_root raw (domain_tag_fr mk_node) c path.siblings path.path_bits)
                    (sym leaf)
                  ∙ member);
          nullified = omega arith;
          same_mint = refl;
        },
      )
