-- ===== src/Actions/Witness.antt =====
-- The witnesses of packages/sdk/src/actions/shield.ts and unshield.ts, for the prover of
-- packages/prover/src/index.ts. A pair of two slots is a product. `raw` is the Poseidon permutation.
use b402_solana.Common.{
  ℕ, read_up, not, List, [], ◌∷◌, take, replicate, length, Bytes, Result, ok, err, if◌then◌else◌,
  ◌==◌,
}
use b402_solana.Protocol.Encoding.{
  commit, nullifier, mk_node, spend_key_pub, fee_bind, recipient_bind,
}
use b402_solana.Protocol.Encoding.Tags.{domain_tag_fr}
use b402_solana.Protocol.Poseidon.{commitment_hash, nullifier_hash, fee_bind_hash, poseidon_tagged}
use b402_solana.Merkle.{MerkleProof, build_zero_cache}
use b402_solana.Wallet.{Wallet}
use b402_solana.Notes.Store.{SpendableNote}

pub record TransactWitness : Type 0 where
  pub merkle_root : ℕ
  pub nullifier : ℕ × ℕ
  pub commitment_out : ℕ × ℕ
  pub public_amount_in : ℕ
  pub public_amount_out : ℕ
  pub public_token_mint : ℕ
  pub relayer_fee : ℕ
  pub relayer_fee_bind : ℕ
  pub root_bind : ℕ
  pub recipient_bind : ℕ
  pub commit_tag : ℕ
  pub null_tag : ℕ
  pub mk_node_tag : ℕ
  pub spend_key_pub_tag : ℕ
  pub fee_bind_tag : ℕ
  pub recipient_bind_tag : ℕ
  pub in_token_mint : ℕ × ℕ
  pub in_value : ℕ × ℕ
  pub in_random : ℕ × ℕ
  pub in_spending_priv : ℕ × ℕ
  pub in_leaf_index : ℕ × ℕ
  pub in_siblings : List ℕ × List ℕ
  pub in_path_bits : List ℕ × List ℕ
  pub in_is_dummy : ℕ × ℕ
  pub out_token_mint : ℕ × ℕ
  pub out_value : ℕ × ℕ
  pub out_random : ℕ × ℕ
  pub out_spending_pub : ℕ × ℕ
  pub out_is_dummy : ℕ × ℕ
  pub relayer_fee_recipient : ℕ
  pub recipient_owner_low : ℕ
  pub recipient_owner_high : ℕ

abbrev pub tree_depth : ℕ
tree_depth = 26

pub data OwnerError : Type 0 where
  expected_32_bytes : OwnerError

unfoldable pub split_owner_halves : Bytes → Result OwnerError (ℕ × ℕ)
split_owner_halves owner =
    if not (length owner == 32)
    then err expected_32_bytes
    else ok (read_up 16 0 0 0 owner, read_up 16 0 16 0 owner)

module _ (raw : List ℕ → ℕ) where
  -- `merkle_root`, `token_mint` and `random` are the numbers that `leToFrReduced` gives.
  unfoldable pub shield_witness : Wallet → ℕ → ℕ → ℕ → ℕ → TransactWitness
  shield_witness wallet merkle_root token_mint amount random =
      let zero_cache : List ℕ = build_zero_cache raw tree_depth in
      record {
        merkle_root = merkle_root;
        nullifier = (0, 0);
        commitment_out = (commitment_hash raw token_mint amount random wallet.spending_pub, 0);
        public_amount_in = amount;
        public_amount_out = 0;
        public_token_mint = token_mint;
        relayer_fee = 0;
        relayer_fee_bind = fee_bind_hash raw 0 0;
        root_bind = 0;
        recipient_bind = poseidon_tagged raw recipient_bind (0 ∷ 0 ∷ []);
        commit_tag = domain_tag_fr commit;
        null_tag = domain_tag_fr nullifier;
        mk_node_tag = domain_tag_fr mk_node;
        spend_key_pub_tag = domain_tag_fr spend_key_pub;
        fee_bind_tag = domain_tag_fr fee_bind;
        recipient_bind_tag = domain_tag_fr recipient_bind;
        in_token_mint = (0, 0);
        in_value = (0, 0);
        in_random = (0, 0);
        in_spending_priv = (1, 1);
        in_leaf_index = (0, 0);
        in_siblings = (take 26 zero_cache, take 26 zero_cache);
        in_path_bits = (replicate 26 0, replicate 26 0);
        in_is_dummy = (1, 1);
        out_token_mint = (token_mint, 0);
        out_value = (amount, 0);
        out_random = (random, 0);
        out_spending_pub = (wallet.spending_pub, 0);
        out_is_dummy = (0, 1);
        relayer_fee_recipient = 0;
        recipient_owner_low = 0;
        recipient_owner_high = 0;
      }

  -- `low` and `high` are the owner's halves, `zero_cache` the tree's or a fresh one.
  unfoldable pub unshield_witness :
      Wallet → SpendableNote → MerkleProof → List ℕ → ℕ → ℕ → ℕ → ℕ → TransactWitness
  unshield_witness wallet n proof zero_cache merkle_root token_mint low high = record {
    merkle_root = merkle_root;
    nullifier = (nullifier_hash raw wallet.spending_priv n.leaf_index, 0);
    commitment_out = (0, 0);
    public_amount_in = 0;
    public_amount_out = n.note.value;
    public_token_mint = token_mint;
    relayer_fee = 0;
    relayer_fee_bind = fee_bind_hash raw 0 0;
    root_bind = 0;
    recipient_bind = poseidon_tagged raw recipient_bind (low ∷ high ∷ []);
    commit_tag = domain_tag_fr commit;
    null_tag = domain_tag_fr nullifier;
    mk_node_tag = domain_tag_fr mk_node;
    spend_key_pub_tag = domain_tag_fr spend_key_pub;
    fee_bind_tag = domain_tag_fr fee_bind;
    recipient_bind_tag = domain_tag_fr recipient_bind;
    in_token_mint = (n.note.token_mint, 0);
    in_value = (n.note.value, 0);
    in_random = (n.note.random, 0);
    in_spending_priv = (wallet.spending_priv, 1);
    in_leaf_index = (n.leaf_index, 0);
    in_siblings = (proof.siblings, take 26 zero_cache);
    in_path_bits = (proof.path_bits, replicate 26 0);
    in_is_dummy = (0, 1);
    out_token_mint = (0, 0);
    out_value = (0, 0);
    out_random = (0, 0);
    out_spending_pub = (0, 0);
    out_is_dummy = (1, 1);
    relayer_fee_recipient = 0;
    recipient_owner_low = low;
    recipient_owner_high = high;
  }
