-- ===== src/Swap/Witness.antt =====
-- The witness of `privateSwap` for the prover of packages/prover/src/adapt.ts. A pair of two slots is
-- a product; `raw` is the Poseidon permutation.
use b402_solana.Common.{ℕ, List, [], ◌∷◌, take, replicate, codes}
use b402_solana.Protocol.Encoding.{adapt_bind, recipient_bind, tag_value}
use b402_solana.Protocol.Poseidon.{commitment_hash, nullifier_hash, fee_bind_hash, poseidon_tagged}
use b402_solana.Merkle.{MerkleProof}
use b402_solana.Wallet.{Wallet}
use b402_solana.Notes.Store.{SpendableNote}

pub record AdaptWitness : Type 0 where
  pub merkle_root : ℕ
  pub nullifier : ℕ × ℕ
  pub commitment_out : ℕ × ℕ
  pub public_amount_in : ℕ
  pub public_amount_out : ℕ
  pub public_token_mint : ℕ
  pub relayer_fee : ℕ
  pub relayer_fee_bind : ℕ
  pub root_bind : ℕ
  pub recipient_bind : ℕ
  pub commit_tag : ℕ
  pub null_tag : ℕ
  pub mk_node_tag : ℕ
  pub spend_key_pub_tag : ℕ
  pub fee_bind_tag : ℕ
  pub recipient_bind_tag : ℕ
  pub adapter_id : ℕ
  pub action_hash : ℕ
  pub expected_out_value : ℕ
  pub expected_out_mint : ℕ
  pub adapt_bind_tag : ℕ
  pub out_spending_pub_a : ℕ
  pub in_token_mint : ℕ × ℕ
  pub in_value : ℕ × ℕ
  pub in_random : ℕ × ℕ
  pub in_spending_priv : ℕ × ℕ
  pub in_leaf_index : ℕ × ℕ
  pub in_siblings : List ℕ × List ℕ
  pub in_path_bits : List ℕ × List ℕ
  pub in_is_dummy : ℕ × ℕ
  pub out_value : ℕ × ℕ
  pub out_random : ℕ × ℕ
  pub out_spending_pub : ℕ × ℕ
  pub out_is_dummy : ℕ × ℕ
  pub relayer_fee_recipient : ℕ
  pub recipient_owner_low : ℕ
  pub recipient_owner_high : ℕ
  pub action_payload_keccak_fr : ℕ

-- What the request comes to before the proof: the mints, the adapter and the payload as field
-- elements, the two amounts, and the output note's randomness.
pub record Terms : Type 0 where
  pub in_mint_fr : ℕ
  pub out_mint_fr : ℕ
  pub adapter_id : ℕ
  pub payload_keccak_fr : ℕ
  pub amount : ℕ
  pub expected_out : ℕ
  pub out_random : ℕ

module _ (raw : List ℕ → ℕ) where
  unfoldable pub out_commitment : Wallet → Terms → ℕ
  out_commitment wallet t =
      commitment_hash raw t.out_mint_fr t.expected_out t.out_random wallet.spending_pub

  -- `zero_cache` is a fresh one.
  unfoldable pub swap_witness : Wallet → SpendableNote → MerkleProof → List ℕ → Terms → AdaptWitness
  unfolding out_commitment
  swap_witness wallet n proof zero_cache t = record {
    merkle_root = proof.root;
    nullifier = (nullifier_hash raw wallet.spending_priv n.leaf_index, 0);
    commitment_out = (out_commitment wallet t, 0);
    public_amount_in = t.amount;
    public_amount_out = 0;
    public_token_mint = t.in_mint_fr;
    relayer_fee = 0;
    relayer_fee_bind = fee_bind_hash raw 0 0;
    root_bind = 0;
    recipient_bind = poseidon_tagged raw recipient_bind (0 ∷ 0 ∷ []);
    commit_tag = tag_value (codes "b402/v1/commit");
    null_tag = tag_value (codes "b402/v1/null");
    mk_node_tag = tag_value (codes "b402/v1/mk-node");
    spend_key_pub_tag = tag_value (codes "b402/v1/spend-key-pub");
    fee_bind_tag = tag_value (codes "b402/v1/fee-bind");
    recipient_bind_tag = tag_value (codes "b402/v1/recipient-bind");
    adapter_id = t.adapter_id;
    action_hash = poseidon_tagged raw adapt_bind (t.payload_keccak_fr ∷ t.out_mint_fr ∷ []);
    expected_out_value = t.expected_out;
    expected_out_mint = t.out_mint_fr;
    adapt_bind_tag = tag_value (codes "b402/v1/adapt-bind");
    out_spending_pub_a = wallet.spending_pub;
    in_token_mint = (t.in_mint_fr, 0);
    in_value = (n.note.value, 0);
    in_random = (n.note.random, 0);
    in_spending_priv = (wallet.spending_priv, 1);
    in_leaf_index = (n.leaf_index, 0);
    in_siblings = (proof.siblings, take 26 zero_cache);
    in_path_bits = (proof.path_bits, replicate 26 0);
    in_is_dummy = (0, 1);
    out_value = (t.expected_out, 0);
    out_random = (t.out_random, 0);
    out_spending_pub = (wallet.spending_pub, 0);
    out_is_dummy = (0, 1);
    relayer_fee_recipient = 0;
    recipient_owner_low = 0;
    recipient_owner_high = 0;
    action_payload_keccak_fr = t.payload_keccak_fr;
  }
