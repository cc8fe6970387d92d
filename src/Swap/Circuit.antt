-- ===== src/Swap/Circuit.antt =====
-- circuits/adapt.circom over the same libraries as circuits/transact.circom: the constraints on a
-- witness's signals. The created notes are of the output's mint.
use b402_solana.Common.{ℕ, ◌+◌, ◌-◌, ◌*◌, ◌%◌, ◌^◌, ◌<◌, ◌≡◌, List, [], ◌∷◌}
use b402_solana.Protocol.Encoding.{fr_modulus}
use b402_solana.Actions.Circuit.{Context, Spends, Creates}
use b402_solana.Swap.Witness.{AdaptWitness}

abbrev in_context : AdaptWitness → Context
in_context w = record {
  commit_tag = w.commit_tag;
  null_tag = w.null_tag;
  mk_node_tag = w.mk_node_tag;
  spend_key_pub_tag = w.spend_key_pub_tag;
  merkle_root = w.merkle_root;
  public_token_mint = w.public_token_mint;
}

abbrev out_context : AdaptWitness → Context
out_context w = record {
  commit_tag = w.commit_tag;
  null_tag = w.null_tag;
  mk_node_tag = w.mk_node_tag;
  spend_key_pub_tag = w.spend_key_pub_tag;
  merkle_root = w.merkle_root;
  public_token_mint = w.expected_out_mint;
}

module _ (raw : List ℕ → ℕ) where
  pub record Adapt (depth : ℕ) (w : AdaptWitness) : Type 0 where
    pub spends_0 :
        Spends raw depth
          (in_context w)
          w.in_token_mint.0
          w.in_value.0
          w.in_random.0
          w.in_spending_priv.0
          w.in_leaf_index.0
          w.in_is_dummy.0
          w.nullifier.0
          w.in_siblings.0
          w.in_path_bits.0
    pub spends_1 :
        Spends raw depth
          (in_context w)
          w.in_token_mint.1
          w.in_value.1
          w.in_random.1
          w.in_spending_priv.1
          w.in_leaf_index.1
          w.in_is_dummy.1
          w.nullifier.1
          w.in_siblings.1
          w.in_path_bits.1
    pub creates_0 :
        Creates raw
          (out_context w)
          w.expected_out_mint
          w.out_value.0
          w.out_random.0
          w.out_spending_pub.0
          w.out_is_dummy.0
          w.commitment_out.0
    pub creates_1 :
        Creates raw
          (out_context w)
          w.expected_out_mint
          w.out_value.1
          w.out_random.1
          w.out_spending_pub.1
          w.out_is_dummy.1
          w.commitment_out.1
    pub amounts :
        (w.public_amount_in < 2 ^ 64)
        × (w.public_amount_out < 2 ^ 64)
        × (w.relayer_fee < 2 ^ 64)
        × (w.expected_out_value < 2 ^ 64)
    pub no_withdrawal : w.public_amount_out ≡ 0
    pub paid_in :
        ((1 - w.in_is_dummy.0) * w.in_value.0 + (1 - w.in_is_dummy.1) * w.in_value.1) % fr_modulus
        ≡ (w.public_amount_in + w.relayer_fee) % fr_modulus
    pub delivered :
        ((1 - w.out_is_dummy.0) * w.out_value.0 + (1 - w.out_is_dummy.1) * w.out_value.1)
          % fr_modulus
        ≡ w.expected_out_value % fr_modulus
    pub fee_bound :
        w.relayer_fee_bind ≡ raw (w.fee_bind_tag ∷ w.relayer_fee_recipient ∷ w.relayer_fee ∷ [])
    pub halves : (w.recipient_owner_low < 2 ^ 128) × (w.recipient_owner_high < 2 ^ 128)
    pub recipient_bound :
        w.recipient_bind
        ≡ raw (w.recipient_bind_tag ∷ w.recipient_owner_low ∷ w.recipient_owner_high ∷ [])
    pub action_bound :
        w.action_hash
        ≡ raw (w.adapt_bind_tag ∷ w.action_payload_keccak_fr ∷ w.expected_out_mint ∷ [])
    pub alias : w.out_spending_pub_a ≡ w.out_spending_pub.0

-- The public signals of `main`, in their order.
unfoldable pub adapt_public_signals : AdaptWitness → List ℕ
adapt_public_signals w =
    w.merkle_root ∷ w.nullifier.0 ∷ w.nullifier.1 ∷ w.commitment_out.0 ∷ w.commitment_out.1
    ∷ w.public_amount_in ∷ w.public_amount_out ∷ w.public_token_mint ∷ w.relayer_fee
    ∷ w.relayer_fee_bind ∷ w.root_bind ∷ w.recipient_bind ∷ w.commit_tag ∷ w.null_tag
    ∷ w.mk_node_tag ∷ w.spend_key_pub_tag ∷ w.fee_bind_tag ∷ w.recipient_bind_tag ∷ w.adapter_id
    ∷ w.action_hash ∷ w.expected_out_value ∷ w.expected_out_mint ∷ w.adapt_bind_tag
    ∷ w.out_spending_pub_a ∷ []
