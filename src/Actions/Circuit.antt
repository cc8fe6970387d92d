-- ===== src/Actions/Circuit.antt =====
-- circuits/transact.circom over its libraries in circuits/lib: the constraints on a witness's signals,
-- which are numbers below the field's modulus. A product with a selector that is 0 or 1 is written as
-- the product; where the circuit sets a difference times a selector to zero, the two products are
-- equated. Equations of sums hold modulo the field's modulus.
use b402_solana.Common.{
  ℕ, ◌+◌, ◌-◌, ◌*◌, ◌%◌, ◌^◌, ◌<◌, ◌≡◌, ◌⊎◌, List, [], ◌∷◌, length, All, if◌then◌else◌, ◌==◌,
}
use b402_solana.Protocol.Encoding.{fr_modulus}
use b402_solana.Actions.Witness.{TransactWitness}

-- The public signals that the templates of a single note read.
pub record Context : Type 0 where
  pub commit_tag : ℕ
  pub null_tag : ℕ
  pub mk_node_tag : ℕ
  pub spend_key_pub_tag : ℕ
  pub merkle_root : ℕ
  pub public_token_mint : ℕ

abbrev context : TransactWitness → Context
context w = record {
  commit_tag = w.commit_tag;
  null_tag = w.null_tag;
  mk_node_tag = w.mk_node_tag;
  spend_key_pub_tag = w.spend_key_pub_tag;
  merkle_root = w.merkle_root;
  public_token_mint = w.public_token_mint;
}

abbrev pub IsBit : ℕ → Type 0
IsBit b = (b ≡ 0) ⊎ (b ≡ 1)

module _ (raw : List ℕ → ℕ) where
  -- `MerkleRoot`: a bit chooses the order of the two children.
  unfoldable pub computed_root : ℕ → ℕ → List ℕ → List ℕ → ℕ
  computed_root tag cur [] bits = cur
  computed_root tag cur (s ∷ siblings) [] = cur
  computed_root tag cur (s ∷ siblings) (b ∷ bits) =
      computed_root tag (raw (tag ∷ (if b == 1 then s else cur) ∷ (if b == 1 then cur else s) ∷ []))
        siblings bits

  -- A spent note: `SpendingPub`, `Commitment`, `MerkleRoot` and `Nullifier`, under its selector.
  pub record Spends (depth : ℕ) (c : Context)
      (token_mint value random priv leaf_index dummy nullifier : ℕ) (siblings bits : List ℕ)
      : Type 0 where
    pub in_range : value < 2 ^ 64
    pub selector : IsBit dummy
    pub path_length : length siblings ≡ depth
    pub bits_length : length bits ≡ depth
    pub path_bits : All IsBit bits
    pub member :
        (1 - dummy)
          * computed_root c.mk_node_tag
              (raw (
                c.commit_tag
                ∷ token_mint
                ∷ value
                ∷ random
                ∷ raw (c.spend_key_pub_tag ∷ priv ∷ [])
                ∷ []))
              siblings
              bits
        ≡ (1 - dummy) * c.merkle_root
    pub nullified : nullifier ≡ (1 - dummy) * raw (c.null_tag ∷ priv ∷ leaf_index ∷ [])
    pub same_mint : (1 - dummy) * token_mint ≡ (1 - dummy) * c.public_token_mint

  pub record Creates (c : Context) (token_mint value random spending_pub dummy commitment : ℕ)
      : Type 0 where
    pub in_range : value < 2 ^ 64
    pub selector : IsBit dummy
    pub committed :
        commitment
        ≡ (1 - dummy) * raw (c.commit_tag ∷ token_mint ∷ value ∷ random ∷ spending_pub ∷ [])
    pub same_mint : (1 - dummy) * token_mint ≡ (1 - dummy) * c.public_token_mint

  pub record Transact (depth : ℕ) (w : TransactWitness) : Type 0 where
    pub spends_0 :
        Spends depth
          (context w)
          w.in_token_mint.0
          w.in_value.0
          w.in_random.0
          w.in_spending_priv.0
          w.in_leaf_index.0
          w.in_is_dummy.0
          w.nullifier.0
          w.in_siblings.0
          w.in_path_bits.0
    pub spends_1 :
        Spends depth
          (context w)
          w.in_token_mint.1
          w.in_value.1
          w.in_random.1
          w.in_spending_priv.1
          w.in_leaf_index.1
          w.in_is_dummy.1
          w.nullifier.1
          w.in_siblings.1
          w.in_path_bits.1
    pub creates_0 :
        Creates
          (context w)
          w.out_token_mint.0
          w.out_value.0
          w.out_random.0
          w.out_spending_pub.0
          w.out_is_dummy.0
          w.commitment_out.0
    pub creates_1 :
        Creates
          (context w)
          w.out_token_mint.1
          w.out_value.1
          w.out_random.1
          w.out_spending_pub.1
          w.out_is_dummy.1
          w.commitment_out.1
    pub amounts :
        (w.public_amount_in < 2 ^ 64) × (w.public_amount_out < 2 ^ 64) × (w.relayer_fee < 2 ^ 64)
    pub balanced :
        ((1 - w.in_is_dummy.0) * w.in_value.0
            + (1 - w.in_is_dummy.1) * w.in_value.1
            + w.public_amount_in)
          % fr_modulus
        ≡ ((1 - w.out_is_dummy.0) * w.out_value.0
            + (1 - w.out_is_dummy.1) * w.out_value.1
            + w.public_amount_out
            + w.relayer_fee)
          % fr_modulus
    pub exclusive : w.public_amount_in * w.public_amount_out % fr_modulus ≡ 0
    pub fee_bound :
        w.relayer_fee_bind ≡ raw (w.fee_bind_tag ∷ w.relayer_fee_recipient ∷ w.relayer_fee ∷ [])
    pub halves : (w.recipient_owner_low < 2 ^ 128) × (w.recipient_owner_high < 2 ^ 128)
    pub recipient_bound :
        w.recipient_bind
        ≡ raw (w.recipient_bind_tag ∷ w.recipient_owner_low ∷ w.recipient_owner_high ∷ [])

-- The public signals of `main`, in their order.
unfoldable pub public_signals : TransactWitness → List ℕ
public_signals w =
    w.merkle_root ∷ w.nullifier.0 ∷ w.nullifier.1 ∷ w.commitment_out.0 ∷ w.commitment_out.1
    ∷ w.public_amount_in ∷ w.public_amount_out ∷ w.public_token_mint ∷ w.relayer_fee
    ∷ w.relayer_fee_bind ∷ w.root_bind ∷ w.recipient_bind ∷ w.commit_tag ∷ w.null_tag
    ∷ w.mk_node_tag ∷ w.spend_key_pub_tag ∷ w.fee_bind_tag ∷ w.recipient_bind_tag ∷ []
