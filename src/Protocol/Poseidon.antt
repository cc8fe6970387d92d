-- ===== src/Protocol/Poseidon.antt =====
-- packages/sdk/src/poseidon.ts over the permutation of circomlibjs, which is the parameter `raw`:
-- the hash of a list of field elements. `domain_tag_fr` is what `domainTag` returns, which never
-- throws (`Encoding.Tags`).
use b402_solana.Common.{ℕ, List, [], ◌∷◌}
use b402_solana.Protocol.Encoding.{
  DomainTagName, commit, nullifier, mk_node, mk_zero, spend_key_pub, fee_bind,
}
use b402_solana.Protocol.Encoding.Tags.{domain_tag_fr}

module _ (raw : List ℕ → ℕ) where
  unfoldable pub poseidon_tagged : DomainTagName → List ℕ → ℕ
  poseidon_tagged tag inputs = raw (domain_tag_fr tag ∷ inputs)

  unfoldable pub commitment_hash : ℕ → ℕ → ℕ → ℕ → ℕ
  commitment_hash token_mint value random spending_pub =
      poseidon_tagged commit (token_mint ∷ value ∷ random ∷ spending_pub ∷ [])

  unfoldable pub nullifier_hash : ℕ → ℕ → ℕ
  nullifier_hash spending_priv leaf_index =
      poseidon_tagged nullifier (spending_priv ∷ leaf_index ∷ [])

  unfoldable pub spending_pub : ℕ → ℕ
  spending_pub spending_priv = poseidon_tagged spend_key_pub (spending_priv ∷ [])

  unfoldable pub merkle_node_hash : ℕ → ℕ → ℕ
  merkle_node_hash left right = poseidon_tagged mk_node (left ∷ right ∷ [])

  unfoldable pub merkle_zero_seed : ℕ
  merkle_zero_seed = poseidon_tagged mk_zero []

  unfoldable pub fee_bind_hash : ℕ → ℕ → ℕ
  fee_bind_hash recipient_as_fr fee = poseidon_tagged fee_bind (recipient_as_fr ∷ fee ∷ [])
