-- ===== src/Notes/Excess.antt =====
-- packages/sdk/src/excess.ts: the note of the output beyond the expected one.
use b402_solana.Common.{ℕ, List, [], ◌∷◌}
use b402_solana.Protocol.Encoding.{excess}
use b402_solana.Protocol.Poseidon.{poseidon_tagged, commitment_hash}

module _ (raw : List ℕ → ℕ) where
  unfoldable pub derive_excess_random : ℕ → ℕ
  derive_excess_random commitment_a = poseidon_tagged raw excess (commitment_a ∷ [])

  unfoldable pub compute_excess_commitment : ℕ → ℕ → ℕ → ℕ → ℕ
  compute_excess_commitment out_mint_fr amount random_b spending_pub =
      commitment_hash raw out_mint_fr amount random_b spending_pub
