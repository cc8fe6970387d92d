-- ===== src/Swap/Fees.antt =====
-- What the relayer reads in the data of `adapt_execute` at the offsets of packages/relayer/src/
-- validate.ts and routes/relay.ts.
use b402_solana.Common.{ℕ, ◌/◌, ◌^◌, List, ◌∷◌, ◌++◌, Bytes, emit}
use b402_solana.Swap.Witness.{AdaptWitness}

-- The fee's bytes with the low bytes of the binding behind them, and its high bytes.
abbrev split_parts : Bytes → Bytes → AdaptWitness → ℕ → ℕ → List Bytes → List Bytes
split_parts disc proof w amount expected rest =
    disc
    ∷ proof
    ∷ emit 32 w.merkle_root
    ∷ emit 32 w.nullifier.0
    ∷ emit 32 w.nullifier.1
    ∷ emit 32 w.commitment_out.0
    ∷ emit 32 w.commitment_out.1
    ∷ emit 8 amount
    ∷ emit 8 0
    ∷ (emit 8 0 ++ emit 24 w.relayer_fee_bind)
    ∷ emit 8 (w.relayer_fee_bind / 256 ^ 24)
    ∷ emit 32 w.root_bind
    ∷ emit 32 w.recipient_bind
    ∷ emit 8 expected
    ∷ rest
