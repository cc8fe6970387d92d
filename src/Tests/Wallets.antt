-- ===== src/Tests/Wallets.antt =====
-- packages/sdk/src/wallet.ts, signer.ts and light-nullifier.ts and packages/prover at small stand-ins
-- for the digests, the curve and the indexer.
use b402_solana.Common.{
  ℕ, zero, suc, ◌+◌, ◌*◌, ◌%◌, ◌^◌, ◌≤◌, ◌<◌, ◌≡◌, ◌≢◌, ◌↔◌, refl, arith, List, [], ◌∷◌, ◌++◌, map,
  length, take, drop, replicate, All, emit, Option, some, none, Bytes, AllBytes, value, Result, ok,
  err,
}
use b402_solana.Protocol.Encoding.{fr_modulus}
use b402_solana.Protocol.Poseidon.{spending_pub}
use b402_solana.Wallet.{Wallet, build_wallet, bad_seed_length}
use b402_solana.Wallet.Derivation.{build_wallet-keys}
use b402_solana.Prover.{public_inputs_le_of}
use b402_solana.Prover.Codec.{public_inputs_le_of-emit}
use b402_solana.Programs.Anchor.{u16_le}
use b402_solana.Programs.Nullifier.{
  NullifierProof, Attempt, PhotonAnswer, answered, threw, fetch_rounds, max_attempts, discriminator,
  build_nullifier_cpi_payload, build_create_nullifier_data, encode_address_tree_info, encode_proof,
}
use b402_solana.Programs.Nullifier.Retry.{FirstAnswer, total, fetch_rounds-ok_iff}
use b402_solana.Programs.Nullifier.Layout.{build_nullifier_cpi_payload-layout}

abbrev mix : List ℕ → ℕ
mix [] = 7
mix (x ∷ xs) = (x + 31 * mix xs) % 1009

abbrev sha512 : Bytes → Bytes
sha512 m = replicate 64 9

bytes_9 : AllBytes (replicate 64 9)
bytes_9 = below 64
  where
    below : (n : ℕ) → AllBytes (replicate n 9)
    below zero = tt
    below (suc n) = (omega arith, below n)

digest : (m : Bytes) → (length (sha512 m) ≡ 64) × AllBytes (sha512 m)
digest m = (refl, bytes_9)

abbrev seed : Bytes
seed = replicate 32 1

build_wallet-keys_example :
    (length seed ≡ 32
      → (w : Wallet) × (build_wallet mix sha512 (λ t. t) (λ s. s) seed ≡ ok w)
        × (w.seed ≡ seed)
        × (w.spending_priv < fr_modulus)
        × (w.spending_pub ≡ spending_pub mix w.spending_priv)
        × ((length w.viewing_priv ≡ 32)
            × (value w.viewing_priv % 8 ≡ 0)
            × (2 ^ 254 ≤ value w.viewing_priv)
            × (value w.viewing_priv < 2 ^ 255)
            × (w.viewing_pub ≡ w.viewing_priv)))
    × (length seed ≢ 32 → build_wallet mix sha512 (λ t. t) (λ s. s) seed ≡ err bad_seed_length)
build_wallet-keys_example = build_wallet-keys mix sha512 (λ t. t) (λ s. s) digest seed

public_inputs_le_of-emit_example :
    (public_inputs_le_of (5 ∷ 300 ∷ []) ≡ map (emit 32) (5 ∷ 300 ∷ []))
    × (All (λ s. s < 2 ^ 256) (5 ∷ 300 ∷ [])
        → map value (public_inputs_le_of (5 ∷ 300 ∷ [])) ≡ 5 ∷ 300 ∷ [])
public_inputs_le_of-emit_example = public_inputs_le_of-emit (5 ∷ 300 ∷ [])

abbrev validity : NullifierProof
validity = record {
  proof = record { a = replicate 32 1; b = replicate 64 2; c = replicate 32 3 };
  address_tree_info = record {
    root_index = some 5;
    address_merkle_tree_pubkey_index = 0;
    address_queue_pubkey_index = 0;
  };
  output_state_tree_index = 1;
  output_queue = seed;
  address_tree = seed;
}

abbrev payload_of : {E : Type 0} → Result E Bytes → Bytes
payload_of (ok b) = b
payload_of (err e) = []

encodes :
    build_nullifier_cpi_payload validity ≡ ok (payload_of (build_nullifier_cpi_payload validity))
unfolding build_nullifier_cpi_payload encode_address_tree_info encode_proof u16_le
encodes = refl

build_nullifier_cpi_payload-layout_example :
    (length (payload_of (build_nullifier_cpi_payload validity)) ≡ 134)
    × ((root : ℕ) × (◌≡◌ {A = Option ℕ} (some 5) (some root))
        × (value (take 2 (drop 131 (payload_of (build_nullifier_cpi_payload validity)))) ≡ root))
    × ((id : Bytes)
        → length id ≡ 32
        → build_create_nullifier_data id validity
          ≡ ok (discriminator ++ payload_of (build_nullifier_cpi_payload validity) ++ id))
build_nullifier_cpi_payload-layout_example =
    build_nullifier_cpi_payload-layout validity (payload_of (build_nullifier_cpi_payload validity))
      encodes

abbrev answer : PhotonAnswer
answer = record { compressed_proof = none; root_indices = [] }

-- One failure, then an answer.
abbrev photon : ℕ → Attempt
photon zero = threw []
photon (suc k) = answered answer

fetch_rounds-ok_iff_example :
    (((fetch_rounds photon max_attempts 0 []).1 ≡ ok answer)
      ↔ ((k : ℕ) × (k < max_attempts) × FirstAnswer photon 0 k answer))
    × (total (fetch_rounds photon max_attempts 0 []).0 ≤ 20000)
fetch_rounds-ok_iff_example = fetch_rounds-ok_iff photon [] answer
