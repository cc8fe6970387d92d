-- ===== src/Tests/Programs.antt =====
-- packages/sdk/src/programs and commit-inputs.ts at concrete inputs.
use b402_solana.Common.{Option, none, nibble, ◌≡◌, refl, ◌∷◌, ◌++◌, replicate, emit, ok}
use b402_solana.Common.{Bytes, some, any, true, ◌==◌, read_down}
use b402_solana.Programs.TreeState.{TreeStateView, decode_tree_state}
use b402_solana.Common.{
  ℕ, Text, Result, [], ◌≢◌, ◌^◌, ◌+◌, get_or, arith, hex_pairs, bytes_to_hex, nibble,
}
use b402_solana.Merkle.{MerkleProof}
use b402_solana.Programs.Indexer.{le_to_number, root_in_view}
use b402_solana.Programs.Indexer.Client.{
  parse_pair, parse_pairs, IndexerProofResponse, prove_leaf, assert_root, hex_to_bigint,
  hexes_to_bigints, bigint_to_le_hex32,
}
use b402_solana.Programs.Indexer.Proofs.{prove_leaf-OnChain}
use b402_solana.Programs.Indexer.Hexes.{bigint_to_le_hex32-zeroed}

-- A tree account whose first root, the current one, is 7.
abbrev account : Bytes
account = replicate 32 0 ++ (7 ∷ replicate 31 0)

-- The answer for leaf 3.
abbrev seven : Text
seven = bytes_to_hex (emit 32 7)

abbrev answer : IndexerProofResponse
answer = record {
  leaf_index = some 3;
  leaf = seven;
  siblings = seven ∷ [];
  path_bits = 0 ∷ [];
  root = seven;
}

abbrev no_number : ℕ → ℕ → Option ℕ
no_number c d = none

abbrev digits_only : ℕ → ℕ → ℕ
digits_only c d = 0

abbrev path : MerkleProof
path = record { leaf = 7; leaf_index = 3; siblings = 7 ∷ []; path_bits = 0 ∷ []; root = 7 }

proved : prove_leaf no_number (λ i. ok answer) (some account) true 3 ≡ ok path
unfolding prove_leaf assert_root root_in_view decode_tree_state le_to_number read_down hex_to_bigint
    parse_pair parse_pairs hexes_to_bigints bytes_to_hex nibble emit
proved = refl

prove_leaf-OnChain_example :
    (r : IndexerProofResponse) × (data_bytes : Bytes) × (view : TreeStateView) × (◌≡◌
      {A = Result Text IndexerProofResponse}
      (ok answer)
      (ok r))
    × (r.leaf_index ≡ some 3)
    × (◌≡◌ {A = ℕ} 3 3)
    × (hex_to_bigint no_number r.leaf ≡ ok 7)
    × (hexes_to_bigints no_number r.siblings ≡ ok (7 ∷ []))
    × (hex_to_bigint no_number r.root ≡ ok 7)
    × (some account ≡ some data_bytes)
    × (decode_tree_state data_bytes ≡ ok view)
    × (any (λ old. le_to_number old == 7) view.root_ring ≡ true)
prove_leaf-OnChain_example =
    prove_leaf-OnChain no_number (λ i. ok answer) (some account) 3 path proved

-- A nullifier of 254 binary digits, with the low byte 5.
bigint_to_le_hex32-zeroed_example :
    (get_or (hex_pairs digits_only (bigint_to_le_hex32 (2 ^ 253 + 5))) 0 0 ≡ 0)
    × (bigint_to_le_hex32 (2 ^ 253 + 5) ≢ bytes_to_hex (emit 32 (2 ^ 253 + 5)))
bigint_to_le_hex32-zeroed_example =
    bigint_to_le_hex32-zeroed digits_only (2 ^ 253 + 5) 0 (omega arith) (omega arith) (omega arith)
