-- ===== src/Prover.antt =====
-- packages/prover/src: the bytes of a proof and of its public inputs (g1g2.ts), and `prove` of
-- index.ts and adapt.ts. snarkjs and its curve are outside: `full_prove` gives the proof's three points
-- and the public signals, `affine_1` and `affine_2` the affine coordinates of a point, out of
-- Montgomery form. A coordinate and a signal are field elements, so they have 64 hexadecimal digits.
pub mod Codec
use b402_solana.Common.{
  ℕ, zero, suc, ◌+◌, ◌-◌, ◌*◌, ◌/◌, ◌%◌, not, List, [], ◌∷◌, ◌++◌, map, length, get_or, Bytes,
  Result, ok, err, ◌>>=◌, if◌then◌else◌, ◌==◌,
}

abbrev pub bn254_p : ℕ
bn254_p = 21888242871839275222246405745257275088696311157297823662689037894645226208583

-- The digits of `v.toString(16).padStart(n, '0')` of a number of `n` hexadecimal digits at most.
unfoldable pub hex_digits : ℕ → ℕ → List ℕ
hex_digits zero v = []
hex_digits (suc n) v = hex_digits n (v / 16) ++ v % 16 ∷ []

-- `parseInt(hex.slice(i * 2, i * 2 + 2), 16)` for each `i`.
unfoldable pub pairs : List ℕ → Bytes
pairs [] = []
pairs (h ∷ []) = h ∷ []
pairs (h ∷ l ∷ digits) = (16 * h + l) ∷ pairs digits

unfoldable pub be_bytes_32 : ℕ → Bytes
unfolding hex_digits pairs
be_bytes_32 v = pairs (hex_digits 64 v)

-- `for (i = 0; i < n; i++) le[i] = be[n - 1 - i]`
unfoldable pub flip : ℕ → Bytes → Bytes
flip zero be = []
flip (suc i) be = get_or be i 0 ∷ flip i be

unfoldable pub g1_to_bytes_64 : ℕ × ℕ → Bytes
g1_to_bytes_64 (x, y) = be_bytes_32 x ++ be_bytes_32 y

unfoldable pub negated : ℕ → ℕ
negated y = (bn254_p - y) % bn254_p

unfoldable pub g1_to_bytes_64_proof_a : ℕ × ℕ → Bytes
unfolding negated
g1_to_bytes_64_proof_a (x, y) = be_bytes_32 x ++ be_bytes_32 (negated y)

-- The coordinates are pairs themselves.
unfoldable pub g2_to_bytes_128 : (ℕ × ℕ) × (ℕ × ℕ) → Bytes
g2_to_bytes_128 ((x0, x1), (y0, y1)) =
    be_bytes_32 x1 ++ be_bytes_32 x0 ++ be_bytes_32 y1 ++ be_bytes_32 y0

pub record Proof : Type 0 where
  pub proof_bytes : Bytes
  pub public_inputs_le : List Bytes
  pub public_signals : List ℕ

pub record SnarkProof {ℓ κ} (G1 : Type ℓ) (G2 : Type κ) : Type (ℓ ⊔ κ) where
  pub pi_a : G1
  pub pi_b : G2
  pub pi_c : G1

pub data ProveError {ℓ} (E : Type ℓ) : Type ℓ where
  not_proved : E → ProveError E
  signal_count_mismatch : ℕ → ProveError E

unfoldable pub public_inputs_le_of : List ℕ → List Bytes
unfolding be_bytes_32 flip
public_inputs_le_of = map (λ signal. flip 32 (be_bytes_32 signal))

abbrev pub transact_public_input_count : ℕ
transact_public_input_count = 18

abbrev pub adapt_public_input_count : ℕ
adapt_public_input_count = 24

module _ {E W G1 G2 : Type 0} (full_prove : W → Result E (SnarkProof G1 G2 × List ℕ))
    (affine_1 : G1 → ℕ × ℕ) (affine_2 : G2 → (ℕ × ℕ) × (ℕ × ℕ)) where
  unfoldable pub prove_with : ℕ → W → Result (ProveError E) Proof
  unfolding public_inputs_le_of
  prove_with count w = elim (full_prove w) [
    | err e ↦ err (not_proved e)
    | ok (proof, signals) ↦
        if not (length signals == count)
        then err (signal_count_mismatch (length signals))
        else ok (record {
          proof_bytes =
              g1_to_bytes_64_proof_a (affine_1 proof.pi_a)
              ++ g2_to_bytes_128 (affine_2 proof.pi_b)
              ++ g1_to_bytes_64 (affine_1 proof.pi_c);
          public_inputs_le = public_inputs_le_of signals;
          public_signals = signals;
        })
  ]

  -- `prove` of TransactProver.
  unfoldable pub transact_prove : W → Result (ProveError E) Proof
  unfolding prove_with
  transact_prove = prove_with transact_public_input_count

  -- `prove` of AdaptProver.
  unfoldable pub adapt_prove : W → Result (ProveError E) Proof
  unfolding prove_with
  adapt_prove = prove_with adapt_public_input_count
