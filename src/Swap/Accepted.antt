-- ===== src/Swap/Accepted.antt =====
-- The witness of the swap against the circuit, and what the circuit gives.
use b402_solana.Common.{
  ℕ, ◌+◌, ◌-◌, ◌*◌, ◌%◌, ◌^◌, ◌≤◌, ◌<◌, ◌≡◌, inl, refl, ap, arith, List, length, length-take, take,
  get_or, ok,
}
use b402_solana.Protocol.Encoding.{fr_modulus, tag_value, domain_tags}
use b402_solana.Protocol.Encoding.Tags.{domain_tag_fr}
use b402_solana.Protocol.Poseidon.{commitment_hash, fee_bind_hash, poseidon_tagged, spending_pub}
use b402_solana.Merkle.{MerkleProof, ClientMerkleTree, prove}
use b402_solana.Merkle.Paths.{proof_of}
use b402_solana.Merkle.Append.Invariant.{IsTree}
use b402_solana.Wallet.{Wallet}
use b402_solana.Notes.Store.{SpendableNote}
use b402_solana.Actions.Slots.{dummy-Spends, dummy-Creates, prove-Spends, weighted-bound}
use b402_solana.Swap.Witness.{AdaptWitness, Terms, swap_witness, out_commitment}
use b402_solana.Swap.Circuit.{Adapt}

-- A note that the tree holds, of the wallet's own keys and of the input's mint: the witness of its
-- swap, made with the path that the tree gives and any zero cache of 26 entries at least, satisfies
-- the circuit where the swapped amount is the note's value and both amounts are below 2^64.
pub swap_witness-Adapt :
    (raw : List ℕ → ℕ) (wallet : Wallet) (n : SpendableNote) (t : ClientMerkleTree)
    (zero_cache : List ℕ) (terms : Terms)
    → IsTree raw t
    → t.depth ≡ 26
    → n.leaf_index < t.leaf_count
    → get_or t.leaves n.leaf_index 0
      ≡ commitment_hash raw terms.in_mint_fr n.note.value n.note.random
          (spending_pub raw wallet.spending_priv)
    → n.note.value ≡ terms.amount
    → terms.amount < 2 ^ 64
    → terms.expected_out < 2 ^ 64
    → 26 ≤ length zero_cache
    → (proof : MerkleProof) × (prove raw t n.leaf_index ≡ ok proof)
      × Adapt raw 26 (swap_witness raw wallet n proof zero_cache terms)
unfolding swap_witness out_commitment commitment_hash fee_bind_hash poseidon_tagged domain_tag_fr
    tag_value domain_tags
swap_witness-Adapt raw wallet n t zero_cache terms tree deep stored leaf whole small fits cached =
    let (proved, spends) =
      prove-Spends raw t terms.in_mint_fr n.note.value n.note.random wallet.spending_priv
        n.leaf_index tree deep stored leaf (omega (arith, whole, small)) in
    (
      proof_of raw t n.leaf_index,
      proved,
      record {
        spends_0 = spends;
        spends_1 =
            dummy-Spends raw _ (take 26 zero_cache)
              (omega (arith, length-take 26 zero_cache, cached));
        creates_0 = record {
          in_range = fits;
          selector = inl refl;
          committed = omega arith;
          same_mint = refl;
        };
        creates_1 = dummy-Creates raw _ _;
        amounts = (small, omega arith, omega arith, fits);
        no_withdrawal = refl;
        paid_in = ap (λ (v : ℕ). v % fr_modulus) (spent n.note.value terms.amount whole);
        delivered = ap (λ (v : ℕ). v % fr_modulus) (created terms.expected_out);
        fee_bound = refl;
        halves = (omega arith, omega arith);
        recipient_bound = refl;
        action_bound = refl;
        alias = refl;
      },
    )
  where
    spent : (v a : ℕ) → v ≡ a → 1 * v + 0 ≡ a + 0
    spent v a e = omega (arith, e)

    created : (v : ℕ) → 1 * v + 0 ≡ v
    created v = omega arith

-- What a satisfied circuit moves: the amounts of the spent notes are together the amount paid to the
-- adapter and the fee, those of the created notes are together the expected output, as numbers and not
-- only modulo the field's modulus, and nothing is withdrawn.
pub Adapt-conserves :
    (raw : List ℕ → ℕ) (depth : ℕ) (w : AdaptWitness)
    → Adapt raw depth w
    → ((1 - w.in_is_dummy.0) * w.in_value.0 + (1 - w.in_is_dummy.1) * w.in_value.1
        ≡ w.public_amount_in + w.relayer_fee)
      × ((1 - w.out_is_dummy.0) * w.out_value.0 + (1 - w.out_is_dummy.1) * w.out_value.1
          ≡ w.expected_out_value)
      × (w.public_amount_out ≡ 0)
Adapt-conserves raw depth w h =
    let a0 = weighted-bound w.in_is_dummy.0 w.in_value.0 h.spends_0.in_range in
    let a1 = weighted-bound w.in_is_dummy.1 w.in_value.1 h.spends_1.in_range in
    let b0 = weighted-bound w.out_is_dummy.0 w.out_value.0 h.creates_0.in_range in
    let b1 = weighted-bound w.out_is_dummy.1 w.out_value.1 h.creates_1.in_range in
    let (i, o, f, e) = h.amounts in
    (omega (arith, h.paid_in, a0, a1, i, f), omega (arith, h.delivered, b0, b1, e), h.no_withdrawal)
