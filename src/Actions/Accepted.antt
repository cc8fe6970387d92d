-- ===== src/Actions/Accepted.antt =====
-- The witnesses of the deposit and the withdrawal against the circuit, and what the circuit gives.
use b402_solana.Common.{
  ℕ, zero, suc, ◌+◌, ◌-◌, ◌*◌, ◌%◌, ◌^◌, ◌≤◌, ◌<◌, ◌≡◌, ◌⊎◌, inl, inr, refl, ap, arith, List,
  length, length-take, take, get_or, ok,
}
use native.Mathlib.Nat.{mul-le-mul}
use b402_solana.Protocol.Encoding.{fr_modulus}
use b402_solana.Protocol.Poseidon.{
  commitment_hash, nullifier_hash, fee_bind_hash, poseidon_tagged, spending_pub,
}
use b402_solana.Merkle.{MerkleProof, ClientMerkleTree, build_zero_cache, prove}
use b402_solana.Merkle.ZeroCache.{build_zero_cache-IsCache}
use b402_solana.Merkle.Paths.{proof_of}
use b402_solana.Merkle.Append.Invariant.{IsTree}
use b402_solana.Wallet.{Wallet}
use b402_solana.Notes.Store.{SpendableNote}
use b402_solana.Actions.Witness.{TransactWitness, shield_witness, unshield_witness}
use b402_solana.Actions.Circuit.{Transact}
use b402_solana.Actions.Slots.{dummy-Spends, dummy-Creates, prove-Spends, weighted-bound}

module _ (raw : List ℕ → ℕ) where
  -- The witness of a deposit of an amount below 2^64 satisfies the circuit.
  pub shield_witness-Transact :
      (wallet : Wallet) (merkle_root token_mint amount random : ℕ)
      → amount < 2 ^ 64
      → Transact raw 26 (shield_witness raw wallet merkle_root token_mint amount random)
  unfolding shield_witness commitment_hash fee_bind_hash poseidon_tagged
  shield_witness-Transact wallet merkle_root token_mint amount random small =
      let cache : List ℕ = build_zero_cache raw 26 in
      let size : length (take 26 cache) ≡ 26 =
        omega (arith, length-take 26 cache, (build_zero_cache-IsCache raw 26).0) in
      record {
        spends_0 = dummy-Spends raw _ (take 26 cache) size;
        spends_1 = dummy-Spends raw _ (take 26 cache) size;
        creates_0 = record {
          in_range = small;
          selector = inl refl;
          committed = omega arith;
          same_mint = refl;
        };
        creates_1 = dummy-Creates raw _ _;
        amounts = (small, omega arith, omega arith);
        balanced = ap (λ (n : ℕ). n % fr_modulus) (balance amount);
        exclusive = omega arith;
        fee_bound = refl;
        halves = (omega arith, omega arith);
        recipient_bound = refl;
      }
    where
      balance : (n : ℕ) → 0 + n ≡ 1 * n + 0 + 0 + 0
      balance n = omega arith

  -- A note that the tree holds, of the wallet's own keys and of an amount below 2^64: the witness of
  -- its withdrawal, made with the path that the tree gives and any other zero cache of 26 entries at
  -- least, satisfies the circuit for the tree's root, the note's mint and two halves of 128 bits.
  pub unshield_witness-Transact :
      (wallet : Wallet) (n : SpendableNote) (t : ClientMerkleTree) (zero_cache : List ℕ)
      (low high : ℕ)
      → IsTree raw t
      → t.depth ≡ 26
      → n.leaf_index < t.leaf_count
      → get_or t.leaves n.leaf_index 0
        ≡ commitment_hash raw n.note.token_mint n.note.value n.note.random
            (spending_pub raw wallet.spending_priv)
      → n.note.value < 2 ^ 64
      → 26 ≤ length zero_cache
      → low < 2 ^ 128
      → high < 2 ^ 128
      → (proof : MerkleProof) × (prove raw t n.leaf_index ≡ ok proof)
        × Transact raw 26
            (unshield_witness raw wallet n proof zero_cache t.root n.note.token_mint low high)
  unfolding unshield_witness commitment_hash nullifier_hash fee_bind_hash poseidon_tagged
      spending_pub
  unshield_witness-Transact wallet n t zero_cache low high tree deep stored leaf small cached l h =
      let (proved, spends) =
        prove-Spends raw t n.note.token_mint n.note.value n.note.random wallet.spending_priv
          n.leaf_index tree deep stored leaf small in
      (
        proof_of raw t n.leaf_index,
        proved,
        record {
          spends_0 = spends;
          spends_1 =
              dummy-Spends raw _ (take 26 zero_cache) (omega (arith, length-take 26 zero_cache));
          creates_0 = dummy-Creates raw _ _;
          creates_1 = dummy-Creates raw _ _;
          amounts = (omega arith, small, omega arith);
          balanced = ap (λ (n : ℕ). n % fr_modulus) (balance n.note.value);
          exclusive = omega arith;
          fee_bound = refl;
          halves = (l, h);
          recipient_bound = refl;
        },
      )
    where
      balance : (n : ℕ) → 1 * n + 0 + 0 ≡ 0 + n + 0
      balance n = omega arith

-- What a satisfied circuit moves: the amounts of the spent notes and the amount paid in are together
-- those of the created notes, the amount paid out and the fee, as numbers and not only modulo the
-- field's modulus, and one of the two public amounts is zero.
pub Transact-conserves :
    (raw : List ℕ → ℕ) (depth : ℕ) (w : TransactWitness)
    → Transact raw depth w
    → ((1 - w.in_is_dummy.0) * w.in_value.0
          + (1 - w.in_is_dummy.1) * w.in_value.1
          + w.public_amount_in
        ≡ (1 - w.out_is_dummy.0) * w.out_value.0
          + (1 - w.out_is_dummy.1) * w.out_value.1
          + w.public_amount_out
          + w.relayer_fee)
      × ((w.public_amount_in ≡ 0) ⊎ (w.public_amount_out ≡ 0))
Transact-conserves raw depth w h =
    let a0 = weighted-bound w.in_is_dummy.0 w.in_value.0 h.spends_0.in_range in
    let a1 = weighted-bound w.in_is_dummy.1 w.in_value.1 h.spends_1.in_range in
    let b0 = weighted-bound w.out_is_dummy.0 w.out_value.0 h.creates_0.in_range in
    let b1 = weighted-bound w.out_is_dummy.1 w.out_value.1 h.creates_1.in_range in
    let (i, o, f) = h.amounts in
    (
      omega (arith, h.balanced, a0, a1, b0, b1, i, o, f),
      either w.public_amount_in w.public_amount_out i o h.exclusive,
    )
  where
    small : (n : ℕ) → 0 < n → n ≤ 2 ^ 128 → n % fr_modulus ≡ 0 → ⊥
    small n p q e = omega (arith, p, q, e)

    either : (a b : ℕ) → a < 2 ^ 64 → b < 2 ^ 64 → a * b % fr_modulus ≡ 0 → (a ≡ 0) ⊎ (b ≡ 0)
    either zero b p q e = inl refl
    either (suc a) zero p q e = inr refl
    either (suc a) (suc b) p q e =
        let some_a : 1 ≤ suc a = omega arith in
        let some_b : 1 ≤ suc b = omega arith in
        let low : 1 * 1 ≤ suc a * suc b = mul-le-mul some_a some_b in
        let high_a : suc a ≤ 2 ^ 64 = omega arith in
        let high_b : suc b ≤ 2 ^ 64 = omega arith in
        let high : suc a * suc b ≤ 2 ^ 64 * 2 ^ 64 = mul-le-mul high_a high_b in
        absurd (small (suc a * suc b) (omega (arith, low)) (omega (arith, high)) e)
