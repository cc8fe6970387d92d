-- ===== src/Swap/Layout.antt =====
-- The positions of the fields in the data of `adapt_execute`.
use b402_solana.Common.{
  ℕ, ◌≡◌, sym, ap, ◌∙◌, arith, refl, Bool, false, List, [], ◌∷◌, ◌++◌, map, length, take, drop,
  get_or, Bytes, Text, codes, emit, length-emit, ok, ok_eq, >>=-eq-ok, pos,
}
use b402_solana.Programs.Anchor.{
  join, total_length, join-part, concat-join, instruction_discriminator, vec_u8,
}
use b402_solana.Prover.{Proof}
use b402_solana.Actions.Shield.{lift, input, bad_wire}
use b402_solana.Actions.Wire.{amount_le}
use b402_solana.Actions.Layout.{lift-ok, amount_le-ok}
use b402_solana.Swap.Witness.{AdaptWitness}
use b402_solana.Swap.Circuit.{adapt_public_signals}
use b402_solana.Swap.Data.{SwapData, tail_parts, alias_parts, adapt_execute_parts, pool_ix_data}

-- The head of the data, with every field as a part of its own.
abbrev pub swap_parts : Bytes → Bytes → AdaptWitness → ℕ → ℕ → List Bytes → List Bytes
swap_parts disc proof w amount expected rest =
    disc
    ∷ proof
    ∷ emit 32 w.merkle_root
    ∷ emit 32 w.nullifier.0
    ∷ emit 32 w.nullifier.1
    ∷ emit 32 w.commitment_out.0
    ∷ emit 32 w.commitment_out.1
    ∷ emit 8 amount
    ∷ emit 8 0
    ∷ emit 8 0
    ∷ emit 32 w.relayer_fee_bind
    ∷ emit 32 w.root_bind
    ∷ emit 32 w.recipient_bind
    ∷ emit 8 expected
    ∷ rest

pub record SwapFields (wire : Bytes) (w : AdaptWitness) (amount expected : ℕ) : Type 0 where
  pub root_at : take 32 (drop 268 wire) ≡ emit 32 w.merkle_root
  pub nullifier_at : take 32 (drop 300 wire) ≡ emit 32 w.nullifier.0
  pub commitment_at : take 32 (drop 364 wire) ≡ emit 32 w.commitment_out.0
  pub amount_in_at : take 8 (drop 428 wire) ≡ emit 8 amount
  pub amount_out_at : take 8 (drop 436 wire) ≡ emit 8 0
  pub fee_at : take 8 (drop 444 wire) ≡ emit 8 0
  pub fee_bind_at : take 32 (drop 452 wire) ≡ emit 32 w.relayer_fee_bind
  pub recipient_bind_at : take 32 (drop 516 wire) ≡ emit 32 w.recipient_bind
  pub expected_at : take 8 (drop 548 wire) ≡ emit 8 expected

pub swap_parts-SwapFields :
    (disc proof : Bytes) (w : AdaptWitness) (amount expected : ℕ) (rest : List Bytes)
    → length disc ≡ 8
    → length proof ≡ 260
    → SwapFields (join (swap_parts disc proof w amount expected rest)) w amount expected
unfolding total_length
swap_parts-SwapFields disc proof w amount expected rest l0 l1 =
    let parts : List Bytes = swap_parts disc proof w amount expected rest in
    let size : (n v : ℕ) → length (emit n v) ≡ n = length-emit in
    let l2 = size 32 w.merkle_root in
    let l3 = size 32 w.nullifier.0 in
    let l4 = size 32 w.nullifier.1 in
    let l5 = size 32 w.commitment_out.0 in
    let l6 = size 32 w.commitment_out.1 in
    let l7 = size 8 amount in
    let l8 = size 8 0 in
    let l10 = size 32 w.relayer_fee_bind in
    let l11 = size 32 w.root_bind in
    let l12 = size 32 w.recipient_bind in
    let head : total_length (take 7 parts) ≡ 428 = omega (arith, l0, l1, l2, l3, l4, l5, l6) in
    record {
      root_at = join-part parts 2 268 32 (omega (arith, l0, l1)) l2;
      nullifier_at = join-part parts 3 300 32 (omega (arith, l0, l1, l2)) l3;
      commitment_at = join-part parts 5 364 32 (omega (arith, l0, l1, l2, l3, l4)) l5;
      amount_in_at = join-part parts 7 428 8 head l7;
      amount_out_at = join-part parts 8 436 8 (omega (arith, head, l7)) l8;
      fee_at = join-part parts 9 444 8 (omega (arith, head, l7, l8)) l8;
      fee_bind_at = join-part parts 10 452 32 (omega (arith, head, l7, l8)) l10;
      recipient_bind_at = join-part parts 12 516 32 (omega (arith, head, l7, l8, l10, l11)) l12;
      expected_at =
          join-part parts 13 548 8 (omega (arith, head, l7, l8, l10, l11, l12)) (size 8 expected);
    }

-- The parts of a proof of a witness's signals.
input_parts-swap_parts :
    (disc vec : Bytes) (w : AdaptWitness) (proof : Proof) (amount expected : ℕ) (a z x : Bytes)
    (rest : List Bytes)
    → proof.public_inputs_le ≡ map (emit 32) (adapt_public_signals w)
    → a ≡ emit 8 amount
    → z ≡ emit 8 0
    → x ≡ emit 8 expected
    → disc
        ∷ vec
        ∷ input proof 0
        ∷ input proof 1
        ∷ input proof 2
        ∷ input proof 3
        ∷ input proof 4
        ∷ a
        ∷ z
        ∷ z
        ∷ input proof 9
        ∷ input proof 10
        ∷ input proof 11
        ∷ x
        ∷ rest
      ≡ swap_parts disc vec w amount expected rest
unfolding adapt_public_signals
input_parts-swap_parts disc vec w proof amount expected a z x rest signals a_is z_is x_is =
    let at : (i : ℕ) → input proof i ≡ get_or (map (emit 32) (adapt_public_signals w)) i [] =
      λ i. ap (λ (xs : List Bytes). get_or xs i []) signals in
    let s0 : input proof 0 ≡ emit 32 w.merkle_root = at 0 in
    let s1 : input proof 1 ≡ emit 32 w.nullifier.0 = at 1 in
    let s2 : input proof 2 ≡ emit 32 w.nullifier.1 = at 2 in
    let s3 : input proof 3 ≡ emit 32 w.commitment_out.0 = at 3 in
    let s4 : input proof 4 ≡ emit 32 w.commitment_out.1 = at 4 in
    let s9 : input proof 9 ≡ emit 32 w.relayer_fee_bind = at 9 in
    let s10 : input proof 10 ≡ emit 32 w.root_bind = at 10 in
    let s11 : input proof 11 ≡ emit 32 w.recipient_bind = at 11 in
    rw (s0, s1, s2, s3, s4, s9, s10, s11, a_is, z_is, x_is) refl

module _ (sha256 : Bytes → Bytes) (utf8 : Text → Bytes) where
  -- The data of the form with the public inputs is these parts, for a proof of a witness's signals.
  pub pool_ix_data-join :
      (d : SwapData) (phase9 : Bool) (w : AdaptWitness) (proof : Proof) (inlined : List Bytes)
      (wire : Bytes)
      → proof.public_inputs_le ≡ map (emit 32) (adapt_public_signals w)
      → pool_ix_data sha256 utf8 d false phase9 proof inlined ≡ ok wire
      → wire
        ≡ join (
            swap_parts
              (instruction_discriminator sha256 utf8 (codes "adapt_execute"))
              (vec_u8 proof.proof_bytes)
              w
              d.amount
              d.expected_out
              (alias_parts sha256 utf8 phase9 proof ++ tail_parts sha256 utf8 d inlined))
  unfolding pool_ix_data adapt_execute_parts adapt_public_signals
  pool_ix_data-join d phase9 w proof inlined wire signals e =
      let (parts, made, e1) =
        >>=-eq-ok (adapt_execute_parts sha256 utf8 d phase9 proof inlined) _ e in
      let (a, a_ok, e2) = >>=-eq-ok (lift bad_wire (amount_le (pos d.amount))) _ made in
      let (z, z_ok, e3) = >>=-eq-ok (lift bad_wire (amount_le (pos 0))) _ e2 in
      let (x, x_ok, e4) = >>=-eq-ok (lift bad_wire (amount_le (pos d.expected_out))) _ e3 in
      let a_is = amount_le-ok d.amount a (lift-ok bad_wire (amount_le (pos d.amount)) a_ok) in
      let z_is = amount_le-ok 0 z (lift-ok bad_wire (amount_le (pos 0)) z_ok) in
      let x_is =
        amount_le-ok d.expected_out x (lift-ok bad_wire (amount_le (pos d.expected_out)) x_ok) in
      let disc : Bytes = instruction_discriminator sha256 utf8 (codes "adapt_execute") in
      let rest : List Bytes =
        alias_parts sha256 utf8 phase9 proof ++ tail_parts sha256 utf8 d inlined in
      let named : parts
          ≡ swap_parts disc (vec_u8 proof.proof_bytes) w d.amount d.expected_out rest =
        sym (ok_eq e4)
        ∙ input_parts-swap_parts disc (vec_u8 proof.proof_bytes) w proof d.amount d.expected_out a z
            x rest signals a_is z_is x_is in
      sym (ok_eq e1) ∙ concat-join parts ∙ ap join named
