-- ===== src/Actions/Layout.antt =====
-- The positions of the public inputs in the data of the pool's instructions, which the builders of
-- packages/sdk/src/actions and the relayer's fee check share.
use b402_solana.Common.{
  ℕ, ok_eq, Result, ok, err, Bool-cases, inl, inr, leb, pos, subst, map, ◌++◌, length-take, Text,
  codes, ◌≤◌, ◌≡◌, refl, sym, ap, ◌∙◌, arith, List, [], ◌∷◌, length, take, drop, get_or, Bytes,
  emit, length-emit, some, le→ltb, read_up, read_up-part, length-append, ◌<◌, ◌^◌,
}
use b402_solana.Programs.Anchor.{
  u64_le, join, total_length, join-part, length-join, instruction_discriminator, vec_u8,
  vec_u8-join, u32_le,
}
use Prim.Native.String.{String}
use b402_solana.Prover.{Proof}
use b402_solana.Actions.Witness.{TransactWitness}
use b402_solana.Actions.Circuit.{public_signals}
use b402_solana.Actions.Shield.{ActionError, lift, input}
use b402_solana.Actions.Wire.{amount_le}
use b402_solana.Relayer.Validate.{extract_relayer_fee, read_u64_le}

pub lift-ok :
    {E A : Type 0} (wrap : E → ActionError) (r : Result E A) {a : A} → lift wrap r ≡ ok a → r ≡ ok a
lift-ok wrap (ok b) e = ap ok (ok_eq e)
lift-ok wrap (err b) e = cc e

pub amount_le-ok : (v : ℕ) (b : Bytes) → amount_le (pos v) ≡ ok b → b ≡ emit 8 v
unfolding amount_le u64_le
amount_le-ok v b e = elim (Bool-cases (leb (2 ^ 64) v)) [
  | inl big ↦ cc (rw (big, amount_le, u64_le) at e)
  | inr fits ↦ sym (ok_eq (rw (fits, amount_le, u64_le) at e))
]

-- The head of an instruction's data: the discriminator, the proof and the public inputs up to the fee.
abbrev pub head_parts :
    Bytes
    → Bytes
    → Bytes
    → Bytes
    → Bytes
    → Bytes
    → Bytes
    → Bytes
    → Bytes
    → Bytes
    → Bytes
    → List Bytes
    → List Bytes
head_parts disc proof root n0 n1 c0 c1 amount_in amount_out mint fee rest =
    disc ∷ proof ∷ root ∷ n0 ∷ n1 ∷ c0 ∷ c1 ∷ amount_in ∷ amount_out ∷ mint ∷ fee ∷ rest

-- Where the fields stand.
pub record Fields (wire root n0 n1 c0 c1 amount_in amount_out mint fee : Bytes) : Type 0 where
  pub root_at : take 32 (drop 268 wire) ≡ root
  pub nullifier_at : take 32 (drop 300 wire) ≡ n0
  pub second_nullifier_at : take 32 (drop 332 wire) ≡ n1
  pub commitment_at : take 32 (drop 364 wire) ≡ c0
  pub second_commitment_at : take 32 (drop 396 wire) ≡ c1
  pub amount_in_at : take 8 (drop 428 wire) ≡ amount_in
  pub amount_out_at : take 8 (drop 436 wire) ≡ amount_out
  pub mint_at : take 32 (drop 444 wire) ≡ mint
  pub fee_at : take 8 (drop 476 wire) ≡ fee
  pub long_enough : 484 ≤ length wire

pub head_parts-Fields :
    (disc proof root n0 n1 c0 c1 amount_in amount_out mint fee : Bytes) (rest : List Bytes)
    → length disc ≡ 8
    → length proof ≡ 260
    → length root ≡ 32
    → length n0 ≡ 32
    → length n1 ≡ 32
    → length c0 ≡ 32
    → length c1 ≡ 32
    → length amount_in ≡ 8
    → length amount_out ≡ 8
    → length mint ≡ 32
    → length fee ≡ 8
    → Fields
        (join (head_parts disc proof root n0 n1 c0 c1 amount_in amount_out mint fee rest))
        root
        n0
        n1
        c0
        c1
        amount_in
        amount_out
        mint
        fee
unfolding total_length
head_parts-Fields disc proof root n0 n1 c0 c1 amount_in amount_out mint fee rest l0 l1 l2 l3 l4 l5
      l6 l7 l8 l9 l10 =
    let parts : List Bytes =
      head_parts disc proof root n0 n1 c0 c1 amount_in amount_out mint fee rest in
    record {
      root_at = join-part parts 2 268 32 (omega (arith, l0, l1)) l2;
      nullifier_at = join-part parts 3 300 32 (omega (arith, l0, l1, l2)) l3;
      second_nullifier_at = join-part parts 4 332 32 (omega (arith, l0, l1, l2, l3)) l4;
      second_commitment_at = join-part parts 6 396 32 (omega (arith, l0, l1, l2, l3, l4, l5)) l6;
      commitment_at = join-part parts 5 364 32 (omega (arith, l0, l1, l2, l3, l4)) l5;
      amount_in_at = join-part parts 7 428 8 (omega (arith, l0, l1, l2, l3, l4, l5, l6)) l7;
      amount_out_at = join-part parts 8 436 8 (omega (arith, l0, l1, l2, l3, l4, l5, l6, l7)) l8;
      mint_at = join-part parts 9 444 32 (omega (arith, l0, l1, l2, l3, l4, l5, l6, l7, l8)) l9;
      fee_at = join-part parts 10 476 8 (omega (arith, l0, l1, l2, l3, l4, l5, l6, l7, l8, l9)) l10;
      long_enough = omega (arith, length-join parts, l0, l1, l2, l3, l4, l5, l6, l7, l8, l9, l10);
    }

zero_fee : read_up 8 0 0 0 (emit 8 0) ≡ 0
unfolding read_up emit
zero_fee = refl

-- A fee of zero, written where the builders write it, is the fee that the relayer reads.
pub extract_relayer_fee-zero :
    (wire : Bytes)
    → take 8 (drop 476 wire) ≡ emit 8 0
    → 484 ≤ length wire
    → extract_relayer_fee wire ≡ some 0
unfolding extract_relayer_fee read_u64_le
extract_relayer_fee-zero wire at long =
    rw (le→ltb (length wire) 484 long) (ap some (read_up-part 8 476 wire (emit 8 0) at ∙ zero_fee))

-- The vector of a proof of 256 bytes.
pub length-vec_u8_proof :
    (proof_bytes : Bytes) → length proof_bytes ≡ 256 → length (vec_u8 proof_bytes) ≡ 260
unfolding u32_le
length-vec_u8_proof proof_bytes n =
    let small : length proof_bytes < 2 ^ 32 = omega (arith, n) in
    omega (
      arith,
      ap (length {0}) (vec_u8-join proof_bytes small).0,
      length-append (u32_le (length proof_bytes)) proof_bytes,
      n,
    )

-- An instruction with a proof of a witness's public signals holds these at the positions.
pub proof-Fields :
    (sha256 : Bytes → Bytes) (utf8 : Text → Bytes)
    → ((m : Bytes) → length (sha256 m) ≡ 32)
    → (name : String) (w : TransactWitness) (proof : Proof)
    → (proof.public_inputs_le ≡ map (emit 32) (public_signals w)) × (length proof.proof_bytes ≡ 256)
    → (paid_in paid_out : ℕ) (mint : Bytes) (rest : List Bytes) (wire : Bytes) → length mint ≡ 32
    → wire
      ≡ join (
          head_parts
            (instruction_discriminator sha256 utf8 (codes name))
            (vec_u8 proof.proof_bytes)
            (input proof 0)
            (input proof 1)
            (input proof 2)
            (input proof 3)
            (input proof 4)
            (emit 8 paid_in)
            (emit 8 paid_out)
            mint
            (emit 8 0)
            rest)
    → Fields wire
        (emit 32 w.merkle_root)
        (emit 32 w.nullifier.0)
        (emit 32 w.nullifier.1)
        (emit 32 w.commitment_out.0)
        (emit 32 w.commitment_out.1)
        (emit 8 paid_in)
        (emit 8 paid_out)
        mint
        (emit 8 0)
unfolding public_signals instruction_discriminator
proof-Fields sha256 utf8 digest name w proof (signals, size) paid_in paid_out mint rest wire m
      made =
    let disc : Bytes = instruction_discriminator sha256 utf8 (codes name) in
    let at : (i : ℕ) → input proof i ≡ get_or (map (emit 32) (public_signals w)) i [] =
      λ i. ap (λ (xs : List Bytes). get_or xs i []) signals in
    let s0 : input proof 0 ≡ emit 32 w.merkle_root = at 0 in
    let s1 : input proof 1 ≡ emit 32 w.nullifier.0 = at 1 in
    let s2 : input proof 2 ≡ emit 32 w.nullifier.1 = at 2 in
    let s3 : input proof 3 ≡ emit 32 w.commitment_out.0 = at 3 in
    let s4 : input proof 4 ≡ emit 32 w.commitment_out.1 = at 4 in
    let named : head_parts disc (vec_u8 proof.proof_bytes) (input proof 0) (input proof 1)
          (input proof 2) (input proof 3) (input proof 4) (emit 8 paid_in) (emit 8 paid_out) mint
          (emit 8 0) rest
        ≡ head_parts disc (vec_u8 proof.proof_bytes) (emit 32 w.merkle_root) (emit 32 w.nullifier.0)
            (emit 32 w.nullifier.1) (emit 32 w.commitment_out.0) (emit 32 w.commitment_out.1)
            (emit 8 paid_in) (emit 8 paid_out) mint (emit 8 0) rest =
      rw (s0, s1, s2, s3, s4) refl in
    let eight : length disc ≡ 8 = omega (
      arith,
      length-take 8 (sha256 (utf8 (codes "global:" ++ codes name))),
      digest (utf8 (codes "global:" ++ codes name)),
    ) in
    subst
      (λ (z : Bytes).
        Fields z (emit 32 w.merkle_root) (emit 32 w.nullifier.0) (emit 32 w.nullifier.1)
          (emit 32 w.commitment_out.0) (emit 32 w.commitment_out.1) (emit 8 paid_in)
          (emit 8 paid_out) mint (emit 8 0))
      (sym (made ∙ ap join named))
      (head_parts-Fields disc (vec_u8 proof.proof_bytes) _ _ _ _ _ _ _ mint _ rest eight
        (length-vec_u8_proof proof.proof_bytes size) (length-emit 32 _) (length-emit 32 _)
        (length-emit 32 _) (length-emit 32 _) (length-emit 32 _) (length-emit 8 _) (length-emit 8 _)
        m (length-emit 8 _))
