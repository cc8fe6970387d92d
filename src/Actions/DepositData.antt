-- ===== src/Actions/DepositData.antt =====
-- The data of the instruction that `shield` of packages/sdk/src/actions/shield.ts builds, part by
-- part.
use b402_solana.Common.{
  ℕ, ℤ, pos, negsuc, false, ◌<◌, ◌^◌, ◌≡◌, refl, sym, ap, ◌∙◌, arith, inl, inr, Bool-cases, List,
  [], ◌∷◌, ◌++◌, Bytes, Text, codes, emit, ok, ok_eq, >>=-eq-ok, ◌==◌, leb,
}
use b402_solana.Programs.Anchor.{concat-join, join, join-append, instruction_discriminator, vec_u8}
use b402_solana.Notes.Encryption.{EncryptedNote}
use b402_solana.Prover.{Proof}
use b402_solana.Actions.Wire.{PublicInputs, amount_le, encode_public_inputs, encode_encrypted_notes}
use b402_solana.Actions.Shield.{lift, input, bad_wire, in_u64, shield_ix_data}
use b402_solana.Actions.Layout.{head_parts, lift-ok, amount_le-ok}

pub in_u64-ok : (v : ℤ) (n : ℕ) → in_u64 v ≡ ok n → (v ≡ pos n) × (0 < n) × (n < 2 ^ 64)
unfolding in_u64
in_u64-ok (negsuc k) n e = cc e
in_u64-ok (pos k) n e = elim (Bool-cases (k == 0)) [
  | inl nothing ↦ cc (rw (nothing, in_u64) at e)
  | inr more ↦ elim (Bool-cases (leb (2 ^ 64) k)) [
    | inl big ↦ cc (rw (more, big, in_u64) at e)
    | inr fits ↦
        let same : k ≡ n = ok_eq (rw (more, fits, in_u64) at e) in
        (ap pos same, positive k n more same, below k n fits same)
  ]
]
  where
    positive : (k n : ℕ) → (k == 0) ≡ false → k ≡ n → 0 < n
    positive k n h e = ground arith

    below : (k n : ℕ) → leb (2 ^ 64) k ≡ false → k ≡ n → n < 2 ^ 64
    below k n h e = ground arith

abbrev input_parts : PublicInputs → Bytes → Bytes → Bytes → List Bytes
input_parts p paid_in paid_out fee =
    p.merkle_root ∷ p.nullifier_0 ∷ p.nullifier_1 ∷ p.commitment_out_0 ∷ p.commitment_out_1
    ∷ paid_in ∷ paid_out ∷ p.public_token_mint ∷ fee ∷ p.relayer_fee_bind ∷ p.root_bind
    ∷ p.recipient_bind ∷ []

-- The encoded public inputs are their parts, one behind the other.
encode_public_inputs-join :
    (p : PublicInputs) (b : Bytes) (paid_in paid_out fee : ℕ)
    → p.public_amount_in ≡ pos paid_in
    → p.public_amount_out ≡ pos paid_out
    → p.relayer_fee ≡ pos fee
    → encode_public_inputs p ≡ ok b
    → b ≡ join (input_parts p (emit 8 paid_in) (emit 8 paid_out) (emit 8 fee))
unfolding encode_public_inputs
encode_public_inputs-join p b paid_in paid_out fee i o f e =
    let (x, x_ok, e1) = >>=-eq-ok (amount_le p.public_amount_in) _ e in
    let (y, y_ok, e2) = >>=-eq-ok (amount_le p.public_amount_out) _ e1 in
    let (z, z_ok, e3) = >>=-eq-ok (amount_le p.relayer_fee) _ e2 in
    let x_is = amount_le-ok paid_in x (ap amount_le (sym i) ∙ x_ok) in
    let y_is = amount_le-ok paid_out y (ap amount_le (sym o) ∙ y_ok) in
    let z_is = amount_le-ok fee z (ap amount_le (sym f) ∙ z_ok) in
    sym (ok_eq e3)
    ∙ concat-join (input_parts p x y z)
    ∙ ap (λ (a : Bytes). join (input_parts p a y z)) x_is
    ∙ ap (λ (a : Bytes). join (input_parts p (emit 8 paid_in) a z)) y_is
    ∙ ap (λ (a : Bytes). join (input_parts p (emit 8 paid_in) (emit 8 paid_out) a)) z_is

-- The parts of the public inputs of a deposit.
abbrev inputs_of : Proof → Bytes → ℕ → List Bytes
inputs_of proof mint amount =
    input proof 0
    ∷ input proof 1
    ∷ input proof 2
    ∷ input proof 3
    ∷ input proof 4
    ∷ emit 8 amount
    ∷ emit 8 0
    ∷ mint
    ∷ emit 8 0
    ∷ input proof 9
    ∷ input proof 10
    ∷ input proof 11
    ∷ []

module _ (raw : List ℕ → ℕ) (sha256 : Bytes → Bytes) (utf8 : Text → Bytes)
    (find : List Bytes → Bytes → Bytes) where
  pub shield_ix_data-head :
      (proof : Proof) (mint : Bytes) (amount : ℕ) (notes : List EncryptedNote) (wire : Bytes)
      → shield_ix_data raw sha256 utf8 find proof mint amount notes ≡ ok wire
      → (rest : List Bytes) × (wire
          ≡ join (
              head_parts
                (instruction_discriminator sha256 utf8 (codes "shield"))
                (vec_u8 proof.proof_bytes)
                (input proof 0)
                (input proof 1)
                (input proof 2)
                (input proof 3)
                (input proof 4)
                (emit 8 amount)
                (emit 8 0)
                mint
                (emit 8 0)
                rest))
  unfolding shield_ix_data
  shield_ix_data-head proof mint amount notes wire e =
      let (inputs, encoded, e1) = >>=-eq-ok (lift bad_wire (encode_public_inputs _)) _ e in
      let (sealed, _, e2) = >>=-eq-ok (lift bad_wire (encode_encrypted_notes notes)) _ e1 in
      let parts =
        encode_public_inputs-join _ inputs amount 0 0 refl refl refl
          (lift-ok bad_wire (encode_public_inputs _) encoded) in
      let disc : Bytes = instruction_discriminator sha256 utf8 (codes "shield") in
      let sealed_rest : List Bytes = sealed ∷ (2 ∷ []) ∷ [] in
      (
        input proof 9 ∷ input proof 10 ∷ input proof 11 ∷ sealed_rest,
        sym (ok_eq e2)
            ∙ concat-join (disc ∷ vec_u8 proof.proof_bytes ∷ inputs ∷ sealed_rest)
            ∙ ap (λ (z : Bytes). join (disc ∷ vec_u8 proof.proof_bytes ∷ z ∷ sealed_rest)) parts
            ∙ ap (λ (z : Bytes). disc ++ (vec_u8 proof.proof_bytes ++ z))
                (sym (join-append (inputs_of proof mint amount) sealed_rest)),
      )
