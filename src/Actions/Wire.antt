-- ===== src/Actions/Wire.antt =====
-- The instruction bytes that packages/sdk/src/actions writes: `encodePublicInputs` and
-- `encodeEncryptedNotes` of shield.ts.
use b402_solana.Common.{
  ℤ, not, List, [], ◌∷◌, length, Bytes, Result, ok, err, ◌>>=◌, ◌>>◌, throw_if, ◌==◌,
}
use b402_solana.Programs.Anchor.{u64_le, u32_le, concat}
use b402_solana.Notes.Encryption.{EncryptedNote}

pub data WireError : Type 0 where
  amount_out_of_range bad_ciphertext bad_ephemeral_pub bad_viewing_tag : WireError

pub record PublicInputs : Type 0 where
  pub merkle_root : Bytes
  pub nullifier_0 : Bytes
  pub nullifier_1 : Bytes
  pub commitment_out_0 : Bytes
  pub commitment_out_1 : Bytes
  pub public_amount_in : ℤ
  pub public_amount_out : ℤ
  pub public_token_mint : Bytes
  pub relayer_fee : ℤ
  pub relayer_fee_bind : Bytes
  pub root_bind : Bytes
  pub recipient_bind : Bytes

unfoldable pub amount_le : ℤ → Result WireError Bytes
amount_le v = elim (u64_le v) [ ok b ↦ ok b | err e ↦ err amount_out_of_range ]

unfoldable pub encode_public_inputs : PublicInputs → Result WireError Bytes
encode_public_inputs p = do
  amount_in ← amount_le p.public_amount_in
  amount_out ← amount_le p.public_amount_out
  fee ← amount_le p.relayer_fee
  ok (
      concat (
        p.merkle_root ∷ p.nullifier_0 ∷ p.nullifier_1 ∷ p.commitment_out_0 ∷ p.commitment_out_1
        ∷ amount_in ∷ amount_out ∷ p.public_token_mint ∷ fee ∷ p.relayer_fee_bind ∷ p.root_bind
        ∷ p.recipient_bind ∷ []))

-- The loop over the notes: what it pushes.
unfoldable pub note_parts : List EncryptedNote → Result WireError (List Bytes)
note_parts [] = ok []
note_parts (n ∷ notes) = do
  throw_if (not (length n.ciphertext == 89)) bad_ciphertext
  throw_if (not (length n.ephemeral_pub == 32)) bad_ephemeral_pub
  throw_if (not (length n.viewing_tag == 2)) bad_viewing_tag
  rest ← note_parts notes
  ok (n.ciphertext ∷ n.ephemeral_pub ∷ n.viewing_tag ∷ rest)

unfoldable pub encode_encrypted_notes : List EncryptedNote → Result WireError Bytes
unfolding note_parts
encode_encrypted_notes notes = do
  parts ← note_parts notes
  ok (concat (u32_le (length notes) ∷ parts))
