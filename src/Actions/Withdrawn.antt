-- ===== src/Actions/Withdrawn.antt =====
-- What `unshield` of packages/sdk/src/actions/unshield.ts sends.
use b402_solana.Common.{
  ℕ, ◌≡◌, refl, ap, ◌∙◌, subst, List, ◌++◌, map, length, Option, some, Bytes, Text, codes, emit,
  Result, ok, ok_eq, >>=-eq-ok, >>-eq-ok, not, ◌==◌, throw_if,
}
use b402_solana.Protocol.Encoding.{le_to_fr_reduced}
use b402_solana.Protocol.Poseidon.{nullifier_hash}
use b402_solana.Programs.Anchor.{
  concat, concat-join, join, join-append, instruction_discriminator, vec_u8,
}
use b402_solana.Programs.Accounts.{Instruction}
use b402_solana.Programs.Nullifier.{NullifierProof, LightAccounts}
use b402_solana.Prover.{Proof}
use b402_solana.Relayer.Validate.{extract_relayer_fee}
use b402_solana.Actions.Witness.{TransactWitness, unshield_witness, split_owner_halves}
use b402_solana.Actions.Circuit.{public_signals}
use b402_solana.Actions.Shield.{
  lift, input, current_tree, no_path, not_32_bytes, not_proved, wrong_public_input_count,
}
use b402_solana.Actions.Unshield.{
  UnshieldParams, no_source, note_path, validity_of, assembled, inlined_parts, unshield_parts,
  unshield_keys, nullifier_ixs, unshield_prepare,
}
use b402_solana.Actions.Layout.{Fields, head_parts, proof-Fields, extract_relayer_fee-zero, lift-ok}
use b402_solana.Actions.WithdrawData.{Recorded, cleared, recorded, unshield_parts-head}

module _ (raw : List ℕ → ℕ) (sha256 : Bytes → Bytes) (utf8 : Text → Bytes)
    (find : List Bytes → Bytes → Bytes) (sys : LightAccounts) (nullifier_program : Bytes) where
  module _ (account : Option Bytes) (prove_witness : TransactWitness → Result Text Proof)
      (token_program : Bytes) (digest : (m : Bytes) → length (sha256 m) ≡ 32)
      (proves : (w : TransactWitness) (proof : Proof)
        → prove_witness w ≡ ok proof
        → (proof.public_inputs_le ≡ map (emit 32) (public_signals w))
          × (length proof.proof_bytes ≡ 256)) where
    abbrev pub Sent : UnshieldParams → NullifierProof → Instruction × List Instruction × ℕ → Type 0
    Sent p v (ix, siblings, nullifier) =
        (nullifier ≡ nullifier_hash raw p.wallet.spending_priv p.note.leaf_index)
        × ((root : ℕ) × Fields ix.ix_data (emit 32 root) (emit 32 nullifier) (emit 32 0) (emit 32 0)
              (emit 32 0) (emit 8 0) (emit 8 p.note.note.value) p.mint (emit 8 0))
        × (extract_relayer_fee ix.ix_data ≡ some 0)
        × Recorded nullifier_program (emit 32 nullifier) v p.inline_nullifier_cpi ix siblings

    assembled-Sent :
        (p : UnshieldParams) (w : TransactWitness) (proof : Proof) (validity : NullifierProof)
        (out : Instruction × List Instruction × ℕ)
        → length p.mint ≡ 32
        → (w.nullifier.0 ≡ nullifier_hash raw p.wallet.spending_priv p.note.leaf_index)
          × (w.nullifier.1 ≡ 0)
          × (w.commitment_out.0 ≡ 0)
          × (w.commitment_out.1 ≡ 0)
        → prove_witness w ≡ ok proof
        → assembled raw sha256 utf8 find sys nullifier_program p token_program proof validity
            w.nullifier.0
          ≡ ok out
        → Sent p validity out
    unfolding assembled
    assembled-Sent p w proof validity out m (own, alone, empty, no_second) proved e =
        let (inlined, behind, e1) =
          >>=-eq-ok
            (inlined_parts raw sha256 utf8 find sys nullifier_program p.inline_nullifier_cpi
              validity)
            _ e in
        let (parts, built, e2) =
          >>=-eq-ok (unshield_parts raw sha256 utf8 find sys nullifier_program p proof inlined) _
            e1 in
        let (found, ends, e3) =
          >>=-eq-ok
            (nullifier_ixs raw sha256 utf8 find sys nullifier_program p (emit 32 w.nullifier.0)
              validity)
            _ e2 in
        let (pre, laid) =
          unshield_parts-head raw sha256 utf8 find sys nullifier_program p proof inlined parts
            built in
        let wire : Bytes = concat parts in
        let fields : Fields wire (emit 32 w.merkle_root) (emit 32 w.nullifier.0) (emit 32 0)
            (emit 32 0) (emit 32 0) (emit 8 0) (emit 8 p.note.note.value) p.mint (emit 8 0) =
          cleared alone empty no_second (
            proof-Fields sha256 utf8 digest "unshield" w proof (proves w proof proved) 0
              p.note.note.value p.mint (pre ++ inlined) wire m
              (concat-join parts ∙ ap join laid)) in
        let headed : List Bytes =
          head_parts (instruction_discriminator sha256 utf8 (codes "unshield"))
            (vec_u8 proof.proof_bytes) (input proof 0) (input proof 1) (input proof 2)
            (input proof 3) (input proof 4) (emit 8 0) (emit 8 p.note.note.value) p.mint (emit 8 0)
            pre in
        let built_ix : Instruction = record {
          program_id = p.pool_program_id;
          account_keys =
              unshield_keys raw sha256 utf8 find sys nullifier_program p token_program validity;
          ix_data = wire;
        } in
        let sent : Sent p validity (built_ix, found, w.nullifier.0) = (
          own,
          (w.merkle_root, fields),
          extract_relayer_fee-zero wire fields.fee_at fields.long_enough,
          recorded raw sha256 utf8 find sys nullifier_program p (emit 32 w.nullifier.0) validity
              inlined found built_ix (join headed) behind ends
              (concat-join parts ∙ ap join laid ∙ join-append headed inlined),
        ) in
        subst (Sent p validity) (ok_eq e3) sent

    -- A withdrawal that is sent, with a digest of 32 bytes, a mint of 32 bytes and a prover that
    -- returns 256 bytes and the witness's public signals in 32 bytes each: its nullifier is the hash
    -- of the wallet's key and the note's index; the instruction holds this nullifier, zeros for the
    -- second one and for both commitments, nothing paid in, the note's whole value paid out, the mint,
    -- and a fee of zero, which is the fee that the relayer reads. In the inlined form its data end with
    -- the payload for the nullifier program, after its tag 1, and there is no sibling instruction; in
    -- the other there is one, of the nullifier program, whose data end with the same nullifier.
    pub unshield_prepare-Fields :
        (p : UnshieldParams) (ix : Instruction) (siblings : List Instruction) (nullifier : ℕ)
        → length p.mint ≡ 32
        → unshield_prepare raw sha256 utf8 find sys nullifier_program account prove_witness
            token_program p
          ≡ ok (ix, siblings, nullifier)
        → (nullifier ≡ nullifier_hash raw p.wallet.spending_priv p.note.leaf_index)
          × ((root : ℕ) × Fields ix.ix_data
                (emit 32 root)
                (emit 32 nullifier)
                (emit 32 0)
                (emit 32 0)
                (emit 32 0)
                (emit 8 0)
                (emit 8 p.note.note.value)
                p.mint
                (emit 8 0))
          × (extract_relayer_fee ix.ix_data ≡ some 0)
          × ((v : NullifierProof) × (validity_of raw sha256 utf8 find sys nullifier_program
                  p.photon_rpc
                ≡ ok v)
              × Recorded nullifier_program (emit 32 nullifier) v p.inline_nullifier_cpi ix siblings)
    unfolding unshield_prepare no_source public_signals unshield_witness instruction_discriminator
    unshield_prepare-Fields p ix siblings nullifier m e =
        let (_, e0) = >>-eq-ok (throw_if (no_source p.tree p.merkle_proof) no_path) _ e in
        let ((root, leaf_count), _, e1) = >>=-eq-ok (current_tree account) _ e0 in
        let ((path, cache), _, e2) =
          >>=-eq-ok
            (note_path raw sha256 utf8 find sys nullifier_program p.tree p.merkle_proof
              p.note.leaf_index)
            _ e1 in
        let ((low, high), _, e3) =
          >>=-eq-ok (lift (λ e. not_32_bytes) (split_owner_halves p.recipient_owner)) _ e2 in
        let (mint, _, e4) = >>=-eq-ok (lift (λ e. not_32_bytes) (le_to_fr_reduced p.mint)) _ e3 in
        let w : TransactWitness =
          unshield_witness raw p.wallet p.note path cache root mint low high in
        let (proof, proved, e5) = >>=-eq-ok (lift not_proved (prove_witness w)) _ e4 in
        let (_, e6) =
          >>-eq-ok (throw_if (not (length proof.public_inputs_le == 18)) wrong_public_input_count) _
            e5 in
        let (validity, valid, e7) =
          >>=-eq-ok (validity_of raw sha256 utf8 find sys nullifier_program p.photon_rpc) _ e6 in
        let (own, fields, fee, recorded_by) =
          assembled-Sent p w proof validity (ix, siblings, nullifier) m (refl, refl, refl, refl)
            (lift-ok not_proved (prove_witness w) proved) e7 in
        (own, fields, fee, (validity, valid, recorded_by))
