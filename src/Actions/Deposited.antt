-- ===== src/Actions/Deposited.antt =====
-- What `shield` of packages/sdk/src/actions/shield.ts sends, and the note that it returns.
use b402_solana.Common.{
  ℕ, pos, Bool, ◌<◌, ◌^◌, ◌≡◌, refl, subst, List, [], ◌∷◌, map, length, Option, some, Bytes, Text,
  text_eq, emit, Result, ok, ok_eq, >>=-eq-ok, >>-eq-ok, not, ◌==◌, throw_if, if◌then◌else◌,
}
use b402_solana.Protocol.Encoding.{le_to_fr_reduced}
use b402_solana.Protocol.Poseidon.{commitment_hash}
use b402_solana.Programs.Accounts.{Instruction}
use b402_solana.Notes.Encryption.{Note, EncryptedNote, NoteError}
use b402_solana.Notes.Store.{SpendableNote}
use b402_solana.Prover.{Proof}
use b402_solana.Relayer.Validate.{extract_relayer_fee}
use b402_solana.Actions.Witness.{TransactWitness, shield_witness}
use b402_solana.Actions.Circuit.{public_signals}
use b402_solana.Actions.Shield.{
  ShieldParams, Submission, lift, current_tree, in_u64, not_32_bytes, not_proved, not_encrypted,
  wrong_public_input_count, shield_ix_data, shield_prepare, shield_keys, table_missing, table_error,
}
use b402_solana.Actions.Layout.{Fields, proof-Fields, extract_relayer_fee-zero, lift-ok}
use b402_solana.Actions.DepositData.{in_u64-ok, shield_ix_data-head}

module _ (raw : List ℕ → ℕ) (sha256 : Bytes → Bytes) (utf8 : Text → Bytes)
    (find : List Bytes → Bytes → Bytes) where
  module _ (account : Option Bytes) (random_bytes : Bytes)
      (encrypt : Note → ℕ → Result NoteError EncryptedNote)
      (prove : TransactWitness → Result Text Proof) (has_table : Bytes → Bool)
      (token_program system_program : Bytes) (digest : (m : Bytes) → length (sha256 m) ≡ 32)
      (proves : (w : TransactWitness) (proof : Proof)
        → prove w ≡ ok proof
        → (proof.public_inputs_le ≡ map (emit 32) (public_signals w))
          × (length proof.proof_bytes ≡ 256)) where
    -- What a deposit sends, as its note tells it.
    abbrev Deposits : ShieldParams → Submission × SpendableNote → Type 0
    Deposits p (sub, n) =
        (p.amount ≡ pos n.note.value)
        × (0 < n.note.value)
        × (n.note.value < 2 ^ 64)
        × (n.commitment
            ≡ commitment_hash raw n.note.token_mint n.note.value n.note.random n.note.spending_pub)
        × (le_to_fr_reduced p.mint ≡ ok n.note.token_mint)
        × (n.note.spending_pub ≡ p.wallet.spending_pub)
        × (n.spending_priv ≡ p.wallet.spending_priv)
        × ((root : ℕ) × (ix : Instruction) × (current_tree account ≡ ok (root, n.leaf_index))
            × (sub.instructions ≡ ix ∷ [])
            × Fields ix.ix_data (emit 32 root) (emit 32 0) (emit 32 0) (emit 32 n.commitment)
                (emit 32 0) (emit 8 n.note.value) (emit 8 0) p.mint (emit 8 0)
            × (extract_relayer_fee ix.ix_data ≡ some 0))

    -- A deposit that is prepared, with a digest of 32 bytes, a mint of 32 bytes and a prover that
    -- returns 256 bytes and the witness's public signals in 32 bytes each: the amount is above 0 and
    -- below 2^64; the note that is returned has this value, the mint's number, the wallet's two
    -- keys, the tree's next leaf and the commitment of its own fields; and the one instruction holds
    -- the tree's root, zeros for both nullifiers, this commitment and a zero for the second, the value paid in, nothing paid out, the mint, and a fee of zero,
    -- which is the fee that the relayer reads.
    pub shield_prepare-Deposits :
        (p : ShieldParams) (sub : Submission) (n : SpendableNote)
        → length p.mint ≡ 32
        → shield_prepare raw sha256 utf8 find account random_bytes encrypt prove has_table
            token_program system_program p
          ≡ ok (sub, n)
        → (p.amount ≡ pos n.note.value)
          × (0 < n.note.value)
          × (n.note.value < 2 ^ 64)
          × (n.commitment
              ≡ commitment_hash raw n.note.token_mint n.note.value n.note.random
                  n.note.spending_pub)
          × (le_to_fr_reduced p.mint ≡ ok n.note.token_mint)
          × (n.note.spending_pub ≡ p.wallet.spending_pub)
          × (n.spending_priv ≡ p.wallet.spending_priv)
          × ((root : ℕ) × (ix : Instruction) × (current_tree account ≡ ok (root, n.leaf_index))
              × (sub.instructions ≡ ix ∷ [])
              × Fields ix.ix_data
                  (emit 32 root)
                  (emit 32 0)
                  (emit 32 0)
                  (emit 32 n.commitment)
                  (emit 32 0)
                  (emit 8 n.note.value)
                  (emit 8 0)
                  p.mint
                  (emit 8 0)
              × (extract_relayer_fee ix.ix_data ≡ some 0))
    unfolding shield_prepare shield_witness public_signals
    shield_prepare-Deposits p out_sub out_n m e =
        let (amount, sized, e1) = >>=-eq-ok (in_u64 p.amount) _ e in
        let ((root, leaf_count), tree, e2) = >>=-eq-ok (current_tree account) _ e1 in
        let (random, _, e3) =
          >>=-eq-ok (lift (λ e. not_32_bytes) (le_to_fr_reduced random_bytes)) _ e2 in
        let (mint, minted, e4) =
          >>=-eq-ok (lift (λ e. not_32_bytes) (le_to_fr_reduced p.mint)) _ e3 in
        let note : Note = record {
          token_mint = mint;
          value = amount;
          random = random;
          spending_pub = p.wallet.spending_pub;
        } in
        let (encrypted, _, e5) = >>=-eq-ok (lift not_encrypted (encrypt note leaf_count)) _ e4 in
        let w : TransactWitness = shield_witness raw p.wallet root mint amount random in
        let (proof, proved, e6) = >>=-eq-ok (lift not_proved (prove w)) _ e5 in
        let (_, e7) =
          >>-eq-ok (throw_if (not (length proof.public_inputs_le == 18)) wrong_public_input_count) _
            e6 in
        let notes : List EncryptedNote = if p.omit_encrypted_notes then [] else encrypted ∷ [] in
        let (wire, built, e8) =
          >>=-eq-ok (shield_ix_data raw sha256 utf8 find proof p.mint amount notes) _ e7 in
        let (_, e9) = >>-eq-ok (throw_if (table_missing has_table p) (table_error p)) _ e8 in
        let (rest, laid) =
          shield_ix_data-head raw sha256 utf8 find proof p.mint amount notes wire built in
        let fields =
          proof-Fields sha256 utf8 digest "shield" w proof
            (proves w proof (lift-ok not_proved (prove w) proved)) amount 0 p.mint rest wire m
            laid in
        let (whole, more, small) = in_u64-ok p.amount amount sized in
        let ix : Instruction = record {
          program_id = p.pool_program_id;
          account_keys = shield_keys raw sha256 utf8 find p token_program system_program;
          ix_data = wire;
        } in
        let sub : Submission = record {
          compute_unit_limit = 1400000;
          instructions = ix ∷ [];
          lookup_table = p.alt;
          signed_by =
              if text_eq p.relayer p.depositor
              then p.depositor ∷ []
              else p.depositor ∷ p.relayer ∷ [];
        } in
        let n : SpendableNote = record {
          note = note;
          commitment = commitment_hash raw mint amount random p.wallet.spending_pub;
          leaf_index = leaf_count;
          spending_priv = p.wallet.spending_priv;
          encrypted_bytes = encrypted.ciphertext;
          ephemeral_pub = encrypted.ephemeral_pub;
          viewing_tag = encrypted.viewing_tag;
        } in
        let sent : Deposits p (sub, n) = (
          whole,
          more,
          small,
          refl,
          lift-ok (λ e. not_32_bytes) (le_to_fr_reduced p.mint) minted,
          refl,
          refl,
          (
            root,
            ix,
            tree,
            refl,
            fields,
            extract_relayer_fee-zero wire fields.fee_at fields.long_enough,
          ),
        ) in
        subst (Deposits p) (ok_eq e9) sent
