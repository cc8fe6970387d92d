-- ===== src/Actions/Shield.antt =====
-- packages/sdk/src/actions/shield.ts: `shield`, the deposit. Outside: the hash `sha256`, the text
-- encoder `utf8`, the address search `find`, the cipher `encrypt`, the prover `prove`, the random
-- bytes, and Solana's RPC: the tree account's data, the lookup tables that exist, and `send`.
use b402_solana.Common.{
  ℕ, ◌^◌, ℤ, pos, negsuc, Bool, not, List, [], ◌∷◌, length, get_or, Option, none, some, Text, codes,
  text_eq, Bytes, Result, ok, err, ◌>>=◌, ◌>>◌, throw_if, if◌then◌else◌, leb, ◌==◌,
}
use b402_solana.Protocol.Encoding.{le_to_fr_reduced}
use b402_solana.Protocol.Poseidon.{commitment_hash}
use b402_solana.Programs.Anchor.{instruction_discriminator, vec_u8, concat}
use b402_solana.Programs.Accounts.{AccountMeta, Instruction, signer_writable, writable, readonly}
use b402_solana.Programs.Pda.{pool_config_pda, tree_state_pda, token_config_pda, vault_pda}
use b402_solana.Programs.Nullifier.{NullifierError}
use b402_solana.Merkle.{MerkleError}
use b402_solana.Programs.TreeState.{decode_tree_state}
use b402_solana.Notes.Encryption.{Note, EncryptedNote, NoteError}
use b402_solana.Notes.Store.{SpendableNote}
use b402_solana.Wallet.{Wallet}
use b402_solana.Prover.{Proof}
use b402_solana.Actions.Witness.{TransactWitness, shield_witness}
use b402_solana.Actions.Wire.{WireError, encode_public_inputs, encode_encrypted_notes}
use b402_solana.Actions.Confirm.{ConfirmError, TxStatus, shield_confirm}

pub data ActionError : Type 0 where
  amount_out_of_range no_tree_account bad_tree_account no_current_root not_32_bytes : ActionError
  not_encrypted : NoteError → ActionError
  not_proved : Text → ActionError
  wrong_public_input_count alt_not_found alt_required no_path no_photon : ActionError
  bad_path : MerkleError → ActionError
  bad_nullifier : NullifierError → ActionError
  bad_wire : WireError → ActionError
  not_sent : Text → ActionError
  not_landed : ConfirmError → ActionError

-- A call's error, as this action throws it.
abbrev pub lift : {E A : Type 0} → (E → ActionError) → Result E A → Result ActionError A
lift wrap (ok a) = ok a
lift wrap (err e) = err (wrap e)

pub record ShieldParams : Type 0 where
  pub pool_program_id : Bytes
  pub verifier_program_id : Bytes
  pub wallet : Wallet
  pub mint : Bytes
  pub depositor_ata : Bytes
  pub depositor : Bytes
  pub relayer : Bytes
  pub amount : ℤ
  pub omit_encrypted_notes : Bool
  pub alt : Option Bytes

-- A transaction: the compute units that it asks for, its other instructions, the lookup table, `none`
-- for a legacy transaction, and the keys that sign it, in their order.
pub record Submission : Type 0 where
  pub compute_unit_limit : ℕ
  pub instructions : List Instruction
  pub lookup_table : Option Bytes
  pub signed_by : List Bytes

pub record ShieldResult : Type 0 where
  pub signature : Text
  pub commitment : ℕ
  pub leaf_index : ℕ
  pub note : SpendableNote

unfoldable pub current_tree : Option Bytes → Result ActionError (ℕ × ℕ)
current_tree none = err no_tree_account
current_tree (some account) = elim (decode_tree_state account) [
  | err e ↦ err bad_tree_account
  | ok view ↦ elim view.current_root [
    | none ↦ err no_current_root
    | some root ↦ elim (le_to_fr_reduced root) [
      | err e ↦ err not_32_bytes
      | ok merkle_root ↦ ok (merkle_root, view.leaf_count)
    ]
  ]
]

unfoldable pub in_u64 : ℤ → Result ActionError ℕ
in_u64 (negsuc n) = err amount_out_of_range
in_u64 (pos v) =
    if v == 0
    then err amount_out_of_range
    else if leb (2 ^ 64) v
    then err amount_out_of_range
    else ok v

abbrev pub input : Proof → ℕ → Bytes
input proof i = get_or proof.public_inputs_le i []

-- Where a lookup table is missing, and the error then.
unfoldable pub table_missing : (Bytes → Bool) → ShieldParams → Bool
table_missing has_table p = elim p.alt [
  | some table ↦ not (has_table table)
  | none ↦ not p.omit_encrypted_notes
]

unfoldable pub table_error : ShieldParams → ActionError
table_error p = elim p.alt [ some table ↦ alt_not_found | none ↦ alt_required ]

module _ (raw : List ℕ → ℕ) (sha256 : Bytes → Bytes) (utf8 : Text → Bytes)
    (find : List Bytes → Bytes → Bytes) where
  unfoldable pub shield_ix_data : Proof → Bytes → ℕ → List EncryptedNote → Result ActionError Bytes
  shield_ix_data proof mint amount notes = do
    inputs ← lift bad_wire (
        encode_public_inputs (record {
          merkle_root = input proof 0;
          nullifier_0 = input proof 1;
          nullifier_1 = input proof 2;
          commitment_out_0 = input proof 3;
          commitment_out_1 = input proof 4;
          public_amount_in = pos amount;
          public_amount_out = pos 0;
          public_token_mint = mint;
          relayer_fee = pos 0;
          relayer_fee_bind = input proof 9;
          root_bind = input proof 10;
          recipient_bind = input proof 11;
        }))
    encrypted ← lift bad_wire (encode_encrypted_notes notes)
    ok (
        concat (
          instruction_discriminator sha256 utf8 (codes "shield")
          ∷ vec_u8 proof.proof_bytes
          ∷ inputs
          ∷ encrypted
          ∷ (2 ∷ [])
          ∷ []))

  unfoldable pub shield_keys : ShieldParams → Bytes → Bytes → List AccountMeta
  shield_keys p token_program system_program =
      signer_writable p.relayer
      ∷ signer_writable p.depositor
      ∷ writable p.depositor_ata
      ∷ readonly (token_config_pda find utf8 p.pool_program_id p.mint)
      ∷ writable (vault_pda find utf8 p.pool_program_id p.mint)
      ∷ writable (tree_state_pda find utf8 p.pool_program_id)
      ∷ readonly (pool_config_pda find utf8 p.pool_program_id)
      ∷ readonly p.verifier_program_id
      ∷ readonly token_program
      ∷ readonly system_program
      ∷ []

  module _ (account : Option Bytes) (random_bytes : Bytes)
      (encrypt : Note → ℕ → Result NoteError EncryptedNote)
      (prove : TransactWitness → Result Text Proof) (has_table : Bytes → Bool)
      (token_program system_program : Bytes) where
    -- Up to the signing: the transaction and the note.
    unfoldable pub shield_prepare : ShieldParams → Result ActionError (Submission × SpendableNote)
    shield_prepare p = do
      amount ← in_u64 p.amount
      (merkle_root, leaf_count) ← current_tree account
      random ← lift (λ e. not_32_bytes) (le_to_fr_reduced random_bytes)
      token_mint ← lift (λ e. not_32_bytes) (le_to_fr_reduced p.mint)
      let note : Note = record {
        token_mint = token_mint;
        value = amount;
        random = random;
        spending_pub = p.wallet.spending_pub;
      }
      encrypted ← lift not_encrypted (encrypt note leaf_count)
      proof ←
          lift not_proved (prove (shield_witness raw p.wallet merkle_root token_mint amount random))
      throw_if (not (length proof.public_inputs_le == 18)) wrong_public_input_count
      data_bytes ←
          shield_ix_data proof p.mint amount (if p.omit_encrypted_notes then [] else encrypted ∷ [])
      throw_if (table_missing has_table p) (table_error p)
      let signed_by : List Bytes =
          if text_eq p.relayer p.depositor then p.depositor ∷ [] else p.depositor ∷ p.relayer ∷ []
      ok (
        record {
          compute_unit_limit = 1400000;
          instructions =
              record {
                program_id = p.pool_program_id;
                account_keys = shield_keys p token_program system_program;
                ix_data = data_bytes;
              }
              ∷ [];
          lookup_table = p.alt;
          signed_by = signed_by;
        },
        record {
          note = note;
          commitment = commitment_hash raw token_mint amount random p.wallet.spending_pub;
          leaf_index = leaf_count;
          spending_priv = p.wallet.spending_priv;
          encrypted_bytes = encrypted.ciphertext;
          ephemeral_pub = encrypted.ephemeral_pub;
          viewing_tag = encrypted.viewing_tag;
        },
      )

    -- `send` signs and sends; the result is `none` where the fuel of the waiting loop runs out.
    unfoldable pub shield :
        (Submission → Result Text Text)
        → (ℕ → ℕ)
        → (ℕ → Result Text (Option TxStatus))
        → ℕ
        → ℕ
        → ShieldParams
        → Option (Result ActionError ShieldResult)
    unfolding shield_prepare
    shield send clock statuses start fuel p = elim (shield_prepare p) [
      | err e ↦ some (err e)
      | ok (submission, note) ↦ elim (send submission) [
        | err e ↦ some (err (not_sent e))
        | ok signature ↦ elim (shield_confirm clock statuses start fuel) [
          | none ↦ none
          | some (err e) ↦ some (err (not_landed e))
          | some (ok done) ↦ some (
              ok (record {
                signature = signature;
                commitment = note.commitment;
                leaf_index = note.leaf_index;
                note = note;
              }))
        ]
      ]
    ]
