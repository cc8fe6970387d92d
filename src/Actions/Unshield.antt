-- ===== src/Actions/Unshield.antt =====
-- packages/sdk/src/actions/unshield.ts: `unshield`, the withdrawal of a whole note. `send` signs,
-- sends and confirms a local transaction, `relay` hands the instruction to an HTTP relayer; the other
-- parameters are those of `shield`, and the accounts that Light's library names.
use b402_solana.Common.{
  ℕ, pos, Bool, true, false, not, List, [], ◌∷◌, ◌++◌, length, Option, none, some, Text, codes,
  Bytes, emit, Result, ok, err, ◌>>=◌, ◌>>◌, throw_if, if◌then◌else◌, ◌==◌,
}
use b402_solana.Protocol.Encoding.{le_to_fr_reduced}
use b402_solana.Protocol.Poseidon.{nullifier_hash}
use b402_solana.Programs.Anchor.{instruction_discriminator, vec_u8, u32_le, concat}
use b402_solana.Programs.Accounts.{AccountMeta, Instruction, signer_writable, writable, readonly}
use b402_solana.Programs.Nullifier.{
  NullifierProof, LightAccounts, Attempt, build_create_nullifier_data, build_nullifier_cpi_payload,
  create_nullifier_accounts, build_nullifier_cpi_accounts, get_validity_proof_for_nullifier,
}
use b402_solana.Programs.Pda.{pool_config_pda, tree_state_pda, token_config_pda, vault_pda}
use b402_solana.Merkle.{MerkleProof, ClientMerkleTree, build_zero_cache, prove}
use b402_solana.Notes.Store.{SpendableNote}
use b402_solana.Wallet.{Wallet}
use b402_solana.Prover.{Proof}
use b402_solana.Actions.Witness.{TransactWitness, unshield_witness, split_owner_halves}
use b402_solana.Actions.Wire.{amount_le}
use b402_solana.Actions.Shield.{
  ActionError, Submission, lift, input, current_tree, not_32_bytes, not_proved, bad_wire, not_sent,
  wrong_public_input_count, alt_not_found, no_path, no_photon, bad_path, bad_nullifier,
}

pub record UnshieldParams : Type 0 where
  pub pool_program_id : Bytes
  pub verifier_program_id : Bytes
  pub wallet : Wallet
  pub mint : Bytes
  pub note : SpendableNote
  pub tree : Option ClientMerkleTree
  pub merkle_proof : Option MerkleProof
  pub recipient_token_account : Bytes
  pub recipient_owner : Bytes
  pub relayer : Bytes
  pub relayer_http : Option Bytes
  pub photon_rpc : Option (ℕ → Attempt)
  pub alt : Option Bytes
  pub inline_nullifier_cpi : Bool

pub record UnshieldResult : Type 0 where
  pub signature : Text
  pub nullifier : ℕ
  pub amount_transferred : ℕ

unfoldable pub relayer_pubkey : UnshieldParams → Bytes
relayer_pubkey p = elim p.relayer_http [ some key ↦ key | none ↦ p.relayer ]

-- `!tree && !merkleProof`
unfoldable pub no_source : Option ClientMerkleTree → Option MerkleProof → Bool
no_source none none = true
no_source none (some path) = false
no_source (some t) path = false

module _ (raw : List ℕ → ℕ) (sha256 : Bytes → Bytes) (utf8 : Text → Bytes)
    (find : List Bytes → Bytes → Bytes) (sys : LightAccounts) (nullifier_program : Bytes) where
  -- The note's path, and the zero cache that the dummy slot takes.
  unfoldable pub note_path :
      Option ClientMerkleTree → Option MerkleProof → ℕ → Result ActionError (MerkleProof × List ℕ)
  note_path none none leaf_index = err no_path
  note_path none (some path) leaf_index = ok (path, build_zero_cache raw 26)
  note_path (some t) (some path) leaf_index = ok (path, t.zero_cache)
  note_path (some t) none leaf_index = elim (prove raw t leaf_index) [
    | err e ↦ err (bad_path e)
    | ok path ↦ ok (path, t.zero_cache)
  ]

  -- The parts of the instruction's data, behind them those of the inlined form.
  unfoldable pub unshield_parts :
      UnshieldParams → Proof → List Bytes → Result ActionError (List Bytes)
  unshield_parts p proof inlined = do
    zero_le ← lift bad_wire (amount_le (pos 0))
    value_le ← lift bad_wire (amount_le (pos p.note.note.value))
    ok (
        instruction_discriminator sha256 utf8 (codes "unshield")
        ∷ vec_u8 proof.proof_bytes
        ∷ input proof 0
        ∷ input proof 1
        ∷ input proof 2
        ∷ input proof 3
        ∷ input proof 4
        ∷ zero_le
        ∷ value_le
        ∷ p.mint
        ∷ zero_le
        ∷ input proof 9
        ∷ input proof 10
        ∷ input proof 11
        ∷ u32_le 0
        ∷ (2 ∷ [])
        ∷ (3 ∷ [])
        ∷ relayer_pubkey p
        ∷ inlined)

  unfoldable pub inlined_parts : Bool → NullifierProof → Result ActionError (List Bytes)
  inlined_parts inline validity =
      let payload : Result ActionError (List Bytes) = (do
        built ← lift bad_nullifier (build_nullifier_cpi_payload validity)
        ok (u32_le 1 ∷ built ∷ [])) in
      if inline then payload else ok []

  unfoldable pub unshield_keys : UnshieldParams → Bytes → NullifierProof → List AccountMeta
  unshield_keys p token_program validity =
      let remaining : List AccountMeta =
        readonly nullifier_program ∷ build_nullifier_cpi_accounts sys (relayer_pubkey p) validity in
      (signer_writable (relayer_pubkey p)
        ∷ readonly (pool_config_pda find utf8 p.pool_program_id)
        ∷ readonly (token_config_pda find utf8 p.pool_program_id p.mint)
        ∷ writable (vault_pda find utf8 p.pool_program_id p.mint)
        ∷ writable p.recipient_token_account
        ∷ writable p.recipient_token_account
        ∷ writable (tree_state_pda find utf8 p.pool_program_id)
        ∷ readonly p.verifier_program_id
        ∷ readonly sys.sysvar_instructions
        ∷ readonly token_program
        ∷ readonly sys.system_program
        ∷ [])
      ++ (if p.inline_nullifier_cpi then remaining else [])

  -- The sibling instruction, where the nullifier is not inlined.
  unfoldable pub nullifier_ixs :
      UnshieldParams → Bytes → NullifierProof → Result ActionError (List Instruction)
  nullifier_ixs p nullifier_le validity =
      let sibling : Result ActionError (List Instruction) = (do
        data_bytes ← lift bad_nullifier (build_create_nullifier_data nullifier_le validity)
        ok (
            record {
              program_id = nullifier_program;
              account_keys = create_nullifier_accounts sys (relayer_pubkey p) validity;
              ix_data = data_bytes;
            }
            ∷ [])) in
      if p.inline_nullifier_cpi then ok [] else sibling

  unfoldable pub validity_of : Option (ℕ → Attempt) → Result ActionError NullifierProof
  validity_of none = err no_photon
  validity_of (some photon) = lift bad_nullifier (get_validity_proof_for_nullifier sys photon)

  -- The instructions, once there are the proofs.
  unfoldable pub assembled :
      UnshieldParams
      → Bytes
      → Proof
      → NullifierProof
      → ℕ
      → Result ActionError (Instruction × List Instruction × ℕ)
  assembled p token_program proof validity nullifier = do
    inlined ← inlined_parts p.inline_nullifier_cpi validity
    parts ← unshield_parts p proof inlined
    siblings ← nullifier_ixs p (emit 32 nullifier) validity
    ok (
      record {
        program_id = p.pool_program_id;
        account_keys = unshield_keys p token_program validity;
        ix_data = concat parts;
      },
      siblings,
      nullifier,
    )

  module _ (account : Option Bytes) (prove_witness : TransactWitness → Result Text Proof)
      (token_program : Bytes) where
    -- The pool's instruction, the sibling if there is one, and the nullifier.
    unfoldable pub unshield_prepare :
        UnshieldParams → Result ActionError (Instruction × List Instruction × ℕ)
    unshield_prepare p = do
      throw_if (no_source p.tree p.merkle_proof) no_path
      (merkle_root, leaf_count) ← current_tree account
      (path, zero_cache) ← note_path p.tree p.merkle_proof p.note.leaf_index
      let nullifier : ℕ = nullifier_hash raw p.wallet.spending_priv p.note.leaf_index
      (low, high) ← lift (λ e. not_32_bytes) (split_owner_halves p.recipient_owner)
      token_mint ← lift (λ e. not_32_bytes) (le_to_fr_reduced p.mint)
      proof ← lift not_proved (
          prove_witness
            (unshield_witness raw p.wallet p.note path zero_cache merkle_root token_mint low high))
      throw_if (not (length proof.public_inputs_le == 18)) wrong_public_input_count
      validity ← validity_of p.photon_rpc
      assembled p token_program proof validity nullifier

    -- A local transaction holds the instruction and the sibling, and the relayer alone signs it.
    unfoldable pub unshield :
        (Submission → Result Text Text)
        → (Instruction → List Bytes → List Instruction → Result Text Text)
        → (Bytes → Bool)
        → UnshieldParams
        → Result ActionError UnshieldResult
    unfolding unshield_prepare
    unshield send relay has_table p = do
      (ix, siblings, nullifier) ← unshield_prepare p
      let tables : List Bytes = elim p.alt [ some table ↦ table ∷ [] | none ↦ [] ]
      let sent : Result ActionError Text = do
        throw_if (elim p.alt [ some table ↦ not (has_table table) | none ↦ false ]) alt_not_found
        lift not_sent (
            send (record {
              compute_unit_limit = 1400000;
              instructions = ix ∷ siblings;
              lookup_table = p.alt;
              signed_by = p.relayer ∷ [];
            }))
      signature ← elim p.relayer_http [
        | some key ↦ lift not_sent (relay ix tables siblings)
        | none ↦ sent
      ]
      ok (record {
        signature = signature;
        nullifier = nullifier;
        amount_transferred = p.note.note.value;
      })
