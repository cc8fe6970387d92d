-- ===== src/Swap/Data.antt =====
-- The instructions of `privateSwap`: the adapter's default data, the pool's `adapt_execute` and
-- `adapt_execute_v2` data and accounts, and the test whether the public inputs are committed already.
use b402_solana.Common.{
  ℕ, ◌+◌, ◌*◌, pos, Bool, false, List, [], ◌∷◌, ◌++◌, length, take, drop, get_or, replicate, Option,
  none, some, Text, codes, text_eq, Bytes, Result, ok, ◌>>=◌, if◌then◌else◌, leb, ◌==◌, ◌&&◌,
}
use b402_solana.Programs.Anchor.{instruction_discriminator, vec_u8, u32_le, concat, copy_parts}
use b402_solana.Programs.Accounts.{AccountMeta, signer_writable, writable, readonly}
use b402_solana.Programs.Nullifier.{LightAccounts, NullifierProof, build_nullifier_cpi_accounts}
use b402_solana.Programs.Pda.{
  pool_config_pda, tree_state_pda, adapter_registry_pda, token_config_pda, vault_pda,
}
use b402_solana.Prover.{Proof}
use b402_solana.Actions.Shield.{ActionError, lift, input, bad_wire}
use b402_solana.Actions.Wire.{amount_le}

-- What the data is made of, once there is the proof.
pub record SwapData : Type 0 where
  pub amount : ℕ
  pub expected_out : ℕ
  pub relayer_pubkey : Bytes
  pub adapter_ix_data : Bytes
  pub action_payload : Bytes

module _ (sha256 : Bytes → Bytes) (utf8 : Text → Bytes) where
  unfoldable pub adapter_ix_data_of : Option Bytes → ℕ → ℕ → Bytes → Result ActionError Bytes
  adapter_ix_data_of (some given) amount expected_out action_payload = ok given
  adapter_ix_data_of none amount expected_out action_payload = do
    amount_bytes ← lift bad_wire (amount_le (pos amount))
    expected_bytes ← lift bad_wire (amount_le (pos expected_out))
    ok (
        concat (
          instruction_discriminator sha256 utf8 (codes "execute")
          ∷ amount_bytes
          ∷ expected_bytes
          ∷ vec_u8 action_payload
          ∷ []))

  -- What both forms end with.
  abbrev pub tail_parts : SwapData → List Bytes → List Bytes
  tail_parts d inlined =
      u32_le 0
      ∷ (2 ∷ [])
      ∷ (2 ∷ [])
      ∷ d.relayer_pubkey
      ∷ vec_u8 d.adapter_ix_data
      ∷ vec_u8 d.action_payload
      ∷ inlined

  abbrev pub alias_parts : Bool → Proof → List Bytes
  alias_parts phase9 proof = if phase9 then input proof 23 ∷ [] else []

  unfoldable pub adapt_execute_parts :
      SwapData → Bool → Proof → List Bytes → Result ActionError (List Bytes)
  adapt_execute_parts d phase9 proof inlined = do
    amount_bytes ← lift bad_wire (amount_le (pos d.amount))
    zero_bytes ← lift bad_wire (amount_le (pos 0))
    expected_bytes ← lift bad_wire (amount_le (pos d.expected_out))
    ok (
        instruction_discriminator sha256 utf8 (codes "adapt_execute")
        ∷ vec_u8 proof.proof_bytes
        ∷ input proof 0
        ∷ input proof 1
        ∷ input proof 2
        ∷ input proof 3
        ∷ input proof 4
        ∷ amount_bytes
        ∷ zero_bytes
        ∷ zero_bytes
        ∷ input proof 9
        ∷ input proof 10
        ∷ input proof 11
        ∷ expected_bytes
        ∷ (alias_parts phase9 proof ++ tail_parts d inlined))

  -- The form that reads the public inputs from the account they are committed to.
  unfoldable pub adapt_execute_v2_parts : SwapData → Proof → List Bytes → List Bytes
  adapt_execute_v2_parts d proof inlined =
      instruction_discriminator sha256 utf8 (codes "adapt_execute_v2")
      ∷ vec_u8 proof.proof_bytes
      ∷ tail_parts d inlined

  unfoldable pub pool_ix_data :
      SwapData → Bool → Bool → Proof → List Bytes → Result ActionError Bytes
  unfolding adapt_execute_parts adapt_execute_v2_parts
  pool_ix_data d pending phase9 proof inlined =
      let first : Result ActionError Bytes = (do
        parts ← adapt_execute_parts d phase9 proof inlined
        ok (concat parts)) in
      if pending then ok (concat (adapt_execute_v2_parts d proof inlined)) else first

-- `alreadyCommitted`: the account's data, where there is an account, hold the version 1 and the inputs.
unfoldable pub already_committed : Option Bytes → List Bytes → Bool
already_committed none inputs = false
already_committed (some account) inputs =
    let size : ℕ = length inputs * 32 in
    let expected : Bytes = copy_parts (replicate size 0) 0 inputs in
    leb (9 + size) (length account)
    && (get_or account 8 0 == 1)
    && text_eq (take size (drop 9 account)) expected

-- The accounts that the request and the client name.
pub record SwapAccounts : Type 0 where
  pub pool_program_id : Bytes
  pub verifier_adapt : Bytes
  pub adapter_program_id : Bytes
  pub in_mint : Bytes
  pub out_mint : Bytes
  pub adapter_in_ta : Bytes
  pub adapter_out_ta : Bytes
  pub fee_ata_sentinel : Bytes
  pub remaining_accounts : List AccountMeta

module _ (find : List Bytes → Bytes → Bytes) (utf8 : Text → Bytes) (sys : LightAccounts)
    (nullifier_program token_program : Bytes) where
  unfoldable pub adapter_authority : Bytes → Bytes
  adapter_authority program = find (utf8 (codes "b402/v1") ∷ utf8 (codes "adapter") ∷ []) program

  -- `pending` is the account of the committed inputs, where the request is in that mode.
  unfoldable pub swap_keys :
      SwapAccounts → Bytes → Option Bytes → Bool → NullifierProof → List AccountMeta
  unfolding adapter_authority
  swap_keys a relayer_pubkey pending inline validity =
      let prefix : List AccountMeta =
        readonly nullifier_program ∷ build_nullifier_cpi_accounts sys relayer_pubkey validity in
      (signer_writable relayer_pubkey
        ∷ readonly (pool_config_pda find utf8 a.pool_program_id)
        ∷ readonly (adapter_registry_pda find utf8 a.pool_program_id)
        ∷ readonly (token_config_pda find utf8 a.pool_program_id a.in_mint)
        ∷ readonly (token_config_pda find utf8 a.pool_program_id a.out_mint)
        ∷ writable (vault_pda find utf8 a.pool_program_id a.in_mint)
        ∷ writable (vault_pda find utf8 a.pool_program_id a.out_mint)
        ∷ writable (tree_state_pda find utf8 a.pool_program_id)
        ∷ readonly a.verifier_adapt
        ∷ readonly a.adapter_program_id
        ∷ writable (adapter_authority a.adapter_program_id)
        ∷ writable a.adapter_in_ta
        ∷ writable a.adapter_out_ta
        ∷ writable a.fee_ata_sentinel
        ∷ readonly sys.sysvar_instructions
        ∷ [])
      ++ (elim pending [ some account ↦ writable account ∷ [] | none ↦ [] ])
      ++ (readonly token_program ∷ readonly sys.system_program ∷ [])
      ++ (if inline then prefix else [])
      ++ a.remaining_accounts
