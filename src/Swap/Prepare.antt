-- ===== src/Swap/Prepare.antt =====
-- `privateSwap` up to the submission: the terms, the proof, the instructions and the output's note.
-- `keccak256`, `associated` (getAssociatedTokenAddress) and the parameters of the actions are outside;
-- the provers that `_ensureProvers` loads are the client's fields.
use b402_solana.Common.{
  ℕ, ◌*◌, Bool, true, false, not, ◌||◌, List, [], ◌∷◌, replicate, Option, none, some, Text, codes,
  Bytes, emit, Result, ok, err, ◌>>=◌, if◌then◌else◌,
}
use b402_solana.Protocol.Encoding.{le_to_fr_reduced, EncodingError}
use b402_solana.Programs.Anchor.{instruction_discriminator}
use b402_solana.Programs.Accounts.{AccountMeta, Instruction}
use b402_solana.Programs.TreeState.{decode_tree_state}
use b402_solana.Programs.CommitInputs.{
  CommitInputsError, derive_pending_inputs_pda, build_commit_inputs_ix,
}
use b402_solana.Programs.Nullifier.{LightAccounts, Attempt}
use b402_solana.Notes.Encryption.{EncryptedNote}
use b402_solana.Notes.Store.{SpendableNote}
use b402_solana.Wallet.{Wallet}
use b402_solana.Prover.{Proof}
use b402_solana.Actions.Shield.{
  ActionError, no_tree_account, bad_tree_account, alt_not_found, alt_required,
}
use b402_solana.Client.{ClientError}
use b402_solana.Swap.Witness.{AdaptWitness, Terms, out_commitment}
use b402_solana.Swap.Data.{already_committed}

pub data SwapError : Type 0 where
  no_relayer no_prover no_adapt_prover bad_vault : SwapError
  action : ActionError → SwapError
  client_error : ClientError → SwapError
  commit : CommitInputsError → SwapError
  not_submitted vault_unread : Text → SwapError

abbrev pub lift_swap : {E A : Type 0} → (E → SwapError) → Result E A → Result SwapError A
lift_swap wrap (ok a) = ok a
lift_swap wrap (err e) = err (wrap e)

pub data Cluster : Type 0 where
  mainnet devnet localnet : Cluster

pub record SwapClient : Type 0 where
  pub pool_program_id : Bytes
  pub verifier_adapt : Bytes
  pub jupiter_adapter : Bytes
  pub cluster : Cluster
  pub inline_cpi_nullifier : Bool
  pub relayer_http : Option Bytes
  pub relayer : Option Bytes
  pub has_prover : Bool
  pub adapt_prover : Option (AdaptWitness → Result Text Proof)
  pub wallet : Wallet

pub record PrivateSwapRequest : Type 0 where
  pub in_mint : Bytes
  pub out_mint : Bytes
  pub amount : ℕ
  pub adapter_program_id : Option Bytes
  pub adapter_in_ta : Bytes
  pub adapter_out_ta : Bytes
  pub alt : Option Bytes
  pub alts : List Bytes
  pub expected_out : Option ℕ
  pub adapter_ix_data : Option Bytes
  pub action_payload : Option Bytes
  pub note : Option SpendableNote
  pub photon_rpc : Option (ℕ → Attempt)
  pub remaining_accounts : List AccountMeta
  pub inline_cpi_nullifier : Option Bool
  pub phase9_dual_note : Option Bool
  pub pending_inputs_mode : Bool

-- What the RPC and the random source answer before the submission.
pub record Chain : Type 0 where
  pub tree_account : Option Bytes
  pub pending_account : Option Bytes
  pub has_table : Bytes → Bool
  pub random_bytes : Bytes

-- What there is once the proof is made; `commit_ix` is the transaction that comes first, if there is
-- one.
pub record Proven : Type 0 where
  pub terms : Terms
  pub proof : Proof
  pub nullifier : ℕ
  pub out_note : SpendableNote
  pub commit_ix : Option Instruction

-- What is submitted: the pool's instruction, the sibling if there is one, and the lookup tables.
pub record Ready : Type 0 where
  pub pool_ix : Instruction
  pub siblings : List Instruction
  pub tables : List Bytes

abbrev pub or_else {ℓ} : {A : Type ℓ} → Option A → A → A
or_else none a = a
or_else (some b) a = b

unfoldable pub relayer_key : SwapClient → Result SwapError Bytes
relayer_key c = elim c.relayer_http [
  | some key ↦ ok key
  | none ↦ elim c.relayer [ some key ↦ ok key | none ↦ err no_relayer ]
]

-- Whether the cluster's pool is the one with two notes, where the request does not say.
unfoldable pub dual_note : Option Bool → Cluster → Bool
dual_note (some b) cluster = b
dual_note none mainnet = true
dual_note none devnet = true
dual_note none localnet = false

abbrev pub payload_of : PrivateSwapRequest → Bytes
payload_of r = or_else r.action_payload (replicate 8 0)

abbrev pub adapter_of : SwapClient → PrivateSwapRequest → Bytes
adapter_of c r = or_else r.adapter_program_id c.jupiter_adapter

unfoldable pub check_tables : (Bytes → Bool) → PrivateSwapRequest → Result SwapError (List Bytes)
check_tables has_table r = elim r.alt [
  | none ↦ err (action alt_required)
  | some table ↦
      if not (has_table table) || any_missing has_table r.alts
      then err (action alt_not_found)
      else ok (table ∷ r.alts)
]
  where
    any_missing : (Bytes → Bool) → List Bytes → Bool
    any_missing has_table [] = false
    any_missing has_table (t ∷ tables) = not (has_table t) || any_missing has_table tables

module _ (keccak256 : Bytes → Bytes) where
  unfoldable pub swap_terms : SwapClient → PrivateSwapRequest → Bytes → Result EncodingError Terms
  swap_terms c r random_bytes = do
    in_mint_fr ← le_to_fr_reduced r.in_mint
    adapter_id ← le_to_fr_reduced (keccak256 (adapter_of c r))
    payload_keccak_fr ← le_to_fr_reduced (keccak256 (payload_of r))
    out_mint_fr ← le_to_fr_reduced r.out_mint
    out_random ← le_to_fr_reduced random_bytes
    ok (record {
      in_mint_fr = in_mint_fr;
      out_mint_fr = out_mint_fr;
      adapter_id = adapter_id;
      payload_keccak_fr = payload_keccak_fr;
      amount = r.amount;
      expected_out = or_else r.expected_out (r.amount * 2);
      out_random = out_random;
    })

-- `fetchTreeState(...).leafCount`
unfoldable pub next_leaf : Option Bytes → Result SwapError ℕ
next_leaf none = err (action no_tree_account)
next_leaf (some account) = elim (decode_tree_state account) [
  | err e ↦ err (action bad_tree_account)
  | ok view ↦ ok view.leaf_count
]

module _ (raw : List ℕ → ℕ) where
  -- The output's note, which stands at the next leaf.
  unfoldable pub out_note_of : Wallet → Terms → ℕ → EncryptedNote → SpendableNote
  unfolding out_commitment
  out_note_of wallet t leaf_count sealed = record {
    note = record {
      token_mint = t.out_mint_fr;
      value = t.expected_out;
      random = t.out_random;
      spending_pub = wallet.spending_pub;
    };
    commitment = out_commitment raw wallet t;
    leaf_index = leaf_count;
    spending_priv = wallet.spending_priv;
    encrypted_bytes = sealed.ciphertext;
    ephemeral_pub = sealed.ephemeral_pub;
    viewing_tag = sealed.viewing_tag;
  }

  module _ (sha256 : Bytes → Bytes) (utf8 : Text → Bytes) (find : List Bytes → Bytes → Bytes)
      (sys : LightAccounts) where
    -- The transaction that commits the public inputs, where the request asks for it and the account
    -- does not hold them already.
    unfoldable pub commit_inputs :
        SwapClient
        → Bool
        → Option Bytes
        → Bytes
        → Proof
        → Result CommitInputsError (Option Instruction)
    commit_inputs c pending account relayer_pubkey proof =
        let built : Result CommitInputsError (Option Instruction) = (do
          ix ←
              build_commit_inputs_ix find utf8
                (instruction_discriminator sha256 utf8 (codes "commit_inputs")) sys.system_program
                c.pool_program_id (emit 32 c.wallet.spending_pub) proof.public_inputs_le
                relayer_pubkey
          ok (some ix)) in
        if not pending || already_committed account proof.public_inputs_le then ok none else built

    -- The account of the committed inputs, where the request is in that mode.
    unfoldable pub pending_key : SwapClient → Bool → Result CommitInputsError (Option Bytes)
    pending_key c pending =
        let derived : Result CommitInputsError (Option Bytes) = (do
          key ←
              derive_pending_inputs_pda find utf8 c.pool_program_id (emit 32 c.wallet.spending_pub)
          ok (some key)) in
        if pending then derived else ok none
