-- ===== src/Swap/Flow.antt =====
-- `privateSwap` from the note that it spends to the two stages of its submission. `paths` is
-- `_proveLeafForSpend` and `encrypt` the cipher for the wallet's viewing key.
use b402_solana.Common.{
  ℕ, Bool, List, [], ◌∷◌, none, some, Text, Bytes, emit, Result, ok, err, ◌>>=◌, if◌then◌else◌,
}
use b402_solana.Protocol.Poseidon.{nullifier_hash}
use b402_solana.Programs.Accounts.{Instruction}
use b402_solana.Programs.Nullifier.{
  LightAccounts, NullifierProof, build_create_nullifier_data, create_nullifier_accounts,
}
use b402_solana.Merkle.{MerkleProof, build_zero_cache}
use b402_solana.Notes.Encryption.{Note, EncryptedNote, NoteError}
use b402_solana.Notes.Store.{SpendableNote}
use b402_solana.Prover.{Proof}
use b402_solana.Actions.Shield.{
  ActionError, lift, not_32_bytes, not_encrypted, not_proved, bad_nullifier,
}
use b402_solana.Actions.Unshield.{inlined_parts, validity_of}
use b402_solana.Client.{ClientError}
use b402_solana.Swap.Witness.{AdaptWitness, swap_witness}
use b402_solana.Swap.Data.{SwapAccounts, adapter_ix_data_of, pool_ix_data, swap_keys}
use b402_solana.Swap.Prepare.{
  SwapError, SwapClient, PrivateSwapRequest, Chain, Proven, Ready, no_prover, no_adapt_prover,
  action, client_error, commit, lift_swap, or_else, payload_of, adapter_of, relayer_key, dual_note,
  check_tables, swap_terms, next_leaf, out_note_of, commit_inputs, pending_key,
}

-- The checks that come before the note is chosen: the key that signs, and the prover.
unfoldable pub swap_setup :
    SwapClient → Result SwapError (Bytes × (AdaptWitness → Result Text Proof))
swap_setup c = do
  key ← relayer_key c
  prover ← elim c.adapt_prover [
    | none ↦ err (if c.has_prover then no_adapt_prover else no_prover)
    | some prove ↦ if c.has_prover then ok prove else err no_prover
  ]
  ok (key, prover)

abbrev pub inline_of : SwapClient → PrivateSwapRequest → Bool
inline_of c r = or_else r.inline_cpi_nullifier c.inline_cpi_nullifier

module _ (raw : List ℕ → ℕ) (sha256 keccak256 : Bytes → Bytes) (utf8 : Text → Bytes)
    (find : List Bytes → Bytes → Bytes) (associated : Bytes → Bytes → Bytes) (sys : LightAccounts)
    (nullifier_program token_program : Bytes) where
  -- Up to the proof, and the transaction that commits its public inputs.
  unfoldable pub prove_swap :
      (SpendableNote → Result ClientError MerkleProof)
      → (Note → ℕ → Result NoteError EncryptedNote)
      → (AdaptWitness → Result Text Proof)
      → SwapClient
      → PrivateSwapRequest
      → Chain
      → Bytes
      → SpendableNote
      → Result SwapError Proven
  prove_swap paths encrypt prove c r chain key n = do
    terms ← lift_swap (λ e. action not_32_bytes) (swap_terms keccak256 c r chain.random_bytes)
    leaf_count ← next_leaf chain.tree_account
    path ← lift_swap client_error (paths n)
    let note : Note = record {
      token_mint = terms.out_mint_fr;
      value = terms.expected_out;
      random = terms.out_random;
      spending_pub = c.wallet.spending_pub;
    }
    sealed ← lift_swap (λ e. action (not_encrypted e)) (encrypt note leaf_count)
    proof ←
        lift_swap (λ e. action (not_proved e))
          (prove (swap_witness raw c.wallet n path (build_zero_cache raw 26) terms))
    commit_ix ← lift_swap commit (
        commit_inputs raw sha256 utf8 find sys c r.pending_inputs_mode chain.pending_account key
          proof)
    ok (record {
      terms = terms;
      proof = proof;
      nullifier = nullifier_hash raw c.wallet.spending_priv n.leaf_index;
      out_note = out_note_of raw c.wallet terms leaf_count sealed;
      commit_ix = commit_ix;
    })

  unfoldable pub sibling_ixs :
      Bool → Bytes → Bytes → NullifierProof → Result ActionError (List Instruction)
  sibling_ixs inline key nullifier_le validity =
      let sibling : Result ActionError (List Instruction) = (do
        data_bytes ← lift bad_nullifier (build_create_nullifier_data nullifier_le validity)
        ok (
            record {
              program_id = nullifier_program;
              account_keys = create_nullifier_accounts sys key validity;
              ix_data = data_bytes;
            }
            ∷ [])) in
      if inline then ok [] else sibling

  abbrev accounts_of : SwapClient → PrivateSwapRequest → Bytes → SwapAccounts
  accounts_of c r key = record {
    pool_program_id = c.pool_program_id;
    verifier_adapt = c.verifier_adapt;
    adapter_program_id = adapter_of c r;
    in_mint = r.in_mint;
    out_mint = r.out_mint;
    adapter_in_ta = r.adapter_in_ta;
    adapter_out_ta = r.adapter_out_ta;
    fee_ata_sentinel = associated r.in_mint key;
    remaining_accounts = r.remaining_accounts;
  }

  -- The data of the pool's instruction.
  unfoldable pub swap_ix_data :
      SwapClient
      → PrivateSwapRequest
      → Bytes
      → Proven
      → Bytes
      → NullifierProof
      → Result ActionError Bytes
  swap_ix_data c r key p adapter_ix_data validity = do
    inlined ← inlined_parts raw sha256 utf8 find sys nullifier_program (inline_of c r) validity
    pool_ix_data sha256 utf8
        (record {
          amount = p.terms.amount;
          expected_out = p.terms.expected_out;
          relayer_pubkey = key;
          adapter_ix_data = adapter_ix_data;
          action_payload = payload_of r;
        })
        r.pending_inputs_mode (dual_note r.phase9_dual_note c.cluster) p.proof inlined

  -- From the proof to what is submitted, once the committing transaction is sent.
  unfoldable pub ready_swap :
      SwapClient → PrivateSwapRequest → Chain → Bytes → Proven → Result SwapError Ready
  ready_swap c r chain key p = do
    adapter_ix_data ← lift_swap action (
        adapter_ix_data_of sha256 utf8 r.adapter_ix_data p.terms.amount p.terms.expected_out
          (payload_of r))
    validity ←
        lift_swap action (validity_of raw sha256 utf8 find sys nullifier_program r.photon_rpc)
    data_bytes ← lift_swap action (swap_ix_data c r key p adapter_ix_data validity)
    pending ← lift_swap commit (pending_key raw sha256 utf8 find sys c r.pending_inputs_mode)
    siblings ← lift_swap action (sibling_ixs (inline_of c r) key (emit 32 p.nullifier) validity)
    tables ← check_tables chain.has_table r
    ok (record {
      pool_ix = record {
        program_id = c.pool_program_id;
        account_keys =
            swap_keys find utf8 sys nullifier_program token_program (accounts_of c r key) key
              pending (inline_of c r) validity;
        ix_data = data_bytes;
      };
      siblings = siblings;
      tables = tables;
    })
