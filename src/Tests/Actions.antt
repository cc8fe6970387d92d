-- ===== src/Tests/Actions.antt =====
-- packages/sdk/src/actions at a deposit and a withdrawal of one note, over small stand-ins for the
-- libraries.
use b402_solana.Common.{
  ℕ, ◌+◌, ◌-◌, ◌⊎◌, ◌*◌, ◌%◌, ◌^◌, ◌<◌, ◌≡◌, refl, sym, ap, arith, true, false, List, [], ◌∷◌, ◌++◌,
  map, length, replicate, get_or, none, some, Text, Bytes, emit, ℤ, pos, Result, ok, err, ok_eq,
}
use b402_solana.Protocol.Poseidon.{commitment_hash, spending_pub}
use b402_solana.Merkle.{ClientMerkleTree, MerkleProof, new_tree, init, prove}
use b402_solana.Merkle.{append, bit_at}
use b402_solana.Merkle.Shift.{shr}
use b402_solana.Merkle.Cells.{merkle_root}
use b402_solana.Merkle.Append.Invariant.{IsTree}
use b402_solana.Actions.Shield.{
  ActionError, ShieldParams, Submission, shield_prepare, in_u64, current_tree, shield_ix_data,
  table_missing,
}
use b402_solana.Actions.Wire.{encode_public_inputs, amount_le, encode_encrypted_notes}
use b402_solana.Actions.Deposited.{shield_prepare-Deposits}
use b402_solana.Programs.TreeState.{decode_tree_state}
use b402_solana.Programs.Anchor.{u64_le}
use b402_solana.Protocol.Encoding.{le_to_fr_reduced}
use b402_solana.Merkle.Append.{append_all, append_all-init}
use b402_solana.Wallet.{Wallet}
use b402_solana.Notes.Encryption.{Note, EncryptedNote, NoteError}
use b402_solana.Notes.Store.{SpendableNote}
use b402_solana.Prover.{Proof}
use b402_solana.Actions.Witness.{
  TransactWitness, shield_witness, unshield_witness, split_owner_halves,
}
use b402_solana.Actions.Circuit.{Transact, public_signals}
use b402_solana.Actions.Accepted.{
  shield_witness-Transact, unshield_witness-Transact, Transact-conserves,
}
use b402_solana.Actions.Unshield.{
  UnshieldParams, unshield_prepare, no_source, note_path, validity_of, assembled, inlined_parts,
  unshield_parts, nullifier_ixs,
}
use b402_solana.Actions.Layout.{Fields}
use b402_solana.Actions.WithdrawData.{Recorded}
use b402_solana.Actions.Withdrawn.{unshield_prepare-Fields}
use b402_solana.Programs.Accounts.{Instruction}
use b402_solana.Programs.Nullifier.{
  NullifierProof, LightAccounts, Attempt, answered, encode_address_tree_info,
  build_create_nullifier_data, get_validity_proof_for_nullifier, fetch_rounds, nullifier_proof,
}
use b402_solana.Protocol.Poseidon.{nullifier_hash}
use b402_solana.Relayer.Validate.{extract_relayer_fee}

abbrev pub mix : List ℕ → ℕ
mix [] = 7
mix (x ∷ xs) = (x + 31 * mix xs) % 1009

abbrev pub wallet : Wallet
wallet = record {
  seed = [];
  spending_priv = 4;
  spending_pub = 5;
  viewing_priv = [];
  viewing_pub = [];
}

abbrev note : Note
note = record { token_mint = 1; value = 200; random = 5; spending_pub = 3 }

abbrev leaf : ℕ
leaf = commitment_hash mix 1 200 5 (spending_pub mix 4)

abbrev pub held : SpendableNote
held = record {
  note = note;
  commitment = leaf;
  leaf_index = 0;
  spending_priv = 4;
  encrypted_bytes = [];
  ephemeral_pub = [];
  viewing_tag = [];
}

abbrev pub tree : ClientMerkleTree
tree = append_all mix (init mix (new_tree 26)) (leaf ∷ [])

pub tree_holds :
    (tree.root ≡ merkle_root mix 26 (leaf ∷ []))
    × (tree.leaves ≡ leaf ∷ [])
    × (tree.leaf_count ≡ 1)
    × IsTree mix tree
tree_holds = append_all-init mix 26 (leaf ∷ []) (omega arith)

pub tree_26 : tree.depth ≡ 26
unfolding append_all init new_tree append bit_at shr
tree_26 = refl

pub zeros_26 : length (replicate {A = ℕ} 26 0) ≡ 26
zeros_26 = refl

unshield_witness-Transact_example :
    (proof : MerkleProof) × (prove mix tree 0 ≡ ok proof)
    × Transact mix 26 (unshield_witness mix wallet held proof (replicate 26 0) tree.root 1 8 9)
unshield_witness-Transact_example =
    unshield_witness-Transact mix wallet held tree (replicate 26 0) 8 9 tree_holds.3 tree_26
      (omega (arith, tree_holds.2)) (ap (λ (l : List ℕ). get_or l 0 0) tree_holds.1) (omega arith)
      (omega (arith, zeros_26)) (omega arith) (omega arith)

shield_witness-Transact_example : Transact mix 26 (shield_witness mix wallet 7 1 200 5)
shield_witness-Transact_example = shield_witness-Transact mix wallet 7 1 200 5 (omega arith)

abbrev deposit : TransactWitness
deposit = shield_witness mix wallet 7 1 200 5

Transact-conserves_example :
    ((1 - deposit.in_is_dummy.0) * deposit.in_value.0
        + (1 - deposit.in_is_dummy.1) * deposit.in_value.1
        + deposit.public_amount_in
      ≡ (1 - deposit.out_is_dummy.0) * deposit.out_value.0
        + (1 - deposit.out_is_dummy.1) * deposit.out_value.1
        + deposit.public_amount_out
        + deposit.relayer_fee)
    × ((deposit.public_amount_in ≡ 0) ⊎ (deposit.public_amount_out ≡ 0))
Transact-conserves_example = Transact-conserves mix 26 deposit shield_witness-Transact_example

-- A deposit and a withdrawal that go through.
abbrev pub sha : Bytes → Bytes
sha m = replicate 32 9

abbrev pub key : Bytes
key = replicate 32 1

abbrev pub find : List Bytes → Bytes → Bytes
find seeds program = program

-- A tree account whose current root is 7.
abbrev pub account : Bytes
account = replicate 32 0 ++ (7 ∷ replicate 31 0)

abbrev pub sealed : EncryptedNote
sealed = record {
  ciphertext = replicate 89 1;
  ephemeral_pub = replicate 32 2;
  viewing_tag = replicate 2 3;
}

abbrev pub encrypt : Note → ℕ → Result NoteError EncryptedNote
encrypt n i = ok sealed

abbrev proof_of_witness : TransactWitness → Proof
proof_of_witness w = record {
  proof_bytes = replicate 256 1;
  public_inputs_le = map (emit 32) (public_signals w);
  public_signals = [];
}

abbrev prove_witness : TransactWitness → Result Text Proof
prove_witness w = ok (proof_of_witness w)

pub digest : (m : Bytes) → length (sha m) ≡ 32
digest m = refl

proves :
    (w : TransactWitness) (proof : Proof)
    → prove_witness w ≡ ok proof
    → (proof.public_inputs_le ≡ map (emit 32) (public_signals w)) × (length proof.proof_bytes ≡ 256)
proves w proof e = (
  ap (λ (p : Proof). p.public_inputs_le) (sym (ok_eq e)),
  ap (λ (p : Proof). length p.proof_bytes) (sym (ok_eq e)),
)

abbrev shield_params : ShieldParams
shield_params = record {
  pool_program_id = key;
  verifier_program_id = key;
  wallet = wallet;
  mint = key;
  depositor_ata = key;
  depositor = key;
  relayer = key;
  amount = pos 200;
  omit_encrypted_notes = false;
  alt = some key;
}

abbrev run_shield : Result ActionError (Submission × SpendableNote)
run_shield =
    shield_prepare mix sha (λ t. t) find (some account) key encrypt prove_witness (λ t. true) key
      key shield_params

abbrev value_of : Result ActionError (Submission × SpendableNote) → Submission × SpendableNote
value_of (ok a) = a
value_of (err e) = (
  record { compute_unit_limit = 0; instructions = []; lookup_table = none; signed_by = [] },
  held,
)

deposits : run_shield ≡ ok (value_of run_shield)
unfolding shield_prepare in_u64 current_tree decode_tree_state le_to_fr_reduced public_signals
    shield_ix_data encode_public_inputs amount_le u64_le encode_encrypted_notes table_missing
deposits = refl

shield_prepare-Deposits_example :
    (◌≡◌ {A = ℤ} (pos 200) (pos (value_of run_shield).1.note.value))
    × (0 < (value_of run_shield).1.note.value)
    × ((value_of run_shield).1.note.value < 2 ^ 64)
    × ((value_of run_shield).1.commitment
        ≡ commitment_hash mix
            (value_of run_shield).1.note.token_mint
            (value_of run_shield).1.note.value
            (value_of run_shield).1.note.random
            (value_of run_shield).1.note.spending_pub)
    × (le_to_fr_reduced key ≡ ok (value_of run_shield).1.note.token_mint)
    × ((value_of run_shield).1.note.spending_pub ≡ 5)
    × ((value_of run_shield).1.spending_priv ≡ 4)
    × ((root : ℕ) × (ix : Instruction) × (current_tree (some account)
          ≡ ok (root, (value_of run_shield).1.leaf_index))
        × ((value_of run_shield).0.instructions ≡ ix ∷ [])
        × Fields ix.ix_data
            (emit 32 root)
            (emit 32 0)
            (emit 32 0)
            (emit 32 (value_of run_shield).1.commitment)
            (emit 32 0)
            (emit 8 (value_of run_shield).1.note.value)
            (emit 8 0)
            key
            (emit 8 0)
        × (extract_relayer_fee ix.ix_data ≡ some 0))
shield_prepare-Deposits_example =
    shield_prepare-Deposits mix sha (λ t. t) find (some account) key encrypt prove_witness
      (λ t. true) key key digest proves shield_params (value_of run_shield).0
      (value_of run_shield).1 refl deposits

abbrev pub sys : LightAccounts
sys = record {
  light_system_program = key;
  cpi_authority = key;
  registered_program_pda = key;
  account_compression_authority = key;
  account_compression_program = key;
  system_program = key;
  sysvar_instructions = key;
  batch_address_tree = key;
  default_output_queue = key;
}

abbrev pub photon : ℕ → Attempt
photon k = answered (record {
  compressed_proof = some (record { a = replicate 32 1; b = replicate 64 2; c = replicate 32 3 });
  root_indices = 5 ∷ [];
})

abbrev unshield_params : UnshieldParams
unshield_params = record {
  pool_program_id = key;
  verifier_program_id = key;
  wallet = wallet;
  mint = key;
  note = held;
  tree = none;
  merkle_proof =
      some (record { leaf = leaf; leaf_index = 0; siblings = []; path_bits = []; root = 7 });
  recipient_token_account = key;
  recipient_owner = key;
  relayer = key;
  relayer_http = none;
  photon_rpc = some photon;
  alt = none;
  inline_nullifier_cpi = false;
}

abbrev run_unshield : Result ActionError (Instruction × List Instruction × ℕ)
run_unshield =
    unshield_prepare mix sha (λ t. t) find sys key (some account) prove_witness key unshield_params

abbrev sent_of :
    Result ActionError (Instruction × List Instruction × ℕ) → Instruction × List Instruction × ℕ
sent_of (ok a) = a
sent_of (err e) = (record { program_id = []; account_keys = []; ix_data = [] }, [], 0)

withdraws : run_unshield ≡ ok (sent_of run_unshield)
unfolding unshield_prepare no_source current_tree decode_tree_state le_to_fr_reduced note_path
    split_owner_halves validity_of get_validity_proof_for_nullifier fetch_rounds nullifier_proof
    assembled inlined_parts unshield_parts nullifier_ixs public_signals amount_le u64_le
    build_create_nullifier_data encode_address_tree_info emit
withdraws = refl

unshield_prepare-Fields_example :
    ((sent_of run_unshield).2 ≡ nullifier_hash mix 4 0)
    × ((root : ℕ) × Fields
          (sent_of run_unshield).0.ix_data
          (emit 32 root)
          (emit 32 (sent_of run_unshield).2)
          (emit 32 0)
          (emit 32 0)
          (emit 32 0)
          (emit 8 0)
          (emit 8 200)
          key
          (emit 8 0))
    × (extract_relayer_fee (sent_of run_unshield).0.ix_data ≡ some 0)
    × ((v : NullifierProof) × (validity_of mix sha (λ t. t) find sys key (some photon) ≡ ok v)
        × Recorded key
            (emit 32 (sent_of run_unshield).2)
            v
            false
            (sent_of run_unshield).0
            (sent_of run_unshield).1)
unshield_prepare-Fields_example =
    unshield_prepare-Fields mix sha (λ t. t) find sys key (some account) prove_witness key digest
      proves unshield_params (sent_of run_unshield).0 (sent_of run_unshield).1
      (sent_of run_unshield).2 refl withdraws
