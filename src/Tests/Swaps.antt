-- ===== src/Tests/Swaps.antt =====
-- `privateSwap` at one note, over the stand-ins of the actions.
use b402_solana.Common.{
  ℕ, ◌+◌, ◌-◌, ◌*◌, ◌≡◌, refl, ap, arith, true, false, List, [], ◌∷◌, ◌++◌, Bool, map, get_or,
  replicate, none, some, Option, Text, Bytes, emit, pos, Result, ok, err, if◌then◌else◌,
}
use b402_solana.Protocol.Encoding.{le_to_fr_reduced}
use b402_solana.Programs.Anchor.{u64_le}
use b402_solana.Merkle.{MerkleProof, prove}
use b402_solana.Notes.Store.{NoteStore}
use b402_solana.Prover.{Proof}
use b402_solana.Actions.Confirm.{TxStatus}
use b402_solana.Client.{note_to_swap, confirm_and_mark_spent, confirm_rounds}
use b402_solana.Swap.Witness.{AdaptWitness, Terms, swap_witness}
use b402_solana.Swap.Circuit.{Adapt, adapt_public_signals}
use b402_solana.Swap.Accepted.{swap_witness-Adapt, Adapt-conserves}
use b402_solana.Actions.Wire.{amount_le}
use b402_solana.Actions.Unshield.{validity_of, inlined_parts}
use b402_solana.Programs.TreeState.{decode_tree_state}
use b402_solana.Programs.Nullifier.{
  get_validity_proof_for_nullifier, fetch_rounds, nullifier_proof, build_create_nullifier_data,
  encode_address_tree_info,
}
use b402_solana.Swap.Flow.{swap_setup, prove_swap, ready_swap, swap_ix_data, sibling_ixs}
use b402_solana.Swap.Data.{adapt_execute_parts, adapter_ix_data_of, SwapData, pool_ix_data}
use b402_solana.Swap.Prepare.{
  SwapError, SwapClient, PrivateSwapRequest, Chain, Ready, mainnet, not_submitted, relayer_key,
  swap_terms, next_leaf, commit_inputs, pending_key, check_tables,
}
use b402_solana.Swap.Settle.{PrivateSwapResult, private_swap, vault_amount, send_swap, settle_swap}
use b402_solana.Swap.Unlanded.{private_swap-failed}
use b402_solana.Tests.Actions.{
  mix, wallet, held, tree, tree_holds, tree_26, zeros_26, sha, find, key, account, encrypt, sys,
  photon,
}

abbrev terms : Terms
terms = record {
  in_mint_fr = 1;
  out_mint_fr = 2;
  adapter_id = 3;
  payload_keccak_fr = 4;
  amount = 200;
  expected_out = 400;
  out_random = 6;
}

accepted :
    (proof : MerkleProof) × (prove mix tree 0 ≡ ok proof)
    × Adapt mix 26 (swap_witness mix wallet held proof (replicate 26 0) terms)
accepted =
    swap_witness-Adapt mix wallet held tree (replicate 26 0) terms tree_holds.3 tree_26
      (omega (arith, tree_holds.2)) (ap (λ (l : List ℕ). get_or l 0 0) tree_holds.1) refl
      (omega arith) (omega arith) (omega (arith, zeros_26))

swap_witness-Adapt_example :
    (proof : MerkleProof) × (prove mix tree 0 ≡ ok proof)
    × Adapt mix 26 (swap_witness mix wallet held proof (replicate 26 0) terms)
swap_witness-Adapt_example =
    swap_witness-Adapt mix wallet held tree (replicate 26 0) terms tree_holds.3 tree_26
      (omega (arith, tree_holds.2)) (ap (λ (l : List ℕ). get_or l 0 0) tree_holds.1) refl
      (omega arith) (omega arith) (omega (arith, zeros_26))

abbrev swapped : AdaptWitness
swapped = swap_witness mix wallet held accepted.0 (replicate 26 0) terms

Adapt-conserves_example :
    ((1 - swapped.in_is_dummy.0) * swapped.in_value.0
        + (1 - swapped.in_is_dummy.1) * swapped.in_value.1
      ≡ swapped.public_amount_in + swapped.relayer_fee)
    × ((1 - swapped.out_is_dummy.0) * swapped.out_value.0
          + (1 - swapped.out_is_dummy.1) * swapped.out_value.1
        ≡ swapped.expected_out_value)
    × (swapped.public_amount_out ≡ 0)
Adapt-conserves_example = Adapt-conserves mix 26 swapped accepted.2

-- The data, with a proof that returns a witness's public signals.
abbrev path : MerkleProof
path = record { leaf = 0; leaf_index = 0; siblings = []; path_bits = []; root = 7 }

abbrev plain : AdaptWitness
plain = swap_witness mix wallet held path [] terms

abbrev proof_for : AdaptWitness → Proof
proof_for w = record {
  proof_bytes = replicate 256 1;
  public_inputs_le = map (emit 32) (adapt_public_signals w);
  public_signals = [];
}

abbrev data_parts : SwapData
data_parts = record {
  amount = 200;
  expected_out = 400;
  relayer_pubkey = key;
  adapter_ix_data = 9 ∷ [];
  action_payload = replicate 8 0;
}

abbrev bytes_of : {E : Type 0} → Result E Bytes → Bytes
bytes_of (ok b) = b
bytes_of (err e) = []

abbrev wire : Bytes
wire = bytes_of (pool_ix_data sha (λ t. t) data_parts false true (proof_for plain) [])

whole : pool_ix_data sha (λ t. t) data_parts false true (proof_for plain) [] ≡ ok wire
unfolding pool_ix_data adapt_execute_parts amount_le u64_le
whole = refl

-- A swap that goes through, with 450 come in where 400 were expected, and one that is not submitted.
abbrev client : SwapClient
client = record {
  pool_program_id = key;
  verifier_adapt = key;
  jupiter_adapter = key;
  cluster = mainnet;
  inline_cpi_nullifier = false;
  relayer_http = some key;
  relayer = none;
  has_prover = true;
  adapt_prover = some (λ w. ok (proof_for w));
  wallet = wallet;
}

abbrev request : PrivateSwapRequest
request = record {
  in_mint = 1 ∷ replicate 31 0;
  out_mint = 2 ∷ replicate 31 0;
  amount = 200;
  adapter_program_id = none;
  adapter_in_ta = key;
  adapter_out_ta = key;
  alt = some key;
  alts = [];
  expected_out = none;
  adapter_ix_data = none;
  action_payload = none;
  note = some held;
  photon_rpc = some photon;
  remaining_accounts = [];
  inline_cpi_nullifier = none;
  phase9_dual_note = none;
  pending_inputs_mode = false;
}

abbrev chain : Chain
chain = record {
  tree_account = some account;
  pending_account = none;
  has_table = λ t. true;
  random_bytes = 6 ∷ replicate 31 0;
}

abbrev vault : Bool → Result Text (Option Bytes)
vault later = ok (some (replicate 64 0 ++ emit 8 (if later then 450 else 0)))

abbrev landed : ℕ → Result Text (Option TxStatus)
landed k = ok (some (record { confirmed = true; failure = none }))

abbrev start : NoteStore
start = record { notes_by_commitment = []; spent_nullifiers = []; backfill_cursor = none }

abbrev run : (Ready → Result Text Text) → NoteStore × Result SwapError PrivateSwapResult
run submit =
    private_swap mix sha sha (λ t. t) find (λ m k. key) sys key key (λ n. ok path) encrypt
      (λ ix. ok tt) submit (λ s. ok tt) vault landed none client request chain start

abbrev result_of : Result SwapError PrivateSwapResult → PrivateSwapResult
result_of (ok res) = res
result_of (err e) = record {
  signature = [];
  out_note = held;
  out_amount = pos 0;
  excess_note = none;
}

abbrev done : PrivateSwapResult
done = result_of (run (λ x. ok [])).1

-- The relayer refuses.
abbrev refused : NoteStore × Result SwapError PrivateSwapResult
refused = run (λ x. err [])

is_refused : refused ≡ (refused.0, err (not_submitted []))
unfolding private_swap swap_setup relayer_key le_to_fr_reduced note_to_swap prove_swap swap_terms
    next_leaf decode_tree_state commit_inputs ready_swap adapter_ix_data_of amount_le u64_le
    validity_of get_validity_proof_for_nullifier fetch_rounds nullifier_proof swap_ix_data
    inlined_parts pool_ix_data adapt_execute_parts pending_key sibling_ixs
    build_create_nullifier_data encode_address_tree_info check_tables vault_amount send_swap
    settle_swap confirm_and_mark_spent confirm_rounds emit
is_refused = refl

private_swap-failed_example : refused.0.notes_by_commitment ≡ start.notes_by_commitment
private_swap-failed_example =
    private_swap-failed mix sha sha (λ t. t) find (λ m k. key) sys key key (λ n. ok path) encrypt
      (λ ix. ok tt) (λ x. err []) (λ s. ok tt) vault landed none client request chain start
      refused.0 (not_submitted []) is_refused
