-- ===== src/Tests/Calling.antt =====
-- shield and unshield of packages/sdk/src/b402.ts at a deposit of 200 and its withdrawal, with a token
-- account to be created and a status that comes at the second call.
use b402_solana.Common.{
  ℕ, zero, suc, ◌≡◌, refl, Bool, true, false, [], ◌∷◌, Option, none, some, Text, Bytes, pos, Result,
  ok,
}
use b402_solana.Merkle.{MerkleProof}
use b402_solana.Notes.Store.{SpendableNote, NoteStore, is_spent, mark_spent, insert_note}
use b402_solana.Actions.Confirm.{TxStatus}
use b402_solana.Actions.Shield.{ActionError, ShieldParams, ShieldResult}
use b402_solana.Actions.Unshield.{UnshieldParams, UnshieldResult}
use b402_solana.Client.{ClientError, note_to_unshield, confirm_and_mark_spent, confirm_rounds}
use b402_solana.Client.Spent.{Landed}
use b402_solana.Client.Calls.{
  Setup, ClientState, ShieldRequest, UnshieldRequest, require_relayer, shield_params, client_shield,
  unshield_params, ensure_ata, send_unshield, close_unshield, client_unshield,
}
use b402_solana.Client.Called.{Withdrawn, client_shield-unshield}
use b402_solana.Tests.Actions.{wallet}

abbrev empty_store : NoteStore
empty_store = record { notes_by_commitment = []; spent_nullifiers = []; backfill_cursor = none }

abbrev fresh : ClientState
fresh = record { notes = empty_store; last_shield = none }

abbrev setup : Setup
setup = record {
  pool_program_id = 1 ∷ [];
  verifier_program_id = 2 ∷ [];
  has_prover = true;
  wallet = wallet;
  signer = 3 ∷ [];
  relayer = some (4 ∷ []);
  relayer_http = none;
  default_alt = some (5 ∷ []);
  inline_cpi_nullifier = false;
  associated = λ mint owner. mint;
}

abbrev deposited_note : SpendableNote
deposited_note = record {
  note = record { token_mint = 6; value = 200; random = 5; spending_pub = 5 };
  commitment = 70;
  leaf_index = 0;
  spending_priv = 4;
  encrypted_bytes = [];
  ephemeral_pub = [];
  viewing_tag = [];
}

abbrev made : ShieldResult
made = record { signature = 1 ∷ []; commitment = 70; leaf_index = 0; note = deposited_note }

abbrev deposit : ShieldParams → Result ActionError ShieldResult
deposit p = ok made

abbrev taken : UnshieldResult
taken = record { signature = 2 ∷ []; nullifier = 9; amount_transferred = 200 }

abbrev withdraw : UnshieldParams → Result ActionError UnshieldResult
withdraw p = ok taken

abbrev paths : SpendableNote → Result ClientError MerkleProof
paths n = ok (record {
  leaf = n.commitment;
  leaf_index = n.leaf_index;
  siblings = [];
  path_bits = [];
  root = 8;
})

abbrev missing_ata : Bytes → Result Text Bool
missing_ata ata = ok false

abbrev create_ata : Bytes → Bytes → Bytes → Bytes → Result Text (Unit {0})
create_ata relayer ata owner mint = ok tt

abbrev second_call : ℕ → Result Text (Option TxStatus)
second_call zero = ok none
second_call (suc k) = ok (some (record { confirmed = true; failure = none }))

abbrev shield_request : ShieldRequest
shield_request = record { mint = 6 ∷ []; amount = pos 200; omit_encrypted_notes = none }

abbrev unshield_request : UnshieldRequest
unshield_request = record {
  to = 7 ∷ [];
  recipient_ata = none;
  note = none;
  mint = none;
  photon_rpc = none;
  alt = none;
  inline_cpi_nullifier = none;
}

abbrev stored : NoteStore
stored = insert_note empty_store deposited_note

abbrev between : ClientState
between = record { notes = stored; last_shield = some (deposited_note, 6 ∷ []) }

abbrev after : ClientState
after = record { notes = mark_spent stored 70; last_shield = some (deposited_note, 6 ∷ []) }

shielded : client_shield deposit setup shield_request fresh ≡ (between, ok made)
unfolding client_shield require_relayer shield_params
shielded = refl

unshielded :
    client_unshield withdraw paths missing_ata create_ata second_call setup unshield_request between
    ≡ (after, ok taken)
unfolding client_unshield require_relayer unshield_params ensure_ata send_unshield close_unshield
    note_to_unshield confirm_and_mark_spent confirm_rounds
unshielded = refl

client_shield-unshield_example :
    Withdrawn withdraw paths missing_ata create_ata second_call setup unshield_request
      deposited_note
      (6 ∷ [])
      taken
    × ((j : ℕ) × (o : Option TxStatus) × (second_call j ≡ ok o) × Landed o)
    × (after.notes ≡ mark_spent (insert_note fresh.notes deposited_note) 70)
    × (is_spent after.notes deposited_note ≡ true)
    × (note_to_unshield after.notes after.last_shield none none ≡ ok (deposited_note, 6 ∷ []))
client_shield-unshield_example =
    client_shield-unshield withdraw paths missing_ata create_ata second_call deposit setup
      shield_request unshield_request fresh between after made taken refl refl shielded unshielded
