-- ===== src/Client/Calls.antt =====
-- packages/sdk/src/b402.ts: the methods `shield` and `unshield` of the client, around the actions.
-- `deposit` and `withdraw` are the actions of packages/sdk/src/actions (Actions.Shield and
-- Actions.Unshield) over what they need of the outside, `paths` is `_proveLeafForSpend`, `ata_exists`
-- and `create_ata` the RPC. `learnMint`, the waiting for the indexer behind a deposit, `ready` and the
-- loading of the prover are left out.
use b402_solana.Common.{
  ℕ, Bool, true, false, Option, none, some, Text, Bytes, ℤ, Result, ok, err, ◌>>=◌, if◌then◌else◌,
}
use b402_solana.Merkle.{MerkleProof}
use b402_solana.Notes.Store.{SpendableNote, NoteStore, insert_note}
use b402_solana.Programs.Nullifier.{Attempt}
use b402_solana.Wallet.{Wallet}
use b402_solana.Actions.Confirm.{TxStatus}
use b402_solana.Actions.Shield.{ActionError, ShieldParams, ShieldResult}
use b402_solana.Actions.Unshield.{UnshieldParams, UnshieldResult}
use b402_solana.Client.{ClientError, note_to_unshield, confirm_and_mark_spent}

pub data CallError : Type 0 where
  no_prover no_relayer : CallError
  action : ActionError → CallError
  client_error : ClientError → CallError
  no_ata : Text → CallError

abbrev pub lift_call : {E A : Type 0} → (E → CallError) → Result E A → Result CallError A
lift_call wrap (ok a) = ok a
lift_call wrap (err e) = err (wrap e)

-- What the constructor has set; `default_alt` is the cluster's lookup table, if it has one, and
-- `associated` the token account of a mint and an owner.
pub record Setup : Type 0 where
  pub pool_program_id : Bytes
  pub verifier_program_id : Bytes
  pub has_prover : Bool
  pub wallet : Wallet
  pub signer : Bytes
  pub relayer : Option Bytes
  pub relayer_http : Option Bytes
  pub default_alt : Option Bytes
  pub inline_cpi_nullifier : Bool
  pub associated : Bytes → Bytes → Bytes

pub record ClientState : Type 0 where
  pub notes : NoteStore
  pub last_shield : Option (SpendableNote × Bytes)

pub record ShieldRequest : Type 0 where
  pub mint : Bytes
  pub amount : ℤ
  pub omit_encrypted_notes : Option Bool

pub record UnshieldRequest : Type 0 where
  pub to : Bytes
  pub recipient_ata : Option Bytes
  pub note : Option SpendableNote
  pub mint : Option Bytes
  pub photon_rpc : Option (ℕ → Attempt)
  pub alt : Option Bytes
  pub inline_cpi_nullifier : Option Bool

abbrev pub or_else {ℓ} : {A : Type ℓ} → Option A → A → A
or_else none a = a
or_else (some b) a = b

unfoldable pub require_relayer : Setup → Result CallError Bytes
require_relayer c = elim c.relayer [ some key ↦ ok key | none ↦ err no_relayer ]

unfoldable pub shield_params : Setup → ShieldRequest → Bytes → ShieldParams
shield_params c r relayer = record {
  pool_program_id = c.pool_program_id;
  verifier_program_id = c.verifier_program_id;
  wallet = c.wallet;
  mint = r.mint;
  depositor_ata = c.associated r.mint c.signer;
  depositor = c.signer;
  relayer = relayer;
  amount = r.amount;
  omit_encrypted_notes =
      or_else r.omit_encrypted_notes (elim c.default_alt [ some alt ↦ false | none ↦ true ]);
  alt = c.default_alt;
}

unfoldable pub client_shield :
    (ShieldParams → Result ActionError ShieldResult)
    → Setup
    → ShieldRequest
    → ClientState
    → ClientState × Result CallError ShieldResult
unfolding shield_params require_relayer
client_shield deposit c r s =
    let run : Result CallError ShieldResult = (do
      relayer ← require_relayer c
      lift_call action (deposit (shield_params c r relayer))) in
    elim (if c.has_prover then run else err no_prover) [
      | err e ↦ (s, err e)
      | ok result ↦ (
        record {
          notes = insert_note s.notes result.note;
          last_shield = some (result.note, r.mint);
        },
        ok result,
      )
    ]

unfoldable pub unshield_params :
    Setup → UnshieldRequest → SpendableNote → Bytes → MerkleProof → Bytes → UnshieldParams
unshield_params c r n mint path relayer = record {
  pool_program_id = c.pool_program_id;
  verifier_program_id = c.verifier_program_id;
  wallet = c.wallet;
  mint = mint;
  note = n;
  tree = none;
  merkle_proof = some path;
  recipient_token_account = or_else r.recipient_ata (c.associated mint r.to);
  recipient_owner = r.to;
  relayer = relayer;
  relayer_http = c.relayer_http;
  photon_rpc = r.photon_rpc;
  alt = r.alt;
  inline_nullifier_cpi = or_else r.inline_cpi_nullifier c.inline_cpi_nullifier;
}

module _ (withdraw : UnshieldParams → Result ActionError UnshieldResult)
    (paths : SpendableNote → Result ClientError MerkleProof) (ata_exists : Bytes → Result Text Bool)
    (create_ata : Bytes → Bytes → Bytes → Bytes → Result Text (Unit {0}))
    (statuses : ℕ → Result Text (Option TxStatus)) where
  -- The relayer pays for the recipient's token account where it is missing.
  unfoldable pub ensure_ata : Setup → Bytes → Bytes → Bytes → Result CallError (Unit {0})
  unfolding require_relayer
  ensure_ata c ata owner mint =
      let create : Result CallError (Unit {0}) = (do
        relayer ← require_relayer c
        lift_call no_ata (create_ata relayer ata owner mint)) in
      elim (ata_exists ata) [ err e ↦ err (no_ata e) | ok there ↦ if there then ok tt else create ]

  -- The withdrawal of the note that is chosen.
  unfoldable pub send_unshield :
      Setup → UnshieldRequest → SpendableNote → Bytes → Result CallError UnshieldResult
  unfolding unshield_params require_relayer ensure_ata
  send_unshield c r n mint = do
    there ← ensure_ata c (or_else r.recipient_ata (c.associated mint r.to)) r.to mint
    path ← lift_call client_error (paths n)
    relayer ← require_relayer c
    lift_call action (withdraw (unshield_params c r n mint path relayer))

  -- The store that `_confirmAndMarkSpent` leaves, and what the call returns.
  unfoldable pub close_unshield :
      SpendableNote → UnshieldResult → ClientState → ClientState × Result CallError UnshieldResult
  close_unshield n result s =
      let confirmed : NoteStore × Result ClientError (Unit {0}) =
        confirm_and_mark_spent statuses s.notes n.commitment in
      (
        record s { notes = confirmed.0 },
        elim confirmed.1 [ err e ↦ err (client_error e) | ok done ↦ ok result ],
      )

  unfoldable pub client_unshield :
      Setup → UnshieldRequest → ClientState → ClientState × Result CallError UnshieldResult
  unfolding send_unshield close_unshield
  client_unshield c r s =
      if c.has_prover
      then (elim (note_to_unshield s.notes s.last_shield r.note r.mint) [
        | err e ↦ (s, err (client_error e))
        | ok (n, mint) ↦ elim (send_unshield c r n mint) [
          | err e ↦ (s, err e)
          | ok result ↦ close_unshield n result s
        ]
      ])
      else (s, err no_prover)
