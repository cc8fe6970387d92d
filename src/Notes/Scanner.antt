-- ===== src/Notes/Scanner.antt =====
-- packages/sdk/src/notes/scanner.ts: `ingest` and `handleLogs`, over the parameters of the note store.
-- A call that throws ends the loop over the lines; the listener only prints it.
use b402_solana.Common.{
  ℕ, Bool, true, false, List, [], ◌∷◌, ◌++◌, Option, none, some, Option-cases, Result-cases, inl,
  inr, Text, Result, ok, err, if◌then◌else◌, All,
}
use b402_solana.Merkle.{ClientMerkleTree, MerkleError, append}
use b402_solana.Wallet.{Wallet}
use b402_solana.Notes.Encryption.{Note, EncryptedNote, NoteError}
use b402_solana.Notes.Events.{CommitmentAppended, le_to_bigint}
use b402_solana.Notes.Store.{NoteStore, ingest_commitment}
use b402_solana.Notes.Store.Ownership.{Owned, ingest_commitment-Owned}

pub data ScannerError : Type 0 where
  tree_refused : MerkleError → ScannerError
  note_refused : NoteError → ScannerError

pub record Scanner : Type 0 where
  pub events : List CommitmentAppended
  pub tree : ClientMerkleTree
  pub note_store : NoteStore

abbrev pub encrypted_note : CommitmentAppended → EncryptedNote
encrypted_note ev = record {
  ciphertext = ev.ciphertext;
  ephemeral_pub = ev.ephemeral_pub;
  viewing_tag = ev.viewing_tag;
}

abbrev pub owned_or_thrown : Result NoteError Bool → Result ScannerError Bool
owned_or_thrown (ok owned) = ok owned
owned_or_thrown (err e) = err (note_refused e)

module _ (raw : List ℕ → ℕ) (wallet : Wallet)
    (decrypt : EncryptedNote → ℕ → Result NoteError (Option Note))
    (parse : Text → Option CommitmentAppended) where
  -- The scanner after the call, and whether the note is owned; a wrong index is only printed.
  unfoldable pub ingest : Scanner → CommitmentAppended → Scanner × Result ScannerError Bool
  ingest s ev =
      let c = le_to_bigint ev.commitment in
      let grown = append raw s.tree c in
      let claimed =
        ingest_commitment raw wallet decrypt s.note_store c ev.leaf_index (encrypted_note ev) in
      elim grown.1 [
        | err e ↦ (record s { tree = grown.0 }, err (tree_refused e))
        | ok at ↦ (record s { tree = grown.0; note_store = claimed.0 }, owned_or_thrown claimed.1)
      ]

  unfoldable pub scan_log : Scanner → List Text → Scanner
  scan_log s [] = s
  scan_log s (line ∷ lines) = elim (parse line) [
    | none ↦ scan_log s lines
    | some ev ↦
        let (s', result) = ingest (record s { events = s.events ++ (ev ∷ []) }) ev in
        elim result [ err e ↦ s' | ok owned ↦ scan_log s' lines ]
  ]

  unfoldable pub handle_logs : Scanner → Bool → List Text → Scanner
  unfolding scan_log
  handle_logs s failed lines = if failed then s else scan_log s lines

  abbrev OwnedOnly : Scanner → Type 0
  OwnedOnly s = All (Owned raw wallet) s.note_store.notes_by_commitment

  ingest-OwnedOnly :
      (s : Scanner) (ev : CommitmentAppended) → OwnedOnly s → OwnedOnly (ingest s ev).0
  unfolding ingest
  ingest-OwnedOnly s ev h = elim (Result-cases (append raw s.tree (le_to_bigint ev.commitment)).1) [
    | inl (at, done) ↦
        rw (done, ingest)
          (ingest_commitment-Owned raw wallet decrypt s.note_store (le_to_bigint ev.commitment)
            ev.leaf_index (encrypted_note ev) h)
    | inr (x, full) ↦ rw (full, ingest) h
  ]

  scan_log-OwnedOnly :
      (s : Scanner) (lines : List Text) → OwnedOnly s → OwnedOnly (scan_log s lines)
  unfolding scan_log
  scan_log-OwnedOnly s [] h = h
  scan_log-OwnedOnly s (line ∷ lines) h = elim (Option-cases (parse line)) [
    | inl other ↦ rw (other, scan_log) (scan_log-OwnedOnly s lines h)
    | inr (ev, read) ↦
        let seen : Scanner = record s { events = s.events ++ (ev ∷ []) } in
        let kept = ingest-OwnedOnly seen ev h in
        elim (Result-cases (ingest seen ev).1) [
          | inr (x, thrown) ↦ rw (read, scan_log, thrown) kept
          | inl (owned, fine) ↦
              rw (read, scan_log, fine) (scan_log-OwnedOnly (ingest seen ev).0 lines kept)
        ]
  ]

  -- When each note in the store is the wallet's own under its own commitment, this holds after the
  -- logs of a transaction were handled, whatever they hold and however the tree and the store react.
  pub handle_logs-Owned :
      (s : Scanner) (failed : Bool) (lines : List Text)
      → All (Owned raw wallet) s.note_store.notes_by_commitment
      → All (Owned raw wallet) (handle_logs s failed lines).note_store.notes_by_commitment
  unfolding handle_logs
  handle_logs-Owned s true lines h = h
  handle_logs-Owned s false lines h = scan_log-OwnedOnly s lines h
