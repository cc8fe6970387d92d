-- ===== src/Notes/Store/Backfill.antt =====
-- packages/sdk/src/note-store.ts: `backfill`, which pages through the pool's transactions, newest
-- first, back to the cursor. The batches of two only pace the calls and keep their order.
use b402_solana.Common.{
  ℕ, zero, suc, ◌+◌, Bool, true, false, List, [], ◌∷◌, length, Option, none, some, Text, text_eq,
  Result, ok, err, if◌then◌else◌, ltb, ◌==◌,
}
use b402_solana.Wallet.{Wallet}
use b402_solana.Notes.Encryption.{Note, EncryptedNote, NoteError}
use b402_solana.Notes.Events.{CommitmentAppended, le_to_bigint}
use b402_solana.Notes.Store.{NoteStore, has, ingest_commitment}

pub data BackfillError : Type 0 where
  rpc_error : Text → BackfillError
  not_ingested : NoteError → BackfillError

pub record SignatureInfo : Type 0 where
  pub signature : Text
  pub failed : Bool

-- The counters of one call, and the store as it goes.
pub record Progress : Type 0 where
  pub store : NoteStore
  pub txs_scanned : ℕ
  pub events_seen : ℕ
  pub notes_ingested : ℕ

pub record Report : Type 0 where
  pub txs_scanned : ℕ
  pub events_seen : ℕ
  pub notes_ingested : ℕ
  pub cursor_advanced : Bool
  pub truncated : Bool

abbrev pub max_pages : ℕ
max_pages = 10

abbrev pub last_signature : SignatureInfo → List SignatureInfo → Text
last_signature x [] = x.signature
last_signature x (y ∷ rest) = last_signature y rest

module _ (raw : List ℕ → ℕ) (wallet : Wallet)
    (decrypt : EncryptedNote → ℕ → Result NoteError (Option Note))
    (parse : Text → Option CommitmentAppended) where
  -- An event of a log line; a call that throws ends the backfill.
  unfoldable pub take_event : Progress → CommitmentAppended → Progress × Result NoteError (Unit {0})
  take_event p ev =
      let c = le_to_bigint ev.commitment in
      if has c p.store.notes_by_commitment
      then (record p { events_seen = suc p.events_seen }, ok tt)
      else let enc : EncryptedNote = record {
        ciphertext = ev.ciphertext;
        ephemeral_pub = ev.ephemeral_pub;
        viewing_tag = ev.viewing_tag;
      } in
        let (store, result) = ingest_commitment raw wallet decrypt p.store c ev.leaf_index enc in
        let seen = record p { store = store; events_seen = suc p.events_seen } in
        elim result [
          | err e ↦ (seen, err e)
          | ok false ↦ (seen, ok tt)
          | ok true ↦ (record seen { notes_ingested = suc seen.notes_ingested }, ok tt)
        ]

  unfoldable pub scan_lines : Progress → List Text → Progress × Result NoteError (Unit {0})
  scan_lines p [] = (p, ok tt)
  scan_lines p (line ∷ lines) = elim (parse line) [
    | none ↦ scan_lines p lines
    | some ev ↦
        let (q, result) = take_event p ev in
        elim result [ err e ↦ (q, err e) | ok done ↦ scan_lines q lines ]
  ]

  module _ (transaction : Text → Option (List Text)) where
    -- The lines of a page's transactions; one that failed on chain is not fetched, and one whose
    -- fetch failed is passed over.
    unfoldable pub scan_page :
        Progress → List SignatureInfo → Progress × Result NoteError (Unit {0})
    scan_page p [] = (p, ok tt)
    scan_page p (sig ∷ sigs) =
        if sig.failed then scan_page p sigs else elim (transaction sig.signature) [
          | none ↦ scan_page p sigs
          | some lines ↦
              let (q, result) = scan_lines p lines in
              elim result [ err e ↦ (q, err e) | ok done ↦ scan_page q sigs ]
        ]

    module _ (signatures : ℕ → Option Text → Option Text → Result Text (List SignatureInfo))
        (limit : ℕ) (cursor : Option Text) where
      -- The loop over the pages: what was done, and whether the last allowed page was a full one. A
      -- call for a page that fails ends the backfill, with what the pages before it have stored.
      unfoldable pub walk : ℕ → Option Text → Progress → Progress × Result BackfillError Bool
      walk zero before p = (p, ok false)
      walk (suc left) before p = elim (signatures limit before cursor) [
        | err e ↦ (p, err (rpc_error e))
        | ok [] ↦ (p, ok false)
        | ok (newest ∷ rest) ↦
            let counted = record p { txs_scanned = p.txs_scanned + suc (length rest) } in
            let (q, result) = scan_page counted (newest ∷ rest) in
            let older = walk left (some (last_signature newest rest)) q in
            elim result [
              | err e ↦ (q, err (not_ingested e))
              | ok done ↦
                  if ltb (suc (length rest)) limit
                  then (q, ok false)
                  else if left == 0
                  then (q, ok true)
                  else older
            ]
      ]

    abbrev pub newest_of : Result Text (List SignatureInfo) → Option Text
    newest_of (err e) = none
    newest_of (ok []) = none
    newest_of (ok (sig ∷ sigs)) = some sig.signature

    -- Whether the cursor moves: the newest signature of the first page, the range walked to its end.
    unfoldable pub advance : Option Text → Bool → Option Text → Option Text
    advance none truncated cursor = none
    advance (some newest) true cursor = none
    advance (some newest) false none = some newest
    advance (some newest) false (some old) = if text_eq newest old then none else some newest

    -- What is done with the outcome of the pages: the cursor moves, or the call throws.
    unfoldable pub settle :
        Progress × Result BackfillError Bool
        → Option Text
        → Option Text
        → NoteStore × Result BackfillError Report
    settle (p, err e) newest cursor = (p.store, err e)
    settle (p, ok truncated) newest cursor =
        let report : Bool → Report = λ advanced. record {
          txs_scanned = p.txs_scanned;
          events_seen = p.events_seen;
          notes_ingested = p.notes_ingested;
          cursor_advanced = advanced;
          truncated = truncated;
        } in
        elim (advance newest truncated cursor) [
          | none ↦ (p.store, ok (report false))
          | some sig ↦ (record p.store { backfill_cursor = some sig }, ok (report true))
        ]

    abbrev pub started : Bool → NoteStore → NoteStore
    started genesis s = if genesis then record s { backfill_cursor = none } else s

    abbrev pub nothing_done : NoteStore → Progress
    nothing_done s = record { store = s; txs_scanned = 0; events_seen = 0; notes_ingested = 0 }

    unfoldable pub backfill :
        (ℕ → Option Text → Option Text → Result Text (List SignatureInfo))
        → ℕ
        → Option Text
        → Bool
        → NoteStore
        → NoteStore × Result BackfillError Report
    backfill signatures limit before genesis s =
        let cursor = (started genesis s).backfill_cursor in
        settle (walk signatures limit cursor max_pages before (nothing_done (started genesis s)))
          (newest_of (signatures limit before cursor)) cursor
