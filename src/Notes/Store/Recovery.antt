-- ===== src/Notes/Store/Recovery.antt =====
-- What a `backfill` of packages/sdk/src/note-store.ts leaves behind.
use b402_solana.Common.{
  ◌⊎◌, ℕ, zero, suc, ◌+◌, ◌<◌, ◌≡◌, refl, ap, ◌∙◌, Bool, true, false, Bool-cases, Option-cases,
  Result-cases, inl, inr, List, [], ◌∷◌, length, Option, none, some, Text, Result, ok, err, ◌==◌,
  ltb, lt→ltb, All,
}
use b402_solana.Wallet.{Wallet}
use b402_solana.Notes.Encryption.{Note, EncryptedNote, NoteError}
use b402_solana.Notes.Events.{CommitmentAppended, le_to_bigint}
use b402_solana.Notes.Store.{NoteStore, has, ingest_commitment}
use b402_solana.Notes.Store.Ownership.{Owned, ingest_commitment-Owned}
use b402_solana.Notes.Store.Backfill.{
  BackfillError, SignatureInfo, Progress, take_event, scan_lines, scan_page, walk, last_signature,
  newest_of, advance, settle, started, nothing_done, backfill, max_pages,
}

module _ (raw : List ℕ → ℕ) (wallet : Wallet)
    (decrypt : EncryptedNote → ℕ → Result NoteError (Option Note))
    (parse : Text → Option CommitmentAppended) where
  abbrev AllOwned : NoteStore → Type 0
  AllOwned s = All (Owned raw wallet) s.notes_by_commitment

  take_event-Owned :
      (p : Progress) (ev : CommitmentAppended)
      → AllOwned p.store
      → AllOwned (take_event raw wallet decrypt parse p ev).0.store
  unfolding take_event
  take_event-Owned p ev h =
      elim (Bool-cases (has (le_to_bigint ev.commitment) p.store.notes_by_commitment)) [
        | inl known ↦ rw (known, take_event) h
        | inr new ↦
            let enc : EncryptedNote = record {
              ciphertext = ev.ciphertext;
              ephemeral_pub = ev.ephemeral_pub;
              viewing_tag = ev.viewing_tag;
            } in
            let kept =
              ingest_commitment-Owned raw wallet decrypt p.store (le_to_bigint ev.commitment)
                ev.leaf_index enc h in
            elim (Result-cases
              (ingest_commitment raw wallet decrypt p.store (le_to_bigint ev.commitment)
                ev.leaf_index enc).1) [
                  | inr (x, failed) ↦ rw (new, failed, take_event) kept
                  | inl (true, done) ↦ rw (new, done, take_event) kept
                  | inl (false, done) ↦ rw (new, done, take_event) kept
                ]
      ]

  scan_lines-Owned :
      (p : Progress) (lines : List Text)
      → AllOwned p.store
      → AllOwned (scan_lines raw wallet decrypt parse p lines).0.store
  unfolding scan_lines
  scan_lines-Owned p [] h = h
  scan_lines-Owned p (line ∷ lines) h = elim (Option-cases (parse line)) [
    | inl other ↦ rw (other, scan_lines) (scan_lines-Owned p lines h)
    | inr (ev, read) ↦
        let kept = take_event-Owned p ev h in
        elim (Result-cases (take_event raw wallet decrypt parse p ev).1) [
          | inr (x, failed) ↦ rw (read, failed, scan_lines) kept
          | inl (done, fine) ↦
              rw (read, fine, scan_lines)
                (scan_lines-Owned (take_event raw wallet decrypt parse p ev).0 lines kept)
        ]
  ]

  module _ (transaction : Text → Option (List Text)) where
    scan_page-Owned :
        (p : Progress) (sigs : List SignatureInfo)
        → AllOwned p.store
        → AllOwned (scan_page raw wallet decrypt parse transaction p sigs).0.store
    unfolding scan_page
    scan_page-Owned p [] h = h
    scan_page-Owned p (sig ∷ sigs) h = elim (Bool-cases sig.failed) [
      | inl bad ↦ rw (bad, scan_page) (scan_page-Owned p sigs h)
      | inr good ↦ elim (Option-cases (transaction sig.signature)) [
        | inl lost ↦ rw (good, lost, scan_page) (scan_page-Owned p sigs h)
        | inr (lines, found) ↦
            let kept = scan_lines-Owned p lines h in
            elim (Result-cases (scan_lines raw wallet decrypt parse p lines).1) [
              | inr (x, failed) ↦ rw (good, found, failed, scan_page) kept
              | inl (done, fine) ↦
                  rw (good, found, fine, scan_page)
                    (scan_page-Owned (scan_lines raw wallet decrypt parse p lines).0 sigs kept)
            ]
      ]
    ]

    module _ (signatures : ℕ → Option Text → Option Text → Result Text (List SignatureInfo))
        (limit : ℕ) where
      walk-Owned :
          (cursor : Option Text) (left : ℕ) (before : Option Text) (p : Progress)
          → AllOwned p.store
          → AllOwned
              (walk raw wallet decrypt parse transaction signatures limit cursor left before
                p).0.store
      unfolding walk
      walk-Owned cursor zero before p h = h
      walk-Owned cursor (suc left) before p h = elim (pages (signatures limit before cursor)) [
        | inl (inl (x, failed)) ↦ rw (failed, walk) h
        | inl (inr last) ↦ rw (last, walk) h
        | inr (newest, rest, page) ↦
            let counted : Progress = record p { txs_scanned = p.txs_scanned + suc (length rest) } in
            let scanned = scan_page raw wallet decrypt parse transaction counted (newest ∷ rest) in
            let kept = scan_page-Owned counted (newest ∷ rest) h in
            elim (Result-cases scanned.1) [
              | inr (x, failed) ↦ rw (page, walk, failed) kept
              | inl (done, fine) ↦ elim (Bool-cases (ltb (suc (length rest)) limit)) [
                | inl short ↦ rw (page, walk, fine, short) kept
                | inr full ↦ elim (Bool-cases (left == 0)) [
                  | inl stop ↦ rw (page, walk, fine, full, stop) kept
                  | inr on ↦
                      rw (page, walk, fine, full, on)
                        (walk-Owned cursor left (some (last_signature newest rest)) scanned.0 kept)
                ]
              ]
            ]
      ]
        where
          pages :
              (answer : Result Text (List SignatureInfo))
              → (((e : Text) × (answer ≡ err e)) ⊎ (answer ≡ ok []))
                ⊎ ((x : SignatureInfo) × (rest : List SignatureInfo) × (answer ≡ ok (x ∷ rest)))
          pages (err e) = inl (inl (e, refl))
          pages (ok []) = inl (inr refl)
          pages (ok (x ∷ rest)) = inr (x, rest, refl)

      abbrev start : Bool → NoteStore → NoteStore
      start = started raw wallet decrypt parse transaction

      start-Owned : (genesis : Bool) (s : NoteStore) → AllOwned s → AllOwned (start genesis s)
      start-Owned true s h = h
      start-Owned false s h = h

      settle-Owned :
          (outcome : Progress × Result BackfillError Bool) (newest cursor : Option Text)
          → AllOwned outcome.0.store
          → AllOwned (settle raw wallet decrypt parse transaction outcome newest cursor).0
      unfolding settle
      settle-Owned (p, err e) newest cursor h = h
      settle-Owned (p, ok truncated) newest cursor h =
          elim (Option-cases
            (advance raw wallet decrypt parse transaction newest truncated cursor)) [
              | inl kept ↦ rw (kept, settle) h
              | inr (sig, moved) ↦ rw (moved, settle) h
            ]

      -- When each note in the store is the wallet's own under its own commitment, this holds after a
      -- backfill, however it ends, whatever the RPC answers and whichever of its calls fail.
      pub backfill-Owned :
          (before : Option Text) (genesis : Bool) (s : NoteStore)
          → AllOwned s
          → AllOwned
              (backfill raw wallet decrypt parse transaction signatures limit before genesis s).0
      unfolding backfill
      backfill-Owned before genesis s h =
          let cursor = (start genesis s).backfill_cursor in
          settle-Owned _
            (newest_of raw wallet decrypt parse transaction (signatures limit before cursor)) cursor
            (walk-Owned cursor max_pages before
              (nothing_done raw wallet decrypt parse transaction (start genesis s))
              (start-Owned genesis s h))

    scan_page-lost :
        ((t : Text) → transaction t ≡ none)
        → (p : Progress) (sigs : List SignatureInfo)
        → scan_page raw wallet decrypt parse transaction p sigs ≡ (p, ok tt)
    unfolding scan_page
    scan_page-lost lost p [] = refl
    scan_page-lost lost p (sig ∷ sigs) = elim (Bool-cases sig.failed) [
      | inl bad ↦ rw (bad, scan_page) (scan_page-lost lost p sigs)
      | inr good ↦ rw (good, lost sig.signature, scan_page) (scan_page-lost lost p sigs)
    ]

    module _ (signatures : ℕ → Option Text → Option Text → Result Text (List SignatureInfo))
        (limit : ℕ) (lost : (t : Text) → transaction t ≡ none) where
      walk-lost :
          (left : ℕ) (before : Option Text) (p : Progress) (newest : SignatureInfo)
          (rest : List SignatureInfo)
          → signatures limit before none ≡ ok (newest ∷ rest)
          → suc (length rest) < limit
          → walk raw wallet decrypt parse transaction signatures limit none (suc left) before p
            ≡ (record p { txs_scanned = p.txs_scanned + suc (length rest) }, ok false)
      unfolding walk
      walk-lost left before p newest rest page short =
          let counted : Progress = record p { txs_scanned = p.txs_scanned + suc (length rest) } in
          let answer : Result BackfillError Bool = ok false in
          rw
            (
              page,
              walk,
              scan_page-lost lost counted (newest ∷ rest),
              lt→ltb (suc (length rest)) limit short,
            )
            (ap (λ (r : Progress × Result NoteError (Unit {0})). (r.0, answer))
              (scan_page-lost lost counted (newest ∷ rest)))

      -- When a forced re-scan finds fewer transactions than a page holds, and the fetch of each one
      -- fails, backfill stores no note and still moves the cursor to the newest of them.
      pub backfill-lost :
          (before : Option Text) (s : NoteStore) (newest : SignatureInfo)
          (rest : List SignatureInfo)
          → signatures limit before none ≡ ok (newest ∷ rest)
          → suc (length rest) < limit
          → (backfill raw wallet decrypt parse transaction signatures limit before true s).0
            ≡ record s { backfill_cursor = some newest.signature }
      unfolding backfill settle advance
      backfill-lost before s newest rest page short =
          let p =
            nothing_done raw wallet decrypt parse transaction
              (record s { backfill_cursor = none }) in
          ap
            (λ o.
              (settle raw wallet decrypt parse transaction o
                (newest_of raw wallet decrypt parse transaction (signatures limit before none))
                none).0)
            (walk-lost 9 before p newest rest page short)
          ∙ ap
              (λ (l : Result Text (List SignatureInfo)).
                (settle raw wallet decrypt parse transaction
                  (record p { txs_scanned = 0 + suc (length rest) }, ok false)
                  (newest_of raw wallet decrypt parse transaction l) none).0)
              page
