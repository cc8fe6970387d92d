-- ===== src/Notes/Store.antt =====
-- packages/sdk/src/note-store.ts: the state of a NoteStore and its operations, without the file it
-- may be saved in. A Map lists its entries in insertion order; its keys and the members of the set,
-- decimal strings of numbers in the code, are the numbers. `decrypt` is tryDecryptNote with the
-- wallet's viewing key and spending key, `parse` is parseProgramDataLog; the RPC's answers are
-- `signatures` (of a `before` and an `until`, an error where the call fails) and `transaction`, the log
-- lines, `none` where the call failed.
pub mod Backfill
pub mod Ownership
pub mod Recovery
pub mod Spendable
pub mod Persist
pub mod Saved
use b402_solana.Common.{
  ℕ, ℤ, pos, negsuc, zero, suc, ◌+◌, ◌≤◌, ◌<◌, Bool, true, false, not, ◌&&◌, List, [], ◌∷◌, ◌++◌,
  length, any, Option, none, some, Text, text_eq, Bytes, Result, ok, err, ◌>>=◌, if◌then◌else◌, ltb,
  leb, ◌==◌,
}
use b402_solana.Protocol.Poseidon.{commitment_hash, nullifier_hash}
use b402_solana.Wallet.{Wallet}
use b402_solana.Notes.Encryption.{Note, EncryptedNote, NoteError}
use b402_solana.Notes.Events.{CommitmentAppended, le_to_bigint}

pub record SpendableNote : Type 0 where
  pub note : Note
  pub commitment : ℕ
  pub leaf_index : ℕ
  pub spending_priv : ℕ
  pub encrypted_bytes : Bytes
  pub ephemeral_pub : Bytes
  pub viewing_tag : Bytes

pub record NoteStore : Type 0 where
  pub notes_by_commitment : List (ℕ × SpendableNote)
  pub spent_nullifiers : List ℕ
  pub backfill_cursor : Option Text

unfoldable pub values : List (ℕ × SpendableNote) → List SpendableNote
values [] = []
values ((k, n) ∷ m) = n ∷ values m

unfoldable pub has : ℕ → List (ℕ × SpendableNote) → Bool
has c [] = false
has c ((k, n) ∷ m) = let rest = has c m in if k == c then true else rest

-- `Map.prototype.set`: a key that is there keeps its place.
unfoldable pub put : ℕ → SpendableNote → List (ℕ × SpendableNote) → List (ℕ × SpendableNote)
put c n [] = (c, n) ∷ []
put c n ((k, old) ∷ m) = let rest = put c n m in if k == c then (k, n) ∷ m else (k, old) ∷ rest

abbrev pub is_spent : NoteStore → SpendableNote → Bool
is_spent s n = any (λ c. c == n.commitment) s.spent_nullifiers

-- The loops of the three getters, with the test that each puts before its `push`.
unfoldable pub pick : (SpendableNote → Bool) → List SpendableNote → List SpendableNote
pick p [] = []
pick p (n ∷ rest) = let more = pick p rest in if p n then n ∷ more else more

unfoldable pub get_spendable : NoteStore → ℕ → List SpendableNote
unfolding pick values
get_spendable s mint =
    pick (λ n. n.note.token_mint == mint && not (is_spent s n)) (values s.notes_by_commitment)

unfoldable pub get_all_spendable : NoteStore → List SpendableNote
unfolding pick values
get_all_spendable s = pick (λ n. not (is_spent s n)) (values s.notes_by_commitment)

-- `Array.prototype.sort`, which is stable, by the leaf index.
unfoldable pub insert_by_index : SpendableNote → List SpendableNote → List SpendableNote
insert_by_index n [] = n ∷ []
insert_by_index n (m ∷ rest) =
    let later = insert_by_index n rest in
    if leb n.leaf_index m.leaf_index then n ∷ m ∷ rest else m ∷ later

unfoldable pub sort_by_index : List SpendableNote → List SpendableNote
unfolding insert_by_index
sort_by_index [] = []
sort_by_index (n ∷ rest) = insert_by_index n (sort_by_index rest)

abbrev pub of_mint : Option ℕ → SpendableNote → Bool
of_mint none n = true
of_mint (some mint) n = n.note.token_mint == mint

-- `leafIndex > since`
unfoldable pub above : ℤ → ℕ → Bool
above (pos i) leaf_index = ltb i leaf_index
above (negsuc i) leaf_index = true

unfoldable pub get_spendable_since : NoteStore → ℤ → Option ℕ → List SpendableNote
unfolding pick values sort_by_index above
get_spendable_since s since mint = sort_by_index (
    pick (λ n. not (is_spent s n) && above since n.leaf_index && of_mint mint n)
      (values s.notes_by_commitment))

unfoldable pub mark_spent : NoteStore → ℕ → NoteStore
mark_spent s nullifier =
    if any (λ c. c == nullifier) s.spent_nullifiers
    then s
    else record s { spent_nullifiers = s.spent_nullifiers ++ (nullifier ∷ []) }

unfoldable pub insert_note : NoteStore → SpendableNote → NoteStore
unfolding put
insert_note s n = record s { notes_by_commitment = put n.commitment n s.notes_by_commitment }

module _ (raw : List ℕ → ℕ) (wallet : Wallet)
    (decrypt : EncryptedNote → ℕ → Result NoteError (Option Note)) where
  unfoldable pub expected_nullifier : SpendableNote → ℕ
  expected_nullifier n = nullifier_hash raw n.spending_priv n.leaf_index

  unfoldable pub claim : Note → ℕ → ℕ → EncryptedNote → Option SpendableNote
  claim note commitment leaf_index enc =
      if not
        (commitment_hash raw note.token_mint note.value note.random note.spending_pub == commitment)
      then none
      else if not (note.spending_pub == wallet.spending_pub)
      then none
      else some (record {
        note = note;
        commitment = commitment;
        leaf_index = leaf_index;
        spending_priv = wallet.spending_priv;
        encrypted_bytes = enc.ciphertext;
        ephemeral_pub = enc.ephemeral_pub;
        viewing_tag = enc.viewing_tag;
      })

  -- The store after the call, and the result.
  unfoldable pub ingest_commitment :
      NoteStore → ℕ → ℕ → EncryptedNote → NoteStore × Result NoteError Bool
  unfolding put claim
  ingest_commitment s commitment leaf_index enc = elim (decrypt enc leaf_index) [
    | err e ↦ (s, err e)
    | ok none ↦ (s, ok false)
    | ok (some note) ↦ elim (claim note commitment leaf_index enc) [
      | none ↦ (s, ok false)
      | some spendable ↦ (
        record s { notes_by_commitment = put commitment spendable s.notes_by_commitment },
        ok true,
      )
    ]
  ]
