-- ===== src/Tests/Notes.antt =====
-- packages/sdk/src/note-store.ts and note-encryption.ts at concrete inputs: a store with one note, an
-- event that no key decrypts, and one transaction that cannot be fetched.
use b402_solana.Common.{
  ℕ, ◌+◌, ◌*◌, ◌%◌, ◌≡◌, refl, arith, true, false, List, [], ◌∷◌, length, All, Option, none, some,
  Text, codes, Bytes, Result, ok,
}
use b402_solana.Protocol.Poseidon.{commitment_hash, poseidon_tagged}
use b402_solana.Protocol.Encoding.Tags.{domain_tag_fr}
use b402_solana.Wallet.{Wallet}
use b402_solana.Notes.Encryption.{Note, EncryptedNote, NoteError, serialize_note, deserialize_note}
use b402_solana.Notes.Encryption.RoundTrip.{deserialize_note-serialize_note}
use b402_solana.Notes.Events.{CommitmentAppended}
use b402_solana.Notes.Store.{NoteStore, ingest_commitment, has}
use b402_solana.Notes.Store.Ownership.{Owned, ingest_commitment-Owned}
use b402_solana.Merkle.{init, new_tree}
use b402_solana.Notes.Scanner.{Scanner}
use b402_solana.Notes.Store.Backfill.{SignatureInfo, backfill}
use b402_solana.Notes.Store.Recovery.{backfill-Owned, backfill-lost}
use b402_solana.Notes.Store.Persist.{snapshot, hydrate}
use b402_solana.Notes.Store.Saved.{hydrate-snapshot}

abbrev mix : List ℕ → ℕ
mix [] = 7
mix (x ∷ xs) = (x + 31 * mix xs) % 1009

abbrev wallet : Wallet
wallet = record {
  seed = [];
  spending_priv = 4;
  spending_pub = 3;
  viewing_priv = [];
  viewing_pub = [];
}

abbrev note : Note
note = record { token_mint = 1; value = 2; random = 5; spending_pub = 3 }

-- Each event holds this note.
abbrev decrypt : EncryptedNote → ℕ → Result NoteError (Option Note)
decrypt enc leaf_index = ok (some note)

abbrev enc : EncryptedNote
enc = record { ciphertext = []; ephemeral_pub = []; viewing_tag = [] }

abbrev empty : NoteStore
empty = record { notes_by_commitment = []; spent_nullifiers = []; backfill_cursor = none }

abbrev one_note : NoteStore
one_note = (ingest_commitment mix wallet decrypt empty (commitment_hash mix 1 2 5 3) 6 enc).0

deserialize_note-serialize_note_example :
    (b : Bytes) × (serialize_note note ≡ ok b) × (length b ≡ 73) × (deserialize_note b 3 ≡ ok note)
deserialize_note-serialize_note_example =
    deserialize_note-serialize_note note (omega arith) (omega arith) (omega arith)

one_note-Owned : All (Owned mix wallet) one_note.notes_by_commitment
one_note-Owned =
    ingest_commitment-Owned mix wallet decrypt empty (commitment_hash mix 1 2 5 3) 6 enc tt

abbrev parse : Text → Option CommitmentAppended
parse line = none

abbrev unreachable : Text → Option (List Text)
unreachable signature = none

abbrev newest : SignatureInfo
newest = record { signature = codes "newest"; failed = false }

abbrev one_page : ℕ → Option Text → Option Text → Result Text (List SignatureInfo)
one_page limit before until = ok (newest ∷ [])

backfill-Owned_example :
    All
      (Owned mix wallet)
      (backfill mix wallet decrypt parse unreachable one_page 30 none false
        one_note).0.notes_by_commitment
backfill-Owned_example =
    backfill-Owned mix wallet decrypt parse unreachable one_page 30 none false one_note
      one_note-Owned

unfetched : (t : Text) → unreachable t ≡ none
unfetched t = refl

backfill-lost_example :
    (backfill mix wallet decrypt parse unreachable one_page 30 none true one_note).0
    ≡ record one_note { backfill_cursor = some (codes "newest") }
backfill-lost_example =
    backfill-lost mix wallet decrypt parse unreachable one_page 30 unfetched none one_note newest []
      refl (omega arith)

abbrev scanner : Scanner
scanner = record { events = []; tree = init mix (new_tree 2); note_store = one_note }

abbrev digits_only : ℕ → ℕ → ℕ
digits_only c d = 0

-- A saved note, one spent mark and a cursor.
abbrev saved : NoteStore
saved = record one_note { spent_nullifiers = 8 ∷ []; backfill_cursor = some (codes "cursor") }

hydrate-snapshot_example :
    hydrate digits_only
      (record { notes_by_commitment = []; spent_nullifiers = []; backfill_cursor = none })
      (some (some (snapshot saved)))
    ≡ saved
unfolding ingest_commitment commitment_hash poseidon_tagged domain_tag_fr has
hydrate-snapshot_example =
    hydrate-snapshot digits_only saved (refl, refl, (tt, tt, tt), tt) (refl, tt)
