-- ===== src/Notes/Store/Persist.antt =====
-- packages/sdk/src/note-store.ts: the saved form of a NoteStore, as JSON holds it, and `_hydrate`.
-- Writing and reading the file, and JSON itself, are outside. The key of a restored note and the
-- members of the spent set, strings in the code, are their numbers, as in the store; a member that is
-- no number stands for no note and is left out.
use b402_solana.Common.{
  ℕ, Bool, true, false, List, [], ◌∷◌, ◌++◌, any, map, Option, none, some, Text, Bytes,
  bytes_to_hex, hex_pairs, to_decimal, big_int, length, ◌%◌, if◌then◌else◌, ◌==◌,
}
use b402_solana.Notes.Store.{SpendableNote, NoteStore, put, values}

pub record PersistedNote : Type 0 where
  pub token_mint : Text
  pub value : Text
  pub random : Text
  pub spending_pub : Text
  pub spending_priv : Text
  pub commitment : Text
  pub leaf_index : Text
  pub encrypted_bytes_hex : Text
  pub ephemeral_pub_hex : Text
  pub viewing_tag_hex : Text

-- The first version has no cursor.
pub record PersistedSnapshot : Type 0 where
  pub v : ℕ
  pub notes : List PersistedNote
  pub spent_nullifiers : List Text
  pub backfill_cursor : Option Text

unfoldable pub persisted : SpendableNote → PersistedNote
persisted n = record {
  token_mint = to_decimal n.note.token_mint;
  value = to_decimal n.note.value;
  random = to_decimal n.note.random;
  spending_pub = to_decimal n.note.spending_pub;
  spending_priv = to_decimal n.spending_priv;
  commitment = to_decimal n.commitment;
  leaf_index = to_decimal n.leaf_index;
  encrypted_bytes_hex = bytes_to_hex n.encrypted_bytes;
  ephemeral_pub_hex = bytes_to_hex n.ephemeral_pub;
  viewing_tag_hex = bytes_to_hex n.viewing_tag;
}

-- The snapshot that `_persist` writes.
unfoldable pub snapshot : NoteStore → PersistedSnapshot
unfolding persisted
snapshot s = record {
  v = 2;
  notes = map persisted (values s.notes_by_commitment);
  spent_nullifiers = map to_decimal s.spent_nullifiers;
  backfill_cursor = s.backfill_cursor;
}

-- `Set.prototype.add`
unfoldable pub add_spent : List ℕ → ℕ → List ℕ
add_spent spent c = if any (λ d. d == c) spent then spent else spent ++ (c ∷ [])

unfoldable pub add_all_spent : List ℕ → List Text → List ℕ
unfolding add_spent
add_all_spent spent [] = spent
add_all_spent spent (s ∷ rest) = elim (big_int s) [
  | none ↦ add_all_spent spent rest
  | some c ↦ add_all_spent (add_spent spent c) rest
]

-- A chain of calls of which one may throw.
infixl 5 ◌>>=◌
abbrev pub ◌>>=◌ : {A B : Type 0} → Option A → (A → Option B) → Option B
none >>= next = none
some a >>= next = next a

module _ (other : ℕ → ℕ → ℕ) where
  -- `none`: an odd length, which throws.
  unfoldable pub hex_to_bytes : Text → Option Bytes
  hex_to_bytes s = if length s % 2 == 0 then some (hex_pairs other s) else none

  -- `none`: a call throws.
  unfoldable pub restored : PersistedNote → Option SpendableNote
  unfolding hex_to_bytes
  restored p = do
    token_mint ← big_int p.token_mint
    note_value ← big_int p.value
    random ← big_int p.random
    spending_pub ← big_int p.spending_pub
    spending_priv ← big_int p.spending_priv
    commitment ← big_int p.commitment
    leaf_index ← big_int p.leaf_index
    encrypted_bytes ← hex_to_bytes p.encrypted_bytes_hex
    ephemeral_pub ← hex_to_bytes p.ephemeral_pub_hex
    viewing_tag ← hex_to_bytes p.viewing_tag_hex
    some (record {
      note = record {
        token_mint = token_mint;
        value = note_value;
        random = random;
        spending_pub = spending_pub;
      };
      commitment = commitment;
      leaf_index = leaf_index;
      spending_priv = spending_priv;
      encrypted_bytes = encrypted_bytes;
      ephemeral_pub = ephemeral_pub;
      viewing_tag = viewing_tag;
    })

  -- The notes of the map, and whether all were restored: a note that throws ends the loop, and what
  -- was restored before it stays.
  unfoldable pub hydrate_notes :
      List (ℕ × SpendableNote) → List PersistedNote → List (ℕ × SpendableNote) × Bool
  unfolding restored
  hydrate_notes m [] = (m, true)
  hydrate_notes m (p ∷ rest) = elim (restored p) [
    | none ↦ (m, false)
    | some n ↦ hydrate_notes (put n.commitment n m) rest
  ]

  -- `_hydrate` of the file's contents: `none` where there is no file, `some none` where it is no JSON.
  unfoldable pub hydrate : NoteStore → Option (Option PersistedSnapshot) → NoteStore
  unfolding hydrate_notes add_all_spent
  hydrate s none = s
  hydrate s (some none) = s
  hydrate s (some (some snap)) =
      let (m, whole) = hydrate_notes s.notes_by_commitment snap.notes in
      let kept : NoteStore = record s { notes_by_commitment = m } in
      let spent : NoteStore = record kept {
        spent_nullifiers = add_all_spent s.spent_nullifiers snap.spent_nullifiers;
      } in
      if snap.v == 1
      then if whole then spent else kept
      else if snap.v == 2
      then if whole then record spent { backfill_cursor = snap.backfill_cursor } else kept
      else s
