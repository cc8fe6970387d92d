-- ===== src/Notes/Store/Saved.antt =====
-- A saved store of packages/sdk/src/note-store.ts restores to itself.
use b402_solana.Common.{
  ℕ, ◌%◌, ◌≡◌, refl, sym, ap, ◌∙◌, subst, arith, true, false, Bool-cases, inl, inr, List, [], ◌∷◌,
  ◌++◌, append_assoc, append-nil, any, map, length, some, none, Text, Bytes, AllBytes, bytes_to_hex,
  length-bytes_to_hex, hex_pairs-bytes_to_hex, to_decimal, big_int-to_decimal, ◌==◌,
}
use b402_solana.Notes.Store.{SpendableNote, NoteStore, has, put, values}
use b402_solana.Notes.Store.Persist.{
  PersistedNote, persisted, snapshot, add_spent, add_all_spent, hex_to_bytes, restored,
  hydrate_notes, hydrate,
}

abbrev pub BytesOf : SpendableNote → Type 0
BytesOf n = AllBytes n.encrypted_bytes × AllBytes n.ephemeral_pub × AllBytes n.viewing_tag

-- Each note stands under its commitment, no commitment twice, and its byte arrays hold bytes.
abbrev pub Keyed : List (ℕ × SpendableNote) → Type 0
Keyed [] = Unit
Keyed ((k, n) ∷ m) = (k ≡ n.commitment) × (has k m ≡ false) × BytesOf n × Keyed m

-- No member twice.
abbrev pub Distinct : List ℕ → Type 0
Distinct [] = Unit
Distinct (c ∷ l) = (any (λ d. d == c) l ≡ false) × Distinct l

has-out :
    (acc : List (ℕ × SpendableNote)) (j k : ℕ) (n : SpendableNote) (rest : List (ℕ × SpendableNote))
    → has j (acc ++ (k, n) ∷ rest) ≡ false
    → (j == k) ≡ false
unfolding has
has-out [] j k n rest h = elim (Bool-cases (k == j)) [
  | inl same ↦ cc (rw same at h)
  | inr other ↦ ground arith
]
has-out ((i, m) ∷ acc) j k n rest h = elim (Bool-cases (i == j)) [
  | inl same ↦ cc (rw same at h)
  | inr other ↦ has-out acc j k n rest (rw other at h)
]

-- A key is new to what stands before it.
has-before :
    (acc : List (ℕ × SpendableNote)) (k : ℕ) (n : SpendableNote) (rest : List (ℕ × SpendableNote))
    → Keyed (acc ++ (k, n) ∷ rest)
    → has k acc ≡ false
unfolding has
has-before [] k n rest h = refl
has-before ((j, m) ∷ acc) k n rest (key, fresh, bytes, h) =
    rw (has-out acc j k n rest fresh) (has-before acc k n rest h)

put-fresh :
    (m : List (ℕ × SpendableNote)) (k : ℕ) (n : SpendableNote)
    → has k m ≡ false
    → put k n m ≡ m ++ (k, n) ∷ []
unfolding has put
put-fresh [] k n h = refl
put-fresh ((j, old) ∷ m) k n h = elim (Bool-cases (j == k)) [
  | inl same ↦ cc (rw same at h)
  | inr other ↦
      rw other
        (ap (λ (z : List (ℕ × SpendableNote)). (j, old) ∷ z) (put-fresh m k n (rw other at h)))
]

Keyed-head :
    (acc : List (ℕ × SpendableNote)) (k : ℕ) (n : SpendableNote) (rest : List (ℕ × SpendableNote))
    → Keyed (acc ++ (k, n) ∷ rest)
    → (k ≡ n.commitment) × BytesOf n
Keyed-head [] k n rest (key, fresh, bytes, h) = (key, bytes)
Keyed-head (e ∷ acc) k n rest (key, fresh, bytes, h) = Keyed-head acc k n rest h

module _ (other : ℕ → ℕ → ℕ) where
  hex_to_bytes-bytes_to_hex :
      (b : Bytes) → AllBytes b → hex_to_bytes other (bytes_to_hex b) ≡ some b
  unfolding hex_to_bytes
  hex_to_bytes-bytes_to_hex b h =
      let even : length (bytes_to_hex b) % 2 ≡ 0 = omega (arith, length-bytes_to_hex b) in
      rw even (ap some (hex_pairs-bytes_to_hex other b h))

  restored-persisted : (n : SpendableNote) → BytesOf n → restored other (persisted n) ≡ some n
  unfolding restored persisted
  restored-persisted n (a, b, c) =
      rw
        (
          big_int-to_decimal n.note.token_mint,
          big_int-to_decimal n.note.value,
          big_int-to_decimal n.note.random,
          big_int-to_decimal n.note.spending_pub,
          big_int-to_decimal n.spending_priv,
          big_int-to_decimal n.commitment,
          big_int-to_decimal n.leaf_index,
          hex_to_bytes-bytes_to_hex n.encrypted_bytes a,
          hex_to_bytes-bytes_to_hex n.ephemeral_pub b,
          hex_to_bytes-bytes_to_hex n.viewing_tag c,
        )
        refl

  hydrate_notes-step :
      (m : List (ℕ × SpendableNote)) (p : PersistedNote) (rest : List PersistedNote)
      (n : SpendableNote)
      → restored other p ≡ some n
      → hydrate_notes other m (p ∷ rest) ≡ hydrate_notes other (put n.commitment n m) rest
  unfolding hydrate_notes
  hydrate_notes-step m p rest n e = rw (e, hydrate_notes) refl

  hydrate_notes-persisted :
      (acc xs : List (ℕ × SpendableNote))
      → Keyed (acc ++ xs)
      → hydrate_notes other acc (map persisted (values xs)) ≡ (acc ++ xs, true)
  unfolding hydrate_notes values
  hydrate_notes-persisted acc [] h =
      ap (λ (z : List (ℕ × SpendableNote)). (z, true)) (sym (append-nil acc))
  hydrate_notes-persisted acc ((k, n) ∷ xs) h =
      let (key, bytes) = Keyed-head acc k n xs h in
      let fresh = has-before acc k n xs h in
      let moved : acc ++ (k, n) ∷ xs ≡ (acc ++ (k, n) ∷ []) ++ xs =
        sym (append_assoc acc ((k, n) ∷ []) xs) in
      let placed : put n.commitment n acc ≡ acc ++ (k, n) ∷ [] =
        ap (λ (c : ℕ). put c n acc) (sym key) ∙ put-fresh acc k n fresh in
      hydrate_notes-step acc (persisted n) (map persisted (values xs)) n
        (restored-persisted n bytes)
      ∙ ap (λ (z : List (ℕ × SpendableNote)). hydrate_notes other z (map persisted (values xs)))
          placed
      ∙ hydrate_notes-persisted (acc ++ (k, n) ∷ []) xs (subst Keyed moved h)
      ∙ ap (λ (z : List (ℕ × SpendableNote)). (z, true)) (sym moved)

any-out :
    (acc : List ℕ) (j k : ℕ) (rest : List ℕ)
    → any (λ d. d == j) (acc ++ k ∷ rest) ≡ false
    → (j == k) ≡ false
any-out [] j k rest h = elim (Bool-cases (k == j)) [
  | inl same ↦ cc (rw same at h)
  | inr other ↦ ground arith
]
any-out (i ∷ acc) j k rest h = elim (Bool-cases (i == j)) [
  | inl same ↦ cc (rw same at h)
  | inr other ↦ any-out acc j k rest (rw other at h)
]

any-before :
    (acc : List ℕ) (k : ℕ) (rest : List ℕ)
    → Distinct (acc ++ k ∷ rest)
    → any (λ d. d == k) acc ≡ false
any-before [] k rest h = refl
any-before (j ∷ acc) k rest (fresh, h) = rw (any-out acc j k rest fresh) (any-before acc k rest h)

add_all_spent-step :
    (spent : List ℕ) (c : ℕ) (rest : List Text)
    → any (λ d. d == c) spent ≡ false
    → add_all_spent spent (to_decimal c ∷ rest) ≡ add_all_spent (spent ++ c ∷ []) rest
unfolding add_all_spent add_spent
add_all_spent-step spent c rest fresh = rw (big_int-to_decimal c, add_all_spent, fresh) refl

add_all_spent-to_decimal :
    (acc xs : List ℕ) → Distinct (acc ++ xs) → add_all_spent acc (map to_decimal xs) ≡ acc ++ xs
unfolding add_all_spent
add_all_spent-to_decimal acc [] h = sym (append-nil acc)
add_all_spent-to_decimal acc (c ∷ xs) h =
    let moved : acc ++ c ∷ xs ≡ (acc ++ c ∷ []) ++ xs = sym (append_assoc acc (c ∷ []) xs) in
    add_all_spent-step acc c (map to_decimal xs) (any-before acc c xs h)
    ∙ add_all_spent-to_decimal (acc ++ c ∷ []) xs (subst Distinct moved h)
    ∙ sym moved

-- A store whose notes stand under their commitments, no commitment and no spent mark twice, and whose
-- byte arrays hold bytes: what is saved of it makes a new store the same, its notes, its spent marks
-- and its cursor.
pub hydrate-snapshot :
    (other : ℕ → ℕ → ℕ) (s : NoteStore)
    → Keyed s.notes_by_commitment
    → Distinct s.spent_nullifiers
    → hydrate other
        (record { notes_by_commitment = []; spent_nullifiers = []; backfill_cursor = none })
        (some (some (snapshot s)))
      ≡ s
unfolding hydrate snapshot
hydrate-snapshot other s keyed distinct =
    rw
      (
        hydrate_notes-persisted other [] s.notes_by_commitment keyed,
        add_all_spent-to_decimal [] s.spent_nullifiers distinct,
      )
      refl
