-- ===== src/Tests/Watching.antt =====
-- `watchIncoming` of packages/sdk/src/b402.ts at three calls, with a codec that keeps the string.
use b402_solana.Common.{
  ℕ, zero, suc, ℤ, pos, negsuc, ◌-◌, ◌≡◌, refl, ap, ◌∙◌, arith, List, [], ◌∷◌, ◌++◌, length,
  length-append, take, take-length_append, drop, Option, none, some, Text, codes, to_decimal,
  big_int, big_int-to_decimal, read_digits,
}
use b402_solana.Notes.Store.{SpendableNote, NoteStore, above, get_spendable_since}
use b402_solana.Client.Watch.{encode_cursor, decode_cursor, furthest, watch_incoming}
use b402_solana.Client.Watched.{Rising, watched, watch_incoming-fresh}

abbrev negative : Option ℕ → Option (ℕ × ℤ)
negative none = none
negative (some zero) = none
negative (some (suc i)) = some (1, negsuc i)

abbrev number_from : Text → Option ℕ → Option (ℕ × ℤ)
number_from body (some i) = some (1, pos i)
number_from body none = negative (big_int (drop 1 body))

abbrev number_of : Text → Option (ℕ × ℤ)
number_of body = number_from body (big_int body)

-- The digits stand between twelve characters and two.
abbrev read : Text → Option (ℕ × ℤ)
read s = number_of (take (length s - 14) (drop 12 s))

abbrev write : Text → Text
write s = s

body_of :
    (digits : Text)
    → take
        (length (codes "{\"v\":1,\"l\":\"" ++ digits ++ codes "\"}") - 14)
        (digits ++ codes "\"}")
      ≡ digits
body_of digits =
    let size : length (codes "{\"v\":1,\"l\":\"" ++ digits ++ codes "\"}") - 14 ≡ length digits =
      omega (arith, length-append digits (codes "\"}")) in
    ap (λ (n : ℕ). take n (digits ++ codes "\"}")) size
    ∙ take-length_append digits (codes "\"}") (length digits) refl

reads : (i : ℤ) → read (encode_cursor write i) ≡ some (1, i)
unfolding encode_cursor big_int read_digits
reads (pos i) =
    ap number_of (body_of (to_decimal i)) ∙ ap (number_from (to_decimal i)) (big_int-to_decimal i)
reads (negsuc i) =
    ap number_of (body_of (45 ∷ to_decimal (suc i))) ∙ ap negative (big_int-to_decimal (suc i))

codec :
    (i : ℤ)
    → (c : ℕ) × (rest : Text) × (encode_cursor write i ≡ c ∷ rest)
      × (read (encode_cursor write i) ≡ some (1, i))
unfolding encode_cursor
codec (pos i) = (123, drop 1 (encode_cursor write (pos i)), refl, reads (pos i))
codec (negsuc i) = (123, drop 1 (encode_cursor write (negsuc i)), refl, reads (negsuc i))

abbrev note : ℕ → SpendableNote
note i = record {
  note = record { token_mint = 1; value = 200; random = 5; spending_pub = 3 };
  commitment = i;
  leaf_index = i;
  spending_priv = 4;
  encrypted_bytes = [];
  ephemeral_pub = [];
  viewing_tag = [];
}

abbrev store : NoteStore
store = record {
  notes_by_commitment = (3, note 3) ∷ [];
  spent_nullifiers = [];
  backfill_cursor = none;
}

-- One note before the first and one behind it.
abbrev later : NoteStore
later = record store { notes_by_commitment = (3, note 3) ∷ (2, note 2) ∷ (4, note 4) ∷ [] }

-- Two calls that return notes with an empty one between them.
abbrev moments : List (NoteStore × Option ℕ)
moments = (store, none) ∷ (store, none) ∷ (later, none) ∷ []

-- The note 2, which came late, is not among them.
returned : watched write read moments none ≡ (note 3 ∷ []) ∷ [] ∷ (note 4 ∷ []) ∷ []
unfolding watch_incoming decode_cursor encode_cursor furthest above get_spendable_since big_int
    read_digits to_decimal
returned = refl

watch_incoming-fresh_example : Rising (watched write read moments none)
watch_incoming-fresh_example = watch_incoming-fresh write read codec moments none
