-- ===== src/Client/Watch.antt =====
-- packages/sdk/src/b402.ts: `watchIncoming`, `holdings` and the labels of what they return, behind the
-- refresh that they may start with. A key's spelling is `to_base58`. The JSON and base64url codecs are
-- outside: `write` is what they make of the cursor's string, `read` the version and the index that
-- they read of one, `none` where it throws or has not this form.
use b402_solana.Common.{
  ℕ, suc, ℤ, pos, negsuc, List, [], ◌∷◌, ◌++◌, map, take, Option, none, some, Text, codes, Bytes,
  hex_digit, to_decimal, if◌then◌else◌, ◌==◌, Result, ok, err,
}
use b402_solana.Protocol.Encoding.{EncodingError, le_to_fr_reduced}
use b402_solana.Prover.{hex_digits}
use b402_solana.Notes.Store.{
  SpendableNote, NoteStore, above, get_spendable, get_all_spendable, get_spendable_since,
}

-- `learnMint` and `resolveMint`; the registry is a Map, from a mint's number to the mint.
unfoldable pub learn_mint : List (ℕ × Bytes) → Bytes → Result EncodingError (List (ℕ × Bytes))
learn_mint registry mint = elim (le_to_fr_reduced mint) [
  | err e ↦ err e
  | ok fr ↦ ok (set fr registry)
]
  where
    set : ℕ → List (ℕ × Bytes) → List (ℕ × Bytes)
    set fr [] = (fr, mint) ∷ []
    set fr ((k, m) ∷ rest) =
        let later = set fr rest in if k == fr then (k, mint) ∷ rest else (k, m) ∷ later

unfoldable pub resolve_mint : List (ℕ × Bytes) → ℕ → Option Bytes
resolve_mint [] fr = none
resolve_mint ((k, m) ∷ rest) fr =
    let later = resolve_mint rest fr in if k == fr then some m else later

-- `v.toString(16).padStart(64, '0')` of a field element.
abbrev hex_64 : ℕ → Text
hex_64 v = map hex_digit (hex_digits 64 v)

unfoldable pub note_id : ℕ → Text
note_id commitment = take 16 (hex_64 commitment)

unfoldable pub mint_label : (Bytes → Text) → ℕ → Option Bytes → Text
mint_label to_base58 token_mint_fr (some mint) = to_base58 mint
mint_label to_base58 token_mint_fr none = codes "unknown:" ++ take 12 (hex_64 token_mint_fr)

-- The known mint: that of the request, else the registry's.
abbrev known : List (ℕ × Bytes) → Option Bytes → ℕ → Option Bytes
known registry (some mint) fr = some mint
known registry none fr = resolve_mint registry fr

pub record Holding : Type 0 where
  pub id : Text
  pub mint : Text
  pub amount : Text

unfoldable pub holding_of :
    (Bytes → Text) → List (ℕ × Bytes) → Option Bytes → SpendableNote → Holding
unfolding note_id mint_label resolve_mint
holding_of to_base58 registry mint n = record {
  id = note_id n.commitment;
  mint = mint_label to_base58 n.note.token_mint (known registry mint n.note.token_mint);
  amount = to_decimal n.note.value;
}

-- `filter_fr` is the number of the request's mint.
unfoldable pub holdings :
    (Bytes → Text) → List (ℕ × Bytes) → NoteStore → Option Bytes → Option ℕ → List Holding
unfolding holding_of
holdings to_base58 registry store mint (some fr) =
    map (holding_of to_base58 registry mint) (get_spendable store fr)
holdings to_base58 registry store mint none =
    map (holding_of to_base58 registry mint) (get_all_spendable store)

-- The largest leaf index of the notes, from `since` on.
unfoldable pub furthest : ℤ → List SpendableNote → ℤ
unfolding above
furthest since [] = since
furthest since (n ∷ notes) =
    let more = furthest (pos n.leaf_index) notes in
    let same = furthest since notes in if above since n.leaf_index then more else same

unfoldable pub encode_cursor : (Text → Text) → ℤ → Text
encode_cursor write (pos i) = write (codes "{\"v\":1,\"l\":\"" ++ to_decimal i ++ codes "\"}")
encode_cursor write (negsuc i) =
    write (codes "{\"v\":1,\"l\":\"-" ++ to_decimal (suc i) ++ codes "\"}")

unfoldable pub decode_cursor : (Text → Option (ℕ × ℤ)) → Option Text → ℤ
decode_cursor read none = negsuc 0
decode_cursor read (some []) = negsuc 0
decode_cursor read (some (c ∷ cursor)) = elim (read (c ∷ cursor)) [
  | none ↦ negsuc 0
  | some (v, l) ↦ if v == 1 then l else negsuc 0
]

-- The notes that arrived, and the cursor for the next call.
unfoldable pub watch_incoming :
    (Text → Text)
    → (Text → Option (ℕ × ℤ))
    → NoteStore
    → Option Text
    → Option ℕ
    → List SpendableNote × Text
unfolding encode_cursor decode_cursor furthest
watch_incoming write read store cursor filter_fr =
    let since : ℤ = decode_cursor read cursor in
    let fresh : List SpendableNote = get_spendable_since store since filter_fr in
    (fresh, encode_cursor write (furthest since fresh))
