-- ===== src/Notes/Encryption/RoundTrip.antt =====
-- A note written by packages/sdk/src/note-encryption.ts reads back.
use b402_solana.Common.{
  ℕ, ◌^◌, ◌<◌, ◌≡◌, refl, sym, ap, ◌∙◌, arith, [], ◌∷◌, ◌++◌, length, length-append, length-emit,
  take, drop, get_or, Bytes, AllBytes, All-append, emit, emit-AllBytes, value, value-emit,
  read_down, read_down-value, read_down-value_all, ok, lt→leb,
}
use b402_solana.Protocol.Encoding.{fr_modulus, fr_to_le}
use b402_solana.Notes.Encryption.{Note, encoded, serialize_note, deserialize_note, bytes_to_fr}

abbrev plain : ℕ → ℕ → ℕ → Bytes
plain v r m = emit 8 v ++ emit 32 r ++ emit 32 m ++ (1 ∷ [])

serialize_note-plain :
    (n : Note)
    → n.random < fr_modulus
    → n.token_mint < fr_modulus
    → serialize_note n ≡ ok (plain n.value n.random n.token_mint)
unfolding serialize_note encoded fr_to_le
serialize_note-plain n r m =
    rw (lt→leb fr_modulus n.random r, lt→leb fr_modulus n.token_mint m) refl

length-plain : (v r m : ℕ) → length (plain v r m) ≡ 73
length-plain v r m = omega (
  arith,
  length-append (emit 8 v ++ emit 32 r ++ emit 32 m) (1 ∷ []),
  length-append (emit 8 v ++ emit 32 r) (emit 32 m),
  length-append (emit 8 v) (emit 32 r),
  length-emit 8 v,
  length-emit 32 r,
  length-emit 32 m,
)

bytes_to_fr-emit : (x : ℕ) → x < fr_modulus → bytes_to_fr (emit 32 x) ≡ ok x
unfolding bytes_to_fr
bytes_to_fr-emit x h =
    let read : read_down 32 0 0 (emit 32 x) ≡ x =
      ap (λ (n : ℕ). read_down n 0 0 (emit 32 x)) (sym (length-emit 32 x))
      ∙ read_down-value_all (emit 32 x) (emit-AllBytes 32 x)
      ∙ value-emit 32 x (omega arith) in
    rw (read, lt→leb fr_modulus x h) refl

random_at : (v r m : ℕ) → take 32 (drop 8 (plain v r m)) ≡ emit 32 r
unfolding emit
random_at v r m = refl

mint_at : (v r m : ℕ) → take 32 (drop 40 (plain v r m)) ≡ emit 32 m
unfolding emit
mint_at v r m = refl

plain-AllBytes : (v r m : ℕ) → AllBytes (plain v r m)
plain-AllBytes v r m =
    All-append (λ x. x < 256) (emit 8 v ++ emit 32 r ++ emit 32 m) (1 ∷ [])
      (All-append (λ x. x < 256) (emit 8 v ++ emit 32 r) (emit 32 m)
        (All-append (λ x. x < 256) (emit 8 v) (emit 32 r) (emit-AllBytes 8 v) (emit-AllBytes 32 r))
        (emit-AllBytes 32 m))
      (omega arith)

first_eight : (v r m : ℕ) → value (take 8 (drop 0 (plain v r m))) ≡ value (emit 8 v)
unfolding emit
first_eight v r m = refl

value_at : (v r m : ℕ) → v < 2 ^ 64 → read_down 8 0 0 (plain v r m) ≡ v
value_at v r m h =
    read_down-value 8 0 (plain v r m) (plain-AllBytes v r m) (omega (arith, length-plain v r m))
    ∙ first_eight v r m
    ∙ value-emit 8 v (omega arith)

version_at : (v r m : ℕ) → get_or (plain v r m) 72 0 ≡ 1
unfolding emit
version_at v r m = refl

-- A note whose value has 64 bits and whose other numbers are field elements is written to 73 bytes
-- that read back, for the same spending key, as the note.
pub deserialize_note-serialize_note :
    (n : Note)
    → n.value < 2 ^ 64
    → n.random < fr_modulus
    → n.token_mint < fr_modulus
    → (b : Bytes) × (serialize_note n ≡ ok b)
      × (length b ≡ 73)
      × (deserialize_note b n.spending_pub ≡ ok n)
unfolding deserialize_note
deserialize_note-serialize_note n v r m = (
  plain n.value n.random n.token_mint,
  serialize_note-plain n r m,
  length-plain n.value n.random n.token_mint,
  rw
      (
        length-plain n.value n.random n.token_mint,
        random_at n.value n.random n.token_mint,
        mint_at n.value n.random n.token_mint,
        bytes_to_fr-emit n.random r,
        bytes_to_fr-emit n.token_mint m,
        version_at n.value n.random n.token_mint,
        value_at n.value n.random n.token_mint v,
      )
      refl,
)
