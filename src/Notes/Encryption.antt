-- ===== src/Notes/Encryption.antt =====
-- packages/sdk/src/note-encryption.ts. Outside the code, so parameters: X25519 (`public_of`, and
-- `shared_secret`, `none` where it throws), HKDF (`derive`), ChaCha20-Poly1305 (`seal`, and `unseal`,
-- `none` where it throws), the Poseidon permutation `raw`, and the random scalar, clamped.
pub mod RoundTrip
use b402_solana.Common.{
  ℕ, ◌+◌, ◌*◌, ◌^◌, Bool, true, false, not, ◌&&◌, ◌||◌, List, [], ◌∷◌, ◌++◌, length, take, drop,
  get_or, replicate, Option, none, some, Bytes, pos, emit, read_down, Result, ok, err, ◌>>=◌, ◌>>◌,
  throw_if, if◌then◌else◌, ltb, leb, ◌==◌,
}
use b402_solana.Protocol.Encoding.{fr_modulus, fr_to_le, le_to_fr_reduced, EncodingError, view_tag}
use b402_solana.Protocol.Poseidon.{poseidon_tagged}

pub record Note : Type 0 where
  pub token_mint : ℕ
  pub value : ℕ
  pub random : ℕ
  pub spending_pub : ℕ

pub record EncryptedNote : Type 0 where
  pub ciphertext : Bytes
  pub ephemeral_pub : Bytes
  pub viewing_tag : Bytes

pub data NoteError : Type 0 where
  bad_encoding : EncodingError → NoteError
  bad_plaintext_length non_canonical unknown_version index_out_of_range bad_ciphertext_length
        bad_shared_secret :
      NoteError

unfoldable pub encoded {ℓ} : {A : Type ℓ} → Result EncodingError A → Result NoteError A
encoded (ok a) = ok a
encoded (err e) = err (bad_encoding e)

-- `setBigUint64` keeps the low 64 bits.
unfoldable pub serialize_note : Note → Result NoteError Bytes
serialize_note n = do
  random ← encoded (fr_to_le (pos n.random))
  mint ← encoded (fr_to_le (pos n.token_mint))
  ok (emit 8 n.value ++ random ++ mint ++ (1 ∷ []))

unfoldable pub bytes_to_fr : Bytes → Result NoteError ℕ
bytes_to_fr b = let v = read_down 32 0 0 b in if leb fr_modulus v then err non_canonical else ok v

unfoldable pub deserialize_note : Bytes → ℕ → Result NoteError Note
deserialize_note plaintext spending_pub =
    if not (length plaintext == 73) then err bad_plaintext_length else do
      random ← bytes_to_fr (take 32 (drop 8 plaintext))
      mint ← bytes_to_fr (take 32 (drop 40 plaintext))
      throw_if (not (get_or plaintext 72 0 == 1)) unknown_version
      ok (record {
        token_mint = mint;
        value = read_down 8 0 0 plaintext;
        random = random;
        spending_pub = spending_pub;
      })

unfoldable pub nonce_for_index : ℕ → Result NoteError Bytes
nonce_for_index leaf_index =
    if leb (2 ^ 64) leaf_index
    then err index_out_of_range
    else ok (emit 8 leaf_index ++ replicate 4 0)

unfoldable pub is_all_zero : Bytes → Bool
is_all_zero [] = true
is_all_zero (x ∷ b) = x == 0 && is_all_zero b

module _ (raw : List ℕ → ℕ) (public_of : Bytes → Bytes)
    (shared_secret : Bytes → Bytes → Option Bytes) (derive : Bytes → Bytes)
    (seal : Bytes → Bytes → Bytes → Bytes) (unseal : Bytes → Bytes → Bytes → Option Bytes) where
  unfoldable pub tag_of : Bytes → Result NoteError Bytes
  tag_of shared = do
    fr ← encoded (le_to_fr_reduced shared)
    tag ← encoded (fr_to_le (pos (poseidon_tagged raw view_tag (fr ∷ []))))
    ok (take 2 tag)

  unfoldable pub encrypt_note : Bytes → Note → Bytes → ℕ → Result NoteError EncryptedNote
  encrypt_note eph_priv note recipient_viewing_pub leaf_index =
      elim (shared_secret eph_priv recipient_viewing_pub) [
        | none ↦ err bad_shared_secret
        | some shared ↦ do
          nonce ← nonce_for_index leaf_index
          plaintext ← serialize_note note
          let ciphertext = seal (derive shared) nonce plaintext
          throw_if (not (length ciphertext == 89)) bad_ciphertext_length
          tag ← tag_of shared
          ok (record {
            ciphertext = ciphertext;
            ephemeral_pub = public_of eph_priv;
            viewing_tag = tag;
          })
      ]

  -- The last `try`: what it throws makes null.
  unfoldable pub open_note : Bytes → Bytes → Bytes → ℕ → Option Note
  open_note key nonce ciphertext spending_pub = elim (unseal key nonce ciphertext) [
    | none ↦ none
    | some plaintext ↦ elim (deserialize_note plaintext spending_pub) [
      | err e ↦ none
      | ok note ↦ some note
    ]
  ]

  unfoldable pub try_decrypt_note : EncryptedNote → Bytes → ℕ → ℕ → Result NoteError (Option Note)
  try_decrypt_note enc viewing_priv leaf_index spending_pub =
      if is_all_zero enc.ephemeral_pub
      then ok none
      else elim (shared_secret viewing_priv enc.ephemeral_pub) [
        | none ↦ ok none
        | some shared ↦ do
          candidate ← tag_of shared
          let other =
              not (get_or candidate 0 0 == get_or enc.viewing_tag 0 0)
              || not (get_or candidate 1 0 == get_or enc.viewing_tag 1 0)
          if other then ok none else (do
            nonce ← nonce_for_index leaf_index
            ok (open_note (derive shared) nonce enc.ciphertext spending_pub))
      ]
