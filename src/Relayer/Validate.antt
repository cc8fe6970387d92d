-- ===== src/Relayer/Validate.antt =====
-- packages/relayer/src/validate.ts. zod's object parser, which looks at the JSON types of a body, is
-- outside: a request here is what it has typed, and `request_ok` holds the bounds that the schemas
-- put on its fields. `from_base64` is `Buffer.from(_, 'base64')`.
pub mod Fee
use b402_solana.Common.{
  ℕ, zero, suc, ◌+◌, ◌*◌, ◌^◌, read_up, Bool, true, false, ◌&&◌, ◌||◌, List, [], ◌∷◌, length,
  get_or, any, Option, none, some, Text, text_eq, Bytes, Result, ok, err, if◌then◌else◌, leb, ltb,
  ◌==◌,
}

abbrev pub relayer_fee_offset : ℕ
relayer_fee_offset = 476

pub record AccountMeta : Type 0 where
  pub pubkey : Text
  pub is_signer : Bool
  pub is_writable : Bool

pub record AdditionalIx : Type 0 where
  pub program_id : Text
  pub ix_data : Text
  pub account_keys : List AccountMeta

pub record RelayRequest : Type 0 where
  pub ix_data : Text
  pub account_keys : List AccountMeta
  pub alt_addresses : Option (List Text)
  pub compute_unit_limit : Option ℕ
  pub user_signature : Option Text
  pub user_pubkey : Option Text
  pub additional_ixs : Option (List AdditionalIx)

-- `.min(lo).max(hi)` on the length of a string or an array.
abbrev pub sized {ℓ} : {A : Type ℓ} → ℕ → ℕ → List A → Bool
sized lo hi xs = leb lo (length xs) && leb (length xs) hi

abbrev pub optional {ℓ} : {A : Type ℓ} → (A → Bool) → Option A → Bool
optional p none = true
optional p (some a) = p a

abbrev pub every {ℓ} : {A : Type ℓ} → (A → Bool) → List A → Bool
every p [] = true
every p (x ∷ xs) = p x && every p xs

is_base64_char : ℕ → Bool
is_base64_char c =
    (leb b'A' c && leb c b'Z')
    || (leb b'a' c && leb c b'z')
    || (leb b'0' c && leb c b'9')
    || c == b'+'
    || c == b'/'

-- What `={0,2}$` matches.
is_padding : Text → Bool
is_padding [] = true
is_padding (c ∷ []) = c == b'='
is_padding (c ∷ d ∷ []) = c == b'=' && d == b'='
is_padding (c ∷ d ∷ e ∷ s) = false

-- `/^[A-Za-z0-9+/]+={0,2}$/`, with whether a character was read.
matches_base64 : Bool → Text → Bool
unfolding is_base64_char is_padding
matches_base64 seen [] = seen
matches_base64 seen (c ∷ s) =
    if is_base64_char c then matches_base64 true s else seen && is_padding (c ∷ s)

pub is_base64_string : Text → Bool
unfolding matches_base64
is_base64_string s = sized 1 2_000_000 s && matches_base64 false s

pub account_meta_ok : AccountMeta → Bool
account_meta_ok k = sized 32 44 k.pubkey

pub additional_ix_ok : AdditionalIx → Bool
unfolding is_base64_string account_meta_ok
additional_ix_ok x =
    sized 32 44 x.program_id
    && is_base64_string x.ix_data
    && sized 1 32 x.account_keys
    && every account_meta_ok x.account_keys

unfoldable pub request_ok : RelayRequest → Bool
unfolding is_base64_string account_meta_ok additional_ix_ok
request_ok r =
    is_base64_string r.ix_data
    && sized 1 64 r.account_keys
    && every account_meta_ok r.account_keys
    && optional (λ l. sized 0 8 l && every (sized 32 44) l) r.alt_addresses
    && optional (λ n. ltb 0 n && leb n 1_400_000) r.compute_unit_limit
    && optional is_base64_string r.user_signature
    && optional (sized 32 44) r.user_pubkey
    && optional (λ l. sized 0 4 l && every additional_ix_ok l) r.additional_ixs

-- `none`: the call throws.
unfoldable pub read_u64_le : Bytes → ℕ → Option ℕ
unfolding read_up
read_u64_le b offset = if ltb (length b) (offset + 8) then none else some (read_up 8 0 offset 0 b)

-- `none`: null. Behind the length test the read does not throw.
unfoldable pub extract_relayer_fee : Bytes → Option ℕ
unfolding read_u64_le
extract_relayer_fee ix_data =
    if ltb (length ix_data) (relayer_fee_offset + 8)
    then none
    else read_u64_le ix_data relayer_fee_offset

unfoldable pub is_allowed_program : Bytes → List Bytes → Bool
is_allowed_program key allowlist = any (λ a. text_eq a key) allowlist

pub data LengthError : Type 0 where
  ix_data_too_short ix_data_too_long : LengthError

unfoldable pub structural_checks :
    (Text → Bytes) → RelayRequest → ℕ → ℕ → Result LengthError (Bytes × List AccountMeta)
structural_checks from_base64 req min_ix_data_len max_ix_data_len =
    let ix_data = from_base64 req.ix_data in
    if ltb (length ix_data) min_ix_data_len
    then err ix_data_too_short
    else if ltb max_ix_data_len (length ix_data)
    then err ix_data_too_long
    else ok (ix_data, req.account_keys)
