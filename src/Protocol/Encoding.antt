-- ===== src/Protocol/Encoding.antt =====
-- packages/shared/src/encoding.ts and the constants that it reads from constants.ts. A `bigint` is
-- a ℤ where the code tests its sign, and a number elsewhere; a character is its code unit.
pub mod RoundTrip
pub mod Tags
use b402_solana.Common.{
  ℕ, ◌+◌, ◌*◌, ◌%◌, ◌^◌, bit_or, ℤ, pos, negsuc, Bytes, length, emit, read_down, Text, codes,
  Result, ok, err, if◌then◌else◌, leb, ltb, ◌==◌, not, List, [], ◌∷◌,
}

abbrev pub fr_modulus : ℕ
fr_modulus = 21888242871839275222246405745257275088548364400416034343698204186575808495617

pub data EncodingError : Type 0 where
  fr_out_of_range wrong_length non_canonical tag_too_long u64_out_of_range : EncodingError

unfoldable pub fr_to_le : ℤ → Result EncodingError Bytes
fr_to_le (negsuc n) = err fr_out_of_range
fr_to_le (pos x) = if leb fr_modulus x then err fr_out_of_range else ok (emit 32 x)

unfoldable pub le_to_fr : Bytes → Result EncodingError ℕ
le_to_fr b =
    if not (length b == 32)
    then err wrong_length
    else let v = read_down 32 0 0 b in if leb fr_modulus v then err non_canonical else ok v

unfoldable pub le_to_fr_reduced : Bytes → Result EncodingError ℕ
le_to_fr_reduced b =
    if not (length b == 32) then err wrong_length else ok (read_down 32 0 0 b % fr_modulus)

-- The loop of `tagToFr`, and the reduction behind it.
read_tag : ℕ → Text → ℕ
read_tag acc [] = acc
read_tag acc (c ∷ tag) = read_tag (bit_or (acc * 2 ^ 8) c) tag

unfoldable pub tag_value : Text → ℕ
unfolding read_tag
tag_value tag = read_tag 0 tag % fr_modulus

unfoldable pub tag_to_fr : Text → Result EncodingError ℕ
tag_to_fr tag = if ltb 31 (length tag) then err tag_too_long else ok (tag_value tag)

unfoldable pub u64_to_fr_le : ℤ → Result EncodingError Bytes
unfolding fr_to_le
u64_to_fr_le (negsuc n) = err u64_out_of_range
u64_to_fr_le (pos v) = if leb (2 ^ 64) v then err u64_out_of_range else fr_to_le (pos v)

pub data DomainTagName : Type 0 where
  commit nullifier mk_node mk_zero note_enc_key spend_key spend_key_pub view_key : DomainTagName
  view_tag fee_bind root_bind adapt_bind disclose recipient_bind excess : DomainTagName

unfoldable pub domain_tags : DomainTagName → Text
domain_tags commit = codes "b402/v1/commit"
domain_tags nullifier = codes "b402/v1/null"
domain_tags mk_node = codes "b402/v1/mk-node"
domain_tags mk_zero = codes "b402/v1/mk-zero"
domain_tags note_enc_key = codes "b402/v1/note-enc-key"
domain_tags spend_key = codes "b402/v1/spend-key"
domain_tags spend_key_pub = codes "b402/v1/spend-key-pub"
domain_tags view_key = codes "b402/v1/view-key"
domain_tags view_tag = codes "b402/v1/viewtag"
domain_tags fee_bind = codes "b402/v1/fee-bind"
domain_tags root_bind = codes "b402/v1/root-bind"
domain_tags adapt_bind = codes "b402/v1/adapt-bind"
domain_tags disclose = codes "b402/v1/disclose"
domain_tags recipient_bind = codes "b402/v1/recipient-bind"
domain_tags excess = codes "b402/v1/excess"

unfoldable pub domain_tag : DomainTagName → Result EncodingError ℕ
unfolding tag_to_fr domain_tags
domain_tag name = tag_to_fr (domain_tags name)
