-- ===== src/Protocol/Encoding/Tags.antt =====
-- The domain tags: every tag encodes, and no two domains share one.
use b402_solana.Common.{
  ℕ, ◌≡◌, refl, ok, none, some, Option, List, [], ◌∷◌, if◌then◌else◌, ◌==◌, ◌<◌, arith,
}
use b402_solana.Protocol.Encoding.{
  DomainTagName, commit, nullifier, mk_node, mk_zero, note_enc_key, spend_key, spend_key_pub,
  view_key, view_tag, fee_bind, root_bind, adapt_bind, disclose, recipient_bind, excess, domain_tag,
  domain_tags, tag_value, fr_modulus,
}

-- The value of a domain's tag.
unfoldable pub domain_tag_fr : DomainTagName → ℕ
unfolding tag_value domain_tags
domain_tag_fr name = tag_value (domain_tags name)

-- `domainTag` never throws: it is the value of the tag, a field element.
pub domain_tag-total :
    (name : DomainTagName)
    → (domain_tag name ≡ ok (domain_tag_fr name)) × (domain_tag_fr name < fr_modulus)
unfolding domain_tag domain_tag_fr
domain_tag-total commit = (refl, omega arith)
domain_tag-total nullifier = (refl, omega arith)
domain_tag-total mk_node = (refl, omega arith)
domain_tag-total mk_zero = (refl, omega arith)
domain_tag-total note_enc_key = (refl, omega arith)
domain_tag-total spend_key = (refl, omega arith)
domain_tag-total spend_key_pub = (refl, omega arith)
domain_tag-total view_key = (refl, omega arith)
domain_tag-total view_tag = (refl, omega arith)
domain_tag-total fee_bind = (refl, omega arith)
domain_tag-total root_bind = (refl, omega arith)
domain_tag-total adapt_bind = (refl, omega arith)
domain_tag-total disclose = (refl, omega arith)
domain_tag-total recipient_bind = (refl, omega arith)
domain_tag-total excess = (refl, omega arith)

all_names : List DomainTagName
all_names =
    commit ∷ nullifier ∷ mk_node ∷ mk_zero ∷ note_enc_key ∷ spend_key ∷ spend_key_pub ∷ view_key
    ∷ view_tag ∷ fee_bind ∷ root_bind ∷ adapt_bind ∷ disclose ∷ recipient_bind ∷ excess ∷ []

-- The first domain with a given value.
name_of : List DomainTagName → ℕ → Option DomainTagName
name_of [] x = none
name_of (n ∷ names) x = if domain_tag_fr n == x then some n else name_of names x

name_of-domain_tag_fr : (n : DomainTagName) → name_of all_names (domain_tag_fr n) ≡ some n
unfolding name_of all_names domain_tag_fr
name_of-domain_tag_fr commit = refl
name_of-domain_tag_fr nullifier = refl
name_of-domain_tag_fr mk_node = refl
name_of-domain_tag_fr mk_zero = refl
name_of-domain_tag_fr note_enc_key = refl
name_of-domain_tag_fr spend_key = refl
name_of-domain_tag_fr spend_key_pub = refl
name_of-domain_tag_fr view_key = refl
name_of-domain_tag_fr view_tag = refl
name_of-domain_tag_fr fee_bind = refl
name_of-domain_tag_fr root_bind = refl
name_of-domain_tag_fr adapt_bind = refl
name_of-domain_tag_fr disclose = refl
name_of-domain_tag_fr recipient_bind = refl
name_of-domain_tag_fr excess = refl

-- Two domains with the same tag value are one domain.
pub domain_tag-separates :
    (n m : DomainTagName) (x : ℕ) → domain_tag n ≡ ok x → domain_tag m ≡ ok x → n ≡ m
domain_tag-separates n m x p q = cc (
  name_of-domain_tag_fr n,
  name_of-domain_tag_fr m,
  (domain_tag-total n).0,
  (domain_tag-total m).0,
)
