-- ===== src/Programs/Indexer.antt =====
-- packages/sdk/src/indexer.ts: the test of an indexer's root against the tree account. `account` is
-- the account's data, `none` where there is none; the root is the number of its hexadecimal string.
pub mod Client
pub mod Hexes
pub mod Proofs
use b402_solana.Common.{
  List, [], ◌∷◌, Bool, true, zero, suc, ap, sym, ◌∙◌, get_elem?, Bool-cases, Option-cases,
  Result-cases, inl, inr, refl, ◌≡◌, ℕ, any, length, Option, none, some, Bytes, read_down, Result,
  ok, err, if◌then◌else◌, ◌==◌,
}
use b402_solana.Programs.TreeState.{
  TreeStateView, DecodeError, decode_tree_state, root_at, decode_tree_state-root_at,
}

pub data IndexerError : Type 0 where
  no_account root_not_on_chain no_current_root : IndexerError
  bad_account : DecodeError → IndexerError

unfoldable pub le_to_number : Bytes → ℕ
le_to_number b = read_down (length b) 0 0 b

-- Where the head points past the ring, the current root is undefined and reading it throws.
unfoldable pub root_in_view : TreeStateView → ℕ → Result IndexerError (Unit {0})
root_in_view view expected = elim view.current_root [
  | none ↦ err no_current_root
  | some current ↦
      if le_to_number current == expected
      then ok tt
      else if any (λ old. le_to_number old == expected) view.root_ring
      then ok tt
      else err root_not_on_chain
]

unfoldable pub assert_root_is_on_chain : Option Bytes → ℕ → Result IndexerError (Unit {0})
assert_root_is_on_chain none expected = err no_account
assert_root_is_on_chain (some account) expected = elim (decode_tree_state account) [
  | err e ↦ err (bad_account e)
  | ok view ↦ root_in_view view expected
]

any-get_elem? :
    (p : Bytes → Bool) (ring : List Bytes) (i : ℕ) (r : Bytes)
    → get_elem? ring i ≡ some r
    → p r ≡ true
    → any p ring ≡ true
any-get_elem? p [] i r at h = cc
any-get_elem? p (x ∷ ring) zero r at h = let same : x ≡ r = cc in rw (ap p same, h) refl
any-get_elem? p (x ∷ ring) (suc i) r at h = elim (Bool-cases (p x)) [
  | inl this ↦ rw this refl
  | inr other ↦ rw other (any-get_elem? p ring i r at h)
]

-- When a root passes the test against an account's data, the data decodes to a tree account, and
-- some root of its ring is the number asked for.
pub assert_root_is_on_chain-any :
    (account : Bytes) (expected : ℕ)
    → assert_root_is_on_chain (some account) expected ≡ ok tt
    → (view : TreeStateView) × (decode_tree_state account ≡ ok view)
      × (any (λ old. le_to_number old == expected) view.root_ring ≡ true)
unfolding assert_root_is_on_chain root_in_view
assert_root_is_on_chain-any account expected e = elim (Result-cases (decode_tree_state account)) [
  | inr (x, bad) ↦ cc (rw (bad, assert_root_is_on_chain) at e)
  | inl (view, decoded) ↦ (
    view,
    decoded,
    known view (decode_tree_state-root_at account view decoded)
        (rw (decoded, assert_root_is_on_chain) at e),
  )
]
  where
    found : List Bytes → Bool
    found ring = any (λ old. le_to_number old == expected) ring

    from_head :
        (head : Option ℕ) (ring : List Bytes) (r : Bytes)
        → root_at head ring ≡ some r
        → le_to_number r == expected ≡ true
        → found ring ≡ true
    from_head none ring r at h = cc
    from_head (some i) ring r at h =
        any-get_elem? (λ old. le_to_number old == expected) ring i r at h

    known :
        (view : TreeStateView)
        → view.current_root ≡ root_at view.ring_head view.root_ring
        → root_in_view view expected ≡ ok tt
        → found view.root_ring ≡ true
    known view at h = elim (Option-cases view.current_root) [
      | inl missing ↦ cc (rw (missing, root_in_view) at h)
      | inr (r, current) ↦ elim (Bool-cases (le_to_number r == expected)) [
        | inl this ↦ from_head view.ring_head view.root_ring r (sym at ∙ current) this
        | inr other ↦ elim (Bool-cases (found view.root_ring)) [
          | inl some_old ↦ some_old
          | inr unknown ↦ cc (rw (current, other, unknown, root_in_view) at h)
        ]
      ]
    ]
