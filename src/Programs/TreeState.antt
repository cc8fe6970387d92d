-- ===== src/Programs/TreeState.antt =====
-- packages/sdk/src/programs/tree-state.ts: the decoder of the pool's tree account. A field that the
-- data ends before is undefined in the code, `none` here; a number read past the end throws.
use b402_solana.Common.{
  ◌≡◌, refl, subst, Bool-cases, inl, inr, ℕ, zero, suc, ◌+◌, ◌*◌, ◌^◌, bit_or, List, [], ◌∷◌,
  length, take, drop, get_or, get_elem?, Option, none, some, Bytes, read_down, Result, ok, err,
  if◌then◌else◌, ltb,
}

pub data DecodeError : Type 0 where
  account_too_small read_past_end : DecodeError

pub record TreeStateView : Type 0 where
  pub version : ℕ
  pub leaf_count : ℕ
  pub ring_head : Option ℕ
  pub root_ring : List Bytes
  pub frontier : List Bytes
  pub zero_cache : List Bytes
  pub current_root : Option Bytes

-- `n` slices of 32 bytes from `off` on.
unfoldable pub slices : ℕ → ℕ → Bytes → List Bytes
slices zero off b = []
slices (suc n) off b = take 32 (drop off b) ∷ slices n (off + 32) b

abbrev pub root_at : Option ℕ → List Bytes → Option Bytes
root_at none ring = none
root_at (some i) ring = get_elem? ring i

unfoldable pub decode_tree_state : Bytes → Result DecodeError TreeStateView
unfolding slices
decode_tree_state b =
    if ltb (length b) 8
    then err account_too_small
    else if ltb (length b) 24
    then err read_past_end
    else let ring = slices 128 32 b in
      ok (record {
        version = bit_or (get_or b 8 0) (get_or b 9 0 * 2 ^ 8);
        leaf_count = read_down 8 16 0 b;
        ring_head = get_elem? b 24;
        root_ring = ring;
        frontier = slices 26 (32 + 128 * 32) b;
        zero_cache = slices 26 (32 + 128 * 32 + 26 * 32) b;
        current_root = root_at (get_elem? b 24) ring;
      })

view_eq : {a b : TreeStateView} → ◌≡◌ {A = Result DecodeError TreeStateView} (ok a) (ok b) → a ≡ b
view_eq e = cc

-- The current root of a decoded account is the one that the head points at.
pub decode_tree_state-root_at :
    (b : Bytes) (view : TreeStateView)
    → decode_tree_state b ≡ ok view
    → view.current_root ≡ root_at view.ring_head view.root_ring
unfolding decode_tree_state
decode_tree_state-root_at b view e = elim (Bool-cases (ltb (length b) 8)) [
  | inl small ↦ cc (rw (small, decode_tree_state) at e)
  | inr enough ↦ elim (Bool-cases (ltb (length b) 24)) [
    | inl short ↦ cc (rw (enough, short, decode_tree_state) at e)
    | inr long ↦
        subst (λ (v : TreeStateView). v.current_root ≡ root_at v.ring_head v.root_ring)
          (view_eq (rw (enough, long, decode_tree_state) at e)) refl
  ]
]
