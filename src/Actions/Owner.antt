-- ===== src/Actions/Owner.antt =====
-- `splitOwnerHalves` of packages/sdk/src/actions/unshield.ts loses nothing.
use b402_solana.Common.{
  ℕ, zero, suc, [], ◌∷◌, ◌^◌, ◌<◌, ◌≡◌, refl, ap, ap₂, ◌∙◌, arith, ◌++◌, length, take, drop,
  length-take, length-drop, All-take, All-drop, Bytes, AllBytes, value, value-lt, emit, emit-value,
  ok, read_up-value_start, subst, take-length_self,
}
use b402_solana.Actions.Witness.{split_owner_halves}

take-drop_append : (n : ℕ) (b : Bytes) → take n b ++ drop n b ≡ b
take-drop_append zero b = refl
take-drop_append (suc n) [] = refl
take-drop_append (suc n) (x ∷ b) = ap (◌∷◌ x) (take-drop_append n b)

emit_part : (b : Bytes) → AllBytes b → length b ≡ 16 → emit 16 (value b) ≡ b
emit_part b h n = subst (λ (i : ℕ). emit i (value b) ≡ b) n (emit-value b h)

value_part : (b : Bytes) → AllBytes b → length b ≡ 16 → value b < 2 ^ 128
value_part b h n = subst (λ (i : ℕ). value b < 256 ^ i) n (value-lt b h)

-- An owner's key of 32 bytes splits into two halves of 128 bits, and the 16 bytes of the one and the
-- 16 bytes of the other are the key again: two owners with the same halves are the same.
pub split_owner_halves-emit :
    (owner : Bytes)
    → AllBytes owner
    → length owner ≡ 32
    → (low high : ℕ) × (split_owner_halves owner ≡ ok (low, high))
      × (low < 2 ^ 128)
      × (high < 2 ^ 128)
      × (emit 16 low ++ emit 16 high ≡ owner)
unfolding split_owner_halves
split_owner_halves-emit owner h n =
    let small : AllBytes (take 16 owner) = All-take (λ b. b < 256) 16 owner h in
    let rest : AllBytes (drop 16 owner) = All-drop (λ b. b < 256) 16 owner h in
    let short : length (take 16 owner) ≡ 16 = omega (arith, length-take 16 owner, n) in
    let size : length (drop 16 owner) ≡ 16 = omega (arith, length-drop 16 owner, n) in
    let first : take 16 (drop 0 owner) ≡ take 16 owner = refl in
    let second : take 16 (drop 16 owner) ≡ drop 16 owner =
      subst (λ (i : ℕ). take i (drop 16 owner) ≡ drop 16 owner) size
        (take-length_self (drop 16 owner)) in
    let low = read_up-value_start 16 0 owner h (omega (arith, n)) in
    let high = read_up-value_start 16 16 owner h (omega (arith, n)) ∙ ap value second in
    (
      value (take 16 owner),
      value (drop 16 owner),
      rw (n, low, high) refl,
      value_part (take 16 owner) small short,
      value_part (drop 16 owner) rest size,
      ap₂ (λ (a b : Bytes). a ++ b) (emit_part (take 16 owner) small short)
            (emit_part (drop 16 owner) rest size)
          ∙ take-drop_append 16 owner,
    )
