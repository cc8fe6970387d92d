-- ===== src/Common/Decimal.antt =====
-- Decimal strings of numbers that are not negative: `v.toString()` and `BigInt(s)`.
use Prim.Native.Nat.{ℕ, zero, suc, ◌+◌, ◌-◌, ◌*◌, ◌/◌, ◌%◌, ◌<◌}
use mathlib.Core.Path.{◌≡◌, refl, ap, ◌∙◌}
use mathlib.Core.Logic.{inl, inr}
use mathlib.Core.Bool.{true, ◌&&◌}
use mathlib.Core.List.{[], ◌∷◌}
use mathlib.Core.Option.{Option, none, some}
use native.Mathlib.Omega.{arith}
use b402_solana.Common.Tests.{leb, ltb, if◌then◌else◌, Bool-cases}
use b402_solana.Common.Texts.{Text}

-- The digits before `acc`, on fuel above the number.
unfoldable pub digits : ℕ → ℕ → Text → Text
digits zero v acc = acc
digits (suc n) v acc =
    let more = digits n (v / 10) ((48 + v % 10) ∷ acc) in if ltb v 10 then (48 + v) ∷ acc else more

unfoldable pub to_decimal : ℕ → Text
unfolding digits
to_decimal v = digits (suc v) v []

unfoldable pub read_digits : ℕ → Text → Option ℕ
read_digits v [] = some v
read_digits v (c ∷ s) =
    let more = read_digits (10 * v + (c - 48)) s in if leb 48 c && leb c 57 then more else none

-- `none`: the code's `BigInt` throws, or reads a form that `toString` does not write.
unfoldable pub big_int : Text → Option ℕ
unfolding read_digits
big_int s = read_digits 0 s

read_digits-digit :
    (v d : ℕ) (s : Text) → d < 10 → read_digits v ((48 + d) ∷ s) ≡ read_digits (10 * v + d) s
unfolding read_digits
read_digits-digit v d s h =
    let fits : (leb 48 (48 + d) && leb (48 + d) 57) ≡ true = ground arith in
    let same : 48 + d - 48 ≡ d = omega arith in rw (fits, same) refl

read_digits-digits :
    (n v : ℕ) (acc : Text) → v < n → read_digits 0 (digits n v acc) ≡ read_digits v acc
unfolding digits
read_digits-digits zero v acc h = absurd (omega arith)
read_digits-digits (suc n) v acc h = elim (Bool-cases (ltb v 10)) [
  | inl small ↦
      let below : v < 10 = ground arith in
      rw small (read_digits-digit 0 v acc below ∙ ap (λ (x : ℕ). read_digits x acc) (zeroed v))
  | inr big ↦
      let above : v / 10 < n = ground arith in
      rw big (
        read_digits-digits n (v / 10) ((48 + v % 10) ∷ acc) above
        ∙ read_digits-digit (v / 10) (v % 10) acc (low v)
        ∙ ap (λ (x : ℕ). read_digits x acc) (whole v))
]
  where
    zeroed : (v : ℕ) → 10 * 0 + v ≡ v
    zeroed v = omega arith

    low : (v : ℕ) → v % 10 < 10
    low v = omega arith

    whole : (v : ℕ) → 10 * (v / 10) + v % 10 ≡ v
    whole v = omega arith

-- What is written reads back.
pub big_int-to_decimal : (v : ℕ) → big_int (to_decimal v) ≡ some v
unfolding big_int to_decimal read_digits
big_int-to_decimal v = read_digits-digits (suc v) v [] (omega arith)
