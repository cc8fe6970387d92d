-- ===== src/Common/Bits.antt =====
-- The bit operations of the byte codecs at variables.
use Prim.Native.Nat.{
  ℕ, zero, suc, ◌+◌, ◌*◌, ◌/◌, ◌%◌, ◌^◌, ◌≤◌, ◌<◌, min, max, bit_and, bit_or, digits,
  bit_and-bitwise, bit_or-bitwise,
}
use mathlib.Core.Path.{◌≡◌, refl, ap}
use mathlib.Core.Logic.{◌⊎◌, inl, inr}
use native.Mathlib.Nat.{pow-suc, pow-zero}
use native.Mathlib.Omega.{arith}

zero_or_more : (a : ℕ) → (a ≡ 0) ⊎ (0 < a)
zero_or_more zero = inl refl
zero_or_more (suc a) = inr (omega arith)

-- The operations by their digits: rounds beyond the first number's size change nothing.
module _ (tail : ℕ → ℕ) (join : ℕ → ℕ → ℕ) where
  spare_rounds : (a b n m : ℕ) → a ≤ n → a ≤ m → digits tail join n a b ≡ digits tail join m a b
  spare_rounds zero b zero zero le le' = refl
  spare_rounds zero b zero (suc m) le le' = refl
  spare_rounds zero b (suc n) zero le le' = refl
  spare_rounds zero b (suc n) (suc m) le le' = refl
  spare_rounds (suc a) b zero m le le' = absurd (omega arith)
  spare_rounds (suc a) b (suc n) zero le le' = absurd (omega arith)
  spare_rounds (suc a) b (suc n) (suc m) le le' =
      let halves = spare_rounds (suc a / 2) (b / 2) n m (omega arith) (omega arith) in
      omega (arith, halves)

  low_digit :
      (a b : ℕ)
      → digits tail join (suc a) (suc a) b
        ≡ join (suc a % 2) (b % 2) + 2 * digits tail join (suc a / 2) (suc a / 2) (b / 2)
  low_digit a b =
      let halves = spare_rounds (suc a / 2) (b / 2) a (suc a / 2) (omega arith) (omega arith) in
      omega (arith, halves)

none-and : (b : ℕ) → bit_and 0 b ≡ 0
none-and b = bit_and-bitwise 0 b

and_halves : (a b : ℕ) → bit_and a b ≡ min (a % 2) (b % 2) + 2 * bit_and (a / 2) (b / 2)
and_halves zero b = omega (arith, none-and b, none-and (b / 2))
and_halves (suc a) b =
    let joined = low_digit (λ c. zero) min a b in
    let whole = bit_and-bitwise (suc a) b in
    let half = bit_and-bitwise (suc a / 2) (b / 2) in omega (arith, joined, whole, half)

-- With a mask of no bits; `n` bounds the number.
masked_out : (n a : ℕ) → a < suc n → bit_and a 0 ≡ 0
masked_out zero a low = let none : a ≡ 0 = omega arith in rw none (none-and 0)
masked_out (suc n) a low = elim (zero_or_more a) [
  | inl none ↦ rw none (none-and 0)
  | inr more ↦ omega (arith, and_halves a 0, masked_out n (a / 2) (omega arith))
]

-- `x & 1`, and each wider mask of ones from the one half as wide.
pub bit_and-one : (a : ℕ) → bit_and a 1 ≡ a % 2
bit_and-one a = omega (arith, and_halves a 1, masked_out (a / 2) (a / 2) (omega arith))

mask_4 : (a : ℕ) → bit_and a 0xf ≡ a % 0x10
mask_4 a =
    let top = bit_and-one (a / 2 / 2 / 2) in
    omega (arith, top, and_halves (a / 2 / 2) 3, and_halves (a / 2) 7, and_halves a 0xf)

-- `x & 0xff`
pub bit_and_byte : (a : ℕ) → bit_and a 255 ≡ a % 256
bit_and_byte a =
    let upper = mask_4 (a / 2 / 2 / 2 / 2) in
    omega (
      arith,
      upper,
      and_halves (a / 2 / 2 / 2) 0x1f,
      and_halves (a / 2 / 2) 0x3f,
      and_halves (a / 2) 0x7f,
      and_halves a 0xff,
    )

pub zero-bit_or : (b : ℕ) → bit_or 0 b ≡ b
zero-bit_or b = bit_or-bitwise 0 b

or_halves : (a b : ℕ) → bit_or a b ≡ max (a % 2) (b % 2) + 2 * bit_or (a / 2) (b / 2)
or_halves zero b = omega (arith, zero-bit_or b, zero-bit_or (b / 2))
or_halves (suc a) b =
    let joined = low_digit (λ c. c) max a b in
    let whole = bit_or-bitwise (suc a) b in
    let half = bit_or-bitwise (suc a / 2) (b / 2) in omega (arith, joined, whole, half)

or_none : (n a : ℕ) → a < suc n → bit_or a 0 ≡ a
or_none zero a low = let none : a ≡ 0 = omega arith in rw none (zero-bit_or 0)
or_none (suc n) a low = elim (zero_or_more a) [
  | inl none ↦ rw none (zero-bit_or 0)
  | inr more ↦ omega (arith, or_halves a 0, or_none n (a / 2) (omega arith))
]

pub bit_or-zero : (a : ℕ) → bit_or a 0 ≡ a
bit_or-zero a = or_none a a (omega arith)

-- A number shifted by k bits leaves the low k bits free for another.
pub or_low : (k a b : ℕ) → b < 2 ^ k → bit_or (a * 2 ^ k) b ≡ a * 2 ^ k + b
or_low zero a b h = let e : b ≡ 0 = omega (arith, pow-zero 2) in rw e (rw bit_or-zero (omega arith))
or_low (suc k) a b h = omega (
  arith,
  pow-suc 2 k,
  ap (λ (t : ℕ). a * t) (pow-suc 2 k),
  or_halves (a * 2 ^ suc k) b,
  halved,
  or_low k a (b / 2) (omega (arith, pow-suc 2 k)),
)
  where
    half : a * 2 ^ suc k / 2 ≡ a * 2 ^ k
    half = omega (arith, ap (λ (t : ℕ). a * t) (pow-suc 2 k))

    halved : bit_or (a * 2 ^ suc k / 2) (b / 2) ≡ bit_or (a * 2 ^ k) (b / 2)
    halved = ap (λ (t : ℕ). bit_or t (b / 2)) half

pub or_high : (k a b : ℕ) → b < 2 ^ k → bit_or b (a * 2 ^ k) ≡ b + a * 2 ^ k
or_high zero a b h =
    let e : b ≡ 0 = omega (arith, pow-zero 2) in rw e (rw zero-bit_or (omega arith))
or_high (suc k) a b h = omega (
  arith,
  pow-suc 2 k,
  ap (λ (t : ℕ). a * t) (pow-suc 2 k),
  or_halves b (a * 2 ^ suc k),
  halved,
  or_high k a (b / 2) (omega (arith, pow-suc 2 k)),
)
  where
    half : a * 2 ^ suc k / 2 ≡ a * 2 ^ k
    half = omega (arith, ap (λ (t : ℕ). a * t) (pow-suc 2 k))

    halved : bit_or (b / 2) (a * 2 ^ suc k / 2) ≡ bit_or (b / 2) (a * 2 ^ k)
    halved = ap (λ (t : ℕ). bit_or (b / 2) t) half

mask_5 : (a : ℕ) → bit_and a 0x1f ≡ a % 0x20
mask_5 a = let top = mask_4 (a / 2) in omega (arith, top, and_halves a 0x1f)

-- The masks of a clamped scalar: `x & 248`, `x & 127` and, of seven bits, `x | 64`.
pub bit_and-multiple_of_8 : (a : ℕ) → a < 256 → bit_and a 248 ≡ a / 8 * 8
bit_and-multiple_of_8 a h =
    let top = mask_5 (a / 2 / 2 / 2) in
    omega (arith, top, and_halves (a / 2 / 2) 0x3e, and_halves (a / 2) 0x7c, and_halves a 0xf8)

pub bit_and-seven_bits : (a : ℕ) → bit_and a 127 ≡ a % 128
bit_and-seven_bits a =
    let top = mask_5 (a / 2 / 2) in omega (arith, top, and_halves (a / 2) 0x3f, and_halves a 0x7f)

one_bit : (b : ℕ) → b < 2 → bit_or b 1 ≡ 1
one_bit zero h = zero-bit_or 1
one_bit (suc zero) h = omega (arith, or_halves 1 1, zero-bit_or 0)
one_bit (suc (suc b)) h = absurd (omega arith)

pub bit_or-sixth : (a : ℕ) → a < 128 → bit_or a 64 ≡ 64 + a % 64
bit_or-sixth a h =
    let top = one_bit (a / 2 / 2 / 2 / 2 / 2 / 2) (omega arith) in
    omega (
      arith,
      top,
      or_halves (a / 2 / 2 / 2 / 2 / 2) 2,
      or_halves (a / 2 / 2 / 2 / 2) 4,
      or_halves (a / 2 / 2 / 2) 8,
      or_halves (a / 2 / 2) 16,
      or_halves (a / 2) 32,
      or_halves a 64,
    )
