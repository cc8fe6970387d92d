-- ===== src/Common/Hex.antt =====
-- Hexadecimal strings of bytes, as JavaScript code writes and reads them.
use Prim.Native.Nat.{ℕ, ◌+◌, ◌-◌, ◌*◌, ◌/◌, ◌%◌, ◌<◌}
use mathlib.Core.Path.{◌≡◌, refl, ap₂, ◌∙◌}
use mathlib.Core.Bool.{◌&&◌}
use mathlib.Core.List.{[], ◌∷◌}
use mathlib.Core.Option.{Option, none, some}
use native.Mathlib.Omega.{arith}
use b402_solana.Common.Tests.{leb, ltb, if◌then◌else◌}
use b402_solana.Common.Lists.{length}
use b402_solana.Common.ByteArrays.{Bytes, AllBytes}
use b402_solana.Common.Texts.{Text}

-- A digit of `toString(16)`.
abbrev pub hex_digit : ℕ → ℕ
hex_digit d = if ltb d 10 then 48 + d else 87 + d

-- `x.toString(16).padStart(2, '0')` of each byte, joined.
unfoldable pub bytes_to_hex : Bytes → Text
bytes_to_hex [] = []
bytes_to_hex (x ∷ b) = hex_digit (x / 16) ∷ hex_digit (x % 16) ∷ bytes_to_hex b

unfoldable pub nibble : ℕ → Option ℕ
nibble c =
    if leb 48 c && leb c 57
    then some (c - 48)
    else if leb 97 c && leb c 102
    then some (c - 87)
    else if leb 65 c && leb c 70
    then some (c - 55)
    else none

-- `parseInt(s.slice(i * 2, i * 2 + 2), 16)` as a byte; `other` is what comes of two characters that
-- are not both digits.
unfoldable pub hex_byte : (ℕ → ℕ → ℕ) → ℕ → ℕ → ℕ
unfolding nibble
hex_byte other c d = elim (nibble c) [
  | none ↦ other c d
  | some h ↦ elim (nibble d) [ none ↦ other c d | some l ↦ 16 * h + l ]
]

-- The bytes of the pairs; a character that is left over has no byte.
unfoldable pub hex_pairs : (ℕ → ℕ → ℕ) → Text → Bytes
unfolding hex_byte
hex_pairs other [] = []
hex_pairs other (c ∷ []) = []
hex_pairs other (c ∷ d ∷ s) = hex_byte other c d ∷ hex_pairs other s

nibble-hex_digit : (d : ℕ) → d < 16 → nibble (hex_digit d) ≡ some d
unfolding nibble
nibble-hex_digit d h = ground arith

hex_byte-digits :
    (other : ℕ → ℕ → ℕ) (c d h l : ℕ)
    → nibble c ≡ some h
    → nibble d ≡ some l
    → hex_byte other c d ≡ 16 * h + l
unfolding hex_byte
hex_byte-digits other c d h l high low = rw (high, low, hex_byte) refl

-- What is written reads back.
pub hex_pairs-bytes_to_hex :
    (other : ℕ → ℕ → ℕ) (b : Bytes) → AllBytes b → hex_pairs other (bytes_to_hex b) ≡ b
unfolding hex_pairs bytes_to_hex
hex_pairs-bytes_to_hex other [] h = refl
hex_pairs-bytes_to_hex other (x ∷ b) (p, h) =
    let read : hex_byte other (hex_digit (x / 16)) (hex_digit (x % 16)) ≡ 16 * (x / 16) + x % 16 =
      hex_byte-digits other (hex_digit (x / 16)) (hex_digit (x % 16)) (x / 16) (x % 16)
        (nibble-hex_digit (x / 16) (omega arith)) (nibble-hex_digit (x % 16) (omega arith)) in
    ap₂ (λ (y : ℕ) (c : Bytes). y ∷ c) (read ∙ whole x) (hex_pairs-bytes_to_hex other b h)
  where
    whole : (x : ℕ) → 16 * (x / 16) + x % 16 ≡ x
    whole x = omega arith

-- Each byte has two characters.
pub length-bytes_to_hex : (b : Bytes) → length (bytes_to_hex b) ≡ 2 * length b
unfolding bytes_to_hex
length-bytes_to_hex [] = refl
length-bytes_to_hex (x ∷ b) = omega (arith, length-bytes_to_hex b)
