-- ===== src/Common/ByteArrays.antt =====
-- Byte arrays, little-endian numbers, and the two loops by which the packages write and read them.
use Prim.Native.Nat.{ℕ, zero, suc, ◌+◌, ◌*◌, ◌/◌, ◌^◌, ◌≤◌, ◌<◌, bit_and, bit_or}
use mathlib.Core.Path.{◌≡◌, refl, ap, ◌∙◌}
use mathlib.Core.List.{List, [], ◌∷◌, ◌++◌}
use native.Mathlib.Omega.{arith}
use native.Mathlib.Nat.{pow-suc, pow-zero, div-div-eq-div-mul}
use b402_solana.Common.Lists.{length, get_or, take, drop, All, length-drop}
use b402_solana.Common.Bits.{bit_and_byte, or_low}

abbrev pub Bytes : Type 0
Bytes = List ℕ

abbrev pub AllBytes : Bytes → Type 0
AllBytes = All (λ x. x < 256)

-- The number that little-endian bytes stand for.
abbrev pub value : Bytes → ℕ
value [] = 0
value (x ∷ xs) = x + 256 * value xs

-- `for (i = 0; i < n; i++) { out[i] = Number(v & 0xffn); v >>= 8n; }`
unfoldable pub emit : ℕ → ℕ → Bytes
emit zero v = []
emit (suc n) v = bit_and v 0xff ∷ emit n (v / 2 ^ 8)

-- `for (i = n - 1; i >= 0; i--) v = (v << 8n) | BigInt(b[off + i]);`
unfoldable pub read_down : ℕ → ℕ → ℕ → Bytes → ℕ
read_down zero off v b = v
read_down (suc i) off v b = read_down i off (bit_or (v * 2 ^ 8) (get_or b (off + i) 0)) b

pub length-emit : (n v : ℕ) → length (emit n v) ≡ n
unfolding emit
length-emit zero v = refl
length-emit (suc n) v = ap suc (length-emit n (v / 2 ^ 8))

pub emit-AllBytes : (n v : ℕ) → AllBytes (emit n v)
unfolding emit
emit-AllBytes zero v = tt
emit-AllBytes (suc n) v = (omega (arith, bit_and_byte v), emit-AllBytes n (v / 2 ^ 8))

pub value-emit : (n v : ℕ) → v < 256 ^ n → value (emit n v) ≡ v
unfolding emit
value-emit zero v h = omega (arith, pow-zero 256)
value-emit (suc n) v h =
    omega (
      arith,
      bit_and_byte v,
      pow-suc 256 n,
      value-emit n (v / 2 ^ 8) (omega (arith, pow-suc 256 n)),
    )

pub emit-value : (b : Bytes) → AllBytes b → emit (length b) (value b) ≡ b
unfolding emit
emit-value [] h = refl
emit-value (x ∷ xs) (p, h) =
    let low : bit_and (x + 256 * value xs) 0xff ≡ x =
      omega (arith, bit_and_byte (x + 256 * value xs)) in
    let high : (x + 256 * value xs) / 2 ^ 8 ≡ value xs = omega arith in
    rw (low, high) (ap (◌∷◌ x) (emit-value xs h))

pub value-lt : (b : Bytes) → AllBytes b → value b < 256 ^ length b
value-lt [] h = omega (arith, pow-zero 256)
value-lt (x ∷ xs) (p, h) = omega (arith, pow-suc 256 (length xs), value-lt xs h)

pub get_or-lt : (b : Bytes) (i : ℕ) → AllBytes b → get_or b i 0 < 256
get_or-lt [] i h = omega arith
get_or-lt (x ∷ xs) zero (p, h) = p
get_or-lt (x ∷ xs) (suc i) (p, h) = get_or-lt xs i h

pub value-take-suc :
    (b : Bytes) (i : ℕ)
    → i < length b
    → value (take (suc i) b) ≡ value (take i b) + get_or b i 0 * 256 ^ i
value-take-suc [] i h = elim h [ ]
value-take-suc (x ∷ xs) zero h = omega (arith, pow-zero 256)
value-take-suc (x ∷ xs) (suc i) h =
    omega
      (arith, value-take-suc xs i (omega arith), ap (λ (t : ℕ). get_or xs i 0 * t) (pow-suc 256 i))

pub get_or-drop : (b : Bytes) (off i : ℕ) → get_or (drop off b) i 0 ≡ get_or b (off + i) 0
get_or-drop b zero i = let e : 0 + i ≡ i = omega arith in rw e
get_or-drop [] (suc off) i = refl
get_or-drop (x ∷ xs) (suc off) i =
    let e : suc off + i ≡ suc (off + i) = omega arith in rw e (get_or-drop xs off i)

read_down_from :
    (n v : ℕ) (b : Bytes) (off : ℕ)
    → AllBytes b
    → n ≤ length (drop off b)
    → read_down n off v b ≡ v * 256 ^ n + value (take n (drop off b))
unfolding read_down
read_down_from zero v b off h p = omega (arith, ap (λ (t : ℕ). v * t) (pow-zero 256))
read_down_from (suc i) v b off h p = omega (
  arith,
  read_down_from i (bit_or (v * 2 ^ 8) (get_or b (off + i) 0)) b off h (omega arith),
  ap (λ (t : ℕ). t * 256 ^ i) joined,
  ap (λ (t : ℕ). v * t) (pow-suc 256 i),
  ap (λ (t : ℕ). t * 256 ^ i) (get_or-drop b off i),
  value-take-suc (drop off b) i (omega arith),
)
  where
    joined : bit_or (v * 2 ^ 8) (get_or b (off + i) 0) ≡ v * 256 + get_or b (off + i) 0
    joined = or_low 8 v (get_or b (off + i) 0) (get_or-lt b (off + i) h)

-- The reading loop computes the number that the `n` bytes behind `off` stand for.
pub read_down-value :
    (n off : ℕ) (b : Bytes)
    → AllBytes b
    → off + n ≤ length b
    → read_down n off 0 b ≡ value (take n (drop off b))
read_down-value n off b h p =
    omega (arith, read_down_from n 0 b off h (omega (arith, length-drop off b)))

pub take-length_self : (b : Bytes) → take (length b) b ≡ b
take-length_self [] = refl
take-length_self (x ∷ xs) = ap (◌∷◌ x) (take-length_self xs)

pub read_down-value_all : (b : Bytes) → AllBytes b → read_down (length b) 0 0 b ≡ value b
read_down-value_all b h =
    read_down-value (length b) 0 b h (omega arith) ∙ ap value (take-length_self b)

-- Reading back a number that was written between other bytes.
pub take-emit_append : (n v : ℕ) (rest : Bytes) → take n (emit n v ++ rest) ≡ emit n v
unfolding emit
take-emit_append zero v rest = refl
take-emit_append (suc n) v rest = ap (◌∷◌ (bit_and v 0xff)) (take-emit_append n (v / 2 ^ 8) rest)

pub drop-emit_append : (n v : ℕ) (rest : Bytes) → drop n (emit n v ++ rest) ≡ rest
unfolding emit
drop-emit_append zero v rest = refl
drop-emit_append (suc n) v rest = drop-emit_append n (v / 2 ^ 8) rest

-- The bytes of a number are its low bytes and the bytes of what is above them.
pub emit-add : (n m v : ℕ) → emit (n + m) v ≡ emit n v ++ emit m (v / 256 ^ n)
unfolding emit
emit-add zero m v =
    let sum : 0 + m ≡ m = omega arith in
    let same : v / 256 ^ 0 ≡ v = omega (arith, pow-zero 256) in rw (sum, same) refl
emit-add (suc n) m v =
    let above : v / 2 ^ 8 / 256 ^ n ≡ v / 256 ^ suc n =
      div-div-eq-div-mul v 256 (256 ^ n) ∙ ap (λ (d : ℕ). v / d) (omega (arith, pow-suc 256 n)) in
    let sum : suc n + m ≡ suc (n + m) = omega arith in
    rw sum (
      ap (◌∷◌ (bit_and v 0xff))
        (emit-add n m (v / 2 ^ 8) ∙ ap (λ (x : ℕ). emit n (v / 2 ^ 8) ++ emit m x) above))
