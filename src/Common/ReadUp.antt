-- ===== src/Common/ReadUp.antt =====
-- The loop that reads a little-endian number from its first byte up.
use Prim.Native.Nat.{ℕ, zero, suc, ◌+◌, ◌*◌, ◌^◌, ◌≤◌, ◌<◌, bit_or}
use mathlib.Core.Path.{◌≡◌, refl, sym, ap, ◌∙◌}
use mathlib.Core.List.{[], ◌∷◌}
use native.Mathlib.Omega.{arith}
use native.Mathlib.Nat.{pow-suc}
use b402_solana.Common.Lists.{length, get_or, take, drop}
use b402_solana.Common.Bits.{or_high}
use b402_solana.Common.ByteArrays.{Bytes, AllBytes, value, get_or-lt, get_or-drop}

-- `for (i = 0; i < n; i++) v |= BigInt(bytes[offset + i]) << BigInt(8 * i);`, from round `i` on.
unfoldable pub read_up : ℕ → ℕ → ℕ → ℕ → Bytes → ℕ
read_up zero i offset v b = v
read_up (suc n) i offset v b =
    read_up n (suc i) offset (bit_or v (get_or b (offset + i) 0 * 2 ^ (8 * i))) b

pow_byte : (i : ℕ) → 2 ^ (8 * suc i) ≡ 256 * 2 ^ (8 * i)
pow_byte i =
    let e : 8 * suc i ≡ suc (suc (suc (suc (suc (suc (suc (suc (8 * i)))))))) = omega arith in
    rw e (
      omega (
        arith,
        pow-suc 2 (suc (suc (suc (suc (suc (suc (suc (8 * i)))))))),
        pow-suc 2 (suc (suc (suc (suc (suc (suc (8 * i))))))),
        pow-suc 2 (suc (suc (suc (suc (suc (8 * i)))))),
        pow-suc 2 (suc (suc (suc (suc (8 * i))))),
        pow-suc 2 (suc (suc (suc (8 * i)))),
        pow-suc 2 (suc (suc (8 * i))),
        pow-suc 2 (suc (8 * i)),
        pow-suc 2 (8 * i),
      ))

take-drop_step :
    (b : Bytes) (n k : ℕ)
    → k < length b
    → take (suc n) (drop k b) ≡ get_or b k 0 ∷ take n (drop (suc k) b)
take-drop_step [] n k h = elim h [ ]
take-drop_step (x ∷ xs) n zero h = refl
take-drop_step (x ∷ xs) n (suc k) h = take-drop_step xs n k (omega arith)

scaled_lt : (v x p : ℕ) → v < p → x < 256 → v + x * p < 256 * p
scaled_lt v x p h k = grind arith

pub read_up-value :
    (n i offset v : ℕ) (b : Bytes)
    → AllBytes b
    → offset + i + n ≤ length b
    → v < 2 ^ (8 * i)
    → read_up n i offset v b ≡ v + value (take n (drop (offset + i) b)) * 2 ^ (8 * i)
unfolding read_up
read_up-value zero i offset v b h fits below = omega arith
read_up-value (suc n) i offset v b h fits below =
    let x = get_or b (offset + i) 0 in
    let p = 2 ^ (8 * i) in
    let joined : bit_or v (x * p) ≡ v + x * p = or_high (8 * i) x v below in
    let at : offset + suc i ≡ suc (offset + i) = omega arith in
    let small : v + x * p < 2 ^ (8 * suc i) =
      omega (arith, scaled_lt v x p below (get_or-lt b (offset + i) h), pow_byte i) in
    let more = value (take n (drop (suc (offset + i)) b)) in
    let parts : value (take (suc n) (drop (offset + i) b)) ≡ x + 256 * more =
      ap value (take-drop_step b n (offset + i) (omega arith)) in
    rw joined (
      read_up-value n (suc i) offset (v + x * p) b h (omega arith) small
      ∙ rw (at, parts, pow_byte i) (omega arith))

-- From the first byte on, the loop computes the number that the `n` bytes behind `offset` stand for.
pub read_up-value_start :
    (n offset : ℕ) (b : Bytes)
    → AllBytes b
    → offset + n ≤ length b
    → read_up n 0 offset 0 b ≡ value (take n (drop offset b))
read_up-value_start n offset b h fits =
    let start : offset + 0 ≡ offset = omega arith in
    read_up-value n 0 offset 0 b h (omega arith) (omega arith)
    ∙ omega (arith, ap (λ (i : ℕ). value (take n (drop i b))) start)

get_or-take : (b : Bytes) (m i : ℕ) → i < m → get_or (take m b) i 0 ≡ get_or b i 0
get_or-take b zero i h = absurd (omega arith)
get_or-take [] (suc m) i h = refl
get_or-take (x ∷ b) (suc m) zero h = refl
get_or-take (x ∷ b) (suc m) (suc i) h = get_or-take b m i (omega arith)

read_up_from :
    (n i off v m : ℕ) (b : Bytes)
    → i + n ≤ m
    → read_up n i off v b ≡ read_up n i 0 v (take m (drop off b))
unfolding read_up
read_up_from zero i off v m b h = refl
read_up_from (suc n) i off v m b h =
    let byte : get_or b (off + i) 0 ≡ get_or (take m (drop off b)) i 0 =
      sym (get_or-take (drop off b) m i (omega arith) ∙ get_or-drop b off i) in
    let start : 0 + i ≡ i = omega arith in
    rw (byte, start) (read_up_from n (suc i) off _ m b (omega arith))

-- The loop reads only the bytes that it is given, whatever stands around them.
pub read_up-part :
    (n off : ℕ) (b part : Bytes)
    → take n (drop off b) ≡ part
    → read_up n 0 off 0 b ≡ read_up n 0 0 0 part
read_up-part n off b part e = read_up_from n 0 off 0 n b (omega arith) ∙ ap (read_up n 0 0 0) e
