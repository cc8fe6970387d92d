-- ===== src/Programs/Anchor.antt =====
-- packages/sdk/src/programs/anchor.ts, over the parameters `sha256` and `utf8`.
use b402_solana.Common.{
  ℕ, zero, suc, ◌+◌, ◌/◌, ◌^◌, ◌<◌, ◌≡◌, refl, sym, ap, ap₂, length-replicate, ◌∙◌, arith, bit_and,
  bit_and_byte, List, [], ◌∷◌, ◌++◌, append_assoc, append-nil, length, length-append, take, drop,
  get_or, replicate, Text, codes, Bytes, value, emit, ℤ, pos, negsuc, Result, ok, err,
  if◌then◌else◌, leb, take-length_append, drop-length_append,
}

pub data RangeError : Type 0 where
  u64_out_of_range : RangeError

module _ (sha256 : Bytes → Bytes) (utf8 : Text → Bytes) where
  unfoldable pub instruction_discriminator : Text → Bytes
  instruction_discriminator name = take 8 (sha256 (utf8 (codes "global:" ++ name)))

  unfoldable pub event_discriminator : Text → Bytes
  event_discriminator name = take 8 (sha256 (utf8 (codes "event:" ++ name)))

-- `out.set(p, off)`, inside the buffer.
unfoldable pub set_bytes : Bytes → ℕ → Bytes → Bytes
set_bytes out off p = take off out ++ (p ++ drop (off + length p) out)

unfoldable pub total_length : List Bytes → ℕ
total_length [] = 0
total_length (p ∷ parts) = length p + total_length parts

unfoldable pub copy_parts : Bytes → ℕ → List Bytes → Bytes
unfolding set_bytes
copy_parts out off [] = out
copy_parts out off (p ∷ parts) = copy_parts (set_bytes out off p) (off + length p) parts

unfoldable pub concat : List Bytes → Bytes
unfolding copy_parts total_length
concat parts = copy_parts (replicate (total_length parts) 0) 0 parts

unfoldable pub u32_le : ℕ → Bytes
u32_le v =
    bit_and v 0xff
    ∷ bit_and (v / 2 ^ 8) 0xff
    ∷ bit_and (v / 2 ^ 16) 0xff
    ∷ bit_and (v / 2 ^ 24) 0xff
    ∷ []

unfoldable pub u16_le : ℕ → Bytes
u16_le v = bit_and v 0xff ∷ bit_and (v / 2 ^ 8) 0xff ∷ []

unfoldable pub u64_le : ℤ → Result RangeError Bytes
u64_le (negsuc n) = err u64_out_of_range
u64_le (pos v) = if leb (2 ^ 64) v then err u64_out_of_range else ok (emit 8 v)

unfoldable pub vec_u8 : Bytes → Bytes
unfolding concat u32_le
vec_u8 bytes = concat (u32_le (length bytes) ∷ bytes ∷ [])

-- The parts, one behind the other.
abbrev pub join : List Bytes → Bytes
join [] = []
join (p ∷ parts) = p ++ join parts

replicate-add : (n m k : ℕ) → k ≡ n + m → replicate {A = ℕ} k 0 ≡ replicate n 0 ++ replicate m 0
replicate-add zero m k h = ap (λ (i : ℕ). replicate {A = ℕ} i 0) (omega arith)
replicate-add (suc n) m zero h = absurd (omega arith)
replicate-add (suc n) m (suc k) h = ap (◌∷◌ 0) (replicate-add n m k (omega arith))

-- Writing behind what is written of a blank buffer.
pub set_bytes-blank :
    (pre p : Bytes) (off rest t : ℕ)
    → length pre ≡ off
    → rest ≡ length p + t
    → set_bytes (pre ++ replicate rest 0) off p ≡ (pre ++ p) ++ replicate t 0
unfolding set_bytes
set_bytes-blank pre p off rest t at room =
    let blank : Bytes = replicate (length p) 0 in
    let split : pre ++ replicate rest 0 ≡ (pre ++ blank) ++ replicate t 0 =
      ap (λ (z : Bytes). pre ++ z) (replicate-add (length p) t rest room)
      ∙ sym (append_assoc pre blank (replicate t 0)) in
    let past : length (pre ++ blank) ≡ off + length p =
      omega (arith, length-append pre blank, length-replicate {A = ℕ} (length p) 0) in
    ap₂ (λ (x y : Bytes). x ++ (p ++ y)) (take-length_append pre (replicate rest 0) off at)
      (ap (drop (off + length p)) split
        ∙ drop-length_append (pre ++ blank) (replicate t 0) (off + length p) past)
    ∙ sym (append_assoc pre p (replicate t 0))

pub copy_parts-join :
    (pre : Bytes) (off rest : ℕ) (parts : List Bytes)
    → length pre ≡ off
    → rest ≡ total_length parts
    → copy_parts (pre ++ replicate rest 0) off parts ≡ pre ++ join parts
unfolding copy_parts total_length
copy_parts-join pre off rest [] at room = rw room refl
copy_parts-join pre off rest (p ∷ parts) at room =
    ap (λ (out : Bytes). copy_parts out (off + length p) parts)
      (set_bytes-blank pre p off rest (total_length parts) at room)
    ∙ copy_parts-join (pre ++ p) (off + length p) (total_length parts) parts
        (omega (arith, length-append pre p)) refl
    ∙ append_assoc pre p (join parts)

-- `concat` writes the parts one behind the other and nothing else.
pub concat-join : (parts : List Bytes) → concat parts ≡ join parts
unfolding concat
concat-join parts = copy_parts-join [] 0 (total_length parts) parts refl refl

-- The value of the four bytes of a 32-bit number.
pub u32_le-value : (v : ℕ) → v < 2 ^ 32 → value (u32_le v) ≡ v
unfolding u32_le
u32_le-value v h = omega (
  arith,
  bit_and_byte v,
  bit_and_byte (v / 2 ^ 8),
  bit_and_byte (v / 2 ^ 16),
  bit_and_byte (v / 2 ^ 24),
)

pub u16_le-value : (v : ℕ) → v < 2 ^ 16 → value (u16_le v) ≡ v
unfolding u16_le
u16_le-value v h = omega (arith, bit_and_byte v, bit_and_byte (v / 2 ^ 8))

-- A vector of bytes is its length in four bytes and the bytes, and its length reads back.
pub vec_u8-join :
    (b : Bytes)
    → length b < 2 ^ 32
    → (vec_u8 b ≡ u32_le (length b) ++ b) × (value (take 4 (vec_u8 b)) ≡ length b)
unfolding vec_u8 u32_le
vec_u8-join b h =
    let joined : vec_u8 b ≡ u32_le (length b) ++ b =
      concat-join (u32_le (length b) ∷ b ∷ [])
      ∙ ap (λ (z : Bytes). u32_le (length b) ++ z) (append-nil b) in
    (joined, ap (λ (z : Bytes). value (take 4 z)) joined ∙ u32_le-value (length b) h)

pub join-append : (parts more : List Bytes) → join (parts ++ more) ≡ join parts ++ join more
join-append [] more = refl
join-append (p ∷ parts) more =
    ap (λ (z : Bytes). p ++ z) (join-append parts more)
    ∙ sym (append_assoc p (join parts) (join more))

pub length-join : (parts : List Bytes) → length (join parts) ≡ total_length parts
unfolding total_length
length-join [] = refl
length-join (p ∷ parts) = omega (arith, length-append p (join parts), length-join parts)

drop-behind : (p b : Bytes) (n m : ℕ) → n ≡ length p + m → drop n (p ++ b) ≡ drop m b
drop-behind [] b n m e = let same : n ≡ m = omega arith in ap (λ (i : ℕ). drop i b) same
drop-behind (x ∷ p) b zero m e = absurd (omega (arith, e))
drop-behind (x ∷ p) b (suc n) m e = drop-behind p b n m (omega (arith, e))

-- A part is read back at the length of those before it.
pub join-part :
    (parts : List Bytes) (i n k : ℕ)
    → total_length (take i parts) ≡ n
    → length (get_or parts i []) ≡ k
    → take k (drop n (join parts)) ≡ get_or parts i []
unfolding total_length
join-part [] i zero zero at size = refl
join-part [] i (suc n) zero at size = refl
join-part [] i n (suc k) at size = absurd (omega (arith, size))
join-part (p ∷ parts) zero zero k at size = take-length_append p (join parts) k size
join-part (p ∷ parts) zero (suc n) k at size = absurd (omega (arith, at))
join-part (p ∷ parts) (suc i) n k at size =
    ap (take k) (drop-behind p (join parts) n (total_length (take i parts)) (omega (arith, at)))
    ∙ join-part parts i (total_length (take i parts)) k refl size
