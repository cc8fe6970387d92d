-- ===== src/Protocol/Encoding/RoundTrip.antt =====
-- The field codec: encoding and decoding undo one another, and what each refuses.
use b402_solana.Common.{
  ℕ, ◌<◌, ◌≤◌, ◌^◌, ◌≡◌, ◌↔◌, refl, ap, ◌∙◌, arith, pos, Bytes, AllBytes, value, length, emit,
  length-emit, emit-AllBytes, value-emit, emit-value, read_down, read_down-value_all, ok, err, leb,
  ◌==◌, inl, inr, Bool-cases, if◌then◌else◌, ℤ, negsuc,
}
use b402_solana.Protocol.Encoding.{
  fr_modulus, fr_to_le, le_to_fr, le_to_fr_reduced, u64_to_fr_le, non_canonical, u64_out_of_range,
}

read_32 : (b : Bytes) → AllBytes b → length b ≡ 32 → read_down 32 0 0 b ≡ value b
read_32 b h e = subst_read (length b) e (read_down-value_all b h)
  where
    subst_read : (n : ℕ) → n ≡ 32 → read_down n 0 0 b ≡ value b → read_down 32 0 0 b ≡ value b
    subst_read n e p = rw e at p

-- What `leToFr` does on every 32 bytes: the little-endian number if it is below the modulus.
le_to_fr_lem :
    (b : Bytes)
    → AllBytes b
    → length b ≡ 32
    → le_to_fr b ≡ (if leb fr_modulus (value b) then err non_canonical else ok (value b))
unfolding le_to_fr
le_to_fr_lem b h e = ground (arith, read_32 b h e)

below_32 : {x : ℕ} → x < fr_modulus → value (emit 32 x) ≡ x
below_32 {x} h = value-emit 32 x (omega arith)

fr_to_le-pos : (x : ℕ) → x < fr_modulus → fr_to_le (pos x) ≡ ok (emit 32 x)
unfolding fr_to_le
fr_to_le-pos x h = ground arith

le_to_fr-emit : (x : ℕ) → x < fr_modulus → le_to_fr (emit 32 x) ≡ ok x
le_to_fr-emit x h =
    ground (arith, le_to_fr_lem (emit 32 x) (emit-AllBytes 32 x) (length-emit 32 x), below_32 h)

-- What an encoding says of the number and of the bytes.
fr_to_le_inv :
    (x : ℤ) (b : Bytes)
    → fr_to_le x ≡ ok b
    → (n : ℕ) × (x ≡ pos n) × (n < fr_modulus) × (b ≡ emit 32 n)
unfolding fr_to_le
fr_to_le_inv (pos n) b h = (n, refl, ground arith, ground arith)
fr_to_le_inv (negsuc n) b h = cc

le_to_fr_inv :
    (b : Bytes) (x : ℕ)
    → AllBytes b
    → le_to_fr b ≡ ok x
    → (length b ≡ 32) × (x ≡ value b) × (x < fr_modulus)
unfolding le_to_fr
le_to_fr_inv b x h e = elim (Bool-cases (length b == 32)) [
  | inl same ↦
      let len : length b ≡ 32 = ground arith in
      let d = le_to_fr_lem b h len in (len, ground (arith, read_32 b h len), ground arith)
  | inr other ↦ ground arith
]

emit_32-value : (b : Bytes) → AllBytes b → length b ≡ 32 → emit 32 (value b) ≡ b
emit_32-value b h e = subst_emit (length b) e (emit-value b h)
  where
    subst_emit : (n : ℕ) → n ≡ 32 → emit n (value b) ≡ b → emit 32 (value b) ≡ b
    subst_emit n e p = rw e at p

-- `leToFr` and `frToLe` are inverse: bytes decode to a number exactly when it encodes to them.
pub le_to_fr_iff :
    (b : Bytes) (x : ℕ) → AllBytes b → (le_to_fr b ≡ ok x) ↔ (fr_to_le (pos x) ≡ ok b)
le_to_fr_iff b x h = (encodes, decodes)
  where
    encodes : le_to_fr b ≡ ok x → fr_to_le (pos x) ≡ ok b
    encodes e =
        let (len, same, below) = le_to_fr_inv b x h e in
        fr_to_le-pos x below ∙ ap ok (ap (emit 32) same ∙ emit_32-value b h len)

    decodes : fr_to_le (pos x) ≡ ok b → le_to_fr b ≡ ok x
    decodes e =
        let (n, same, below, bytes) = fr_to_le_inv (pos x) b e in
        let number : n ≡ x = cc in rw bytes (rw number (le_to_fr-emit x (omega arith)))

-- `frToLe` encodes exactly the numbers from 0 below the modulus, always to 32 bytes.
pub fr_to_le_iff :
    (x : ℤ)
    → ((b : Bytes) × (fr_to_le x ≡ ok b) × (length b ≡ 32) × AllBytes b)
      ↔ ((n : ℕ) × (x ≡ pos n) × (n < fr_modulus))
fr_to_le_iff x = (
  λ (b, e, _, _). let (n, same, below, _) = fr_to_le_inv x b e in (n, same, below),
  λ (n, same, below).
      (emit 32 n, rw same (fr_to_le-pos n below), length-emit 32 n, emit-AllBytes 32 n),
)

-- `leToFrReduced` agrees with `leToFr` wherever that accepts bytes.
pub le_to_fr_reduced-canonical :
    (b : Bytes) (x : ℕ) → AllBytes b → le_to_fr b ≡ ok x → le_to_fr_reduced b ≡ ok x
unfolding le_to_fr_reduced
le_to_fr_reduced-canonical b x h e =
    let (len, same, below) = le_to_fr_inv b x h e in ground (arith, read_32 b h len)

-- What `leToFrReduced` returns is below the modulus, and only 32 bytes are accepted.
pub le_to_fr_reduced-lt :
    (b : Bytes) (x : ℕ) → le_to_fr_reduced b ≡ ok x → (length b ≡ 32) × (x < fr_modulus)
unfolding le_to_fr_reduced
le_to_fr_reduced-lt b x e = ground arith

-- `u64ToFrLe` accepts exactly the 64-bit numbers; the encoding is the number in the first eight
-- bytes and zeros behind them, and decodes to the number.
pub u64_to_fr_le_lem :
    (v : ℕ)
    → (2 ^ 64 ≤ v → u64_to_fr_le (pos v) ≡ err u64_out_of_range)
      × (v < 2 ^ 64 → (u64_to_fr_le (pos v) ≡ ok (emit 32 v)) × (le_to_fr (emit 32 v) ≡ ok v))
unfolding u64_to_fr_le
u64_to_fr_le_lem v = (λ h. ground arith, λ h. (ground arith, le_to_fr-emit v (omega arith)))
