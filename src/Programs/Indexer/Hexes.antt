-- ===== src/Programs/Indexer/Hexes.antt =====
-- The string that `isSpent` of packages/sdk/src/indexer.ts asks for.
use b402_solana.Common.{
  ℕ, zero, suc, ◌+◌, ◌*◌, ◌/◌, ◌%◌, ◌^◌, ◌≤◌, ◌<◌, ◌≡◌, ◌≢◌, inl, inr, refl, sym, ap, ap₂, ◌∙◌,
  arith, Bool-cases, true, false, ◌∷◌, get_or, Bytes, AllBytes, Text, bytes_to_hex, hex_pairs,
  hex_pairs-bytes_to_hex, emit, emit-AllBytes, bit_and, bit_and_byte, ltb,
}
use native.Mathlib.Nat.{pow-suc, div-le_self, div-div-eq-div-mul}
use b402_solana.Programs.Indexer.Client.{
  excess_bits, rounded, number, number_bytes, bigint_to_le_hex32,
}

excess_bits-step : (n v : ℕ) → 2 ^ 53 ≤ v → excess_bits (suc n) v ≡ suc (excess_bits n (v / 2))
unfolding excess_bits
excess_bits-step n v big = elim (Bool-cases (ltb v (2 ^ 53))) [
  | inl small ↦ absurd (not_both v big small)
  | inr more ↦ rw more refl
]
  where
    not_both : (v : ℕ) → 2 ^ 53 ≤ v → ltb v (2 ^ 53) ≡ true → ⊥
    not_both v h e = ground arith

-- Eight digits at least are cut off.
excess_bits-high :
    (n v : ℕ)
    → 2 ^ 61 ≤ v
    → (k : ℕ) × (excess_bits (suc (suc (suc (suc (suc (suc (suc (suc n)))))))) v ≡ 8 + k)
excess_bits-high n v h =
    let k : ℕ = excess_bits n (v / 2 / 2 / 2 / 2 / 2 / 2 / 2 / 2) in
    (
      k,
      omega (
        arith,
        excess_bits-step (suc (suc (suc (suc (suc (suc (suc n))))))) v (omega (arith, h)),
        excess_bits-step (suc (suc (suc (suc (suc (suc n)))))) (v / 2) (omega (arith, h)),
        excess_bits-step (suc (suc (suc (suc (suc n))))) (v / 2 / 2) (omega (arith, h)),
        excess_bits-step (suc (suc (suc (suc n)))) (v / 2 / 2 / 2) (omega (arith, h)),
        excess_bits-step (suc (suc (suc n))) (v / 2 / 2 / 2 / 2) (omega (arith, h)),
        excess_bits-step (suc (suc n)) (v / 2 / 2 / 2 / 2 / 2) (omega (arith, h)),
        excess_bits-step (suc n) (v / 2 / 2 / 2 / 2 / 2 / 2) (omega (arith, h)),
        excess_bits-step n (v / 2 / 2 / 2 / 2 / 2 / 2 / 2) (omega (arith, h)),
      ),
    )

pow-8 : (k : ℕ) → 2 ^ (8 + k) ≡ 256 * 2 ^ k
pow-8 k =
    let e : 8 + k ≡ suc (suc (suc (suc (suc (suc (suc (suc k))))))) = omega arith in
    rw e (
      omega (
        arith,
        pow-suc 2 k,
        pow-suc 2 (suc k),
        pow-suc 2 (suc (suc k)),
        pow-suc 2 (suc (suc (suc k))),
        pow-suc 2 (suc (suc (suc (suc k)))),
        pow-suc 2 (suc (suc (suc (suc (suc k))))),
        pow-suc 2 (suc (suc (suc (suc (suc (suc k)))))),
        pow-suc 2 (suc (suc (suc (suc (suc (suc (suc k))))))),
      ))

scaled : (r p : ℕ) → r * (256 * p) % 256 ≡ 0
scaled r p = grind arith

scaled_by : (r e k : ℕ) → e ≡ 8 + k → r * 2 ^ e % 256 ≡ 0
scaled_by r e k same =
    ap (λ (i : ℕ). r * 2 ^ i % 256) same ∙ ap (λ (q : ℕ). r * q % 256) (pow-8 k) ∙ scaled r (2 ^ k)

-- The low byte of a number of more than 61 digits.
number-low : (v : ℕ) → 2 ^ 61 ≤ v → number v % 256 ≡ 0
unfolding number
number-low v h = let (k, e) = excess_bits-high 1016 v h in scaled_by _ (excess_bits 1024 v) k e

excess_bits-small : (n v : ℕ) → v < 2 ^ 53 → excess_bits n v ≡ 0
unfolding excess_bits
excess_bits-small zero v h = refl
excess_bits-small (suc n) v h = elim (Bool-cases (ltb v (2 ^ 53))) [
  | inl small ↦ rw small refl
  | inr more ↦ absurd (not_both v h more)
]
  where
    not_both : (v : ℕ) → v < 2 ^ 53 → ltb v (2 ^ 53) ≡ false → ⊥
    not_both v h e = ground arith

number-small : (v : ℕ) → v < 2 ^ 53 → number v ≡ v
unfolding number
number-small v h = rw (excess_bits-small 1024 v h) (whole v)
  where
    whole : (v : ℕ) → rounded v 0 * 2 ^ 0 ≡ v
    whole v = ground arith

number_bytes-AllBytes : (n i v : ℕ) → AllBytes (number_bytes n i v)
unfolding number_bytes
number_bytes-AllBytes zero i v = tt
number_bytes-AllBytes (suc n) i v = (below _, number_bytes-AllBytes n (suc i) v)
  where
    below : (x : ℕ) → x % 256 < 256
    below x = omega arith

get_or-number_bytes :
    (n j v i : ℕ) → i < n → get_or (number_bytes n j v) i 0 ≡ number (v / 2 ^ (8 * (j + i))) % 256
unfolding number_bytes
get_or-number_bytes zero j v i h = absurd (omega arith)
get_or-number_bytes (suc n) j v zero h =
    ap (λ (k : ℕ). number (v / 2 ^ (8 * k)) % 256) (omega arith)
get_or-number_bytes (suc n) j v (suc i) h =
    get_or-number_bytes n (suc j) v i (omega arith)
    ∙ ap (λ (k : ℕ). number (v / 2 ^ (8 * k)) % 256) (omega arith)

get_or-emit : (n v i : ℕ) → i < n → get_or (emit n v) i 0 ≡ v / 2 ^ (8 * i) % 256
unfolding emit
get_or-emit zero v i h = absurd (omega arith)
get_or-emit (suc n) v zero h = omega (arith, bit_and_byte v)
get_or-emit (suc n) v (suc i) h =
    let next : 8 * suc i ≡ 8 + 8 * i = omega arith in
    get_or-emit n (v / 2 ^ 8) i (omega arith)
    ∙ ap (λ (x : ℕ). x % 256)
        (div-div-eq-div-mul v 256 (2 ^ (8 * i))
          ∙ ap (λ (d : ℕ). v / d) (sym (ap (λ (k : ℕ). 2 ^ k) next ∙ pow-8 (8 * i))))

-- The string that the indexer is asked for where the part of the number above its byte `i` has more
-- than 61 binary digits and the byte is not 0: it has 0 there, so it is not the number's string.
pub bigint_to_le_hex32-zeroed :
    (other : ℕ → ℕ → ℕ) (v i : ℕ)
    → i < 32
    → 2 ^ 61 ≤ v / 2 ^ (8 * i)
    → 0 < v / 2 ^ (8 * i) % 256
    → (get_or (hex_pairs other (bigint_to_le_hex32 v)) i 0 ≡ 0)
      × (bigint_to_le_hex32 v ≢ bytes_to_hex (emit 32 v))
unfolding bigint_to_le_hex32
bigint_to_le_hex32-zeroed other v i h big full =
    let sent : hex_pairs other (bigint_to_le_hex32 v) ≡ number_bytes 32 0 v =
      hex_pairs-bytes_to_hex other (number_bytes 32 0 v) (number_bytes-AllBytes 32 0 v) in
    let zeroed : get_or (hex_pairs other (bigint_to_le_hex32 v)) i 0 ≡ 0 =
      ap (λ (b : Bytes). get_or b i 0) sent
      ∙ get_or-number_bytes 32 0 v i h
      ∙ ap (λ (k : ℕ). number (v / 2 ^ (8 * k)) % 256) (omega arith)
      ∙ number-low (v / 2 ^ (8 * i)) big in
    (
      zeroed,
      λ same.
          let right : get_or (hex_pairs other (bigint_to_le_hex32 v)) i 0 ≡ v / 2 ^ (8 * i) % 256 =
            ap (λ (s : Text). get_or (hex_pairs other s) i 0) same
            ∙ ap (λ (b : Bytes). get_or b i 0)
                (hex_pairs-bytes_to_hex other (emit 32 v) (emit-AllBytes 32 v))
            ∙ get_or-emit 32 v i h in
          omega (arith, zeroed, right, full),
    )

number_bytes-emit : (n i v : ℕ) → v < 2 ^ 53 → number_bytes n i v ≡ emit n (v / 2 ^ (8 * i))
unfolding number_bytes emit
number_bytes-emit zero i v h = refl
number_bytes-emit (suc n) i v h =
    let next : 8 * suc i ≡ 8 + 8 * i = omega arith in
    let wide : 2 ^ (8 * i) * 256 ≡ 2 ^ (8 * suc i) =
      omega (arith, pow-8 (8 * i), ap (λ (k : ℕ). 2 ^ k) next) in
    let part : v / 2 ^ (8 * i) ≤ v = div-le_self v (2 ^ (8 * i)) in
    let low : number (v / 2 ^ (8 * i)) % 256 ≡ bit_and (v / 2 ^ (8 * i)) 255 = omega (
      arith,
      number-small (v / 2 ^ (8 * i)) (omega (arith, part, h)),
      bit_and_byte (v / 2 ^ (8 * i)),
    ) in
    let above : v / 2 ^ (8 * suc i) ≡ v / 2 ^ (8 * i) / 256 =
      ap (λ (d : ℕ). v / d) (sym wide) ∙ sym (div-div-eq-div-mul v (2 ^ (8 * i)) 256) in
    ap₂ (λ (x : ℕ) (b : Bytes). x ∷ b) low (number_bytes-emit n (suc i) v h ∙ ap (emit n) above)

-- A number of 53 binary digits at most is asked for as it is.
pub bigint_to_le_hex32-small :
    (v : ℕ) → v < 2 ^ 53 → bigint_to_le_hex32 v ≡ bytes_to_hex (emit 32 v)
unfolding bigint_to_le_hex32
bigint_to_le_hex32-small v h =
    ap bytes_to_hex (number_bytes-emit 32 0 v h ∙ ap (emit 32) (omega arith))
