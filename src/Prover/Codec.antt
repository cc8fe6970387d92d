-- ===== src/Prover/Codec.antt =====
-- The prover's bytes stand for its numbers.
use b402_solana.Common.{
  ℕ, zero, suc, ◌+◌, ◌*◌, ◌/◌, ◌%◌, ◌^◌, ◌<◌, ◌≡◌, refl, sym, ap, ap₂, ◌∙◌, ◌≤◌, All, arith, List,
  [], ◌∷◌, ◌++◌, map, append_assoc, length, length-append, get_or, get_or-append_left,
  get_or-append_last, Bytes, emit, value, value-emit, bit_and_byte,
}
use b402_solana.Prover.{hex_digits, pairs, be_bytes_32, flip, negated, bn254_p, public_inputs_le_of}

-- The bytes of `v` from the highest down.
abbrev descending : ℕ → ℕ → Bytes
descending zero v = []
descending (suc n) v = descending n (v / 256) ++ v % 256 ∷ []

length-descending : (n v : ℕ) → length (descending n v) ≡ n
length-descending zero v = refl
length-descending (suc n) v =
    omega
      (arith, length-append (descending n (v / 256)) (v % 256 ∷ []), length-descending n (v / 256))

twice : ℕ → ℕ
twice zero = zero
twice (suc n) = suc (suc (twice n))

pairs-append :
    (n : ℕ) (digits : List ℕ) (h l : ℕ)
    → length digits ≡ twice n
    → pairs (digits ++ h ∷ l ∷ []) ≡ pairs digits ++ (16 * h + l) ∷ []
unfolding pairs twice
pairs-append zero [] h l e = refl
pairs-append zero (d ∷ digits) h l e = absurd (omega (arith, e))
pairs-append (suc n) [] h l e = absurd (omega (arith, e))
pairs-append (suc n) (d ∷ []) h l e = absurd (omega (arith, e))
pairs-append (suc n) (d ∷ d' ∷ digits) h l e =
    ap (◌∷◌ (16 * d + d')) (pairs-append n digits h l (omega (arith, e)))

length-hex_digits : (n v : ℕ) → length (hex_digits n v) ≡ n
unfolding hex_digits
length-hex_digits zero v = refl
length-hex_digits (suc n) v =
    omega (arith, length-append (hex_digits n (v / 16)) (v % 16 ∷ []), length-hex_digits n (v / 16))

pairs-hex_digits : (n v : ℕ) → pairs (hex_digits (twice n) v) ≡ descending n v
unfolding hex_digits pairs twice
pairs-hex_digits zero v = refl
pairs-hex_digits (suc n) v =
    let byte : 16 * (v / 16 % 16) + v % 16 ≡ v % 256 = omega arith in
    let up : v / 16 / 16 ≡ v / 256 = omega arith in
    ap pairs (append_assoc (hex_digits (twice n) (v / 16 / 16)) (v / 16 % 16 ∷ []) (v % 16 ∷ []))
    ∙ pairs-append n (hex_digits (twice n) (v / 16 / 16)) (v / 16 % 16) (v % 16)
        (length-hex_digits (twice n) (v / 16 / 16))
    ∙ ap₂ (λ (a : Bytes) (b : ℕ). a ++ b ∷ [])
        (ap (λ (i : ℕ). pairs (hex_digits (twice n) i)) up ∙ pairs-hex_digits n (v / 256)) byte

flip-append : (n : ℕ) (be : Bytes) (x : ℕ) → n ≤ length be → flip n (be ++ x ∷ []) ≡ flip n be
unfolding flip
flip-append zero be x h = refl
flip-append (suc n) be x h =
    ap₂ ◌∷◌ (get_or-append_left be (x ∷ []) n 0 h) (flip-append n be x (omega arith))

flip-descending : (n v : ℕ) → flip n (descending n v) ≡ emit n v
unfolding flip emit
flip-descending zero v = refl
flip-descending (suc n) v =
    let size = length-descending n (v / 256) in
    ap₂ ◌∷◌
      (ap (λ (i : ℕ). get_or (descending n (v / 256) ++ v % 256 ∷ []) i 0) (sym size)
        ∙ get_or-append_last (descending n (v / 256)) (v % 256) 0
        ∙ sym (bit_and_byte v))
      (flip-append n (descending n (v / 256)) (v % 256) (omega (arith, size))
        ∙ flip-descending n (v / 256))

flip-be_bytes_32 : (v : ℕ) → flip 32 (be_bytes_32 v) ≡ emit 32 v
unfolding be_bytes_32 twice
flip-be_bytes_32 v = ap (flip 32) (pairs-hex_digits 32 v) ∙ flip-descending 32 v

-- The public inputs that the prover hands on are the signals' 32 bytes, the lowest first, in order:
-- below 2^256 each reads back as its signal.
pub public_inputs_le_of-emit :
    (signals : List ℕ)
    → (public_inputs_le_of signals ≡ map (emit 32) signals)
      × (All (λ s. s < 2 ^ 256) signals → map value (public_inputs_le_of signals) ≡ signals)
unfolding public_inputs_le_of
public_inputs_le_of-emit [] = (refl, λ h. refl)
public_inputs_le_of-emit (s ∷ signals) =
    let (same, back) = public_inputs_le_of-emit signals in
    (
      ap₂ ◌∷◌ (flip-be_bytes_32 s) same,
      λ (small, h).
          ap₂ ◌∷◌ (ap value (flip-be_bytes_32 s) ∙ value-emit 32 s (omega (arith, small))) (back h),
    )

-- The negation of the proof's first point: the new coordinate and the old one sum to zero modulo the
-- prime, it is below the prime, and negating twice changes nothing.
pub negated-zero_sum :
    (y : ℕ)
    → y < bn254_p
    → ((y + negated y) % bn254_p ≡ 0) × (negated y < bn254_p) × (negated (negated y) ≡ y)
unfolding negated
negated-zero_sum y h = (omega arith, omega arith, omega arith)
