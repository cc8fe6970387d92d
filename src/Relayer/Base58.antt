-- ===== src/Relayer/Base58.antt =====
-- packages/relayer/src/submit.ts: `base58Encode`, the minimal encoder for the Solana alphabet, and
-- `recoverFirstSignature`. A string is the list of its character codes.
use b402_solana.Common.{
  ℕ, zero, suc, ◌+◌, ◌*◌, ◌/◌, ◌%◌, ◌≤◌, ◌<◌, ◌≡◌, refl, ap, ◌∙◌, arith, Bool, true, false, List,
  [], ◌∷◌, ◌++◌, drop, get_or, replicate, All, Text, codes, Bytes, ◌==◌, ==_iff, ◌&&◌, Bool-cases,
  inl, inr, if◌then◌else◌,
}

abbrev pub alphabet : Text
alphabet = codes "123456789ABCDEFGHJKLMNPQRSTUVWXYZabcdefghijkmnopqrstuvwxyz"

-- The leading bytes that are 0, and what follows them.
unfoldable pub leading_zeros : Bytes → ℕ
leading_zeros [] = 0
leading_zeros (b ∷ bytes) = let rest = leading_zeros bytes in if b == 0 then suc rest else 0

unfoldable pub significant : Bytes → Bytes
significant bytes = drop (leading_zeros bytes) bytes

-- The `while (carry > 0)` of the encoder, the digits that it pushes; a carry has at most as many
-- digits as it is large.
unfoldable pub push_carry : ℕ → ℕ → List ℕ
push_carry zero carry = []
push_carry (suc fuel) carry =
    let rest = push_carry fuel (carry / 58) in if carry == 0 then [] else carry % 58 ∷ rest

-- One byte of the outer loop: its carry runs through the digits.
unfoldable pub mul_add : List ℕ → ℕ → List ℕ
mul_add [] carry = push_carry carry carry
mul_add (d ∷ digits) carry = (carry + d * 256) % 58 ∷ mul_add digits ((carry + d * 256) / 58)

unfoldable pub to_digits : List ℕ → Bytes → List ℕ
to_digits digits [] = digits
to_digits digits (b ∷ bytes) = to_digits (mul_add digits b) bytes

-- The last loop: from the last digit to the first.
unfoldable pub spell : List ℕ → Text
spell [] = []
spell (d ∷ digits) = spell digits ++ (get_or alphabet d 0 ∷ [])

unfoldable pub base58_encode : Bytes → Text
base58_encode bytes =
    replicate (leading_zeros bytes) 49 ++ spell (to_digits (0 ∷ []) (significant bytes))

-- The number that a base-58 string stands for: each character is its place in the alphabet.
abbrev pub index_of : ℕ → List ℕ → ℕ
index_of c [] = 0
index_of c (d ∷ l) = let rest = index_of c l in if c == d then 0 else suc rest

abbrev pub base58_value : ℕ → Text → ℕ
base58_value v [] = v
base58_value v (c ∷ t) = base58_value (v * 58 + index_of c alphabet) t

-- The number that big-endian bytes stand for.
abbrev pub number : ℕ → Bytes → ℕ
number v [] = v
number v (b ∷ bytes) = number (v * 256 + b) bytes

digit_value : List ℕ → ℕ
digit_value [] = 0
digit_value (d ∷ digits) = d + 58 * digit_value digits

abbrev Digits : List ℕ → Type 0
Digits = All (λ d. d < 58)

div_le : (n fuel : ℕ) → n ≤ suc fuel → n / 58 ≤ fuel
div_le n fuel h = omega arith

push_carry-value : (fuel carry : ℕ) → carry ≤ fuel → digit_value (push_carry fuel carry) ≡ carry
unfolding push_carry digit_value
push_carry-value zero carry h = omega arith
push_carry-value (suc fuel) carry h =
    ground (arith, push_carry-value fuel (carry / 58) (div_le carry fuel h))

push_carry-Digits : (fuel carry : ℕ) → Digits (push_carry fuel carry)
unfolding push_carry
push_carry-Digits zero carry = tt
push_carry-Digits (suc fuel) carry = elim (Bool-cases (carry == 0)) [
  | inl z ↦ rw (z, push_carry) tt
  | inr z ↦ rw (z, push_carry) (omega arith, push_carry-Digits fuel (carry / 58))
]

mul_add-value :
    (digits : List ℕ) (carry : ℕ)
    → digit_value (mul_add digits carry) ≡ digit_value digits * 256 + carry
unfolding mul_add digit_value
mul_add-value [] carry = omega (arith, push_carry-value carry carry (omega arith))
mul_add-value (d ∷ digits) carry = omega (arith, mul_add-value digits ((carry + d * 256) / 58))

mul_add-Digits : (digits : List ℕ) (carry : ℕ) → Digits (mul_add digits carry)
unfolding mul_add
mul_add-Digits [] carry = push_carry-Digits carry carry
mul_add-Digits (d ∷ digits) carry = (omega arith, mul_add-Digits digits ((carry + d * 256) / 58))

to_digits-value :
    (digits : List ℕ) (bytes : Bytes)
    → digit_value (to_digits digits bytes) ≡ number (digit_value digits) bytes
unfolding to_digits
to_digits-value digits [] = refl
to_digits-value digits (b ∷ bytes) =
    to_digits-value (mul_add digits b) bytes ∙ ap (λ v. number v bytes) (mul_add-value digits b)

to_digits-Digits :
    (digits : List ℕ) (bytes : Bytes) → Digits digits → Digits (to_digits digits bytes)
unfolding to_digits
to_digits-Digits digits [] h = h
to_digits-Digits digits (b ∷ bytes) h =
    to_digits-Digits (mul_add digits b) bytes (mul_add-Digits digits b)

-- A test that holds up to a bound holds at each number below it.
all_below : ℕ → (ℕ → Bool) → Bool
all_below zero p = true
all_below (suc n) p = p n && all_below n p

all_below_split : (a b : Bool) → a && b ≡ true → (a ≡ true) × (b ≡ true)
all_below_split true b h = (refl, h)
all_below_split false b h = cc

all_below-lt : (n : ℕ) (p : ℕ → Bool) (i : ℕ) → all_below n p ≡ true → i < n → p i ≡ true
unfolding all_below
all_below-lt zero p i h lt = ground arith
all_below-lt (suc n) p i h lt =
    let (here, below) = all_below_split (p n) _ h in
    elim (Bool-cases (i == n)) [
      | inl last ↦ ap p ((==_iff i n).0 last) ∙ here
      | inr more ↦ all_below-lt n p i below (ground arith)
    ]

place : ℕ → Bool
place d = index_of (get_or alphabet d 0) alphabet == d

places : all_below 58 place ≡ true
unfolding all_below place
places = refl

index_of-alphabet : (d : ℕ) → d < 58 → index_of (get_or alphabet d 0) alphabet ≡ d
unfolding place
index_of-alphabet d h = (==_iff _ _).0 (all_below-lt 58 place d places h)

base58_value-append :
    (v : ℕ) (s t : Text) → base58_value v (s ++ t) ≡ base58_value (base58_value v s) t
base58_value-append v [] t = refl
base58_value-append v (c ∷ s) t = base58_value-append (v * 58 + index_of c alphabet) s t

base58_value-spell :
    (digits : List ℕ) → Digits digits → base58_value 0 (spell digits) ≡ digit_value digits
unfolding spell digit_value
base58_value-spell [] h = refl
base58_value-spell (d ∷ digits) (p, h) =
    base58_value-append 0 (spell digits) (get_or alphabet d 0 ∷ [])
    ∙ omega (arith, base58_value-spell digits h, index_of-alphabet d p)

base58_value-ones : (n : ℕ) (t : Text) → base58_value 0 (replicate n 49 ++ t) ≡ base58_value 0 t
base58_value-ones zero t = refl
base58_value-ones (suc n) t = base58_value-ones n t

number-significant : (bytes : Bytes) → number 0 (significant bytes) ≡ number 0 bytes
unfolding significant leading_zeros
number-significant [] = refl
number-significant (b ∷ bytes) = elim (Bool-cases (b == 0)) [
  | inl z ↦
      let same : 0 ≡ 0 + b = omega (arith, (==_iff b 0).0 z) in
      rw z (number-significant bytes ∙ ap (λ v. number v bytes) same)
  | inr z ↦ rw z refl
]

-- The base-58 string of any bytes stands for the number that the bytes, big-endian, stand for.
pub base58_encode-number : (bytes : Bytes) → base58_value 0 (base58_encode bytes) ≡ number 0 bytes
unfolding base58_encode digit_value
base58_encode-number bytes =
    base58_value-ones (leading_zeros bytes) _
    ∙ base58_value-spell _ (to_digits-Digits (0 ∷ []) (significant bytes) (omega arith, tt))
    ∙ to_digits-value (0 ∷ []) (significant bytes)
    ∙ number-significant bytes

leading_zeros-replicate : (n : ℕ) → leading_zeros (replicate n 0) ≡ n
unfolding leading_zeros
leading_zeros-replicate zero = refl
leading_zeros-replicate (suc n) = ap suc (leading_zeros-replicate n)

drop-replicate : (n : ℕ) → drop {A = ℕ} n (replicate n 0) ≡ []
drop-replicate zero = refl
drop-replicate (suc n) = drop-replicate n

replicate-snoc : (n c : ℕ) → replicate n c ++ (c ∷ []) ≡ c ∷ replicate n c
replicate-snoc zero c = refl
replicate-snoc (suc n) c = ap (◌∷◌ c) (replicate-snoc n c)

-- Bytes that are all 0 are spelled with one 1 more than there are bytes.
pub base58_encode-zeros : (n : ℕ) → base58_encode (replicate n 0) ≡ replicate (suc n) 49
unfolding base58_encode significant to_digits spell
base58_encode-zeros n = rw (leading_zeros-replicate n, drop-replicate n) (replicate-snoc n 49)
