-- ===== src/Merkle/Shift.antt =====
-- `index >> level` on a non-negative `bigint`.
use b402_solana.Common.{ℕ, zero, suc, ◌/◌, ◌^◌, ◌<◌, ◌≡◌, arith, ◌∙◌, ap, sym}
use native.Mathlib.Nat.{pow-suc, pow-zero, div-div-eq-div-mul}

unfoldable pub shr : ℕ → ℕ → ℕ
shr n k = n / 2 ^ k

pub shr-zero : (n : ℕ) → shr n 0 ≡ n
unfolding shr
shr-zero n = omega (arith, pow-zero 2)

pub shr-suc : (n k : ℕ) → shr n (suc k) ≡ shr n k / 2
unfolding shr
shr-suc n k = ap (λ (t : ℕ). n / t) (pow-suc 2 k) ∙ sym (div-div-eq-div-mul n (2 ^ k) 2)

pub shr_half : (n k : ℕ) → shr n (suc k) ≡ shr (n / 2) k
shr_half n zero = omega (arith, shr-suc n 0, shr-zero n, shr-zero (n / 2))
shr_half n (suc k) = omega (arith, shr-suc n (suc k), shr-suc (n / 2) k, shr_half n k)

-- A number below 2 ^ k has nothing left behind k bits, and 2 ^ k has one.
pub shr-eq-zero : (k n : ℕ) → n < 2 ^ k → shr n k ≡ 0
shr-eq-zero zero n h = omega (arith, shr-zero n, pow-zero 2)
shr-eq-zero (suc k) n h = shr_half n k ∙ shr-eq-zero k (n / 2) (omega (arith, pow-suc 2 k))

pub shr-pow : (k : ℕ) → shr (2 ^ k) k ≡ 1
shr-pow zero = omega (arith, shr-zero (2 ^ 0), pow-zero 2)
shr-pow (suc k) =
    let half : 2 ^ suc k / 2 ≡ 2 ^ k = omega (arith, pow-suc 2 k) in
    shr_half (2 ^ suc k) k ∙ ap (λ (t : ℕ). shr t k) half ∙ shr-pow k
