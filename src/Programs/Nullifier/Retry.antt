-- ===== src/Programs/Nullifier/Retry.antt =====
-- The retry loop of `getValidityProofForNullifier` in packages/sdk/src/light-nullifier.ts.
use b402_solana.Common.{
  ℕ, zero, suc, ◌+◌, ◌*◌, ◌^◌, ◌≤◌, ◌<◌, ◌≡◌, ◌↔◌, ◌⊎◌, inl, inr, refl, false, arith, List, [], ◌∷◌,
  Text, ok, Bool-cases, ◌∙◌, ap, subst, ok_eq,
}
use native.Mathlib.Nat.{pow-suc}
use b402_solana.Programs.Nullifier.{
  Attempt, PhotonAnswer, answered, threw, is_terminal, fetch_rounds, max_attempts,
}

-- A failure that the loop tries again after.
abbrev pub Transient : Attempt → Type 0
Transient a = (msg : Text) × (a ≡ threw msg) × (is_terminal msg ≡ false)

-- `photon` answers `r` at round `k`, the rounds from `at` to it failed in passing.
abbrev pub FirstAnswer : (ℕ → Attempt) → ℕ → ℕ → PhotonAnswer → Type 0
FirstAnswer photon at k r =
    (at ≤ k) × ((j : ℕ) → at ≤ j → j < k → Transient (photon j)) × (photon k ≡ answered r)

abbrev pub total : List ℕ → ℕ
total [] = 0
total (d ∷ delays) = d + total delays

Attempt-cases :
    (a : Attempt) → ((r : PhotonAnswer) × (a ≡ answered r)) ⊎ ((m : Text) × (a ≡ threw m))
Attempt-cases (answered r) = inl (r, refl)
Attempt-cases (threw m) = inr (m, refl)

at_or_after : (a b : ℕ) → a ≤ b → (a ≡ b) ⊎ (suc a ≤ b)
at_or_after a b h = ground arith

grows : (at left : ℕ) → 250 * 3 ^ at ≤ 250 * 3 ^ (at + left)
grows at zero =
    let same : at ≡ at + 0 = omega arith in omega (arith, ap (λ (n : ℕ). 250 * 3 ^ n) same)
grows at (suc left) =
    let next : at + suc left ≡ suc (at + left) = omega arith in
    omega (
      arith,
      grows at left,
      ap (λ (n : ℕ). 250 * 3 ^ n) next,
      ap (λ (n : ℕ). 250 * n) (pow-suc 3 (at + left)),
    )

one_more :
    (left at t : ℕ)
    → t + 250 * 3 ^ suc at ≤ 250 * 3 ^ (suc at + left)
    → 500 * 3 ^ at + t + 250 * 3 ^ at ≤ 250 * 3 ^ (at + suc left)
one_more left at t h =
    let next : at + suc left ≡ suc at + left = omega arith in
    omega (arith, h, ap (λ (n : ℕ). 250 * 3 ^ n) next, ap (λ (n : ℕ). 250 * n) (pow-suc 3 at))

module _ (photon : ℕ → Attempt) where
  fetch_rounds-FirstAnswer :
      (left at : ℕ) (last : Text) (r : PhotonAnswer)
      → (fetch_rounds photon left at last).1 ≡ ok r
      → (k : ℕ) × (k < at + left) × FirstAnswer photon at k r
  unfolding fetch_rounds
  fetch_rounds-FirstAnswer zero at last r e = cc
  fetch_rounds-FirstAnswer (suc left) at last r e = elim (Attempt-cases (photon at)) [
    | inl (r', now) ↦ (
      at,
      omega arith,
      (
        omega arith,
        λ j low high. absurd (omega arith),
        now ∙ ap answered (ok_eq (rw (fetch_rounds, now) at e)),
      ),
    )
    | inr (msg, now) ↦ elim (Bool-cases (is_terminal msg)) [
      | inl final ↦ cc (rw (fetch_rounds, now, final) at e)
      | inr passing ↦
          let (k, below, (from, before, answer)) =
            fetch_rounds-FirstAnswer left (suc at) msg r (rw (fetch_rounds, now, passing) at e) in
          (
            k,
            omega arith,
            (
              omega arith,
              λ j low high. elim (at_or_after at j low) [
                | inl same ↦ subst (λ i. Transient (photon i)) same (msg, now, passing)
                | inr later ↦ before j later high
              ],
              answer,
            ),
          )
    ]
  ]

  FirstAnswer-fetch_rounds :
      (left at k : ℕ) (last : Text) (r : PhotonAnswer)
      → k < at + left
      → FirstAnswer photon at k r
      → (fetch_rounds photon left at last).1 ≡ ok r
  unfolding fetch_rounds
  FirstAnswer-fetch_rounds zero at k last r below (from, before, answer) = absurd (omega arith)
  FirstAnswer-fetch_rounds (suc left) at k last r below (from, before, answer) =
      elim (at_or_after at k from) [
        | inl same ↦
            let now : photon at ≡ answered r = ap photon same ∙ answer in
            rw (fetch_rounds, now) refl
        | inr later ↦
            let (msg, now, passing) = before at (omega arith) (omega arith) in
            rw (fetch_rounds, now, passing)
              (FirstAnswer-fetch_rounds left (suc at) k msg r (omega arith)
                (later, λ j low high. before j (omega arith) high, answer))
      ]

  -- The delays of `left` rounds are a geometric series.
  fetch_rounds-total :
      (left at : ℕ) (last : Text)
      → total (fetch_rounds photon left at last).0 + 250 * 3 ^ at ≤ 250 * 3 ^ (at + left)
  unfolding fetch_rounds
  fetch_rounds-total zero at last =
      let same : at ≡ at + 0 = omega arith in omega (arith, ap (λ (n : ℕ). 250 * 3 ^ n) same)
  fetch_rounds-total (suc left) at last = elim (Attempt-cases (photon at)) [
    | inl (r, now) ↦ rw (fetch_rounds, now) (omega (arith, grows at (suc left)))
    | inr (msg, now) ↦ elim (Bool-cases (is_terminal msg)) [
      | inl final ↦ rw (fetch_rounds, now, final) (omega (arith, grows at (suc left)))
      | inr passing ↦
          rw (fetch_rounds, now, passing)
            (one_more left at _ (fetch_rounds-total left (suc at) msg))
    ]
  ]

-- The fetch returns an answer of Photon exactly when one of the four rounds answers it and every
-- round before failed with an error that is not "already exists"; and in any case the delays that
-- it waits are 20 seconds at most in all.
pub fetch_rounds-ok_iff :
    (photon : ℕ → Attempt) (last : Text) (r : PhotonAnswer)
    → (((fetch_rounds photon max_attempts 0 last).1 ≡ ok r)
        ↔ ((k : ℕ) × (k < max_attempts) × FirstAnswer photon 0 k r))
      × (total (fetch_rounds photon max_attempts 0 last).0 ≤ 20000)
fetch_rounds-ok_iff photon last r = (
  (
    λ e.
        let (k, below, first) = fetch_rounds-FirstAnswer photon max_attempts 0 last r e in
        (k, omega arith, first),
    λ (k, below, first).
        FirstAnswer-fetch_rounds photon max_attempts 0 k last r (omega arith) first,
  ),
  omega (arith, fetch_rounds-total photon max_attempts 0 last),
)
