-- ===== src/Relayer/Submit/Polling.antt =====
-- The confirmation loop of packages/relayer/src/submit.ts ends, and on the first status that settles.
use b402_solana.Common.{
  ℕ, zero, suc, ◌+◌, ◌-◌, ◌≤◌, ◌<◌, ◌≡◌, inl, inr, refl, arith, Bool-cases, Option-cases,
  Result-cases, Option, none, some, Text, Result, ok, err, ltb, ltb→lt, lt→ltb, true, ◌∙◌,
}
use b402_solana.Relayer.Errors.{RelayerError, rpc_failure}
use b402_solana.Relayer.Submit.{SignatureStatus, settled, poll}

module _ (clock : ℕ → ℕ) (statuses : ℕ → Result RelayerError (Option SignatureStatus))
    (start timeout_ms : ℕ) where
  fuel_left :
      ((k : ℕ) → start + k ≤ clock k)
      → (fuel k : ℕ) → ltb (clock k - start) timeout_ms ≡ true
      → timeout_ms - k < suc fuel
      → timeout_ms - suc k < fuel
  fuel_left moves fuel k within enough =
      omega (arith, moves k, ltb→lt (clock k - start) timeout_ms within)

  -- The loop that starts at turn `k` ends, on a clock that moves at least a millisecond a turn, when
  -- its fuel is more than the milliseconds of the timeout that are left.
  pub poll-returns :
      ((k : ℕ) → start + k ≤ clock k)
      → (fuel k : ℕ) → timeout_ms - k < fuel
      → (r : Result RelayerError (ℕ × Option Text)) × (poll clock statuses start timeout_ms fuel k
          ≡ some r)
  unfolding poll
  poll-returns moves zero k enough = ground arith
  poll-returns moves (suc fuel) k enough = elim (Bool-cases (ltb (clock k - start) timeout_ms)) [
    | inl within ↦
        let (r, later) = poll-returns moves fuel (suc k) (fuel_left moves fuel k within enough) in
        elim (Result-cases (statuses k)) [
          | inl (s, at) ↦ elim (Option-cases (settled s)) [
            | inl pending ↦ (r, rw (poll, within, at, pending) later)
            | inr (outcome, closed) ↦ (ok outcome, rw (poll, within, at, closed) refl)
          ]
          | inr (e, at) ↦ (err e, rw (poll, within, at) refl)
        ]
    | inr late ↦ (err rpc_failure, rw (poll, late) refl)
  ]

  -- From turn `k` on, the first status that settles settles `outcome`, each turn within the timeout.
  pub data Settles : ℕ → ℕ × Option Text → Type 0 where
    at_once :
        (k : ℕ) (outcome : ℕ × Option Text) (s : Option SignatureStatus)
        → clock k - start < timeout_ms
        → statuses k ≡ ok s
        → settled s ≡ some outcome
        → Settles k outcome
    wait :
        (k : ℕ) (outcome : ℕ × Option Text) (s : Option SignatureStatus)
        → clock k - start < timeout_ms
        → statuses k ≡ ok s
        → settled s ≡ none
        → Settles (suc k) outcome
        → Settles k outcome

  -- An outcome of the loop is the one that the first settling status has, and each turn up to it was
  -- within the timeout.
  pub poll-Settles :
      (fuel k : ℕ) (outcome : ℕ × Option Text)
      → poll clock statuses start timeout_ms fuel k ≡ some (ok outcome)
      → Settles k outcome
  unfolding poll
  poll-Settles zero k outcome e = cc
  poll-Settles (suc fuel) k outcome e = elim (Bool-cases (ltb (clock k - start) timeout_ms)) [
    | inl within ↦
        let on_time = ltb→lt (clock k - start) timeout_ms within in
        elim (Result-cases (statuses k)) [
          | inl (s, at) ↦ elim (Option-cases (settled s)) [
            | inl pending ↦
                wait k outcome s on_time at pending
                  (poll-Settles fuel (suc k) outcome (rw (poll, within, at, pending) at e))
            | inr (other, closed) ↦
                at_once k outcome s on_time at (closed ∙ (cc (rw (poll, within, at, closed) at e)))
          ]
          | inr (x, at) ↦ cc (rw (poll, within, at) at e)
        ]
    | inr late ↦ cc (rw (poll, late) at e)
  ]

  -- And the other way: when a status settles within the timeout, the loop, given its fuel, returns
  -- the outcome of the first that does.
  pub Settles-poll :
      (fuel k : ℕ) (outcome : ℕ × Option Text) (r : Result RelayerError (ℕ × Option Text))
      → poll clock statuses start timeout_ms fuel k ≡ some r
      → Settles k outcome
      → r ≡ ok outcome
  unfolding poll
  Settles-poll zero k outcome r e h = cc
  Settles-poll (suc fuel) k outcome r e (at_once k' o s on_time at closed) =
      cc (rw (poll, lt→ltb _ _ on_time, at, closed) at e)
  Settles-poll (suc fuel) k outcome r e (wait k' o s on_time at pending more) =
      Settles-poll fuel (suc k) outcome r (rw (poll, lt→ltb _ _ on_time, at, pending) at e) more
