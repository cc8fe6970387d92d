-- ===== src/Client/Spent.antt =====
-- When packages/sdk/src/b402.ts marks a note as spent.
use b402_solana.Common.{
  ℕ, zero, suc, ◌+◌, ◌≤◌, ◌<◌, ◌≡◌, ◌⊎◌, inl, inr, refl, ◌∙◌, arith, true, Bool-cases, Option,
  Option-cases, none, some, Text, Result, Result-cases, ok, err,
}
use b402_solana.Notes.Store.{NoteStore, mark_spent}
use b402_solana.Actions.Confirm.{TxStatus}
use b402_solana.Client.{
  ClientError, confirm_rounds, confirm_and_mark_spent, confirm_attempts, unconfirmed, rpc_error,
  landed_with_error,
}

-- A status that says the transaction is confirmed, without an error.
abbrev pub Landed : Option TxStatus → Type 0
Landed o = (s : TxStatus) × (o ≡ some s) × (s.confirmed ≡ true) × (s.failure ≡ none)

module _ (statuses : ℕ → Result Text (Option TxStatus)) (store : NoteStore) (commitment : ℕ) where
  -- What `left` rounds from `k` on leave: a landed transaction's note marked, or the store as it was.
  abbrev Outcome : ℕ → ℕ → Type 0
  Outcome left k =
      ((j : ℕ) × (o : Option TxStatus) × (k ≤ j)
        × (j < k + left)
        × (statuses j ≡ ok o)
        × Landed o
        × (confirm_rounds statuses left k store commitment ≡ (mark_spent store commitment, ok tt)))
      ⊎ ((e : ClientError) × (confirm_rounds statuses left k store commitment ≡ (store, err e)))

  next_round :
      (left k : ℕ)
      → confirm_rounds statuses (suc left) k store commitment
        ≡ confirm_rounds statuses left (suc k) store commitment
      → Outcome left (suc k)
      → Outcome (suc left) k
  next_round left k same (inl (j, o, from, to, answered, landed, marked)) =
      inl (j, o, omega arith, omega arith, answered, landed, same ∙ marked)
  next_round left k same (inr (e, kept)) = inr (e, same ∙ kept)

  confirm_rounds-Outcome : (left k : ℕ) → Outcome left k
  unfolding confirm_rounds
  confirm_rounds-Outcome zero k = inr (unconfirmed, refl)
  confirm_rounds-Outcome (suc left) k = elim (Result-cases (statuses k)) [
    | inr (e, failed) ↦ inr (rpc_error e, rw (confirm_rounds, failed) refl)
    | inl (o, answered) ↦ elim (Option-cases o) [
      | inl missing ↦
          next_round left k (rw (confirm_rounds, answered, missing) refl)
            (confirm_rounds-Outcome left (suc k))
      | inr (s, at) ↦ elim (Bool-cases s.confirmed) [
        | inr pending ↦
            next_round left k (rw (confirm_rounds, answered, at, pending) refl)
              (confirm_rounds-Outcome left (suc k))
        | inl confirmed ↦ elim (Option-cases s.failure) [
          | inl clean ↦ inl (
            k,
            o,
            omega arith,
            omega arith,
            answered,
            (s, at, confirmed, clean),
            rw (confirm_rounds, answered, at, confirmed, clean) refl,
          )
          | inr (e, bad) ↦
              inr (landed_with_error e, rw (confirm_rounds, answered, at, confirmed, bad) refl)
        ]
      ]
    ]
  ]

-- A note is marked as spent only when one of the four status calls says that the transaction is
-- confirmed without an error, and then the call returns; in every other case, a landed error, a failed
-- call or no confirmation, it throws and leaves the store as it was.
pub confirm_and_mark_spent-Landed :
    (statuses : ℕ → Result Text (Option TxStatus)) (store : NoteStore) (commitment : ℕ)
    → ((j : ℕ) × (o : Option TxStatus) × (j < confirm_attempts)
        × (statuses j ≡ ok o)
        × Landed o
        × (confirm_and_mark_spent statuses store commitment ≡ (mark_spent store commitment, ok tt)))
      ⊎ ((e : ClientError) × (confirm_and_mark_spent statuses store commitment ≡ (store, err e)))
unfolding confirm_and_mark_spent
confirm_and_mark_spent-Landed statuses store commitment =
    elim (confirm_rounds-Outcome statuses store commitment confirm_attempts 0) [
      | inl (j, o, from, to, answered, landed, marked) ↦
          inl (j, o, omega arith, answered, landed, marked)
      | inr failed ↦ inr failed
    ]
