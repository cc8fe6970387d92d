-- ===== src/Tests/Client.antt =====
-- packages/sdk/src/b402.ts at a store of two notes of one mint, an indexer that calls each note spent,
-- and the answers of the status calls.
use b402_solana.Common.{
  ℕ, ◌+◌, ◌<◌, ◌≡◌, ◌≢◌, ◌⊎◌, refl, arith, Bool, true, false, [], ◌∷◌, Option, none, some, Text,
  Result, ok, err,
}
use mathlib.Core.List.{Memᴰ}
use b402_solana.Notes.Store.{
  SpendableNote, NoteStore, is_spent, mark_spent, get_spendable, values, pick,
}
use b402_solana.Actions.Confirm.{TxStatus, decided, poll_confirm, shield_confirm, not_confirmed}
use b402_solana.Client.{
  ClientError, note_to_swap, exact_matches, rightmost_first, insert_rightmost, choose, picked,
  probe_with, confirm_and_mark_spent, confirm_attempts, balance,
}
use b402_solana.Client.Select.{Rightmost, note_to_swap-exact}
use b402_solana.Client.Stale.{note_to_swap-spent_again}
use b402_solana.Client.Spent.{Landed, confirm_and_mark_spent-Landed}
use b402_solana.Client.Balance.{
  Distinct, row_total, row_count, total_of, count_of, balance_notes, balance-totals,
}
use b402_solana.Client.Confirmed.{shield_confirm-unconfirmed}

abbrev note : ℕ → SpendableNote
note i = record {
  note = record { token_mint = 1; value = 200; random = 5; spending_pub = 3 };
  commitment = 70 + i;
  leaf_index = i;
  spending_priv = 4;
  encrypted_bytes = [];
  ephemeral_pub = [];
  viewing_tag = [];
}

abbrev two_notes : NoteStore
two_notes = record {
  notes_by_commitment = (70, note 0) ∷ (71, note 1) ∷ [];
  spent_nullifiers = [];
  backfill_cursor = none;
}

takes_rightmost : note_to_swap two_notes none none 1 200 ≡ (two_notes, ok (note 1))
unfolding note_to_swap rightmost_first insert_rightmost choose picked probe_with get_spendable
    values pick
takes_rightmost = refl

note_to_swap-exact_example :
    (◌≢◌ {A = ℕ} 200 0)
    × ((note 1).note.token_mint ≡ 1)
    × ((note 1).note.value ≡ 200)
    × Memᴰ (note 1) (values two_notes.notes_by_commitment)
    × (is_spent two_notes (note 1) ≡ false)
    × (◌≡◌ {A = Option (SpendableNote → Option Bool)} none none
        → Rightmost (note 1) (exact_matches two_notes 1 200))
note_to_swap-exact_example =
    note_to_swap-exact two_notes two_notes none 1 200 (note 1) takes_rightmost

two_match : exact_matches two_notes 1 200 ≡ note 1 ∷ note 0 ∷ []
unfolding rightmost_first insert_rightmost get_spendable values pick
two_match = refl

note_to_swap-spent_again_example :
    (left : NoteStore) × (note_to_swap two_notes none (some (λ n. some true)) 1 200
      ≡ (left, ok (note 1)))
    × (is_spent left (note 1) ≡ true)
note_to_swap-spent_again_example =
    note_to_swap-spent_again (λ n. some true) two_notes 1 200 (note 1) (note 0 ∷ [])
      (λ e. omega (arith, e)) two_match (refl, (refl, tt))

abbrev landed_at_once : ℕ → Result Text (Option TxStatus)
landed_at_once k = ok (some (record { confirmed = true; failure = none }))

confirm_and_mark_spent-Landed_example :
    ((j : ℕ) × (o : Option TxStatus) × (j < confirm_attempts)
      × (landed_at_once j ≡ ok o)
      × Landed o
      × (confirm_and_mark_spent landed_at_once two_notes 71 ≡ (mark_spent two_notes 71, ok tt)))
    ⊎ ((e : ClientError) × (confirm_and_mark_spent landed_at_once two_notes 71
          ≡ (two_notes, err e)))
confirm_and_mark_spent-Landed_example = confirm_and_mark_spent-Landed landed_at_once two_notes 71

balance-totals_example :
    Distinct (balance two_notes (some 1))
    × ((mint : ℕ)
        → (row_total mint (balance two_notes (some 1))
            ≡ total_of mint (balance_notes two_notes (some 1)))
          × (row_count mint (balance two_notes (some 1))
              ≡ count_of mint (balance_notes two_notes (some 1))))
balance-totals_example = balance-totals two_notes (some 1)

abbrev no_status : ℕ → Result Text (Option TxStatus)
no_status k = ok none

undecided : (k : ℕ) → (o : Option TxStatus) × (no_status k ≡ ok o) × (decided o ≡ none)
unfolding decided
undecided k = (none, refl, refl)

shield_confirm-unconfirmed_example :
    (poll_confirm (λ k. k) no_status 0 500 100000 ≡ some (err not_confirmed))
    × (shield_confirm (λ k. k) no_status 0 100000 ≡ some (ok tt))
shield_confirm-unconfirmed_example =
    shield_confirm-unconfirmed (λ k. k) no_status 0 (λ k. omega arith) undecided 500 100000
      (omega arith) (omega arith)
