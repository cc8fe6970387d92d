-- ===== src/Client.antt =====
-- packages/sdk/src/b402.ts: what `B402Solana` does with the notes that it holds, around the actions
-- and the relayer: which note it spends, when it marks one as spent, and what it says it holds. The
-- RPC's and the indexer's answers are parameters.
pub mod Select
pub mod Stale
pub mod Spent
pub mod Balance
pub mod Confirmed
pub mod Watch
pub mod Watched
pub mod Calls
pub mod Called
use b402_solana.Common.{
  ℕ, ◌+◌, zero, suc, ltb, Bool, true, false, not, List, [], ◌∷◌, map, get_elem?, keep_if, Option,
  none, some, Text, Bytes, Result, ok, err, if◌then◌else◌, ◌==◌,
}
use b402_solana.Protocol.Encoding.{le_to_fr_reduced}
use b402_solana.Merkle.{MerkleProof, MerkleError}
use b402_solana.Notes.Store.{SpendableNote, NoteStore, get_spendable, get_all_spendable, mark_spent}
use b402_solana.Actions.Confirm.{TxStatus}

pub data ClientError : Type 0 where
  no_spendable_notes no_exact_match value_mismatch amount_out_of_range bad_mint : ClientError
  rpc_error : Text → ClientError
  landed_with_error : Text → ClientError
  unconfirmed : ClientError
  not_proved : MerkleError → ClientError

-- `[...notes].sort((a, b) => Number(b.leafIndex - a.leafIndex))`, which is stable.
unfoldable pub insert_rightmost : SpendableNote → List SpendableNote → List SpendableNote
insert_rightmost n [] = n ∷ []
insert_rightmost n (m ∷ rest) =
    let later = insert_rightmost n rest in
    if ltb n.leaf_index m.leaf_index then m ∷ later else n ∷ m ∷ rest

unfoldable pub rightmost_first : List SpendableNote → List SpendableNote
unfolding insert_rightmost
rightmost_first [] = []
rightmost_first (n ∷ notes) = insert_rightmost n (rightmost_first notes)

-- The note that `unshield` spends, and its mint: the request's, else the rightmost of the mint that is
-- asked for, else that of the last deposit.
unfoldable pub note_to_unshield :
    NoteStore
    → Option (SpendableNote × Bytes)
    → Option SpendableNote
    → Option Bytes
    → Result ClientError (SpendableNote × Bytes)
unfolding rightmost_first
note_to_unshield store last (some n) (some mint) = ok (n, mint)
note_to_unshield store (some (m, last_mint)) (some n) none = ok (n, last_mint)
note_to_unshield store none (some n) none = err no_spendable_notes
note_to_unshield store last none (some mint) = elim (le_to_fr_reduced mint) [
  | err e ↦ err bad_mint
  | ok target ↦ elim (rightmost_first (get_spendable store target)) [
    | [] ↦ err no_spendable_notes
    | n ∷ rest ↦ ok (n, mint)
  ]
]
note_to_unshield store (some found) none none = ok found
note_to_unshield store none none none = err no_spendable_notes

-- The loop of `privateSwap` that asks the indexer for each note whether its nullifier is spent;
-- `none`: the call failed.
unfoldable pub probe :
    (SpendableNote → Option Bool)
    → NoteStore
    → List SpendableNote
    → NoteStore × Option SpendableNote
probe is_spent store [] = (store, none)
probe is_spent store (n ∷ notes) =
    let next : NoteStore × Option SpendableNote =
      probe is_spent (mark_spent store n.commitment) notes in
    elim (is_spent n) [ none ↦ (store, none) | some true ↦ next | some false ↦ (store, some n) ]

unfoldable pub probe_with :
    Option (SpendableNote → Option Bool)
    → NoteStore
    → List SpendableNote
    → NoteStore × Option SpendableNote
probe_with none store notes = (store, none)
probe_with (some is_spent) store notes = probe is_spent store notes

-- What the picker behind the probing takes: the note probed, else the first of the matches.
unfoldable pub picked : Option SpendableNote → List SpendableNote → Result ClientError SpendableNote
picked (some n) matches = ok n
picked none [] = err no_exact_match
picked none (n ∷ matches) = ok n

-- Behind the test that there are candidates.
unfoldable pub choose :
    List SpendableNote
    → NoteStore
    → NoteStore × Option SpendableNote
    → List SpendableNote
    → NoteStore × Result ClientError SpendableNote
unfolding picked
choose [] store probed matches = (store, err no_spendable_notes)
choose (n ∷ candidates) store probed matches = (probed.0, picked probed.1 matches)

abbrev pub exact_matches : NoteStore → ℕ → ℕ → List SpendableNote
exact_matches store in_mint amount =
    rightmost_first (keep_if (λ n. n.note.value == amount) (get_spendable store in_mint))

-- The note that `privateSwap` spends: the store that the probing leaves, and the note. A negative
-- amount is refused as zero is.
unfoldable pub note_to_swap :
    NoteStore
    → Option SpendableNote
    → Option (SpendableNote → Option Bool)
    → ℕ
    → ℕ
    → NoteStore × Result ClientError SpendableNote
unfolding choose
note_to_swap store (some n) indexer in_mint amount =
    if amount == 0
    then (store, err amount_out_of_range)
    else if n.note.value == amount
    then (store, ok n)
    else (store, err value_mismatch)
note_to_swap store none indexer in_mint amount =
    let probed : NoteStore × Option SpendableNote =
      probe_with indexer store (exact_matches store in_mint amount) in
    if amount == 0
    then (store, err amount_out_of_range)
    else choose (get_spendable store in_mint) store probed (exact_matches store in_mint amount)

-- `_confirmAndMarkSpent`: the status of each round, and the store afterwards.
unfoldable pub confirm_rounds :
    (ℕ → Result Text (Option TxStatus))
    → ℕ
    → ℕ
    → NoteStore
    → ℕ
    → NoteStore × Result ClientError (Unit {0})
confirm_rounds statuses zero k store commitment = (store, err unconfirmed)
confirm_rounds statuses (suc left) k store commitment =
    let next : NoteStore × Result ClientError (Unit {0}) =
      confirm_rounds statuses left (suc k) store commitment in
    elim (statuses k) [
      | err e ↦ (store, err (rpc_error e))
      | ok none ↦ next
      | ok (some s) ↦ if not s.confirmed then next else (elim s.failure [
        | some e ↦ (store, err (landed_with_error e))
        | none ↦ (mark_spent store commitment, ok tt)
      ])
    ]

abbrev pub confirm_attempts : ℕ
confirm_attempts = 4

unfoldable pub confirm_and_mark_spent :
    (ℕ → Result Text (Option TxStatus)) → NoteStore → ℕ → NoteStore × Result ClientError (Unit {0})
unfolding confirm_rounds
confirm_and_mark_spent statuses store commitment =
    confirm_rounds statuses confirm_attempts 0 store commitment

-- `_proveLeafForSpend`: the indexer's proof, and on its failure, or without one, the frontier's.
unfoldable pub prove_leaf_for_spend :
    Option (ℕ → Result Text MerkleProof)
    → (SpendableNote → Result MerkleError MerkleProof)
    → SpendableNote
    → Result ClientError MerkleProof
prove_leaf_for_spend none from_frontier n = elim (from_frontier n) [
  | ok proof ↦ ok proof
  | err e ↦ err (not_proved e)
]
prove_leaf_for_spend (some indexer) from_frontier n =
    let fallback : Result ClientError MerkleProof = elim (from_frontier n) [
      | ok proof ↦ ok proof
      | err e ↦ err (not_proved e)
    ] in
    elim (indexer n.leaf_index) [ ok proof ↦ ok proof | err e ↦ fallback ]

-- The totals by mint: the amount and the count, in the order of the first note of each mint.
unfoldable pub add_to : SpendableNote → List (ℕ × ℕ × ℕ) → List (ℕ × ℕ × ℕ)
add_to n [] = (n.note.token_mint, n.note.value, 1) ∷ []
add_to n ((mint, amount, count) ∷ agg) =
    let later = add_to n agg in
    if mint == n.note.token_mint
    then (mint, amount + n.note.value, count + 1) ∷ agg
    else (mint, amount, count) ∷ later

unfoldable pub aggregate : List (ℕ × ℕ × ℕ) → List SpendableNote → List (ℕ × ℕ × ℕ)
unfolding add_to
aggregate agg [] = agg
aggregate agg (n ∷ notes) = aggregate (add_to n agg) notes

-- `balance` behind the refresh that it may start with, and with the mint's number where it is filtered
-- by one; the spelling of the mints is left out.
unfoldable pub balance : NoteStore → Option ℕ → List (ℕ × ℕ × ℕ)
unfolding aggregate
balance store none = aggregate [] (get_all_spendable store)
balance store (some mint) = aggregate [] (get_spendable store mint)
