-- ===== src/Swap/Unlanded.antt =====
-- What `privateSwap` leaves when it throws.
use b402_solana.Common.{
  ℕ, ℤ, ◌≡◌, inl, inr, refl, ap, ◌∙◌, Bool, Bool-cases, List, [], ◌∷◌, Option, none, some,
  Option-cases, Text, Bytes, Result, Result-cases, err, sym, any, ◌==◌,
}
use b402_solana.Protocol.Encoding.{le_to_fr_reduced}
use b402_solana.Programs.Accounts.{Instruction}
use b402_solana.Programs.Nullifier.{LightAccounts}
use b402_solana.Merkle.{MerkleProof}
use b402_solana.Notes.Encryption.{Note, EncryptedNote, NoteError}
use b402_solana.Notes.Store.{SpendableNote, NoteStore, mark_spent}
use b402_solana.Wallet.{Wallet}
use b402_solana.Actions.Confirm.{TxStatus}
use b402_solana.Client.{ClientError, probe, probe_with, choose, exact_matches, note_to_swap}
use b402_solana.Notes.Store.{get_spendable}
use b402_solana.Client.Spent.{confirm_and_mark_spent-Landed}
use b402_solana.Swap.Prepare.{SwapError, SwapClient, PrivateSwapRequest, Chain, Ready, dual_note}
use b402_solana.Swap.Flow.{swap_setup}
use b402_solana.Swap.Settle.{PrivateSwapResult, send_swap, settle_swap, private_swap}

-- The same notes are held.
abbrev Kept : NoteStore → NoteStore → Type 0
Kept a b = a.notes_by_commitment ≡ b.notes_by_commitment

mark_spent-Kept : (s : NoteStore) (c : ℕ) → Kept (mark_spent s c) s
unfolding mark_spent
mark_spent-Kept s c = elim (Bool-cases (any (λ d. d == c) s.spent_nullifiers)) [
  | inl marked ↦ rw marked refl
  | inr fresh ↦ rw fresh refl
]

probe-Kept :
    (is_spent : SpendableNote → Option Bool) (s : NoteStore) (l : List SpendableNote)
    → Kept (probe is_spent s l).0 s
unfolding probe
probe-Kept is_spent s [] = refl
probe-Kept is_spent s (n ∷ l) = elim (Option-cases (is_spent n)) [
  | inl failed ↦ rw (failed, probe) refl
  | inr (said, at) ↦ elim (Bool-cases said) [
    | inl spent ↦
        rw (at, spent, probe)
          (probe-Kept is_spent (mark_spent s n.commitment) l ∙ mark_spent-Kept s n.commitment)
    | inr fresh ↦ rw (at, fresh, probe) refl
  ]
]

probe_with-Kept :
    (indexer : Option (SpendableNote → Option Bool)) (s : NoteStore) (l : List SpendableNote)
    → Kept (probe_with indexer s l).0 s
unfolding probe_with
probe_with-Kept none s l = refl
probe_with-Kept (some rpc) s l = probe-Kept rpc s l

choose-Kept :
    (candidates : List SpendableNote) (s : NoteStore) (probed : NoteStore × Option SpendableNote)
    (matches : List SpendableNote)
    → Kept probed.0 s
    → Kept (choose candidates s probed matches).0 s
unfolding choose
choose-Kept [] s probed matches h = refl
choose-Kept (n ∷ candidates) s probed matches h = h

note_to_swap-Kept :
    (s : NoteStore) (given : Option SpendableNote) (indexer : Option (SpendableNote → Option Bool))
    (in_mint amount : ℕ)
    → Kept (note_to_swap s given indexer in_mint amount).0 s
unfolding note_to_swap
note_to_swap-Kept s (some n) indexer in_mint amount = elim (Bool-cases (amount == 0)) [
  | inl nothing ↦ rw (nothing, note_to_swap) refl
  | inr more ↦ elim (Bool-cases (n.note.value == amount)) [
    | inl whole ↦ rw (more, whole, note_to_swap) refl
    | inr part ↦ rw (more, part, note_to_swap) refl
  ]
]
note_to_swap-Kept s none indexer in_mint amount = elim (Bool-cases (amount == 0)) [
  | inl nothing ↦ rw (nothing, note_to_swap) refl
  | inr more ↦
      rw (more, note_to_swap)
        (choose-Kept (get_spendable s in_mint) s _ (exact_matches s in_mint amount)
          (probe_with-Kept indexer s (exact_matches s in_mint amount)))
]

abbrev Outcome : Type 0
Outcome = NoteStore × Result SwapError PrivateSwapResult

held :
    {a b : NoteStore} {x y : Result SwapError PrivateSwapResult}
    → ◌≡◌ {A = Outcome} (a, x) (b, y)
    → a.notes_by_commitment ≡ b.notes_by_commitment
held e = ap (λ (z : Outcome). z.0.notes_by_commitment) e

settle_swap-Kept :
    (raw : List ℕ → ℕ) (statuses : ℕ → Result Text (Option TxStatus)) (wallet : Wallet)
    (dual : Bool) (spent : ℕ) (signature : Text) (out_note : SpendableNote) (out_amount : ℤ)
    (store after : NoteStore) (bad : SwapError)
    → settle_swap raw statuses wallet dual spent signature out_note out_amount store
      ≡ (after, err bad)
    → Kept after store
unfolding settle_swap
settle_swap-Kept raw statuses wallet dual spent signature out_note out_amount store after bad e =
    elim (confirm_and_mark_spent-Landed statuses store spent) [
      | inl (j, o, within, answered, landed, marked) ↦
          cc (ap (λ (z : Outcome). z.1) (rw (marked, settle_swap) at e))
      | inr (failed, at) ↦
          sym (held (rw (at, settle_swap) at e))
          ∙ ap (λ (z : NoteStore × Result ClientError (Unit {0})). z.0.notes_by_commitment) at
    ]

module _ (raw : List ℕ → ℕ) (sha256 keccak256 : Bytes → Bytes) (utf8 : Text → Bytes)
    (find : List Bytes → Bytes → Bytes) (associated : Bytes → Bytes → Bytes) (sys : LightAccounts)
    (nullifier_program token_program : Bytes)
    (paths : SpendableNote → Result ClientError MerkleProof)
    (encrypt : Note → ℕ → Result NoteError EncryptedNote)
    (submit_commit : Option Instruction → Result Text (Unit {0}))
    (submit : Ready → Result Text Text) (poll : Text → Result Text (Unit {0}))
    (vault : Bool → Result Text (Option Bytes)) (statuses : ℕ → Result Text (Option TxStatus))
    (indexer : Option (SpendableNote → Option Bool)) (c : SwapClient) (r : PrivateSwapRequest)
    (chain : Chain) (store : NoteStore) where
  -- A swap that throws, before or behind the submission, adds no note and changes none.
  pub private_swap-failed :
      (after : NoteStore) (bad : SwapError)
      → private_swap raw sha256 keccak256 utf8 find associated sys nullifier_program token_program
          paths encrypt submit_commit submit poll vault statuses indexer c r chain store
        ≡ (after, err bad)
      → after.notes_by_commitment ≡ store.notes_by_commitment
  unfolding private_swap settle_swap
  private_swap-failed after bad e = elim (Result-cases (swap_setup c)) [
    | inr (failed, at) ↦ sym (held (rw (at, private_swap) at e))
    | inl ((key, prove), ready) ↦ elim (Result-cases (le_to_fr_reduced r.in_mint)) [
      | inr (failed, at) ↦ sym (held (rw (ready, at, private_swap) at e))
      | inl (in_mint_fr, minted) ↦
          let chosen = note_to_swap store r.note indexer in_mint_fr r.amount in
          let same : Kept chosen.0 store =
            note_to_swap-Kept store r.note indexer in_mint_fr r.amount in
          elim (Result-cases chosen.1) [
            | inr (failed, at) ↦ sym (held (rw (ready, minted, at, private_swap) at e)) ∙ same
            | inl (n, picked) ↦
                elim (Result-cases (
                  send_swap raw sha256 keccak256 utf8 find associated sys nullifier_program
                    token_program paths encrypt submit_commit submit poll vault prove c r chain key
                    n)) [
                      | inr (failed, at) ↦
                          sym (held (rw (ready, minted, picked, at, private_swap) at e)) ∙ same
                      | inl ((signature, out_note, out_amount), sent) ↦
                          settle_swap-Kept raw statuses c.wallet
                            (dual_note r.phase9_dual_note c.cluster) n.commitment signature out_note
                            out_amount chosen.0 after bad
                            (rw (ready, minted, picked, sent, private_swap) at e)
                          ∙ same
                    ]
          ]
    ]
  ]
