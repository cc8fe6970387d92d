-- ===== src/Swap/Settled.antt =====
-- What a swap leaves in the note store.
use b402_solana.Common.{
  List, ℕ, ◌+◌, ◌-◌, ◌≤◌, ◌≡◌, inl, inr, refl, sym, ap, ◌∙◌, subst, arith, ℤ, pos, Bool, true,
  false, Bool-cases, Option, none, some, Text, Result, ok, ok_eq, ◌==◌,
}
use b402_solana.Notes.Store.{SpendableNote, NoteStore, mark_spent}
use b402_solana.Protocol.Poseidon.{commitment_hash}
use b402_solana.Notes.Excess.{derive_excess_random, compute_excess_commitment}
use b402_solana.Wallet.{Wallet}
use b402_solana.Actions.Confirm.{TxStatus}
use b402_solana.Client.{ClientError}
use b402_solana.Client.Spent.{Landed, confirm_and_mark_spent-Landed}
use b402_solana.Swap.Prepare.{SwapError}
use b402_solana.Swap.Settle.{
  PrivateSwapResult, excess_of, excess_note, excess_note_of, insert_all, settle_swap,
}

abbrev pub extra_value : Option SpendableNote → ℕ
extra_value none = 0
extra_value (some n) = n.note.value

module _ (raw : List ℕ → ℕ) where
  -- A second note, if there is one: of the same mint and the wallet's, at the next leaf, with the
  -- commitment of its own fields and the random that the first note's commitment gives.
  abbrev pub OwnExtra : Wallet → SpendableNote → Option SpendableNote → Type 0
  OwnExtra wallet out_note none = Unit
  OwnExtra wallet out_note (some m) =
      (m.note.token_mint ≡ out_note.note.token_mint)
      × (m.note.spending_pub ≡ wallet.spending_pub)
      × (m.spending_priv ≡ wallet.spending_priv)
      × (m.note.random ≡ derive_excess_random raw out_note.commitment)
      × (m.commitment
          ≡ commitment_hash raw m.note.token_mint m.note.value m.note.random m.note.spending_pub)
      × (m.leaf_index ≡ out_note.leaf_index + 1)

  pub excess_note-OwnExtra :
      (wallet : Wallet) (dual : Bool) (out_note : SpendableNote) (excess : ℕ)
      → OwnExtra wallet out_note (excess_note raw wallet dual out_note excess)
  unfolding excess_note excess_note_of compute_excess_commitment
  excess_note-OwnExtra wallet false out_note excess = tt
  excess_note-OwnExtra wallet true out_note excess = elim (Bool-cases (excess == 0)) [
    | inl exact ↦ rw exact tt
    | inr more ↦ rw more (refl, refl, refl, refl, refl, refl)
  ]

  -- The two notes are together what came in.
  pub excess_note-value :
      (wallet : Wallet) (out_note : SpendableNote) (amount : ℕ)
      → out_note.note.value ≤ amount
      → out_note.note.value
          + extra_value
              (excess_note raw wallet true out_note (excess_of (pos amount) out_note.note.value))
        ≡ amount
  unfolding excess_note excess_of excess_note_of
  excess_note-value wallet out_note amount enough =
      elim (Bool-cases (amount - out_note.note.value == 0)) [
        | inl exact ↦ rw exact (whole out_note.note.value amount enough exact)
        | inr more ↦ rw more (omega arith)
      ]
    where
      whole : (v a : ℕ) → v ≤ a → (a - v == 0) ≡ true → v + 0 ≡ a
      whole v a h e = ground arith

  abbrev pub Settled :
      (ℕ → Result Text (Option TxStatus))
      → Wallet
      → Bool
      → ℕ
      → SpendableNote
      → ℤ
      → NoteStore
      → NoteStore × PrivateSwapResult
      → Type 0
  Settled statuses wallet dual spent out_note out_amount store (after, res) =
      ((j : ℕ) × (o : Option TxStatus) × (statuses j ≡ ok o) × Landed o)
      × (after ≡ insert_all (mark_spent store spent) res.out_note res.excess_note)
      × (res.out_note ≡ out_note)
      × (res.out_amount ≡ out_amount)
      × (res.excess_note
          ≡ excess_note raw wallet dual out_note (excess_of out_amount out_note.note.value))

  pub settle_swap-Settled :
      (statuses : ℕ → Result Text (Option TxStatus)) (wallet : Wallet) (dual : Bool) (spent : ℕ)
      (signature : Text) (out_note : SpendableNote) (out_amount : ℤ) (store after : NoteStore)
      (res : PrivateSwapResult)
      → settle_swap raw statuses wallet dual spent signature out_note out_amount store
        ≡ (after, ok res)
      → Settled statuses wallet dual spent out_note out_amount store (after, res)
  unfolding settle_swap
  settle_swap-Settled statuses wallet dual spent signature out_note out_amount store after res e =
      elim (confirm_and_mark_spent-Landed statuses store spent) [
        | inl (j, o, within, answered, landed, marked) ↦
            let pair = rw (marked, settle_swap) at e in
            let done : PrivateSwapResult = record {
              signature = signature;
              out_note = out_note;
              out_amount = out_amount;
              excess_note =
                  excess_note raw wallet dual out_note (excess_of out_amount out_note.note.value);
            } in
            let same : done ≡ res =
              ok_eq (ap (λ (z : NoteStore × Result SwapError PrivateSwapResult). z.1) pair) in
            let left : insert_all (mark_spent store spent) done.out_note done.excess_note ≡ after =
              ap
                (λ (z : NoteStore × Result ClientError (Unit {0})).
                  insert_all z.0 done.out_note done.excess_note)
                (sym marked)
              ∙ ap (λ (z : NoteStore × Result SwapError PrivateSwapResult). z.0) pair in
            let built : Settled statuses wallet dual spent out_note out_amount store
                (insert_all (mark_spent store spent) done.out_note done.excess_note, done) =
              ((j, o, answered, landed), refl, refl, refl, refl) in
            subst
              (λ (a : NoteStore).
                Settled statuses wallet dual spent out_note out_amount store (a, res))
              left
              (subst
                (λ (z : PrivateSwapResult).
                  Settled statuses wallet dual spent out_note out_amount store
                    (insert_all (mark_spent store spent) done.out_note done.excess_note, z))
                same built)
        | inr (bad, kept) ↦ cc (
            ap (λ (z : NoteStore × Result SwapError PrivateSwapResult). z.1)
              (rw (kept, settle_swap) at e))
      ]
