-- ===== src/Client/Stale.antt =====
-- The picker behind the probing in packages/sdk/src/b402.ts, which takes from the notes as they were
-- before it.
use b402_solana.Common.{
  ℕ, ◌≡◌, ◌≢◌, refl, ap, ◌∙◌, arith, Bool, true, false, Bool-cases, inl, inr, List, [], ◌++◌, ◌∷◌,
  All, keep_if, any, Option, none, some, ◌==◌, ==_iff, ok,
}
use b402_solana.Notes.Store.{SpendableNote, NoteStore, is_spent, get_spendable, mark_spent}
use b402_solana.Client.{
  rightmost_first, probe, probe_with, picked, exact_matches, note_to_swap, choose,
}

-- A commitment that is marked is among the marked, and stays there.
pub mark_spent-marked :
    (store : NoteStore) (c : ℕ) → any (λ x. x == c) (mark_spent store c).spent_nullifiers ≡ true
unfolding mark_spent
mark_spent-marked store c = elim (Bool-cases (any (λ x. x == c) store.spent_nullifiers)) [
  | inl there ↦ rw (there, mark_spent) there
  | inr new ↦ rw (new, mark_spent) (any-append_last c store.spent_nullifiers)
]
  where
    any-append_last : (c : ℕ) (l : List ℕ) → any (λ x. x == c) (l ++ c ∷ []) ≡ true
    any-append_last c [] = let same = (==_iff c c).1 refl in rw same refl
    any-append_last c (x ∷ l) = elim (Bool-cases (x == c)) [
      | inl this ↦ rw this refl
      | inr other ↦ rw other (any-append_last c l)
    ]

mark_spent-keeps :
    (store : NoteStore) (c d : ℕ)
    → any (λ x. x == c) store.spent_nullifiers ≡ true
    → any (λ x. x == c) (mark_spent store d).spent_nullifiers ≡ true
unfolding mark_spent
mark_spent-keeps store c d h = elim (Bool-cases (any (λ x. x == d) store.spent_nullifiers)) [
  | inl there ↦ rw (there, mark_spent) h
  | inr new ↦ rw (new, mark_spent) (any-append_more c d store.spent_nullifiers h)
]
  where
    any-append_more :
        (c d : ℕ) (l : List ℕ) → any (λ x. x == c) l ≡ true → any (λ x. x == c) (l ++ d ∷ []) ≡ true
    any-append_more c d [] h = cc h
    any-append_more c d (x ∷ l) h = elim (Bool-cases (x == c)) [
      | inl this ↦ rw this refl
      | inr other ↦ rw other (any-append_more c d l (rw other at h))
    ]

choose-match :
    (p : SpendableNote → Bool) (candidates : List SpendableNote) (store : NoteStore)
    (probed : NoteStore × Option SpendableNote) (n : SpendableNote) (rest : List SpendableNote)
    → rightmost_first (keep_if p candidates) ≡ n ∷ rest
    → probed.1 ≡ none
    → choose candidates store probed (n ∷ rest) ≡ (probed.0, ok n)
unfolding choose picked rightmost_first
choose-match p [] store probed n rest held lost = cc held
choose-match p (m ∷ candidates) store probed n rest held lost = rw lost refl

module _ (rpc : SpendableNote → Option Bool) where
  probe-marked :
      (store : NoteStore) (l : List SpendableNote) (c : ℕ)
      → All (λ n. rpc n ≡ some true) l
      → any (λ x. x == c) store.spent_nullifiers ≡ true
      → ((probe rpc store l).1 ≡ none)
        × (any (λ x. x == c) (probe rpc store l).0.spent_nullifiers ≡ true)
  unfolding probe
  probe-marked store [] c h k = (refl, k)
  probe-marked store (n ∷ l) c (said, h) k =
      rw (probe, said)
        (probe-marked (mark_spent store n.commitment) l c h
          (mark_spent-keeps store c n.commitment k))

  -- When the indexer says of every matching note that it is spent, and there is one, the swap takes
  -- the rightmost of them all the same, and the store that it leaves marks this note as spent.
  pub note_to_swap-spent_again :
      (store : NoteStore) (in_mint amount : ℕ) (n : SpendableNote) (rest : List SpendableNote)
      → amount ≢ 0
      → exact_matches store in_mint amount ≡ n ∷ rest
      → All (λ m. rpc m ≡ some true) (n ∷ rest)
      → (left : NoteStore) × (note_to_swap store none (some rpc) in_mint amount ≡ (left, ok n))
        × (is_spent left n ≡ true)
  unfolding note_to_swap probe_with probe
  note_to_swap-spent_again store in_mint amount n rest more held (said, h) =
      let different : (amount == 0) ≡ false = ground arith in
      let (lost, marked) =
        probe-marked (mark_spent store n.commitment) rest n.commitment h
          (mark_spent-marked store n.commitment) in
      let first : probe rpc store (n ∷ rest) ≡ probe rpc (mark_spent store n.commitment) rest =
        rw (probe, said) refl in
      (
        (probe rpc store (n ∷ rest)).0,
        rw (different, note_to_swap, held)
            (choose-match (λ m. m.note.value == amount) (get_spendable store in_mint) store
              (probe rpc store (n ∷ rest)) n rest held
              (ap (λ (z : NoteStore × Option SpendableNote). z.1) first ∙ lost)),
        ap (λ (z : NoteStore × Option SpendableNote). is_spent z.0 n) first ∙ marked,
      )
