-- ===== src/Notes/Store/Spendable.antt =====
-- packages/sdk/src/note-store.ts: what the getters return.
use b402_solana.Common.{
  ℕ, ℤ, ◌≤◌, ◌≡◌, arith, Bool, true, not, ◌&&◌, Bool-cases, inl, inr, List, [], ◌∷◌, All, Option,
  leb,
}
use b402_solana.Notes.Store.{
  SpendableNote, NoteStore, values, is_spent, pick, insert_by_index, sort_by_index, of_mint,
  get_spendable_since, above,
}

-- Each note's leaf index is at most those of the notes behind it.
abbrev pub Ascending : List SpendableNote → Type 0
Ascending [] = Unit
Ascending (n ∷ l) = All (λ m. n.leaf_index ≤ m.leaf_index) l × Ascending l

pub pick-All :
    (p : SpendableNote → Bool) (l : List SpendableNote) → All (λ n. p n ≡ true) (pick p l)
unfolding pick
pick-All p [] = tt
pick-All p (n ∷ l) = elim (Bool-cases (p n)) [
  | inl kept ↦ rw (kept, pick) (kept, pick-All p l)
  | inr left ↦ rw (left, pick) (pick-All p l)
]

insert_by_index-All :
    (P : SpendableNote → Type 0) (n : SpendableNote) (l : List SpendableNote)
    → P n
    → All P l
    → All P (insert_by_index n l)
unfolding insert_by_index
insert_by_index-All P n [] h k = (h, tt)
insert_by_index-All P n (m ∷ l) h (first, k) = elim (Bool-cases (leb n.leaf_index m.leaf_index)) [
  | inl low ↦ rw (low, insert_by_index) (h, (first, k))
  | inr high ↦ rw (high, insert_by_index) (first, insert_by_index-All P n l h k)
]

sort_by_index-All :
    (P : SpendableNote → Type 0) (l : List SpendableNote) → All P l → All P (sort_by_index l)
unfolding sort_by_index
sort_by_index-All P [] h = tt
sort_by_index-All P (n ∷ l) (first, h) =
    insert_by_index-All P n (sort_by_index l) first (sort_by_index-All P l h)

ascend_below :
    (a b : ℕ) (l : List SpendableNote)
    → a ≤ b
    → All (λ m. b ≤ m.leaf_index) l
    → All (λ m. a ≤ m.leaf_index) l
ascend_below a b [] h k = tt
ascend_below a b (n ∷ l) h (first, k) = (omega arith, ascend_below a b l h k)

insert_by_index-Ascending :
    (n : SpendableNote) (l : List SpendableNote) → Ascending l → Ascending (insert_by_index n l)
unfolding insert_by_index
insert_by_index-Ascending n [] h = (tt, tt)
insert_by_index-Ascending n (m ∷ l) (first, h) = elim (Bool-cases (leb n.leaf_index m.leaf_index)) [
  | inl low ↦
      let le : n.leaf_index ≤ m.leaf_index = ground arith in
      rw (low, insert_by_index)
        ((le, ascend_below n.leaf_index m.leaf_index l le first), (first, h))
  | inr high ↦
      let le : m.leaf_index ≤ n.leaf_index = ground arith in
      rw (high, insert_by_index)
        (
          insert_by_index-All (λ x. m.leaf_index ≤ x.leaf_index) n l le first,
          insert_by_index-Ascending n l h,
        )
]

sort_by_index-Ascending : (l : List SpendableNote) → Ascending (sort_by_index l)
unfolding sort_by_index
sort_by_index-Ascending [] = tt
sort_by_index-Ascending (n ∷ l) =
    insert_by_index-Ascending n (sort_by_index l) (sort_by_index-Ascending l)

-- getSpendableSince returns its notes by ascending leaf index, and of each the leaf index is above
-- the given one, its commitment is not among the spent ones, and its mint is the one asked for.
pub get_spendable_since-Ascending :
    (s : NoteStore) (since : ℤ) (mint : Option ℕ)
    → Ascending (get_spendable_since s since mint)
      × All
          (λ n. (not (is_spent s n) && above since n.leaf_index && of_mint mint n) ≡ true)
          (get_spendable_since s since mint)
unfolding get_spendable_since
get_spendable_since-Ascending s since mint =
    let chosen : SpendableNote → Bool =
      λ n. not (is_spent s n) && above since n.leaf_index && of_mint mint n in
    let picked = pick chosen (values s.notes_by_commitment) in
    (
      sort_by_index-Ascending picked,
      sort_by_index-All (λ n. chosen n ≡ true) picked
          (pick-All chosen (values s.notes_by_commitment)),
    )
