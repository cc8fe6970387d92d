-- ===== src/Client/Select.antt =====
-- The note that packages/sdk/src/b402.ts spends.
use b402_solana.Common.{
  some_eq, ℕ, ◌≤◌, ◌≡◌, ◌≢◌, refl, sym, ap, ◌∙◌, arith, Bool, true, false, not, ◌&&◌, Bool-cases,
  inl, inr, List, [], ◌∷◌, All, keep_if, Option, Option-cases, none, some, ltb, ◌==◌, ==_iff, ok,
  ok_eq, subst, Result,
}
use mathlib.Core.List.{Memᴰ}
use b402_solana.Notes.Store.{
  SpendableNote, NoteStore, values, is_spent, get_spendable, mark_spent, pick,
}
use b402_solana.Notes.Store.Spendable.{pick-All}
use b402_solana.Client.{
  ClientError, insert_rightmost, rightmost_first, probe, probe_with, picked, exact_matches,
  note_to_swap, choose,
}

-- No note of the list stands right of this one.
abbrev pub Rightmost : SpendableNote → List SpendableNote → Type 0
Rightmost n = All (λ m. m.leaf_index ≤ n.leaf_index)

-- The first of the list, if there is one, is rightmost in it.
abbrev Led : List SpendableNote → Type 0
Led [] = Unit
Led (n ∷ notes) = Rightmost n notes

module _ (P : SpendableNote → Type 0) where
  insert_rightmost-All :
      (n : SpendableNote) (l : List SpendableNote) → P n → All P l → All P (insert_rightmost n l)
  unfolding insert_rightmost
  insert_rightmost-All n [] h k = (h, tt)
  insert_rightmost-All n (m ∷ l) h (first, k) = elim (Bool-cases (ltb n.leaf_index m.leaf_index)) [
    | inl low ↦ rw (low, insert_rightmost) (first, insert_rightmost-All n l h k)
    | inr high ↦ rw (high, insert_rightmost) (h, (first, k))
  ]

  rightmost_first-All : (l : List SpendableNote) → All P l → All P (rightmost_first l)
  unfolding rightmost_first
  rightmost_first-All [] h = tt
  rightmost_first-All (n ∷ l) (first, h) =
      insert_rightmost-All n (rightmost_first l) first (rightmost_first-All l h)

  keep_if-All :
      (p : SpendableNote → Bool) (l : List SpendableNote)
      → All P l
      → All (λ n. P n × (p n ≡ true)) (keep_if p l)
  keep_if-All p [] h = tt
  keep_if-All p (n ∷ l) (first, h) = elim (Bool-cases (p n)) [
    | inl kept ↦ rw kept ((first, kept), keep_if-All p l h)
    | inr left ↦ rw left (keep_if-All p l h)
  ]

  probe-All :
      (rpc : SpendableNote → Option Bool) (store : NoteStore) (l : List SpendableNote)
      (n : SpendableNote)
      → All P l
      → (probe rpc store l).1 ≡ some n
      → P n
  unfolding probe
  probe-All rpc store [] n h e = cc e
  probe-All rpc store (m ∷ l) n (first, h) e = elim (Option-cases (rpc m)) [
    | inl failed ↦ cc (rw (probe, failed) at e)
    | inr (b, said) ↦ elim (Bool-cases b) [
      | inl spent ↦
          probe-All rpc (mark_spent store m.commitment) l n h (rw (probe, said, spent) at e)
      | inr fresh ↦ subst P (some_eq (rw (probe, said, fresh) at e)) first
    ]
  ]

  picked-All :
      (found : Option SpendableNote) (l : List SpendableNote) (n : SpendableNote)
      → ((m : SpendableNote) → found ≡ some m → P m)
      → All P l
      → picked found l ≡ ok n
      → P n
  unfolding picked
  picked-All (some m) l n f h e = subst P (ok_eq e) (f m refl)
  picked-All none [] n f h e = cc e
  picked-All none (m ∷ l) n f (first, h) e = subst P (ok_eq e) first

pick-keeps :
    (P : SpendableNote → Type 0) (p : SpendableNote → Bool) (l : List SpendableNote)
    → All P l
    → All P (pick p l)
unfolding pick
pick-keeps P p [] h = tt
pick-keeps P p (n ∷ l) (first, h) = elim (Bool-cases (p n)) [
  | inl kept ↦ rw (kept, pick) (first, pick-keeps P p l h)
  | inr left ↦ rw (left, pick) (pick-keeps P p l h)
]

All-Memᴰ :
    (l whole : List SpendableNote)
    → ((n : SpendableNote) → Memᴰ n l → Memᴰ n whole)
    → All (λ n. Memᴰ n whole) l
All-Memᴰ [] whole f = tt
All-Memᴰ (n ∷ l) whole f = (f n (Memᴰ.head refl), All-Memᴰ l whole (λ m h. f m (Memᴰ.tail h)))

-- The matches are notes of the store.
exact_matches-Memᴰ :
    (store : NoteStore) (in_mint amount : ℕ)
    → All (λ n. Memᴰ n (values store.notes_by_commitment)) (exact_matches store in_mint amount)
unfolding get_spendable
exact_matches-Memᴰ store in_mint amount =
    let whole : List SpendableNote = values store.notes_by_commitment in
    rightmost_first-All _ _ (
      All_first (λ n. Memᴰ n whole) (λ n. (n.note.value == amount) ≡ true) _
        (keep_if-All (λ n. Memᴰ n whole) (λ n. n.note.value == amount) (get_spendable store in_mint)
          (pick-keeps (λ n. Memᴰ n whole)
            (λ n. n.note.token_mint == in_mint && not (is_spent store n)) whole
            (All-Memᴰ whole whole (λ n h. h)))))
  where
    All_first :
        (P Q : SpendableNote → Type 0) (l : List SpendableNote) → All (λ n. P n × Q n) l → All P l
    All_first P Q [] h = tt
    All_first P Q (n ∷ l) ((held, kept), h) = (held, All_first P Q l h)

exact_matches-All :
    (store : NoteStore) (in_mint amount : ℕ)
    → All
        (λ n.
          ((n.note.token_mint == in_mint && not (is_spent store n)) ≡ true)
          × ((n.note.value == amount) ≡ true))
        (exact_matches store in_mint amount)
unfolding get_spendable
exact_matches-All store in_mint amount = rightmost_first-All _ _ (
    keep_if-All (λ n. (n.note.token_mint == in_mint && not (is_spent store n)) ≡ true)
      (λ n. n.note.value == amount) (get_spendable store in_mint)
      (pick-All (λ n. n.note.token_mint == in_mint && not (is_spent store n))
        (values store.notes_by_commitment)))

probe_with-All :
    (P : SpendableNote → Type 0) (indexer : Option (SpendableNote → Option Bool))
    (store : NoteStore) (l : List SpendableNote) (n : SpendableNote)
    → All P l
    → (probe_with indexer store l).1 ≡ some n
    → P n
unfolding probe_with
probe_with-All P none store l n h e = cc e
probe_with-All P (some rpc) store l n h e = probe-All P rpc store l n h e

-- The first of the sorted notes is rightmost.
insert_rightmost-Led :
    (n : SpendableNote) (l : List SpendableNote) → Led l → Led (insert_rightmost n l)
unfolding insert_rightmost
insert_rightmost-Led n [] h = tt
insert_rightmost-Led n (m ∷ l) h = elim (Bool-cases (ltb n.leaf_index m.leaf_index)) [
  | inl low ↦
      let le : n.leaf_index ≤ m.leaf_index = ground arith in
      rw (low, insert_rightmost) (insert_rightmost-All (λ x. x.leaf_index ≤ m.leaf_index) n l le h)
  | inr high ↦
      let le : m.leaf_index ≤ n.leaf_index = ground arith in
      rw (high, insert_rightmost) (le, below n.leaf_index m.leaf_index l le h)
]
  where
    below :
        (a b : ℕ) (l : List SpendableNote)
        → b ≤ a
        → All (λ x. x.leaf_index ≤ b) l
        → All (λ x. x.leaf_index ≤ a) l
    below a b [] h k = tt
    below a b (x ∷ l) h (first, k) = (omega arith, below a b l h k)

rightmost_first-Led : (l : List SpendableNote) → Led (rightmost_first l)
unfolding rightmost_first
rightmost_first-Led [] = tt
rightmost_first-Led (n ∷ l) = insert_rightmost-Led n (rightmost_first l) (rightmost_first-Led l)

choose-ok :
    (candidates : List SpendableNote) (store left : NoteStore)
    (probed : NoteStore × Option SpendableNote) (matches : List SpendableNote) (n : SpendableNote)
    → choose candidates store probed matches ≡ (left, ok n)
    → picked probed.1 matches ≡ ok n
unfolding choose
choose-ok [] store left probed matches n e =
    cc (ap (λ (z : NoteStore × Result ClientError SpendableNote). z.1) e)
choose-ok (m ∷ candidates) store left probed matches n e =
    ap (λ (z : NoteStore × Result ClientError SpendableNote). z.1) e

picked-Led :
    (l : List SpendableNote) (n : SpendableNote) → Led l → picked none l ≡ ok n → Rightmost n l
unfolding picked
picked-Led [] n h e = tt
picked-Led (m ∷ l) n h e =
    subst (λ (x : SpendableNote). Rightmost x (m ∷ l)) (ok_eq e) (omega arith, h)

both : (a b : Bool) → (a && b) ≡ true → (a ≡ true) × (b ≡ true)
both true b e = (refl, e)
both false b e = cc e

negated : (b : Bool) → not b ≡ true → b ≡ false
negated true e = cc e
negated false e = refl

-- The note that a private swap without a note of its own takes: the amount is not zero, the note's
-- mint and value are the ones asked for, it is a note of the store from before, which did not have it
-- marked as spent, and without an indexer no other such note stands right of it in the tree.
pub note_to_swap-exact :
    (store left : NoteStore) (indexer : Option (SpendableNote → Option Bool)) (in_mint amount : ℕ)
    (n : SpendableNote)
    → note_to_swap store none indexer in_mint amount ≡ (left, ok n)
    → (amount ≢ 0)
      × (n.note.token_mint ≡ in_mint)
      × (n.note.value ≡ amount)
      × Memᴰ n (values store.notes_by_commitment)
      × (is_spent store n ≡ false)
      × (indexer ≡ none → Rightmost n (exact_matches store in_mint amount))
unfolding note_to_swap probe_with
note_to_swap-exact store left indexer in_mint amount n e = elim (Bool-cases (amount == 0)) [
  | inl nothing ↦ cc (
      ap (λ (z : NoteStore × Result ClientError SpendableNote). z.1)
        (rw (nothing, note_to_swap) at e))
  | inr more ↦
      let matches : List SpendableNote = exact_matches store in_mint amount in
      let chosen : picked (probe_with indexer store matches).1 matches ≡ ok n =
        choose-ok (get_spendable store in_mint) store left _ matches n
          (rw (more, note_to_swap) at e) in
      let all = exact_matches-All store in_mint amount in
      let held = exact_matches-Memᴰ store in_mint amount in
      let (fits, exact) =
        picked-All _ (probe_with indexer store matches).1 matches n
          (λ m found. probe_with-All _ indexer store matches m all found) all chosen in
      (
        λ zero. cc ((==_iff amount 0).1 zero, more),
        (==_iff n.note.token_mint in_mint).0 (both _ _ fits).0,
        (==_iff n.note.value amount).0 exact,
        picked-All _ (probe_with indexer store matches).1 matches n
            (λ m found. probe_with-All _ indexer store matches m held found) held chosen,
        negated _ (both _ _ fits).1,
        λ alone.
            picked-Led matches n (rightmost_first-Led _)
              (ap (λ i. picked (probe_with i store matches).1 matches) (sym alone) ∙ chosen),
      )
]
