-- ===== src/Client/Balance.antt =====
-- The totals that `balance` of packages/sdk/src/b402.ts gives, against the notes.
use b402_solana.Common.{
  ℕ, ◌+◌, ◌≡◌, ◌≢◌, sym, ap, ◌∙◌, arith, Bool-cases, inl, inr, true, false, List, [], ◌∷◌, ◌==◌,
  ==_iff, if◌then◌else◌, All, Option, none, some,
}
use b402_solana.Notes.Store.{SpendableNote, NoteStore, get_spendable, get_all_spendable}
use b402_solana.Client.{add_to, aggregate, balance}

-- The notes' total in a mint, and how many they are.
abbrev pub total_of : ℕ → List SpendableNote → ℕ
total_of mint [] = 0
total_of mint (n ∷ notes) =
    (if n.note.token_mint == mint then n.note.value else 0) + total_of mint notes

abbrev pub count_of : ℕ → List SpendableNote → ℕ
count_of mint [] = 0
count_of mint (n ∷ notes) = (if n.note.token_mint == mint then 1 else 0) + count_of mint notes

-- What the rows say of a mint, all rows of it together.
abbrev pub row_total : ℕ → List (ℕ × ℕ × ℕ) → ℕ
row_total mint [] = 0
row_total mint ((m, amount, count) ∷ rows) = (if m == mint then amount else 0) + row_total mint rows

abbrev pub row_count : ℕ → List (ℕ × ℕ × ℕ) → ℕ
row_count mint [] = 0
row_count mint ((m, amount, count) ∷ rows) = (if m == mint then count else 0) + row_count mint rows

-- No two rows are of the same mint.
abbrev pub Distinct : List (ℕ × ℕ × ℕ) → Type 0
Distinct [] = Unit
Distinct ((m, amount, count) ∷ rows) = All (λ row. row.0 ≢ m) rows × Distinct rows

add_to-totals :
    (mint : ℕ) (n : SpendableNote) (rows : List (ℕ × ℕ × ℕ))
    → (row_total mint (add_to n rows)
        ≡ row_total mint rows + (if n.note.token_mint == mint then n.note.value else 0))
      × (row_count mint (add_to n rows)
          ≡ row_count mint rows + (if n.note.token_mint == mint then 1 else 0))
unfolding add_to
add_to-totals mint n [] = (omega arith, omega arith)
add_to-totals mint n ((m, amount, count) ∷ rows) =
    let (total, number) = add_to-totals mint n rows in
    elim (Bool-cases (m == n.note.token_mint)) [
      | inl same ↦
          let is : m ≡ n.note.token_mint = (==_iff m n.note.token_mint).0 same in
          elim (Bool-cases (m == mint)) [
            | inl this ↦
                let that : (n.note.token_mint == mint) ≡ true =
                  ap (λ (x : ℕ). x == mint) (sym is) ∙ this in
                rw (add_to, same, this, that) (omega arith, omega arith)
            | inr other ↦
                let that : (n.note.token_mint == mint) ≡ false =
                  ap (λ (x : ℕ). x == mint) (sym is) ∙ other in
                rw (add_to, same, other, that) (omega arith, omega arith)
          ]
      | inr differs ↦ rw (add_to, differs) (omega (arith, total), omega (arith, number))
    ]

aggregate-totals :
    (mint : ℕ) (rows : List (ℕ × ℕ × ℕ)) (notes : List SpendableNote)
    → (row_total mint (aggregate rows notes) ≡ row_total mint rows + total_of mint notes)
      × (row_count mint (aggregate rows notes) ≡ row_count mint rows + count_of mint notes)
unfolding aggregate
aggregate-totals mint rows [] = (omega arith, omega arith)
aggregate-totals mint rows (n ∷ notes) =
    let (total, number) = aggregate-totals mint (add_to n rows) notes in
    let (added, counted) = add_to-totals mint n rows in
    (omega (arith, total, added), omega (arith, number, counted))

add_to-ne :
    (m : ℕ) (n : SpendableNote) (rows : List (ℕ × ℕ × ℕ))
    → n.note.token_mint ≢ m
    → All (λ row. row.0 ≢ m) rows
    → All (λ row. row.0 ≢ m) (add_to n rows)
unfolding add_to
add_to-ne m n [] differs h = (differs, tt)
add_to-ne m n ((mint, amount, count) ∷ rows) differs (first, h) =
    elim (Bool-cases (mint == n.note.token_mint)) [
      | inl same ↦ rw (add_to, same) (first, h)
      | inr other ↦ rw (add_to, other) (first, add_to-ne m n rows differs h)
    ]

add_to-Distinct :
    (n : SpendableNote) (rows : List (ℕ × ℕ × ℕ)) → Distinct rows → Distinct (add_to n rows)
unfolding add_to
add_to-Distinct n [] h = (tt, tt)
add_to-Distinct n ((mint, amount, count) ∷ rows) (first, h) =
    elim (Bool-cases (mint == n.note.token_mint)) [
      | inl same ↦ rw (add_to, same) (first, h)
      | inr other ↦
          let differs : n.note.token_mint ≢ mint =
            λ e. cc ((==_iff mint n.note.token_mint).1 (sym e), other) in
          rw (add_to, other) (add_to-ne mint n rows differs first, add_to-Distinct n rows h)
    ]

aggregate-Distinct :
    (rows : List (ℕ × ℕ × ℕ)) (notes : List SpendableNote)
    → Distinct rows
    → Distinct (aggregate rows notes)
unfolding aggregate
aggregate-Distinct rows [] h = h
aggregate-Distinct rows (n ∷ notes) h =
    aggregate-Distinct (add_to n rows) notes (add_to-Distinct n rows h)

from_empty :
    (mint : ℕ) (notes : List SpendableNote)
    → (row_total mint (aggregate [] notes) ≡ total_of mint notes)
      × (row_count mint (aggregate [] notes) ≡ count_of mint notes)
from_empty mint notes =
    let (total, number) = aggregate-totals mint [] notes in
    (omega (arith, total), omega (arith, number))

-- The notes that a balance is of.
abbrev pub balance_notes : NoteStore → Option ℕ → List SpendableNote
balance_notes store none = get_all_spendable store
balance_notes store (some mint) = get_spendable store mint

-- A balance has one row for a mint at most, and for every mint the amount and the count of its row
-- are the sum of the values and the number of the spendable notes of that mint; without such a note
-- both are zero.
pub balance-totals :
    (store : NoteStore) (filter : Option ℕ)
    → Distinct (balance store filter)
      × ((mint : ℕ)
          → (row_total mint (balance store filter) ≡ total_of mint (balance_notes store filter))
            × (row_count mint (balance store filter) ≡ count_of mint (balance_notes store filter)))
unfolding balance
balance-totals store none =
    let notes : List SpendableNote = get_all_spendable store in
    (aggregate-Distinct [] notes tt, λ mint. from_empty mint notes)
balance-totals store (some m) =
    let notes : List SpendableNote = get_spendable store m in
    (aggregate-Distinct [] notes tt, λ mint. from_empty mint notes)
