-- ===== src/Client/Watched.antt =====
-- What successive calls of `watchIncoming` of packages/sdk/src/b402.ts return.
use b402_solana.Common.{
  ℕ, ℤ, pos, negsuc, ◌<◌, ◌≡◌, refl, sym, ap, ◌∙◌, subst, arith, Bool, true, false, not, ◌&&◌,
  Bool-cases, inl, inr, List, [], ◌∷◌, All, Option, some, Text,
}
use b402_solana.Notes.Store.{
  SpendableNote, NoteStore, above, is_spent, of_mint, get_spendable_since,
}
use b402_solana.Notes.Store.Spendable.{get_spendable_since-Ascending}
use b402_solana.Client.Watch.{furthest, encode_cursor, decode_cursor, watch_incoming}

above_trans : (since : ℤ) (a b : ℕ) → above since a ≡ true → a < b → above since b ≡ true
unfolding above
above_trans (pos i) a b h k = ground arith
above_trans (negsuc i) a b h k = refl

above_below : (since : ℤ) (a b : ℕ) → above since a ≡ false → above since b ≡ true → a < b
unfolding above
above_below (pos i) a b h k = ground arith
above_below (negsuc i) a b h k = cc h

above-lt : (a b : ℕ) → above (pos a) b ≡ true → a < b
unfolding above
above-lt a b h = ground arith

-- What is above the furthest is above each note and above where the search began.
furthest-above :
    (since : ℤ) (l : List SpendableNote) (x : ℕ)
    → above (furthest since l) x ≡ true
    → (above since x ≡ true) × All (λ n. n.leaf_index < x) l
unfolding furthest
furthest-above since [] x h = (h, tt)
furthest-above since (n ∷ l) x h = elim (Bool-cases (above since n.leaf_index)) [
  | inl more ↦
      let (first, rest) = furthest-above (pos n.leaf_index) l x (rw (more, furthest) at h) in
      let low = above-lt n.leaf_index x first in
      (above_trans since n.leaf_index x more low, (low, rest))
  | inr same ↦
      let (first, rest) = furthest-above since l x (rw (same, furthest) at h) in
      (first, (above_below since n.leaf_index x same first, rest))
]

middle : (a b c : Bool) → (a && b && c) ≡ true → b ≡ true
middle true true c h = refl
middle true false c h = cc h
middle false b c h = cc h

All-map :
    (P Q : SpendableNote → Type 0) (l : List SpendableNote)
    → ((n : SpendableNote) → P n → Q n)
    → All P l
    → All Q l
All-map P Q [] f h = tt
All-map P Q (n ∷ l) f (first, h) = (f n first, All-map P Q l f h)

decoded :
    (read : Text → Option (ℕ × ℤ)) (s : Text) (i : ℤ) (c : ℕ) (rest : Text)
    → s ≡ c ∷ rest
    → read s ≡ some (1, i)
    → decode_cursor read (some s) ≡ i
unfolding decode_cursor
decoded read s i c rest shape reads =
    ap (λ (t : Text). decode_cursor read (some t)) shape ∙ first (ap read (sym shape) ∙ reads)
  where
    first : read (c ∷ rest) ≡ some (1, i) → decode_cursor read (some (c ∷ rest)) ≡ i
    first e = rw (e, decode_cursor) refl

-- Each list's notes are below those of all the lists behind it.
abbrev pub Rising : List (List SpendableNote) → Type 0
Rising [] = Unit
Rising (l ∷ later) =
    All (λ ms. All (λ m. All (λ n. n.leaf_index < m.leaf_index) l) ms) later × Rising later

abbrev Above : ℤ → List (List SpendableNote) → Type 0
Above since = All (λ ms. All (λ m. above since m.leaf_index ≡ true) ms)

raised :
    (since : ℤ) (fresh : List SpendableNote) (lists : List (List SpendableNote))
    → Above (furthest since fresh) lists
    → Above since lists
      × All (λ ms. All (λ m. All (λ n. n.leaf_index < m.leaf_index) fresh) ms) lists
raised since fresh [] h = (tt, tt)
raised since fresh (l ∷ lists) (first, h) =
    let (up, below) = raised since fresh lists h in
    let both = All-map _ _ l (λ m k. furthest-above since fresh m.leaf_index k) first in
    ((All-map _ _ l (λ m k. k.0) both, up), (All-map _ _ l (λ m k. k.1) both, below))

module _ (write : Text → Text) (read : Text → Option (ℕ × ℤ)) where
  -- What a caller receives that passes each call the cursor of the one before: one list for each call,
  -- at the store and with the filter of that moment.
  abbrev pub watched : List (NoteStore × Option ℕ) → Option Text → List (List SpendableNote)
  watched [] cursor = []
  watched ((store, mint) ∷ moments) cursor =
      let answer : List SpendableNote × Text = watch_incoming write read store cursor mint in
      answer.0 ∷ watched moments (some answer.1)

  module _
      (codec : (i : ℤ)
        → (c : ℕ) × (rest : Text) × (encode_cursor write i ≡ c ∷ rest)
          × (read (encode_cursor write i) ≡ some (1, i))) where
    back : (i : ℤ) → decode_cursor read (some (encode_cursor write i)) ≡ i
    back i =
        let (c, rest, shape, reads) = codec i in
        decoded read (encode_cursor write i) i c rest shape reads

    watched-Above :
        (moments : List (NoteStore × Option ℕ)) (cursor : Option Text)
        → Above (decode_cursor read cursor) (watched moments cursor)
          × Rising (watched moments cursor)
    unfolding watch_incoming
    watched-Above [] cursor = (tt, tt)
    watched-Above ((store, mint) ∷ moments) cursor =
        let since : ℤ = decode_cursor read cursor in
        let fresh : List SpendableNote = get_spendable_since store since mint in
        let next : Option Text = some (encode_cursor write (furthest since fresh)) in
        let (behind, rising) = watched-Above moments next in
        let (up, below) = raised since fresh (watched moments next) (
          subst (λ (s : ℤ). Above s (watched moments next)) (back (furthest since fresh)) behind) in
        let (_, kept) = get_spendable_since-Ascending store since mint in
        let here : All (λ m. above since m.leaf_index ≡ true) fresh =
          All-map
            (λ n. (not (is_spent store n) && above since n.leaf_index && of_mint mint n) ≡ true) _
            fresh
            (λ m h. middle (not (is_spent store m)) (above since m.leaf_index) (of_mint mint m) h)
            kept in
        ((here, up), (below, rising))

-- With codecs that read back the cursor that they wrote, a caller that passes each call the cursor of
-- the call before: every note of a call has a leaf index above those of all the notes of all the calls
-- before it, whatever the store and the filter are at each of them. So no note comes in two calls, and
-- one that reaches the store later with a lower leaf index than one that has come never comes.
pub watch_incoming-fresh :
    (write : Text → Text) (read : Text → Option (ℕ × ℤ))
    → ((i : ℤ)
        → (c : ℕ) × (rest : Text) × (encode_cursor write i ≡ c ∷ rest)
          × (read (encode_cursor write i) ≡ some (1, i)))
    → (moments : List (NoteStore × Option ℕ)) (cursor : Option Text)
    → Rising (watched write read moments cursor)
watch_incoming-fresh write read codec moments cursor =
    (watched-Above write read codec moments cursor).1
