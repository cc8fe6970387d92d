-- ===== src/Notes/Store/Ownership.antt =====
-- Every note that packages/sdk/src/note-store.ts claims from an event is the wallet's own, under its
-- own commitment.
use b402_solana.Common.{
  some_eq, ℕ, ◌≡◌, refl, subst, Bool-cases, Option-cases, Result-cases, inl, inr, List, [], ◌∷◌,
  Option, some, Result, ◌==◌, ==_iff, All,
}
use b402_solana.Protocol.Poseidon.{commitment_hash}
use b402_solana.Wallet.{Wallet}
use b402_solana.Notes.Encryption.{Note, EncryptedNote, NoteError}
use b402_solana.Notes.Store.{NoteStore, SpendableNote, put, claim, ingest_commitment}

module _ (raw : List ℕ → ℕ) (wallet : Wallet) where
  -- A note under its own commitment, addressed to the wallet and spendable by it.
  pub record Owned (entry : ℕ × SpendableNote) : Type 0 where
    pub under : entry.0 ≡ entry.1.commitment
    pub committed :
        commitment_hash raw entry.1.note.token_mint entry.1.note.value entry.1.note.random
          entry.1.note.spending_pub
        ≡ entry.1.commitment
    pub ours : entry.1.note.spending_pub ≡ wallet.spending_pub
    pub spendable : entry.1.spending_priv ≡ wallet.spending_priv

  pub put-Owned :
      (c : ℕ) (n : SpendableNote) (m : List (ℕ × SpendableNote))
      → Owned (c, n)
      → All Owned m
      → All Owned (put c n m)
  unfolding put
  put-Owned c n [] own h = (own, tt)
  put-Owned c n ((k, old) ∷ m) own (first, h) = elim (Bool-cases (k == c)) [
    | inl same ↦ let at : k ≡ c = (==_iff k c).0 same in rw (same, put) (rw at (own, h))
    | inr other ↦ rw (other, put) (first, put-Owned c n m own h)
  ]

  module _ (decrypt : EncryptedNote → ℕ → Result NoteError (Option Note)) where
    claim-Owned :
        (note : Note) (c leaf_index : ℕ) (enc : EncryptedNote) (n : SpendableNote)
        → claim raw wallet decrypt note c leaf_index enc ≡ some n
        → Owned (c, n)
    unfolding claim
    claim-Owned note c leaf_index enc n e =
        elim (Bool-cases
          (commitment_hash raw note.token_mint note.value note.random note.spending_pub == c)) [
            | inr other ↦ cc (rw (other, claim) at e)
            | inl same ↦ elim (Bool-cases (note.spending_pub == wallet.spending_pub)) [
              | inr foreign ↦ cc (rw (same, foreign, claim) at e)
              | inl own ↦
                  subst (λ (x : SpendableNote). Owned (c, x)) (some_eq (rw (same, own, claim) at e))
                    (record {
                      under = refl;
                      committed = (==_iff _ c).0 same;
                      ours = (==_iff _ _).0 own;
                      spendable = refl;
                    })
            ]
          ]

    -- When each note in the store is the wallet's own under its own commitment, this holds after
    -- ingestCommitment, whatever the event is.
    pub ingest_commitment-Owned :
        (s : NoteStore) (c leaf_index : ℕ) (enc : EncryptedNote)
        → All Owned s.notes_by_commitment
        → All Owned (ingest_commitment raw wallet decrypt s c leaf_index enc).0.notes_by_commitment
    unfolding ingest_commitment
    ingest_commitment-Owned s c leaf_index enc h = elim (Result-cases (decrypt enc leaf_index)) [
      | inr (x, failed) ↦ rw (failed, ingest_commitment) h
      | inl (read, done) ↦ elim (Option-cases read) [
        | inl foreign ↦ rw (done, foreign, ingest_commitment) h
        | inr (note, own) ↦ elim (Option-cases (claim raw wallet decrypt note c leaf_index enc)) [
          | inl refused ↦ rw (done, own, refused, ingest_commitment) h
          | inr (n, claimed) ↦
              rw (done, own, claimed, ingest_commitment)
                (put-Owned c n s.notes_by_commitment (claim-Owned note c leaf_index enc n claimed)
                  h)
        ]
      ]
    ]
