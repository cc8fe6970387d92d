-- ===== src/Client/Called.antt =====
-- What `unshield` of packages/sdk/src/b402.ts leaves when it returns.
use b402_solana.Common.{
  ℕ, ◌≡◌, inl, inr, refl, sym, ap, Bool, true, Bool-cases, Option, Option-cases, ◌∙◌, >>=-eq-ok,
  err, subst, none, some, Text, Bytes, Result, Result-cases, ok, ok_eq,
}
use b402_solana.Merkle.{MerkleProof}
use b402_solana.Notes.Store.{SpendableNote, is_spent, mark_spent, insert_note}
use b402_solana.Actions.Confirm.{TxStatus}
use b402_solana.Actions.Shield.{ActionError, ShieldParams, ShieldResult}
use b402_solana.Actions.Unshield.{UnshieldParams, UnshieldResult}
use b402_solana.Client.{ClientError, note_to_unshield}
use b402_solana.Client.Stale.{mark_spent-marked}
use b402_solana.Client.Spent.{Landed, confirm_and_mark_spent-Landed}
use b402_solana.Client.Calls.{
  CallError, Setup, ClientState, ShieldRequest, UnshieldRequest, require_relayer, shield_params,
  client_shield, send_unshield, close_unshield, client_unshield, or_else, unshield_params,
  ensure_ata, action, client_error, lift_call,
}

abbrev Outcome : Type 0
Outcome = ClientState × Result CallError UnshieldResult

abbrev Deposited : Type 0
Deposited = ClientState × Result CallError ShieldResult

-- A transaction that is confirmed without an error, and the state in which its note is marked.
abbrev pub Marked :
    (ℕ → Result Text (Option TxStatus)) → SpendableNote → ClientState → ClientState → Type 0
Marked statuses n before after =
    ((j : ℕ) × (o : Option TxStatus) × (statuses j ≡ ok o) × Landed o)
    × (after ≡ record before { notes = mark_spent before.notes n.commitment })

-- A deposit that returns: the note is stored and is the last deposit.
client_shield-stored :
    (deposit : ShieldParams → Result ActionError ShieldResult) (c : Setup) (q : ShieldRequest)
    (before after : ClientState) (made : ShieldResult)
    → client_shield deposit c q before ≡ (after, ok made)
    → after ≡ record {
      notes = insert_note before.notes made.note;
      last_shield = some (made.note, q.mint);
    }
unfolding client_shield
client_shield-stored deposit c q before after made e = elim (Bool-cases c.has_prover) [
  | inr missing ↦ cc (ap (λ (z : Deposited). z.1) (rw (missing, client_shield) at e))
  | inl there ↦ elim (Result-cases (require_relayer c)) [
    | inr (bad, at) ↦ cc (ap (λ (z : Deposited). z.1) (rw (there, at, client_shield) at e))
    | inl (key, ready) ↦ elim (Result-cases (deposit (shield_params c q key))) [
      | inr (bad, at) ↦ cc (ap (λ (z : Deposited). z.1) (rw (there, ready, at, client_shield) at e))
      | inl (result, at) ↦
          let done : ◌≡◌ {A = Deposited}
              (
                record {
                  notes = insert_note before.notes result.note;
                  last_shield = some (result.note, q.mint);
                },
                ok result,
              )
              (after, ok made) =
            (rw (there, ready, at, client_shield) at e) in
          let same : result ≡ made = ok_eq (ap (λ (z : Deposited). z.1) done) in
          rw (← same) (sym (ap (λ (z : Deposited). z.0) done))
    ]
  ]
]

lift_call-ok :
    {E A : Type 0} (wrap : E → CallError) (r : Result E A) {a : A}
    → lift_call wrap r ≡ ok a
    → r ≡ ok a
lift_call-ok wrap (ok b) e = ap ok (ok_eq e)
lift_call-ok wrap (err b) e = cc e

require_relayer-ok : (c : Setup) (key : Bytes) → require_relayer c ≡ ok key → c.relayer ≡ some key
unfolding require_relayer
require_relayer-ok c key e = elim (Option-cases c.relayer) [
  | inl missing ↦ cc (rw (require_relayer, missing) at e)
  | inr (k, there) ↦ there ∙ ap some (ok_eq (rw (require_relayer, there) at e))
]

module _ (withdraw : UnshieldParams → Result ActionError UnshieldResult)
    (paths : SpendableNote → Result ClientError MerkleProof) (ata_exists : Bytes → Result Text Bool)
    (create_ata : Bytes → Bytes → Bytes → Bytes → Result Text (Unit {0}))
    (statuses : ℕ → Result Text (Option TxStatus)) where
  close_unshield-same :
      (n : SpendableNote) (result res : UnshieldResult) (before after : ClientState)
      → close_unshield withdraw paths ata_exists create_ata statuses n result before
        ≡ (after, ok res)
      → result ≡ res
  unfolding close_unshield
  close_unshield-same n result res before after e =
      elim (confirm_and_mark_spent-Landed statuses before.notes n.commitment) [
        | inr (bad, at) ↦ cc (ap (λ (z : Outcome). z.1) (rw (at, close_unshield) at e))
        | inl (j, o, _, answered, landed, at) ↦
            ok_eq (ap (λ (z : Outcome). z.1) (rw (at, close_unshield) at e))
      ]

  close_unshield-Marked :
      (n : SpendableNote) (result res : UnshieldResult) (before after : ClientState)
      → close_unshield withdraw paths ata_exists create_ata statuses n result before
        ≡ (after, ok res)
      → Marked statuses n before after
  unfolding close_unshield
  close_unshield-Marked n result res before after e =
      elim (confirm_and_mark_spent-Landed statuses before.notes n.commitment) [
        | inr (bad, at) ↦ cc (ap (λ (z : Outcome). z.1) (rw (at, close_unshield) at e))
        | inl (j, o, _, answered, landed, at) ↦ (
          (j, o, answered, landed),
          sym (ap (λ (z : Outcome). z.0) (rw (at, close_unshield) at e)),
        )
      ]

  -- The withdrawal that was made: of the note, over its path, to the request's recipient.
  abbrev pub Withdrawn : Setup → UnshieldRequest → SpendableNote → Bytes → UnshieldResult → Type 0
  Withdrawn c r n mint res =
      (p : UnshieldParams) × (path : MerkleProof) × (withdraw p ≡ ok res)
      × (p.note ≡ n)
      × (p.mint ≡ mint)
      × (p.wallet ≡ c.wallet)
      × (p.recipient_owner ≡ r.to)
      × (paths n ≡ ok path)
      × (p.merkle_proof ≡ some path)
      × (c.relayer ≡ some p.relayer)

  send_unshield-Withdrawn :
      (c : Setup) (r : UnshieldRequest) (n : SpendableNote) (mint : Bytes) (res : UnshieldResult)
      → send_unshield withdraw paths ata_exists create_ata statuses c r n mint ≡ ok res
      → Withdrawn c r n mint res
  unfolding send_unshield unshield_params
  send_unshield-Withdrawn c r n mint res e =
      let (there, _, e1) =
        >>=-eq-ok
          (ensure_ata withdraw paths ata_exists create_ata statuses c
            (or_else r.recipient_ata (c.associated mint r.to)) r.to mint)
          _ e in
      let (path, proved, e2) = >>=-eq-ok (lift_call client_error (paths n)) _ e1 in
      let (key, ready, e3) = >>=-eq-ok (require_relayer c) _ e2 in
      (
        unshield_params c r n mint path key,
        path,
        lift_call-ok action (withdraw (unshield_params c r n mint path key)) e3,
        refl,
        refl,
        refl,
        refl,
        lift_call-ok client_error (paths n) proved,
        refl,
        require_relayer-ok c key ready,
      )

  client_unshield-Marked :
      (c : Setup) (r : UnshieldRequest) (before after : ClientState) (res : UnshieldResult)
      → client_unshield withdraw paths ata_exists create_ata statuses c r before ≡ (after, ok res)
      → (n : SpendableNote) × (mint : Bytes) × (note_to_unshield before.notes before.last_shield
            r.note r.mint
          ≡ ok (n, mint))
        × Withdrawn c r n mint res
        × Marked statuses n before after
  unfolding client_unshield
  client_unshield-Marked c r before after res e = elim (Bool-cases c.has_prover) [
    | inr missing ↦ cc (ap (λ (z : Outcome). z.1) (rw (missing, client_unshield) at e))
    | inl there ↦
        elim (Result-cases (note_to_unshield before.notes before.last_shield r.note r.mint)) [
          | inr (bad, at) ↦ cc (ap (λ (z : Outcome). z.1) (rw (there, at, client_unshield) at e))
          | inl ((n, mint), picked) ↦
              elim (Result-cases
                (send_unshield withdraw paths ata_exists create_ata statuses c r n mint)) [
                  | inr (bad, at) ↦
                      cc (ap (λ (z : Outcome). z.1) (rw (there, picked, at, client_unshield) at e))
                  | inl (result, sent) ↦ (
                    n,
                    mint,
                    picked,
                    subst (Withdrawn c r n mint)
                        (close_unshield-same n result res before after
                          (rw (there, picked, sent, client_unshield) at e))
                        (send_unshield-Withdrawn c r n mint result sent),
                    close_unshield-Marked n result res before after
                        (rw (there, picked, sent, client_unshield) at e),
                  )
                ]
        ]
  ]

  -- A deposit that returns, and then an unshield that names neither a note nor a mint and returns: the
  -- result is that of a withdrawal of the deposit's note and mint, over this note's path, with the
  -- wallet of the client, to the recipient of the request and with the local relayer, which is there;
  -- a status call said that the transaction is confirmed without an error; and the notes are those from
  -- before with the deposit's stored and marked as spent. The deposit stays recorded as the last one, so that the next such call picks its note again, although
  -- the store then says that it is spent.
  pub client_shield-unshield :
      (deposit : ShieldParams → Result ActionError ShieldResult) (c : Setup) (q : ShieldRequest)
      (r : UnshieldRequest) (before between after : ClientState) (made : ShieldResult)
      (res : UnshieldResult)
      → r.note ≡ none
      → r.mint ≡ none
      → client_shield deposit c q before ≡ (between, ok made)
      → client_unshield withdraw paths ata_exists create_ata statuses c r between ≡ (after, ok res)
      → Withdrawn c r made.note q.mint res
        × ((j : ℕ) × (o : Option TxStatus) × (statuses j ≡ ok o) × Landed o)
        × (after.notes ≡ mark_spent (insert_note before.notes made.note) made.note.commitment)
        × (is_spent after.notes made.note ≡ true)
        × (note_to_unshield after.notes after.last_shield none none ≡ ok (made.note, q.mint))
  unfolding note_to_unshield
  client_shield-unshield deposit c q r before between after made res no_note no_mint shielded e =
      let stored = client_shield-stored deposit c q before between made shielded in
      let (n, mint, picked, withdrawn, (landed, left)) =
        client_unshield-Marked c r between after res e in
      let held : note_to_unshield between.notes between.last_shield none none ≡ ok (n, mint) =
        rw (← no_note, ← no_mint) picked in
      let pair : ◌≡◌ {A = SpendableNote × Bytes} (made.note, q.mint) (n, mint) =
        ok_eq (rw stored at held) in
      let this : n ≡ made.note = sym (ap (λ (z : SpendableNote × Bytes). z.0) pair) in
      let final : after ≡ record {
        notes = mark_spent (insert_note before.notes made.note) made.note.commitment;
        last_shield = some (made.note, q.mint);
      } =
        rw (left, stored, this) refl in
      (
        subst (λ (z : SpendableNote × Bytes). Withdrawn c r z.0 z.1 res) (sym pair) withdrawn,
        landed,
        ap (λ (z : ClientState). z.notes) final,
        rw final (mark_spent-marked (insert_note before.notes made.note) made.note.commitment),
        rw final refl,
      )
