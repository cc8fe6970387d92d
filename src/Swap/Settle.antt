-- ===== src/Swap/Settle.antt =====
-- `privateSwap` as a whole: the choice of the note, the submissions, the amount that came in, and what
-- becomes of the notes. `submit_commit`, `submit` and `poll` are the relayer's answer, or the RPC's
-- and what the waiting loop `pollConfirm` ends with; `vault` is the account of the output's vault
-- before and behind the swap. The mints that the client learns are left out.
use b402_solana.Common.{
  ℕ, ◌+◌, ◌-◌, ℤ, pos, negsuc, Bool, true, false, List, [], length, take, drop, Option, none, some,
  Text, Bytes, value, Result, ok, err, ◌>>=◌, if◌then◌else◌, leb, ltb, ◌==◌,
}
use b402_solana.Programs.Accounts.{Instruction}
use b402_solana.Programs.Nullifier.{LightAccounts}
use b402_solana.Protocol.Encoding.{le_to_fr_reduced}
use b402_solana.Merkle.{MerkleProof}
use b402_solana.Notes.Encryption.{Note, EncryptedNote, NoteError}
use b402_solana.Notes.Store.{SpendableNote, NoteStore, insert_note}
use b402_solana.Notes.Excess.{derive_excess_random, compute_excess_commitment}
use b402_solana.Wallet.{Wallet}
use b402_solana.Prover.{Proof}
use b402_solana.Actions.Confirm.{TxStatus}
use b402_solana.Actions.Shield.{not_32_bytes}
use b402_solana.Client.{ClientError, note_to_swap, confirm_and_mark_spent}
use b402_solana.Swap.Witness.{AdaptWitness}
use b402_solana.Swap.Prepare.{
  SwapError, SwapClient, PrivateSwapRequest, Chain, Ready, action, bad_vault, vault_unread,
  client_error, not_submitted, lift_swap, dual_note,
}
use b402_solana.Swap.Flow.{swap_setup, prove_swap, ready_swap}

pub record PrivateSwapResult : Type 0 where
  pub signature : Text
  pub out_note : SpendableNote
  pub out_amount : ℤ
  pub excess_note : Option SpendableNote

-- `readSplAmount` of an account's data, 0 without an account; it throws on less than 72 bytes, and the
-- call for the account may fail.
unfoldable pub vault_amount : Result Text (Option Bytes) → Result SwapError ℕ
vault_amount (err e) = err (vault_unread e)
vault_amount (ok none) = ok 0
vault_amount (ok (some account)) =
    if ltb (length account) 72 then err bad_vault else ok (value (take 8 (drop 64 account)))

-- `postOut - preOut`
unfoldable pub out_delta : ℕ → ℕ → ℤ
out_delta before behind =
    if leb before behind then pos (behind - before) else negsuc (before - behind - 1)

-- `outAmount - expectedOut`, 0 where it is not above 0.
unfoldable pub excess_of : ℤ → ℕ → ℕ
excess_of (pos amount) expected = amount - expected
excess_of (negsuc n) expected = 0

abbrev pub insert_all : NoteStore → SpendableNote → Option SpendableNote → NoteStore
insert_all store n none = insert_note store n
insert_all store n (some m) = insert_note (insert_note store n) m

module _ (raw : List ℕ → ℕ) where
  unfoldable pub excess_note_of : Wallet → SpendableNote → ℕ → SpendableNote
  excess_note_of wallet out_note excess =
      let random_b : ℕ = derive_excess_random raw out_note.commitment in
      record {
        note = record {
          token_mint = out_note.note.token_mint;
          value = excess;
          random = random_b;
          spending_pub = wallet.spending_pub;
        };
        commitment =
            compute_excess_commitment raw out_note.note.token_mint excess random_b
              wallet.spending_pub;
        leaf_index = out_note.leaf_index + 1;
        spending_priv = wallet.spending_priv;
        encrypted_bytes = [];
        ephemeral_pub = [];
        viewing_tag = [];
      }

  unfoldable pub excess_note : Wallet → Bool → SpendableNote → ℕ → Option SpendableNote
  unfolding excess_note_of
  excess_note wallet dual out_note excess =
      if dual
      then if excess == 0 then none else some (excess_note_of wallet out_note excess)
      else none

  -- Once the transaction is sent: the notes change only where it landed without an error.
  unfoldable pub settle_swap :
      (ℕ → Result Text (Option TxStatus))
      → Wallet
      → Bool
      → ℕ
      → Text
      → SpendableNote
      → ℤ
      → NoteStore
      → NoteStore × Result SwapError PrivateSwapResult
  unfolding excess_note
  settle_swap statuses wallet dual spent signature out_note out_amount store =
      let extra : Option SpendableNote =
        excess_note wallet dual out_note (excess_of out_amount out_note.note.value) in
      let confirmed : NoteStore × Result ClientError (Unit {0}) =
        confirm_and_mark_spent statuses store spent in
      elim confirmed.1 [
        | err e ↦ (confirmed.0, err (client_error e))
        | ok done ↦ (
          insert_all confirmed.0 out_note extra,
          ok (record {
            signature = signature;
            out_note = out_note;
            out_amount = out_amount;
            excess_note = extra;
          }),
        )
      ]

  module _ (sha256 keccak256 : Bytes → Bytes) (utf8 : Text → Bytes)
      (find : List Bytes → Bytes → Bytes) (associated : Bytes → Bytes → Bytes) (sys : LightAccounts)
      (nullifier_program token_program : Bytes)
      (paths : SpendableNote → Result ClientError MerkleProof)
      (encrypt : Note → ℕ → Result NoteError EncryptedNote)
      (submit_commit : Option Instruction → Result Text (Unit {0}))
      (submit : Ready → Result Text Text) (poll : Text → Result Text (Unit {0}))
      (vault : Bool → Result Text (Option Bytes)) where
    -- The signature, the output's note and the amount that came in.
    unfoldable pub send_swap :
        (AdaptWitness → Result Text Proof)
        → SwapClient
        → PrivateSwapRequest
        → Chain
        → Bytes
        → SpendableNote
        → Result SwapError (Text × SpendableNote × ℤ)
    send_swap prove c r chain key n = do
      proven ←
          prove_swap raw sha256 keccak256 utf8 find associated sys nullifier_program token_program
            paths encrypt prove c r chain key n
      committed ← lift_swap not_submitted (submit_commit proven.commit_ix)
      ready ←
          ready_swap raw sha256 keccak256 utf8 find associated sys nullifier_program token_program c
            r chain key proven
      before ← vault_amount (vault false)
      signature ← lift_swap not_submitted (submit ready)
      waited ←
          lift_swap not_submitted (elim c.relayer_http [ some url ↦ ok tt | none ↦ poll signature ])
      behind ← vault_amount (vault true)
      ok (signature, proven.out_note, out_delta before behind)

    -- The store that the call leaves, and the result. `indexer` asks whether a note is spent.
    unfoldable pub private_swap :
        (ℕ → Result Text (Option TxStatus))
        → Option (SpendableNote → Option Bool)
        → SwapClient
        → PrivateSwapRequest
        → Chain
        → NoteStore
        → NoteStore × Result SwapError PrivateSwapResult
    unfolding send_swap settle_swap
    private_swap statuses indexer c r chain store = elim (swap_setup c) [
      | err e ↦ (store, err e)
      | ok (key, prove) ↦ elim (le_to_fr_reduced r.in_mint) [
        | err e ↦ (store, err (action not_32_bytes))
        | ok in_mint_fr ↦
            let probed : NoteStore × Result ClientError SpendableNote =
              note_to_swap store r.note indexer in_mint_fr r.amount in
            elim probed.1 [
              | err e ↦ (probed.0, err (client_error e))
              | ok n ↦ elim (send_swap prove c r chain key n) [
                | err e ↦ (probed.0, err e)
                | ok (signature, out_note, out_amount) ↦
                    settle_swap statuses c.wallet (dual_note r.phase9_dual_note c.cluster)
                      n.commitment signature out_note out_amount probed.0
              ]
            ]
      ]
    ]
