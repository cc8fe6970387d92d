-- ===== src/Swap/Whole.antt =====
-- What `privateSwap` as a whole leaves: the notes after a swap that returns, and after one that throws.
use b402_solana.Common.{ℕ, ◌*◌, ◌≡◌, Bool, List, Option, Text, Bytes, Result, ok}
use b402_solana.Protocol.Encoding.{le_to_fr_reduced}
use b402_solana.Protocol.Poseidon.{commitment_hash}
use b402_solana.Programs.Accounts.{Instruction}
use b402_solana.Programs.Nullifier.{LightAccounts}
use b402_solana.Merkle.{MerkleProof}
use b402_solana.Notes.Encryption.{Note, EncryptedNote, NoteError}
use b402_solana.Notes.Store.{SpendableNote, NoteStore}
use b402_solana.Wallet.{Wallet}
use b402_solana.Actions.Confirm.{TxStatus}
use b402_solana.Client.{ClientError, note_to_swap}
use b402_solana.Swap.Prepare.{
  SwapError, SwapClient, PrivateSwapRequest, Chain, Ready, or_else, dual_note,
}
use b402_solana.Swap.Settle.{PrivateSwapResult}
use b402_solana.Swap.Settled.{Settled}

abbrev expected_of : PrivateSwapRequest → ℕ
expected_of r = or_else r.expected_out (r.amount * 2)

-- An output's note of the request's terms and of the wallet's keys.
abbrev pub Owned : (List ℕ → ℕ) → Wallet → PrivateSwapRequest → SpendableNote → Type 0
Owned raw wallet r n =
    (n.commitment
      ≡ commitment_hash raw n.note.token_mint n.note.value n.note.random n.note.spending_pub)
    × (n.note.spending_pub ≡ wallet.spending_pub)
    × (n.spending_priv ≡ wallet.spending_priv)
    × (n.note.value ≡ expected_of r)
    × (le_to_fr_reduced r.out_mint ≡ ok n.note.token_mint)

module _ (raw : List ℕ → ℕ) (sha256 keccak256 : Bytes → Bytes) (utf8 : Text → Bytes)
    (find : List Bytes → Bytes → Bytes) (associated : Bytes → Bytes → Bytes) (sys : LightAccounts)
    (nullifier_program token_program : Bytes)
    (paths : SpendableNote → Result ClientError MerkleProof)
    (encrypt : Note → ℕ → Result NoteError EncryptedNote) where
  module _ (submit_commit : Option Instruction → Result Text (Unit {0}))
      (submit : Ready → Result Text Text) (poll : Text → Result Text (Unit {0}))
      (vault : Bool → Result Text (Option Bytes)) where
    module _ (statuses : ℕ → Result Text (Option TxStatus))
        (indexer : Option (SpendableNote → Option Bool)) (c : SwapClient) (r : PrivateSwapRequest)
        (chain : Chain) (store : NoteStore) where
      abbrev Outcome : Type 0
      Outcome = NoteStore × Result SwapError PrivateSwapResult

      abbrev chosen : ℕ → NoteStore × Result ClientError SpendableNote
      chosen in_mint_fr = note_to_swap store r.note indexer in_mint_fr r.amount

      -- A swap that returns: the note, and what is known of the output.
      abbrev Swapped : NoteStore × PrivateSwapResult → Type 0
      Swapped (after, res) =
          (in_mint_fr : ℕ) × (n : SpendableNote) × (le_to_fr_reduced r.in_mint ≡ ok in_mint_fr)
          × ((chosen in_mint_fr).1 ≡ ok n)
          × Owned raw c.wallet r res.out_note
          × Settled raw statuses c.wallet (dual_note r.phase9_dual_note c.cluster) n.commitment
              res.out_note res.out_amount (chosen in_mint_fr).0 (after, res)
