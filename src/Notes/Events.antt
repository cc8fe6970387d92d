-- ===== src/Notes/Events.antt =====
-- packages/sdk/src/notes/scanner.ts: the decoder of `CommitmentAppended` log lines. `disc` is the
-- event's discriminator and `from_base64` the platform's decoder, which skips what is no base 64.
use b402_solana.Common.{
  ℕ, ◌+◌, not, length, take, drop, Option, none, some, Text, codes, starts_with, trim, text_eq,
  Bytes, read_down, if◌then◌else◌, ◌==◌,
}

pub record CommitmentAppended : Type 0 where
  pub leaf_index : ℕ
  pub commitment : Bytes
  pub ciphertext : Bytes
  pub ephemeral_pub : Bytes
  pub viewing_tag : Bytes
  pub tree_root_after : Bytes
  pub slot : ℕ

-- `payload.slice(off, off + n)`
abbrev pub slice : ℕ → ℕ → Bytes → Bytes
slice off n b = take n (drop off b)

unfoldable pub decode_commitment_appended : Bytes → Bytes → Option CommitmentAppended
decode_commitment_appended disc payload =
    if not (length payload == 8 + 8 + 32 + 89 + 32 + 2 + 32 + 8)
    then none
    else if not (text_eq (take 8 payload) disc)
    then none
    else some (record {
      leaf_index = read_down 8 8 0 payload;
      commitment = slice 16 32 payload;
      ciphertext = slice 48 89 payload;
      ephemeral_pub = slice 137 32 payload;
      viewing_tag = slice 169 2 payload;
      tree_root_after = slice 171 32 payload;
      slot = read_down 8 203 0 payload;
    })

unfoldable pub le_to_bigint : Bytes → ℕ
le_to_bigint b = read_down (length b) 0 0 b

unfoldable pub parse_program_data_log : (Text → Bytes) → Bytes → Text → Option CommitmentAppended
parse_program_data_log from_base64 disc line =
    if not (starts_with (codes "Program data: ") line)
    then none
    else decode_commitment_appended disc (from_base64 (trim (drop 14 line)))
