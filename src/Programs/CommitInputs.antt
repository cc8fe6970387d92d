-- ===== src/Programs/CommitInputs.antt =====
-- packages/sdk/src/commit-inputs.ts, over the parameters `find` (`findProgramAddressSync`), `utf8` and
-- `disc`, the eight bytes of the instruction's discriminator.
use b402_solana.Common.{
  ℕ, ◌+◌, ◌*◌, not, false, List, [], ◌∷◌, ◌++◌, length, replicate, Text, codes, Bytes, emit, Result,
  ok, err, ◌>>=◌, if◌then◌else◌, ◌==◌, any, ◌≡◌, ◌∙◌, refl, ap, arith, Bool-cases, inl, inr, ==_iff,
  length-append, length-emit,
}
use b402_solana.Programs.Anchor.{
  set_bytes, copy_parts, total_length, join, set_bytes-blank, copy_parts-join,
}
use b402_solana.Programs.Accounts.{Instruction, signer_writable, writable, readonly}

pub data CommitInputsError : Type 0 where
  bad_spending_pub bad_input_count bad_input_length : CommitInputsError

abbrev pub public_input_count_adapt : ℕ
public_input_count_adapt = 24

unfoldable pub derive_pending_inputs_pda :
    (List Bytes → Bytes → Bytes) → (Text → Bytes) → Bytes → Bytes → Result CommitInputsError Bytes
derive_pending_inputs_pda find utf8 pool_program_id spending_pub_le =
    if not (length spending_pub_le == 32)
    then err bad_spending_pub
    else ok (
        find (utf8 (codes "b402/v1") ∷ utf8 (codes "pending-inputs") ∷ spending_pub_le ∷ [])
          pool_program_id)

unfoldable pub build_commit_inputs_ix_data :
    Bytes → Bytes → List Bytes → Result CommitInputsError Bytes
build_commit_inputs_ix_data disc spending_pub_le inputs =
    if not (length spending_pub_le == 32)
    then err bad_spending_pub
    else if not (length inputs == public_input_count_adapt)
    then err bad_input_count
    else if any (λ fr. not (length fr == 32)) inputs
    then err bad_input_length
    else let blank = replicate (8 + 32 + 4 + length inputs * 32) 0 in
      let headed = set_bytes (set_bytes blank 0 disc) 8 spending_pub_le in
      ok (copy_parts (set_bytes headed 40 (emit 4 (length inputs))) 44 inputs)

total_length-inputs :
    (inputs : List Bytes)
    → any (λ fr. not (length fr == 32)) inputs ≡ false
    → total_length inputs ≡ length inputs * 32
unfolding total_length
total_length-inputs [] h = refl
total_length-inputs (fr ∷ inputs) h = elim (Bool-cases (length fr == 32)) [
  | inl fits ↦
      let size : length fr ≡ 32 = (==_iff (length fr) 32).0 fits in
      omega (arith, size, total_length-inputs inputs (rw fits at h))
  | inr other ↦ cc (rw other at h)
]

-- With a key of 32 bytes, 24 inputs of 32 bytes and a discriminator of 8, the instruction's data is
-- the discriminator, the key, the number of inputs in four bytes, and the inputs.
pub build_commit_inputs_ix_data-join :
    (disc spending_pub_le : Bytes) (inputs : List Bytes)
    → length disc ≡ 8
    → length spending_pub_le ≡ 32
    → length inputs ≡ 24
    → any (λ fr. not (length fr == 32)) inputs ≡ false
    → build_commit_inputs_ix_data disc spending_pub_le inputs
      ≡ ok (disc ++ spending_pub_le ++ emit 4 24 ++ join inputs)
unfolding build_commit_inputs_ix_data
build_commit_inputs_ix_data-join disc key inputs d k n fits =
    let blank : Bytes = replicate 812 0 in
    let first : set_bytes blank 0 disc ≡ disc ++ replicate 804 0 =
      set_bytes-blank [] disc 0 812 804 refl (omega (arith, d)) in
    let second : set_bytes (disc ++ replicate 804 0) 8 key ≡ (disc ++ key) ++ replicate 772 0 =
      set_bytes-blank disc key 8 804 772 d (omega (arith, k)) in
    let third : set_bytes ((disc ++ key) ++ replicate 772 0) 40 (emit 4 24)
        ≡ ((disc ++ key) ++ emit 4 24) ++ replicate 768 0 =
      set_bytes-blank (disc ++ key) (emit 4 24) 40 772 768
        (omega (arith, length-append disc key, d, k)) (omega (arith, length-emit 4 24)) in
    let last : copy_parts (((disc ++ key) ++ emit 4 24) ++ replicate 768 0) 44 inputs
        ≡ ((disc ++ key) ++ emit 4 24) ++ join inputs =
      copy_parts-join ((disc ++ key) ++ emit 4 24) 44 768 inputs
        (omega (
          arith,
          length-append (disc ++ key) (emit 4 24),
          length-append disc key,
          length-emit 4 24,
          d,
          k,
        ))
        (omega (arith, total_length-inputs inputs fits, n)) in
    rw (k, n, fits)
      (ap ok (
        ap (λ (z : Bytes). copy_parts (set_bytes (set_bytes z 8 key) 40 (emit 4 24)) 44 inputs)
          first
        ∙ ap (λ (z : Bytes). copy_parts (set_bytes z 40 (emit 4 24)) 44 inputs) second
        ∙ ap (λ (z : Bytes). copy_parts z 44 inputs) third
        ∙ last))

-- `buildCommitInputsIx`; `system_program` is Solana's.
unfoldable pub build_commit_inputs_ix :
    (List Bytes → Bytes → Bytes)
    → (Text → Bytes)
    → Bytes
    → Bytes
    → Bytes
    → Bytes
    → List Bytes
    → Bytes
    → Result CommitInputsError Instruction
unfolding build_commit_inputs_ix_data derive_pending_inputs_pda
build_commit_inputs_ix find utf8 disc system_program pool_program_id spending_pub_le inputs
      relayer =
    do
      pending_inputs ← derive_pending_inputs_pda find utf8 pool_program_id spending_pub_le
      data_bytes ← build_commit_inputs_ix_data disc spending_pub_le inputs
      ok (record {
        program_id = pool_program_id;
        account_keys =
            writable pending_inputs ∷ signer_writable relayer ∷ readonly system_program ∷ [];
        ix_data = data_bytes;
      })
