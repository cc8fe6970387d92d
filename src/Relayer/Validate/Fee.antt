-- ===== src/Relayer/Validate/Fee.antt =====
-- The fee that the relayer reads out of the instruction bytes.
use b402_solana.Common.{
  ◌≡◌, ap, arith, Bytes, AllBytes, value, length, take, drop, none, some, if◌then◌else◌, ltb,
  Bool-cases, inl, inr, read_up-value,
}
use b402_solana.Relayer.Validate.{read_u64_le, extract_relayer_fee}

-- The fee that is checked is the 64-bit number in the bytes 476 to 483 of the instruction, and null
-- exactly where the data ends before them.
pub extract_relayer_fee-value :
    (b : Bytes)
    → AllBytes b
    → extract_relayer_fee b
      ≡ (if ltb (length b) 484 then none else some (value (take 8 (drop 476 b))))
unfolding extract_relayer_fee read_u64_le
extract_relayer_fee-value b h = elim (Bool-cases (ltb (length b) 484)) [
  | inl short ↦ rw short
  | inr long ↦
      rw (long, read_up-value 8 0 476 0 b h (ground arith) (omega arith)) (ap some (omega arith))
]
