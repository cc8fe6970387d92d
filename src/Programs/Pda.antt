-- ===== src/Programs/Pda.antt =====
-- packages/sdk/src/programs/pda.ts: the seeds of the pool's accounts. `find` is
-- `findProgramAddressSync` and `utf8` the text encoder.
use b402_solana.Common.{
  ℕ, ◌+◌, ◌*◌, ◌/◌, ◌^◌, ◌<◌, ◌≡◌, refl, zero, suc, ap, ◌∙◌, get_or-lt, length-drop, arith, bit_and,
  bit_or, or_high, not, List, [], ◌∷◌, length, drop, get_or, Text, codes, Bytes, AllBytes, value,
  Result, ok, err, if◌then◌else◌, ltb, ◌==◌,
}

pub data PdaError : Type 0 where
  prefix_out_of_range expected_32_bytes : PdaError

module _ (find : List Bytes → Bytes → Bytes) (utf8 : Text → Bytes) where
  abbrev version_prefix : Bytes
  version_prefix = utf8 (codes "b402/v1")

  unfoldable pub pool_config_pda : Bytes → Bytes
  pool_config_pda program_id = find (version_prefix ∷ utf8 (codes "config") ∷ []) program_id

  unfoldable pub tree_state_pda : Bytes → Bytes
  tree_state_pda program_id = find (version_prefix ∷ utf8 (codes "tree") ∷ []) program_id

  unfoldable pub adapter_registry_pda : Bytes → Bytes
  adapter_registry_pda program_id = find (version_prefix ∷ utf8 (codes "adapters") ∷ []) program_id

  unfoldable pub treasury_pda : Bytes → Bytes
  treasury_pda program_id = find (version_prefix ∷ utf8 (codes "treasury") ∷ []) program_id

  unfoldable pub token_config_pda : Bytes → Bytes → Bytes
  token_config_pda program_id mint =
      find (version_prefix ∷ utf8 (codes "token") ∷ mint ∷ []) program_id

  unfoldable pub vault_pda : Bytes → Bytes → Bytes
  vault_pda program_id mint = find (version_prefix ∷ utf8 (codes "vault") ∷ mint ∷ []) program_id

  unfoldable pub nullifier_shard_pda : Bytes → ℕ → Result PdaError Bytes
  nullifier_shard_pda program_id shard =
      if ltb 0xffff shard
      then err prefix_out_of_range
      else ok (
          find
            (version_prefix
              ∷ utf8 (codes "null")
              ∷ (bit_and shard 0xff ∷ bit_and (shard / 2 ^ 8) 0xff ∷ [])
              ∷ [])
            program_id)

unfoldable pub shard_prefix : Bytes → Result PdaError ℕ
shard_prefix b =
    if not (length b == 32)
    then err expected_32_bytes
    else ok (bit_or (get_or b 30 0) (get_or b 31 0 * 2 ^ 8))

get_or-drop : (n i : ℕ) (b : Bytes) → get_or (drop n b) i 0 ≡ get_or b (n + i) 0
get_or-drop zero i b = let next : i ≡ 0 + i = omega arith in ap (λ (k : ℕ). get_or b k 0) next
get_or-drop (suc n) i [] = refl
get_or-drop (suc n) i (x ∷ b) =
    let next : suc (n + i) ≡ suc n + i = omega arith in
    get_or-drop n i b ∙ ap (λ (k : ℕ). get_or (x ∷ b) k 0) next

value-two : (b : Bytes) → length b ≡ 2 → value b ≡ get_or b 0 0 + get_or b 1 0 * 256
value-two [] h = absurd (omega arith)
value-two (x ∷ []) h = absurd (omega arith)
value-two (x ∷ y ∷ []) h = omega arith
value-two (x ∷ y ∷ z ∷ b) h = absurd (omega arith)

-- The shard prefix of 32 bytes is the number in the last two of them.
pub shard_prefix-value :
    (b : Bytes) → AllBytes b → length b ≡ 32 → shard_prefix b ≡ ok (value (drop 30 b))
unfolding shard_prefix
shard_prefix-value b h len =
    let low : get_or b 30 0 < 2 ^ 8 = get_or-lt b 30 h in
    let joined = or_high 8 (get_or b 31 0) (get_or b 30 0) low in
    let parts = value-two (drop 30 b) (omega (arith, length-drop 30 b)) in
    let same : bit_or (get_or b 30 0) (get_or b 31 0 * 2 ^ 8) ≡ value (drop 30 b) =
      omega (arith, joined, parts, get_or-drop 30 0 b, get_or-drop 30 1 b) in
    rw len (ap ok same)
