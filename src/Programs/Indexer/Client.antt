-- ===== src/Programs/Indexer/Client.antt =====
-- packages/sdk/src/indexer.ts: the calls of `B402Indexer`. `fetch` is `fetchJson` of a path, with the
-- answer that JSON has typed; `account` is the tree account's data. A number of the answer that is
-- not one makes `BigInt` throw, `none` here; `other` is what `parseInt` makes of two characters that
-- are not both hexadecimal digits, `none` for a NaN, at which `BigInt` throws.
use b402_solana.Common.{
  ℕ, zero, suc, ◌+◌, ◌*◌, ◌/◌, ◌%◌, ◌^◌, not, Bool, false, List, [], ◌∷◌, ◌++◌, length, Option,
  none, some, Text, codes, Bytes, read_down, bytes_to_hex, nibble, Result, ok, err, ◌>>=◌, ◌>>◌,
  throw_if, if◌then◌else◌, ltb, ◌==◌,
}
use b402_solana.Merkle.{MerkleProof}
use b402_solana.Programs.Indexer.{IndexerError, no_account, bad_account, root_in_view}
use b402_solana.Programs.TreeState.{TreeStateView, decode_tree_state}

pub data FetchError : Type 0 where
  bad_hex_length bad_number wrong_leaf_index : FetchError
  http : Text → FetchError
  root_refused : IndexerError → FetchError

pub record IndexerProofResponse : Type 0 where
  pub leaf_index : Option ℕ
  pub leaf : Text
  pub siblings : List Text
  pub path_bits : List ℕ
  pub root : Text

abbrev pub lift_fetch : {E A : Type 0} → (E → FetchError) → Result E A → Result FetchError A
lift_fetch wrap (ok a) = ok a
lift_fetch wrap (err e) = err (wrap e)

-- `Number(v)` of a bigint below 2^1077: with more than 53 binary digits, the nearest number of 53
-- digits times a power of two, and of two that are as near the one with the even digits.
unfoldable pub excess_bits : ℕ → ℕ → ℕ
excess_bits zero v = 0
excess_bits (suc n) v = let more = excess_bits n (v / 2) in if ltb v (2 ^ 53) then 0 else suc more

abbrev pub rounded : ℕ → ℕ → ℕ
rounded v e =
    let head : ℕ = v / 2 ^ e in
    let twice : ℕ = 2 * (v % 2 ^ e) in
    if ltb twice (2 ^ e) then head else if ltb (2 ^ e) twice then head + 1 else head + head % 2

unfoldable pub number : ℕ → ℕ
unfolding excess_bits
number v = let e : ℕ = excess_bits 1024 v in rounded v e * 2 ^ e

-- The byte `Number(v >> BigInt(i * 8)) & 0xff`, for `n` values of `i` from one on.
unfoldable pub number_bytes : ℕ → ℕ → ℕ → Bytes
unfolding number
number_bytes zero i v = []
number_bytes (suc n) i v = number (v / 2 ^ (8 * i)) % 256 ∷ number_bytes n (suc i) v

unfoldable pub bigint_to_le_hex32 : ℕ → Text
unfolding number_bytes
bigint_to_le_hex32 v = bytes_to_hex (number_bytes 32 0 v)

module _ (other : ℕ → ℕ → Option ℕ) where
  -- `parseInt` of two characters, and of the pairs of a string.
  unfoldable pub parse_pair : ℕ → ℕ → Option ℕ
  parse_pair c d = elim (nibble c) [
    | none ↦ other c d
    | some h ↦ elim (nibble d) [ none ↦ other c d | some l ↦ some (16 * h + l) ]
  ]

  unfoldable pub parse_pairs : Text → Option Bytes
  unfolding parse_pair
  parse_pairs [] = some []
  parse_pairs (c ∷ []) = some []
  parse_pairs (c ∷ d ∷ s) =
      let later = parse_pairs s in
      elim (parse_pair c d) [
        | none ↦ none
        | some b ↦ elim later [ none ↦ none | some rest ↦ some (b ∷ rest) ]
      ]

  unfoldable pub hex_to_bigint : Text → Result FetchError ℕ
  unfolding parse_pairs
  hex_to_bigint hex =
      if not (length hex == 64) then err bad_hex_length else elim (parse_pairs hex) [
        | none ↦ err bad_number
        | some pairs ↦ ok (read_down 32 0 0 pairs)
      ]

  unfoldable pub hexes_to_bigints : List Text → Result FetchError (List ℕ)
  unfolding hex_to_bigint
  hexes_to_bigints [] = ok []
  hexes_to_bigints (hex ∷ rest) = do v ← hex_to_bigint hex; vs ← hexes_to_bigints rest; ok (v ∷ vs)

  -- `assertRootIsOnChain` of the root as a string.
  unfoldable pub assert_root : Option Bytes → Text → Result FetchError (Unit {0})
  unfolding hex_to_bigint
  assert_root none root_hex = err (root_refused no_account)
  assert_root (some account) root_hex =
      let checked : TreeStateView → Result FetchError (Unit {0}) = λ view. (do
        expected ← hex_to_bigint root_hex
        lift_fetch root_refused (root_in_view view expected)) in
      elim (decode_tree_state account) [
        | err e ↦ err (root_refused (bad_account e))
        | ok view ↦ checked view
      ]

  -- `proveLeaf`; the account is read only where the root is to be verified.
  unfoldable pub prove_leaf :
      (ℕ → Result Text IndexerProofResponse)
      → Option Bytes
      → Bool
      → ℕ
      → Result FetchError MerkleProof
  unfolding hexes_to_bigints assert_root
  prove_leaf fetch account verify leaf_index = do
    r ← lift_fetch http (fetch leaf_index)
    given ← elim r.leaf_index [ none ↦ err bad_number | some i ↦ ok i ]
    throw_if (not (given == leaf_index)) wrong_leaf_index
    checked ← if verify then assert_root account r.root else ok tt
    leaf ← hex_to_bigint r.leaf
    siblings ← hexes_to_bigints r.siblings
    root ← hex_to_bigint r.root
    ok (record {
      leaf = leaf;
      leaf_index = leaf_index;
      siblings = siblings;
      path_bits = r.path_bits;
      root = root;
    })

-- `isSpent`: the answer to the path with the nullifier's string.
unfoldable pub is_spent : (Text → Result Text Bool) → ℕ → Result FetchError Bool
unfolding bigint_to_le_hex32
is_spent fetch nullifier =
    lift_fetch http (fetch (codes "/v1/spent?nullifier=" ++ bigint_to_le_hex32 nullifier))

-- `healthy` of the state's answer.
unfoldable pub healthy : Result Text Bool → Bool
healthy (ok says) = says
healthy (err e) = false
