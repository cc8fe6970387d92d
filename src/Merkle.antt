-- ===== src/Merkle.antt =====
-- packages/sdk/src/merkle.ts: the client's incremental Merkle tree. `raw` is the Poseidon
-- permutation. Asynchronous hash calls are plain calls: nothing else touches the tree while one
-- waits. A loop takes its rounds as a number, and `carry` one more than the depth, since it leaves
-- its loop at `depth` at the latest.
pub mod Shift
pub mod Cells
pub mod ZeroCache
pub mod Append
pub mod Paths
pub mod Recent
use b402_solana.Common.{
  ℕ, zero, suc, ◌+◌, ◌-◌, ◌*◌, ◌/◌, ◌≤◌, ◌<◌, bit_and, ℤ, pos, negsuc, Bool, true, false, not, List,
  [], ◌∷◌, ◌++◌, map, length, get_or, set, replicate, Bytes, read_down, Result, ok, err,
  if◌then◌else◌, ltb, leb, ◌==◌,
}
use b402_solana.Protocol.Poseidon.{merkle_node_hash, merkle_zero_seed}
use Shift.{shr}

pub data MerkleError : Type 0 where
  negative_index bad_frontier short_zero_cache not_initialized : MerkleError
  capacity_exceeded index_out_of_range : MerkleError

pub record MerkleProof : Type 0 where
  pub leaf : ℕ
  pub leaf_index : ℕ
  pub siblings : List ℕ
  pub path_bits : List ℕ
  pub root : ℕ

pub record ClientMerkleTree : Type 0 where
  pub leaf_count : ℕ
  pub frontier : List ℕ
  pub zero_cache : List ℕ
  pub root : ℕ
  pub leaves : List ℕ
  pub depth : ℕ
  pub initialized : Bool

-- `leToBig`
unfoldable pub le_to_big : Bytes → ℕ
le_to_big b = read_down (length b) 0 0 b

-- `Number((index >> BigInt(level)) & 1n)`
unfoldable pub bit_at : ℕ → ℕ → ℕ
bit_at index level = bit_and (shr index level) 1

-- `new ClientMerkleTree(depth)`
unfoldable pub new_tree : ℕ → ClientMerkleTree
new_tree depth = record {
  leaf_count = 0;
  frontier = replicate depth 0;
  zero_cache = [];
  root = 0;
  leaves = [];
  depth = depth;
  initialized = false;
}

-- The loop of `proveMostRecentLeaf`: a level's bit chooses the frontier or the zero cache.
pub recent_siblings : ℕ → ℕ → ℕ → List Bytes → List Bytes → List ℕ
recent_siblings zero lvl index frontier_le zero_cache_le = []
recent_siblings (suc n) lvl index frontier_le zero_cache_le =
    (if bit_at index lvl == 1
      then le_to_big (get_or frontier_le lvl [])
      else le_to_big (get_or zero_cache_le lvl []))
    ∷ recent_siblings n (suc lvl) index frontier_le zero_cache_le

pub recent_bits : ℕ → ℕ → ℕ → List ℕ
recent_bits zero lvl index = []
recent_bits (suc n) lvl index = bit_at index lvl ∷ recent_bits n (suc lvl) index

unfoldable pub prove_most_recent_leaf :
    ℕ → ℤ → ℕ → List Bytes → List Bytes → ℕ → Result MerkleError MerkleProof
unfolding recent_siblings recent_bits
prove_most_recent_leaf leaf (negsuc n) root frontier_le zero_cache_le depth = err negative_index
prove_most_recent_leaf leaf (pos index) root frontier_le zero_cache_le depth =
    if not (length frontier_le == depth)
    then err bad_frontier
    else if ltb (length zero_cache_le) depth
    then err short_zero_cache
    else ok (record {
      leaf = leaf;
      leaf_index = index;
      siblings = recent_siblings depth 0 index frontier_le zero_cache_le;
      path_bits = recent_bits depth 0 index;
      root = root;
    })

module _ (raw : List ℕ → ℕ) where
  -- The loop of `buildZeroCache` and of `init`.
  pub extend_cache : ℕ → ℕ → List ℕ → List ℕ
  extend_cache zero i cache = cache
  extend_cache (suc n) i cache =
      extend_cache n (suc i)
        (cache ++ merkle_node_hash raw (get_or cache i 0) (get_or cache i 0) ∷ [])

  unfoldable pub build_zero_cache : ℕ → List ℕ
  unfolding extend_cache
  build_zero_cache depth = extend_cache depth 0 (merkle_zero_seed raw ∷ [])

  unfoldable pub init : ClientMerkleTree → ClientMerkleTree
  unfolding extend_cache
  init t =
      if t.initialized
      then t
      else let cache = extend_cache t.depth 0 (t.zero_cache ++ merkle_zero_seed raw ∷ []) in
        record t { zero_cache = cache; root = get_or cache t.depth 0; initialized = true }

  -- The `while` loop of `append`: the level where it stops and the node to store there.
  pub carry : ℕ → ℕ → ℕ → List ℕ → ℕ → ℕ → Result MerkleError (ℕ × ℕ)
  carry zero depth index frontier level cur = err capacity_exceeded
  carry (suc fuel) depth index frontier level cur =
      let rest =
        carry fuel depth index frontier (suc level)
          (merkle_node_hash raw (get_or frontier level 0) cur) in
      if bit_at index level == 1
      then (if leb depth (suc level) then err capacity_exceeded else rest)
      else ok (level, cur)

  -- The `for` loop of `append`.
  pub walk_up : ℕ → ℕ → ℕ → List ℕ → List ℕ → ℕ → ℕ
  walk_up zero u index frontier zero_cache walking = walking
  walk_up (suc n) u index frontier zero_cache walking =
      walk_up n (suc u) index frontier zero_cache (
        if bit_at index u == 0
        then merkle_node_hash raw walking (get_or zero_cache u 0)
        else merkle_node_hash raw (get_or frontier u 0) walking)

  -- What `append` does behind its `while` loop.
  pub place : ClientMerkleTree → ℕ → ℕ → ClientMerkleTree × Result MerkleError (ℕ × ℕ)
  unfolding walk_up
  place t level cur =
      let frontier = set t.frontier level cur in
      let root =
        walk_up (t.depth - (suc level)) (suc level) t.leaf_count frontier t.zero_cache
          (merkle_node_hash raw cur (get_or t.zero_cache level 0)) in
      (
        record t { frontier = frontier; root = root; leaf_count = suc t.leaf_count },
        ok (t.leaf_count, root),
      )

  -- The tree after the call, and its result: the leaf is pushed before the loop can throw.
  unfoldable pub append : ClientMerkleTree → ℕ → ClientMerkleTree × Result MerkleError (ℕ × ℕ)
  unfolding carry place
  append t leaf =
      if not t.initialized
      then (t, err not_initialized)
      else let pushed = record t { leaves = t.leaves ++ leaf ∷ [] } in
        elim (carry (suc t.depth) t.depth t.leaf_count t.frontier 0 leaf) [
          | ok (level, cur) ↦ place pushed level cur
          | err e ↦ (pushed, err e)
        ]

  -- One round of `prove` makes the next level: pairs, with the zero subtree behind an odd end.
  pub next_level : ℕ → List ℕ → List ℕ
  next_level z [] = []
  next_level z (l ∷ []) = merkle_node_hash raw l z ∷ []
  next_level z (l ∷ r ∷ rest) = merkle_node_hash raw l r ∷ next_level z rest

  -- The loop of `prove`: the siblings, the path bits and the last level.
  pub prove_levels : ℕ → ℕ → ℕ → List ℕ → List ℕ → List ℕ × List ℕ × List ℕ
  unfolding next_level
  prove_levels zero level idx zero_cache nodes = ([], [], nodes)
  prove_levels (suc n) level idx zero_cache nodes =
      let is_right = bit_and idx 1 == 1 in
      let sib_idx = if is_right then idx - 1 else idx + 1 in
      let sib =
        if ltb sib_idx (length nodes) then get_or nodes sib_idx 0 else get_or zero_cache level 0 in
      let rest =
        prove_levels n (suc level) (idx / 2) zero_cache
          (next_level (get_or zero_cache level 0) nodes) in
      (sib ∷ rest.0, (if is_right then 1 else 0) ∷ rest.1, rest.2)

  unfoldable pub prove : ClientMerkleTree → ℕ → Result MerkleError MerkleProof
  unfolding prove_levels
  prove t index =
      if not t.initialized
      then err not_initialized
      else if leb t.leaf_count index
      then err index_out_of_range
      else let path = prove_levels t.depth 0 index t.zero_cache t.leaves in
        ok (record {
          leaf = get_or t.leaves index 0;
          leaf_index = index;
          siblings = path.0;
          path_bits = path.1;
          root = get_or path.2 0 (get_or t.zero_cache t.depth 0);
        })
