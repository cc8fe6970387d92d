-- ===== src/Tests/Trees.antt =====
-- packages/sdk/src/merkle.ts on a tree of depth 2 with two leaves, over a small hash.
use b402_solana.Common.{
  ℕ, zero, suc, ◌+◌, ◌*◌, ◌%◌, ◌^◌, ◌≤◌, ◌<◌, ◌≡◌, refl, arith, List, [], ◌∷◌, length, ok, pos,
  emit, read_down, Bytes,
}
use b402_solana.Merkle.{
  ClientMerkleTree, le_to_big, bit_at, new_tree, init, append, prove, build_zero_cache,
  prove_most_recent_leaf,
}
use b402_solana.Merkle.Shift.{shr}
use b402_solana.Protocol.Poseidon.{merkle_zero_seed, merkle_node_hash, poseidon_tagged}
use b402_solana.Protocol.Encoding.Tags.{domain_tag_fr}
use b402_solana.Merkle.Cells.{merkle_root, fold_path}
use b402_solana.Merkle.Append.Invariant.{IsTree, Extends, Overflows}
use b402_solana.Merkle.Append.{append-Extends, append-Overflows, append_all, append_all-init}
use b402_solana.Merkle.Paths.{proof_of, prove-path}
use b402_solana.Merkle.Recent.{Encodes, prove_most_recent_leaf-prove}

abbrev mix : List ℕ → ℕ
mix [] = 7
mix (x ∷ xs) = (x + 31 * mix xs) % 1009

abbrev two_leaves : ClientMerkleTree
two_leaves = append_all mix (init mix (new_tree 2)) (5 ∷ 6 ∷ [])

two_leaves_depth : two_leaves.depth ≡ 2
unfolding append_all init new_tree append bit_at shr
two_leaves_depth = refl

append_all-init_example :
    (two_leaves.root ≡ merkle_root mix 2 (5 ∷ 6 ∷ []))
    × (two_leaves.leaves ≡ 5 ∷ 6 ∷ [])
    × (two_leaves.leaf_count ≡ 2)
    × IsTree mix two_leaves
append_all-init_example = append_all-init mix 2 (5 ∷ 6 ∷ []) (omega arith)

two_leaves-IsTree : IsTree mix two_leaves
two_leaves-IsTree = append_all-init_example.3

room : suc two_leaves.leaf_count < 2 ^ two_leaves.depth
room = rw (append_all-init_example.2, two_leaves_depth) (omega arith)

append-Extends_example : Extends mix two_leaves 9 (append mix two_leaves 9)
append-Extends_example = append-Extends mix two_leaves 9 two_leaves-IsTree room

prove-path_example :
    (prove mix two_leaves 1 ≡ ok (proof_of mix two_leaves 1))
    × (fold_path mix
          (proof_of mix two_leaves 1).leaf
          (proof_of mix two_leaves 1).siblings
          (proof_of mix two_leaves 1).path_bits
        ≡ two_leaves.root)
prove-path_example =
    prove-path mix two_leaves 1 two_leaves-IsTree (omega (arith, append_all-init_example.2))

abbrev three_leaves : ClientMerkleTree
three_leaves = append_all mix (init mix (new_tree 2)) (5 ∷ 6 ∷ 8 ∷ [])

three_leaves_depth : three_leaves.depth ≡ 2
unfolding append_all init new_tree append bit_at shr
three_leaves_depth = refl

append-Overflows_example : Overflows mix three_leaves 9
append-Overflows_example =
    let (_, _, count, tree) = append_all-init mix 2 (5 ∷ 6 ∷ 8 ∷ []) (omega arith) in
    append-Overflows mix three_leaves 9 tree (rw three_leaves_depth (omega arith))
      (rw (count, three_leaves_depth) refl)

abbrev encoded : List ℕ → List Bytes
encoded [] = []
encoded (x ∷ xs) = emit 32 x ∷ encoded xs

frontier_encoded :
    Encodes two_leaves.depth
      (encoded (append mix two_leaves 9).0.frontier)
      (append mix two_leaves 9).0.frontier
unfolding append_all init new_tree append bit_at shr le_to_big build_zero_cache emit read_down
    merkle_zero_seed merkle_node_hash poseidon_tagged domain_tag_fr
frontier_encoded zero h = refl
frontier_encoded (suc zero) h = refl
frontier_encoded (suc (suc k)) h = ground (arith, two_leaves_depth)

zero_cache_encoded : Encodes two_leaves.depth (encoded two_leaves.zero_cache) two_leaves.zero_cache
unfolding append_all init new_tree append bit_at shr le_to_big build_zero_cache emit read_down
    merkle_zero_seed merkle_node_hash poseidon_tagged domain_tag_fr
zero_cache_encoded zero h = refl
zero_cache_encoded (suc zero) h = refl
zero_cache_encoded (suc (suc k)) h = ground (arith, two_leaves_depth)

encoded_lengths :
    (length (encoded (append mix two_leaves 9).0.frontier) ≡ two_leaves.depth)
    × (two_leaves.depth ≤ length (encoded two_leaves.zero_cache))
unfolding append_all init new_tree append bit_at shr build_zero_cache
encoded_lengths = (refl, omega arith)

prove_most_recent_leaf-prove_example :
    prove_most_recent_leaf 9
      (pos two_leaves.leaf_count)
      (append mix two_leaves 9).0.root
      (encoded (append mix two_leaves 9).0.frontier)
      (encoded two_leaves.zero_cache)
      two_leaves.depth
    ≡ prove mix (append mix two_leaves 9).0 two_leaves.leaf_count
prove_most_recent_leaf-prove_example =
    prove_most_recent_leaf-prove mix two_leaves 9 (encoded (append mix two_leaves 9).0.frontier)
      (encoded two_leaves.zero_cache) two_leaves-IsTree room encoded_lengths.0 encoded_lengths.1
      frontier_encoded zero_cache_encoded
