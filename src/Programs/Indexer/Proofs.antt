-- ===== src/Programs/Indexer/Proofs.antt =====
-- What `proveLeaf` of packages/sdk/src/indexer.ts has checked when it returns.
use b402_solana.Common.{
  ℕ, ◌≡◌, refl, sym, ap, ◌∙◌, subst, true, not, any, Option, some, none, inl, inr, Text, Bytes,
  Result, Result-cases, ok, err, ok_eq, >>=-eq-ok, >>-eq-ok, throw_if, ◌==◌, ==_iff, Bool-cases,
}
use b402_solana.Merkle.{MerkleProof}
use b402_solana.Programs.TreeState.{TreeStateView, decode_tree_state}
use b402_solana.Programs.Indexer.{
  le_to_number, root_in_view, assert_root_is_on_chain, assert_root_is_on_chain-any,
}
use b402_solana.Programs.Indexer.Client.{
  FetchError, IndexerProofResponse, lift_fetch, http, bad_number, wrong_leaf_index, root_refused,
  hex_to_bigint, hexes_to_bigints, assert_root, prove_leaf,
}

lift_fetch-ok :
    {E A : Type 0} (wrap : E → FetchError) (r : Result E A) {a : A}
    → lift_fetch wrap r ≡ ok a
    → r ≡ ok a
lift_fetch-ok wrap (ok b) e = ap ok (ok_eq e)
lift_fetch-ok wrap (err b) e = cc e

given_index :
    (o : Option ℕ) (i : ℕ)
    → ◌≡◌ {A = Result FetchError ℕ} (elim o [ none ↦ err bad_number | some k ↦ ok k ]) (ok i)
    → o ≡ some i
given_index none i e = cc e
given_index (some k) i e = ap some (ok_eq e)

same_index :
    (given asked : ℕ) → throw_if (not (given == asked)) wrong_leaf_index ≡ ok tt → given ≡ asked
same_index given asked e = elim (Bool-cases (given == asked)) [
  | inl same ↦ (==_iff given asked).0 same
  | inr other ↦ cc (rw other at e)
]

module _ (other : ℕ → ℕ → Option ℕ) where
  -- The root's number is one of the ring's.
  assert_root-any :
      (account : Option Bytes) (root_hex : Text) (expected : ℕ)
      → hex_to_bigint other root_hex ≡ ok expected
      → assert_root other account root_hex ≡ ok tt
      → (data_bytes : Bytes) × (view : TreeStateView) × (account ≡ some data_bytes)
        × (decode_tree_state data_bytes ≡ ok view)
        × (any (λ old. le_to_number old == expected) view.root_ring ≡ true)
  unfolding assert_root assert_root_is_on_chain
  assert_root-any none root_hex expected read e = cc e
  assert_root-any (some a) root_hex expected read e = elim (Result-cases (decode_tree_state a)) [
    | inr (bad, at) ↦ cc (rw (at, assert_root) at e)
    | inl (view, decoded) ↦
        let (got, again, e1) =
          >>=-eq-ok (hex_to_bigint other root_hex) _ (rw (decoded, assert_root) at e) in
        let same : got ≡ expected = ok_eq {E = FetchError} (sym again ∙ read) in
        let passed : root_in_view view expected ≡ ok tt =
          subst (λ (k : ℕ). root_in_view view k ≡ ok tt) same
            (lift_fetch-ok root_refused (root_in_view view got) e1) in
        let (v, at, known) =
          assert_root_is_on_chain-any a expected (rw (decoded, assert_root_is_on_chain) passed) in
        (a, v, refl, at, known)
  ]

  -- A path that is returned with the root verified: the indexer answered for the leaf that was asked
  -- for, the path's leaf, its siblings and its root are the numbers of the answer's strings, and the
  -- root is one of the roots that the pool's tree account keeps.
  pub prove_leaf-OnChain :
      (fetch : ℕ → Result Text IndexerProofResponse) (account : Option Bytes) (leaf_index : ℕ)
      (proof : MerkleProof)
      → prove_leaf other fetch account true leaf_index ≡ ok proof
      → (r : IndexerProofResponse) × (data_bytes : Bytes) × (view : TreeStateView) × (fetch
            leaf_index
          ≡ ok r)
        × (r.leaf_index ≡ some leaf_index)
        × (proof.leaf_index ≡ leaf_index)
        × (hex_to_bigint other r.leaf ≡ ok proof.leaf)
        × (hexes_to_bigints other r.siblings ≡ ok proof.siblings)
        × (hex_to_bigint other r.root ≡ ok proof.root)
        × (account ≡ some data_bytes)
        × (decode_tree_state data_bytes ≡ ok view)
        × (any (λ old. le_to_number old == proof.root) view.root_ring ≡ true)
  unfolding prove_leaf
  prove_leaf-OnChain fetch account leaf_index proof e =
      let (r, fetched, e1) = >>=-eq-ok (lift_fetch http (fetch leaf_index)) _ e in
      let (given, read, e2) =
        >>=-eq-ok (elim r.leaf_index [ none ↦ err bad_number | some i ↦ ok i ]) _ e1 in
      let (asked, e3) = >>-eq-ok (throw_if (not (given == leaf_index)) wrong_leaf_index) _ e2 in
      let (checked, verified, e4) = >>=-eq-ok (assert_root other account r.root) _ e3 in
      let (leaf, leaf_read, e5) = >>=-eq-ok (hex_to_bigint other r.leaf) _ e4 in
      let (siblings, siblings_read, e6) = >>=-eq-ok (hexes_to_bigints other r.siblings) _ e5 in
      let (root, root_read, e7) = >>=-eq-ok (hex_to_bigint other r.root) _ e6 in
      let index =
        given_index r.leaf_index given read ∙ ap some (same_index given leaf_index asked) in
      let (a, view, there, decoded, known) =
        assert_root-any account r.root root root_read verified in
      let same = ok_eq e7 in
      (
        r,
        a,
        view,
        lift_fetch-ok http (fetch leaf_index) fetched,
        index,
        ap (λ (p : MerkleProof). p.leaf_index) (sym same),
        leaf_read ∙ ap (λ (p : MerkleProof). ok p.leaf) same,
        siblings_read ∙ ap (λ (p : MerkleProof). ok p.siblings) same,
        root_read ∙ ap (λ (p : MerkleProof). ok p.root) same,
        there,
        decoded,
        subst (λ (p : MerkleProof). any (λ old. le_to_number old == p.root) view.root_ring ≡ true)
            same known,
      )
