-- ===== src/Merkle/ZeroCache.antt =====
-- The zero cache holds the roots of the empty subtrees.
use b402_solana.Common.{
  ℕ, zero, suc, ◌+◌, ◌≤◌, ◌≡◌, ◌⊎◌, inl, inr, refl, arith, List, [], ◌∷◌, ◌++◌, length, get_or,
  length-append, get_or-append_left, get_or-append_last,
}
use b402_solana.Protocol.Poseidon.{merkle_zero_seed}
use b402_solana.Merkle.{extend_cache, build_zero_cache, init, new_tree}
use b402_solana.Merkle.Cells.{zeros, merkle_root, cell-nil}

module _ (raw : List ℕ → ℕ) where
  -- The first entries of the cache, up to height `n`, are the empty roots.
  abbrev pub IsCache : ℕ → List ℕ → Type 0
  IsCache n cache = (i : ℕ) → i ≤ n → get_or cache i 0 ≡ zeros raw i

  IsCache-push :
      (n : ℕ) (cache : List ℕ) (x : ℕ)
      → length cache ≡ suc n
      → IsCache n cache
      → x ≡ zeros raw (suc n)
      → IsCache (suc n) (cache ++ x ∷ [])
  IsCache-push n cache x len h e i p = elim (split i n p) [
    | inl below ↦ rw (get_or-append_left cache (x ∷ []) i 0 (omega arith)) (h i below)
    | inr last ↦
        let at : i ≡ length cache = omega arith in
        rw at (rw (get_or-append_last cache x 0) (rw len e))
  ]
    where
      split : (i n : ℕ) → i ≤ suc n → (i ≤ n) ⊎ (i ≡ suc n)
      split i n p = grind arith

  extend_cache-IsCache :
      (n i : ℕ) (cache : List ℕ)
      → length cache ≡ suc i
      → IsCache i cache
      → IsCache (i + n) (extend_cache raw n i cache)
  unfolding extend_cache zeros
  extend_cache-IsCache zero i cache len h j p = h j (omega arith)
  extend_cache-IsCache (suc n) i cache len h j p =
      extend_cache-IsCache n (suc i) _ (omega (arith, length-append cache (_ ∷ []), len))
        (λ k q. IsCache-push i cache _ len h (cc (h i (omega arith))) k (omega arith)) j
        (omega arith)

  length-extend_cache :
      (n i : ℕ) (cache : List ℕ) → length (extend_cache raw n i cache) ≡ length cache + n
  unfolding extend_cache
  length-extend_cache zero i cache = omega arith
  length-extend_cache (suc n) i cache =
      omega (arith, length-extend_cache n (suc i) (cache ++ _ ∷ []), length-append cache (_ ∷ []))

  -- `buildZeroCache` makes `depth + 1` entries, and entry `i` is the root of the empty tree of
  -- height `i`.
  pub build_zero_cache-IsCache :
      (depth : ℕ)
      → (length (build_zero_cache raw depth) ≡ depth + 1)
        × IsCache depth (build_zero_cache raw depth)
  unfolding build_zero_cache zeros
  build_zero_cache-IsCache depth = (
    omega (arith, length-extend_cache depth 0 (merkle_zero_seed raw ∷ [])),
    λ j p. extend_cache-IsCache depth 0 (merkle_zero_seed raw ∷ []) refl first j (omega arith),
  )
    where
      first : IsCache 0 (merkle_zero_seed raw ∷ [])
      first zero p = refl
      first (suc j) p = absurd (omega arith)

  -- A fresh tree is given that cache and the root of the empty tree.
  pub init-new_tree :
      (depth : ℕ)
      → IsCache depth (init raw (new_tree depth)).zero_cache
        × ((init raw (new_tree depth)).root ≡ merkle_root raw depth [])
  unfolding init new_tree merkle_root build_zero_cache
  init-new_tree depth =
      let cache = (build_zero_cache-IsCache depth).1 in
      (cache, cc (cache depth (omega arith), cell-nil raw depth 0))
