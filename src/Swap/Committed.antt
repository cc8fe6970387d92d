-- ===== src/Swap/Committed.antt =====
-- When `privateSwap` takes the public inputs to be committed already.
use b402_solana.Common.{
  ℕ, ◌+◌, ◌*◌, ◌≤◌, ◌≡◌, ◌↔◌, refl, sym, ◌∙◌, arith, Bool, true, false, ◌&&◌, List, [], length,
  take, drop, get_or, replicate, some, Bytes, text_eq, text_eq_iff, leb, ◌==◌,
}
use b402_solana.Programs.Anchor.{total_length, copy_parts, copy_parts-join, join}
use b402_solana.Swap.Data.{already_committed}

and_3 : (a b c : Bool) → ((a && b && c) ≡ true) ↔ ((a ≡ true) × (b ≡ true) × (c ≡ true))
and_3 true true true = (λ e. (refl, refl, refl), λ e. refl)
and_3 true true false = (λ e. cc e, λ (p, q, r). cc r)
and_3 true false c = (λ e. cc e, λ (p, q, r). cc q)
and_3 false b c = (λ e. cc e, λ (p, q, r). cc p)

-- For inputs of 32 bytes each, the inputs are taken to be committed just where the account is long
-- enough for them, has the version 1, and holds the inputs, one behind the other, from the byte 9 on.
pub already_committed_iff :
    (account : Bytes) (inputs : List Bytes)
    → total_length inputs ≡ length inputs * 32
    → (already_committed (some account) inputs ≡ true) ↔ (
        (9 + length inputs * 32 ≤ length account)
        × (get_or account 8 0 ≡ 1)
        × (take (length inputs * 32) (drop 9 account) ≡ join inputs))
unfolding already_committed
already_committed_iff account inputs sized =
    let size : ℕ = length inputs * 32 in
    let expected : copy_parts (replicate size 0) 0 inputs ≡ join inputs =
      copy_parts-join [] 0 size inputs refl (sym sized) in
    let (to, from) =
      and_3 (leb (9 + size) (length account)) (get_or account 8 0 == 1)
        (text_eq (take size (drop 9 account)) (copy_parts (replicate size 0) 0 inputs)) in
    let (sound, complete) =
      text_eq_iff (take size (drop 9 account)) (copy_parts (replicate size 0) 0 inputs) in
    (
      λ e. let (long, version, same) = to e in (ground arith, ground arith, sound same ∙ expected),
      λ (long, version, same). from (ground arith, ground arith, complete (same ∙ sym expected)),
    )
