-- ===== src/Actions/WithdrawData.antt =====
-- The parts of the instruction that `unshield` of packages/sdk/src/actions/unshield.ts builds, and the
-- two forms in which the nullifier is recorded.
use b402_solana.Common.{
  Bool, true, false, ℕ, ◌≡◌, refl, sym, ap, ap₂, ◌∙◌, subst, inl, inr, Bool-cases, pos, List, [],
  ◌∷◌, ◌++◌, append_assoc, append-nil, length, Bytes, Text, codes, emit, ok, ok_eq, >>=-eq-ok, ◌==◌,
}
use b402_solana.Programs.Anchor.{join, instruction_discriminator, vec_u8, u32_le}
use b402_solana.Programs.Accounts.{Instruction}
use b402_solana.Programs.Nullifier.{
  NullifierProof, LightAccounts, build_create_nullifier_data, build_nullifier_cpi_payload,
  encode_address_tree_info, encode_proof, buffer_from, discriminator,
}
use b402_solana.Prover.{Proof}
use b402_solana.Actions.Wire.{amount_le}
use b402_solana.Actions.Shield.{lift, input}
use b402_solana.Actions.Unshield.{
  UnshieldParams, inlined_parts, unshield_parts, nullifier_ixs, relayer_pubkey,
}
use b402_solana.Actions.Layout.{Fields, head_parts, lift-ok, amount_le-ok}

-- How the nullifier is recorded: by a call that the pool's instruction makes, with the payload at the
-- end of its data and no sibling, or by one sibling instruction of the nullifier program, whose data
-- are those of `createNullifier` with the nullifier at their end.
abbrev pub Recorded :
    Bytes → Bytes → NullifierProof → Bool → Instruction → List Instruction → Type 0
Recorded nullifier_program id v true ix siblings =
    (siblings ≡ [])
    × ((front : Bytes) × (payload : Bytes) × (build_nullifier_cpi_payload v ≡ ok payload)
        × (ix.ix_data ≡ front ++ (u32_le 1 ++ payload)))
Recorded nullifier_program id v false ix siblings =
    (s : Instruction) × (front : Bytes) × (siblings ≡ s ∷ [])
    × (s.program_id ≡ nullifier_program)
    × (build_create_nullifier_data id v ≡ ok s.ix_data)
    × (s.ix_data ≡ front ++ id)

build_create_nullifier_data-ends :
    (id wire : Bytes) (v : NullifierProof)
    → build_create_nullifier_data id v ≡ ok wire
    → (front : Bytes) × (wire ≡ front ++ id)
unfolding build_create_nullifier_data
build_create_nullifier_data-ends id wire v e = elim (Bool-cases (length id == 32)) [
  | inr other ↦ cc (rw (other, build_create_nullifier_data) at e)
  | inl fits ↦
      let (info, encoded, e1) =
        >>=-eq-ok (encode_address_tree_info v.address_tree_info) _
          (rw (fits, build_create_nullifier_data) at e) in
      let last : Bytes = buffer_from (v.output_state_tree_index ∷ []) in
      (
        discriminator ++ encode_proof v.proof ++ info ++ last,
        sym (ok_eq e1) ∙ simp (append_assoc, append-nil) refl,
      )
]

pub cleared :
    {wire root n0 amount_in amount_out mint fee : Bytes} {n1 c0 c1 : ℕ}
    → n1 ≡ 0
    → c0 ≡ 0
    → c1 ≡ 0
    → Fields wire root n0 (emit 32 n1) (emit 32 c0) (emit 32 c1) amount_in amount_out mint fee
    → Fields wire root n0 (emit 32 0) (emit 32 0) (emit 32 0) amount_in amount_out mint fee
cleared {wire} {root} {n0} {amount_in} {amount_out} {mint} {fee} {n1} {c0} {c1} e0 e1 e2 fields =
    let first : Fields wire root n0 (emit 32 0) (emit 32 c0) (emit 32 c1) amount_in amount_out mint
        fee =
      subst
        (λ x.
          Fields wire root n0 (emit 32 x) (emit 32 c0) (emit 32 c1) amount_in amount_out mint fee)
        e0 fields in
    let second : Fields wire root n0 (emit 32 0) (emit 32 0) (emit 32 c1) amount_in amount_out mint
        fee =
      subst
        (λ x.
          Fields wire root n0 (emit 32 0) (emit 32 x) (emit 32 c1) amount_in amount_out mint fee)
        e1 first in
    subst
      (λ x. Fields wire root n0 (emit 32 0) (emit 32 0) (emit 32 x) amount_in amount_out mint fee)
      e2 second

module _ (raw : List ℕ → ℕ) (sha256 : Bytes → Bytes) (utf8 : Text → Bytes)
    (find : List Bytes → Bytes → Bytes) (sys : LightAccounts) (nullifier_program : Bytes) where
  pub recorded :
      (p : UnshieldParams) (id : Bytes) (v : NullifierProof) (inlined : List Bytes)
      (siblings : List Instruction) (ix : Instruction) (front : Bytes)
      → inlined_parts raw sha256 utf8 find sys nullifier_program p.inline_nullifier_cpi v
        ≡ ok inlined
      → nullifier_ixs raw sha256 utf8 find sys nullifier_program p id v ≡ ok siblings
      → ix.ix_data ≡ front ++ join inlined
      → Recorded nullifier_program id v p.inline_nullifier_cpi ix siblings
  unfolding nullifier_ixs inlined_parts
  recorded p id v inlined siblings ix front behind e laid =
      elim (Bool-cases p.inline_nullifier_cpi) [
        | inl inline ↦
            let (payload, built, e1) =
              >>=-eq-ok (lift _ (build_nullifier_cpi_payload v)) _
                (rw (inline, inlined_parts) at behind) in
            let none_left : siblings ≡ [] = sym (ok_eq (rw (inline, nullifier_ixs) at e)) in
            let same : inlined ≡ u32_le 1 ∷ payload ∷ [] = sym (ok_eq e1) in
            rw inline (
              none_left,
              (
                front,
                payload,
                lift-ok _ _ built,
                laid
                    ∙ ap (λ (l : List Bytes). front ++ join l) same
                    ∙ ap (λ (l : Bytes). front ++ (u32_le 1 ++ l)) (append-nil payload),
              ),
            )
        | inr apart ↦
            let (wire, built, e1) =
              >>=-eq-ok (lift _ (build_create_nullifier_data id v)) _
                (rw (apart, nullifier_ixs) at e) in
            let (start, ends) = build_create_nullifier_data-ends id wire v (lift-ok _ _ built) in
            rw apart (_, start, sym (ok_eq e1), refl, lift-ok _ _ built, ends)
      ]

  pub unshield_parts-head :
      (p : UnshieldParams) (proof : Proof) (inlined parts : List Bytes)
      → unshield_parts raw sha256 utf8 find sys nullifier_program p proof inlined ≡ ok parts
      → (pre : List Bytes) × (parts
          ≡ head_parts
              (instruction_discriminator sha256 utf8 (codes "unshield"))
              (vec_u8 proof.proof_bytes)
              (input proof 0)
              (input proof 1)
              (input proof 2)
              (input proof 3)
              (input proof 4)
              (emit 8 0)
              (emit 8 p.note.note.value)
              p.mint
              (emit 8 0)
              (pre ++ inlined))
  unfolding unshield_parts
  unshield_parts-head p proof inlined parts e =
      let (z, zero, e1) = >>=-eq-ok (lift _ (amount_le (pos 0))) _ e in
      let (v, value, e2) = >>=-eq-ok (lift _ (amount_le (pos p.note.note.value))) _ e1 in
      let z_is = amount_le-ok 0 z (lift-ok _ _ zero) in
      let v_is = amount_le-ok p.note.note.value v (lift-ok _ _ value) in
      let rest : List Bytes =
        input proof 9
        ∷ input proof 10
        ∷ input proof 11
        ∷ u32_le 0
        ∷ (2 ∷ [])
        ∷ (3 ∷ [])
        ∷ relayer_pubkey p
        ∷ [] in
      (
        rest,
        sym (ok_eq e2)
            ∙ ap₂
                (λ (a b : Bytes).
                  head_parts (instruction_discriminator sha256 utf8 (codes "unshield"))
                    (vec_u8 proof.proof_bytes) (input proof 0) (input proof 1) (input proof 2)
                    (input proof 3) (input proof 4) a b p.mint a (rest ++ inlined))
                z_is v_is,
      )
