-- ===== src/Programs/Nullifier/Layout.antt =====
-- The bytes and the accounts of the nullifier's instruction (packages/sdk/src/light-nullifier.ts).
use b402_solana.Common.{
  ℕ, ◌^◌, ◌<◌, ◌≡◌, inl, inr, refl, sym, ap, ◌∙◌, false, arith, [], ◌∷◌, ◌++◌, append_assoc,
  append-nil, length, length-append, take, drop, Bytes, value, some, ok, >>=-eq-ok, ok_eq, ltb,
  ◌==◌, ==_iff, Bool-cases, Option-cases, drop-length_append, subst, bit_and,
}
use b402_solana.Programs.Anchor.{join, u16_le, u16_le-value}
use b402_solana.Programs.Accounts.{readonly, signers, writables}
use b402_solana.Programs.Nullifier.{
  AddressTreeInfo, NullifierProof, LightAccounts, buffer_from, discriminator, encode_proof,
  encode_address_tree_info, build_create_nullifier_data, build_nullifier_cpi_payload,
  create_nullifier_accounts, build_nullifier_cpi_accounts,
}

encode_address_tree_info-ok :
    (info : AddressTreeInfo) (out : Bytes)
    → encode_address_tree_info info ≡ ok out
    → (root : ℕ) × (info.root_index ≡ some root)
      × (root < 2 ^ 16)
      × (out
          ≡ info.address_merkle_tree_pubkey_index ∷ info.address_queue_pubkey_index ∷ u16_le root)
unfolding encode_address_tree_info
encode_address_tree_info-ok info out e =
    elim (Bool-cases (ltb 0xff info.address_merkle_tree_pubkey_index)) [
      | inl big ↦ cc (rw (big, encode_address_tree_info) at e)
      | inr m ↦ elim (Bool-cases (ltb 0xff info.address_queue_pubkey_index)) [
        | inl big ↦ cc (rw (m, big, encode_address_tree_info) at e)
        | inr q ↦ elim (Option-cases info.root_index) [
          | inl missing ↦ cc (rw (m, q, missing, encode_address_tree_info) at e)
          | inr (root, at) ↦ elim (Bool-cases (ltb 0xffff root)) [
            | inl big ↦ cc (rw (m, q, at, big, encode_address_tree_info) at e)
            | inr fits ↦ (
              root,
              at,
              under root fits,
              sym (ok_eq (rw (m, q, at, fits, encode_address_tree_info) at e)),
            )
          ]
        ]
      ]
    ]
  where
    under : (r : ℕ) → ltb 0xffff r ≡ false → r < 2 ^ 16
    under r h = ground arith

abbrev whole : NullifierProof → Bytes → Bytes
unfolding buffer_from
whole p info =
    join (encode_proof p.proof ∷ info ∷ buffer_from (p.output_state_tree_index ∷ []) ∷ [])

root_at :
    (p : NullifierProof) (m q root : ℕ)
    → length (whole p (m ∷ q ∷ u16_le root)) ≡ 134
    → value (take 2 (drop 131 (whole p (m ∷ q ∷ u16_le root)))) ≡ value (u16_le root)
unfolding whole buffer_from u16_le
root_at p m q root size =
    let front : Bytes = encode_proof p.proof ++ m ∷ q ∷ [] in
    let rest : Bytes = u16_le root ++ bit_and p.output_state_tree_index 0xff ∷ [] in
    let split : whole p (m ∷ q ∷ u16_le root) ≡ front ++ rest =
      sym (append_assoc (encode_proof p.proof) (m ∷ q ∷ []) rest) in
    let behind : length front ≡ 131 =
      omega (arith, size, ap length split, length-append front rest) in
    ap (λ (z : Bytes). value (take 2 (drop 131 z))) split
    ∙ ap (λ (z : Bytes). value (take 2 z)) (drop-length_append front rest 131 behind)

split :
    (p : NullifierProof) (info id : Bytes)
    → join (encode_proof p.proof ∷ info ∷ buffer_from (p.output_state_tree_index ∷ []) ∷ id ∷ [])
      ≡ whole p info ++ id
unfolding whole buffer_from
split p info id = simp (append_assoc, append-nil) refl

-- A payload that the builder returns has 134 bytes; the two bytes of it from position 131 on read back
-- as the root index, which the proof has; and for an identifier of 32 bytes the sibling instruction's
-- data is the discriminator, the payload and the identifier.
pub build_nullifier_cpi_payload-layout :
    (p : NullifierProof) (payload : Bytes)
    → build_nullifier_cpi_payload p ≡ ok payload
    → (length payload ≡ 134)
      × ((root : ℕ) × (p.address_tree_info.root_index ≡ some root)
          × (value (take 2 (drop 131 payload)) ≡ root))
      × ((id : Bytes)
          → length id ≡ 32
          → build_create_nullifier_data id p ≡ ok (discriminator ++ payload ++ id))
unfolding build_nullifier_cpi_payload build_create_nullifier_data
build_nullifier_cpi_payload-layout p payload e =
    let (info, encoded, e1) = >>=-eq-ok (encode_address_tree_info p.address_tree_info) _ e in
    let (root, at, small, parts) = encode_address_tree_info-ok p.address_tree_info info encoded in
    elim (Bool-cases (length (whole p info) == 134)) [
      | inr short ↦ cc (rw short at e1)
      | inl fits ↦
          let same : whole p info ≡ payload = ok_eq (rw fits at e1) in
          let size : length (whole p info) ≡ 134 = (==_iff (length (whole p info)) 134).0 fits in
          (
            ap length (sym same) ∙ size,
            (
              root,
              at,
              ap (λ (z : Bytes). value (take 2 (drop 131 z))) (sym same)
                  ∙ ap (λ (i : Bytes). value (take 2 (drop 131 (whole p i)))) parts
                  ∙ root_at p p.address_tree_info.address_merkle_tree_pubkey_index
                      p.address_tree_info.address_queue_pubkey_index root
                      (subst (λ i. length (whole p i) ≡ 134) parts size)
                  ∙ u16_le-value root small,
            ),
            λ id n.
                rw (encoded, n)
                  (ap ok (
                    ap (λ (z : Bytes). discriminator ++ z)
                      (split p info id ∙ ap (λ (z : Bytes). z ++ id) same))),
          )
    ]

-- Both forms of the instruction name the same accounts in the same order, the inlined one with the
-- instructions sysvar behind the payer; in both the payer alone signs, and the payer, the address
-- tree and the output queue alone are writable.
pub build_nullifier_cpi_accounts-same :
    (sys : LightAccounts) (payer : Bytes) (p : NullifierProof)
    → let sibling = create_nullifier_accounts sys payer p in
      let inlined = build_nullifier_cpi_accounts sys payer p in
      (inlined ≡ take 1 sibling ++ readonly sys.sysvar_instructions ∷ drop 1 sibling)
      × (signers sibling ≡ payer ∷ [])
      × (signers inlined ≡ payer ∷ [])
      × (writables sibling ≡ payer ∷ p.address_tree ∷ p.output_queue ∷ [])
      × (writables inlined ≡ payer ∷ p.address_tree ∷ p.output_queue ∷ [])
unfolding create_nullifier_accounts build_nullifier_cpi_accounts signers writables
build_nullifier_cpi_accounts-same sys payer p = (refl, refl, refl, refl, refl)
