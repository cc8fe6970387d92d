-- ===== src/Relayer/Submit/Placement.antt =====
-- What packages/relayer/src/submit.ts makes of the accounts of a client's instruction and of those
-- of its siblings.
use b402_solana.Common.{
  Bool, if◌then◌else◌, ℕ, zero, suc, ◌≡◌, inl, inr, refl, sym, true, false, ◌&&◌, Bool-cases,
  Option-cases, Option, none, some, Text, Bytes, List, [], ◌∷◌, length, get_or, All, ok, >>=-eq-ok,
  ◌==◌, subst, ok_eq,
}
use b402_solana.Relayer.Validate.{AccountMeta}
use b402_solana.Relayer.Route.Keys.{to_key_inv}
use b402_solana.Relayer.Route.{AdditionalIxInput, SubmitInput, to_key}
use b402_solana.Relayer.Submit.{
  KeyMeta, TransactionInstruction, relayer_slot, place_relayer, sibling_key, sibling_keys,
  sibling_ixs, no_slot, client_ixs,
}

-- The slot at `i` is the first writable signer of the list.
pub data FirstSigner : List AccountMeta → ℕ → Type 0 where
  here :
      (k : AccountMeta) (keys : List AccountMeta)
      → (k.is_signer && k.is_writable) ≡ true
      → FirstSigner (k ∷ keys) 0
  there :
      (k : AccountMeta) (keys : List AccountMeta) (i : ℕ)
      → (k.is_signer && k.is_writable) ≡ false
      → FirstSigner keys i
      → FirstSigner (k ∷ keys) (suc i)

relayer_slot-FirstSigner :
    (keys : List AccountMeta) (i : ℕ) → relayer_slot keys ≡ some i → FirstSigner keys i
unfolding relayer_slot
relayer_slot-FirstSigner [] i e = cc
relayer_slot-FirstSigner (k ∷ keys) i e = elim (Bool-cases (k.is_signer && k.is_writable)) [
  | inl both ↦ subst (FirstSigner (k ∷ keys)) (cc (rw (relayer_slot, both) at e)) (here k keys both)
  | inr other ↦ elim (Option-cases (relayer_slot keys)) [
    | inl nowhere ↦ cc (rw (relayer_slot, other, nowhere) at e)
    | inr (j, at) ↦
        subst (FirstSigner (k ∷ keys)) (cc (rw (relayer_slot, other, at) at e))
          (there k keys j other (relayer_slot-FirstSigner keys j at))
  ]
]

-- What became of a client's account: its flags, and the relayer's key or its own.
module _ (public_key : Text → Option Bytes) (relayer : Bytes) where
  abbrev pub Own : AccountMeta → KeyMeta → Type 0
  Own k m =
      (m.is_signer ≡ k.is_signer)
      × (m.is_writable ≡ k.is_writable)
      × (public_key k.pubkey ≡ some m.pubkey)

  abbrev pub Relayers : AccountMeta → KeyMeta → Type 0
  Relayers k m =
      (m.is_signer ≡ k.is_signer) × (m.is_writable ≡ k.is_writable) × (m.pubkey ≡ relayer)

  -- The accounts with the relayer at one place, where there is one, and all others their own.
  pub data Placed : Option ℕ → List AccountMeta → List KeyMeta → Type 0 where
    nil : (at : Option ℕ) → Placed at [] []
    own :
        (k : AccountMeta) (m : KeyMeta) (keys : List AccountMeta) (metas : List KeyMeta)
        → Own k m
        → Placed none keys metas
        → Placed none (k ∷ keys) (m ∷ metas)
    slot :
        (k : AccountMeta) (m : KeyMeta) (keys : List AccountMeta) (metas : List KeyMeta)
        → Relayers k m
        → Placed none keys metas
        → Placed (some 0) (k ∷ keys) (m ∷ metas)
    before :
        (i : ℕ) (k : AccountMeta) (m : KeyMeta) (keys : List AccountMeta) (metas : List KeyMeta)
        → Own k m
        → Placed (some i) keys metas
        → Placed (some (suc i)) (k ∷ keys) (m ∷ metas)

  place_relayer-Placed :
      (at : Option ℕ) (keys : List AccountMeta) (metas : List KeyMeta)
      → place_relayer public_key relayer at keys ≡ ok metas
      → Placed at keys metas
  unfolding place_relayer
  place_relayer-Placed at [] metas e = subst (Placed at []) (ok_eq e) (nil at)
  place_relayer-Placed none (k ∷ keys) metas e =
      let (key, named, e1) = >>=-eq-ok (to_key public_key k.pubkey) _ e in
      let (rest, placed, e2) = >>=-eq-ok (place_relayer public_key relayer none keys) _ e1 in
      subst (Placed none (k ∷ keys)) (ok_eq e2) (
        own k _ keys rest (refl, refl, to_key_inv public_key k.pubkey key named)
          (place_relayer-Placed none keys rest placed))
  place_relayer-Placed (some zero) (k ∷ keys) metas e =
      let (rest, placed, e1) = >>=-eq-ok (place_relayer public_key relayer none keys) _ e in
      subst (Placed (some 0) (k ∷ keys)) (ok_eq e1)
        (slot k _ keys rest (refl, refl, refl) (place_relayer-Placed none keys rest placed))
  place_relayer-Placed (some (suc i)) (k ∷ keys) metas e =
      let (key, named, e1) = >>=-eq-ok (to_key public_key k.pubkey) _ e in
      let (rest, placed, e2) = >>=-eq-ok (place_relayer public_key relayer (some i) keys) _ e1 in
      subst (Placed (some (suc i)) (k ∷ keys)) (ok_eq e2) (
        before i k _ keys rest (refl, refl, to_key_inv public_key k.pubkey key named)
          (place_relayer-Placed (some i) keys rest placed))

  -- Every signer of an instruction is the relayer.
  abbrev pub SignedByRelayer : TransactionInstruction → Type 0
  SignedByRelayer ix = All (λ m. m.is_signer ≡ true → m.pubkey ≡ relayer) ix.keys

  signed : (key : Bytes) (signs : Bool) → signs ≡ true → (if signs then relayer else key) ≡ relayer
  signed key true e = refl
  signed key false e = cc

  sibling_keys-Signed :
      (first : AccountMeta) (keys : List AccountMeta) (metas : List KeyMeta)
      → sibling_keys public_key relayer first keys ≡ ok metas
      → All (λ m. m.is_signer ≡ true → m.pubkey ≡ relayer) metas
  unfolding sibling_keys
  sibling_keys-Signed first [] metas e =
      subst (All (λ m. m.is_signer ≡ true → m.pubkey ≡ relayer)) (ok_eq e) tt
  sibling_keys-Signed first (k ∷ keys) metas e =
      let (key, _, e1) = >>=-eq-ok (sibling_key public_key relayer first k) _ e in
      let (rest, more, e2) = >>=-eq-ok (sibling_keys public_key relayer first keys) _ e1 in
      subst (All (λ m. m.is_signer ≡ true → m.pubkey ≡ relayer)) (ok_eq e2)
        (signed key k.is_signer, sibling_keys-Signed first keys rest more)

  sibling_ixs-Signed :
      (first : AccountMeta) (extras : List AdditionalIxInput) (ixs : List TransactionInstruction)
      → sibling_ixs public_key relayer first extras ≡ ok ixs
      → All SignedByRelayer ixs
  unfolding sibling_ixs
  sibling_ixs-Signed first [] ixs e = subst (All SignedByRelayer) (ok_eq e) tt
  sibling_ixs-Signed first (x ∷ extras) ixs e =
      let (keys, made, e1) = >>=-eq-ok (sibling_keys public_key relayer first x.account_keys) _ e in
      let (rest, more, e2) = >>=-eq-ok (sibling_ixs public_key relayer first extras) _ e1 in
      subst (All SignedByRelayer) (ok_eq e2) (
        sibling_keys-Signed first x.account_keys keys made,
        sibling_ixs-Signed first extras rest more,
      )

  -- When the accounts of a request can be placed, its instruction is the pool's with the client's
  -- data, the relayer stands at the first writable signer's place and every other account is its
  -- own, and in the instructions that follow no one but the relayer signs.
  pub client_ixs-Placed :
      (input : SubmitInput) (ixs : List TransactionInstruction)
      → client_ixs public_key relayer input ≡ ok ixs
      → (main : TransactionInstruction) × (siblings : List TransactionInstruction) × (i : ℕ) × (ixs
          ≡ main ∷ siblings)
        × (main.program_id ≡ input.program_id)
        × (main.ix_data ≡ input.ix_data)
        × FirstSigner input.account_keys i
        × Placed (some i) input.account_keys main.keys
        × All SignedByRelayer siblings
  unfolding client_ixs
  client_ixs-Placed input ixs e = elim (Bool-cases (length input.account_keys == 0)) [
    | inl empty ↦ cc (rw (client_ixs, empty) at e)
    | inr full ↦ elim (Option-cases (relayer_slot input.account_keys)) [
      | inl nowhere ↦ cc (rw (client_ixs, full, nowhere) at e)
      | inr (i, at) ↦
          let (keys, placed, e1) =
            >>=-eq-ok (place_relayer public_key relayer (some i) input.account_keys) _
              (rw (client_ixs, full, at) at e) in
          let first = get_or input.account_keys i no_slot in
          let (extras, made, e2) =
            >>=-eq-ok (sibling_ixs public_key relayer first input.additional_ixs) _ e1 in
          (
            _,
            extras,
            i,
            sym (ok_eq e2),
            refl,
            refl,
            relayer_slot-FirstSigner _ i at,
            place_relayer-Placed (some i) _ keys placed,
            sibling_ixs-Signed first _ extras made,
          )
    ]
  ]
