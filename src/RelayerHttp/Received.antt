-- ===== src/RelayerHttp/Received.antt =====
-- What packages/relayer/src/submit.ts makes of the accounts of a call that packages/sdk/src/
-- relayer-http.ts has posted.
use b402_solana.Common.{
  arith, ℕ, zero, suc, ◌≡◌, refl, some_eq, subst, false, ◌&&◌, Bool-cases, inl, inr, List, [], ◌∷◌,
  map, length, get_or, All, Option, Option-cases, none, some, Text, Bytes, ok, if◌then◌else◌, ◌==◌,
}
use b402_solana.Programs.Accounts.{Instruction}
use b402_solana.Programs.Accounts
use b402_solana.Relayer.Validate.{AccountMeta}
use b402_solana.Relayer.Route.{
  Config, UserSignature, AdditionalIxInput, SubmitInput, or_empty, or_default, to_key,
}
use b402_solana.Relayer.Submit.{
  KeyMeta, TransactionInstruction, relayer_slot, place_relayer, sibling_key, sibling_keys,
  sibling_ixs, no_slot, client_ixs,
}
use b402_solana.RelayerHttp.{SubmitOptions, account_json}

abbrev pub IsKey : Bytes → Type 0
IsKey k = length k ≡ 32

-- A signature of 64 bytes and its key.
abbrev pub IsSigned : Option UserSignature → Type 0
IsSigned none = Unit
IsSigned (some s) = (length s.signature ≡ 64) × IsKey s.pubkey

module _ (to_base58 to_base64 : Bytes → Text) where
  abbrev pub extra_input : Instruction → AdditionalIxInput
  extra_input x = record {
    program_id = x.program_id;
    ix_data = x.ix_data;
    account_keys = map (account_json to_base58 to_base64) x.account_keys;
  }

  -- What the submitter receives of the client's call.
  abbrev pub received : Config → SubmitOptions → SubmitInput
  received cfg o = record {
    program_id = cfg.pool_program_id;
    ix_data = o.ix.ix_data;
    account_keys = map (account_json to_base58 to_base64) o.ix.account_keys;
    alt_addresses = or_empty o.alt_addresses;
    compute_unit_limit = or_default o.compute_unit_limit 1400000;
    user_signature = o.user_signature;
    additional_ixs = map extra_input (or_empty o.additional_ixs);
  }

-- The accounts with the relayer at one place, where there is one.
abbrev pub placed_metas : Bytes → Option ℕ → List Accounts.AccountMeta → List KeyMeta
placed_metas relayer at [] = []
placed_metas relayer none (k ∷ keys) =
    record { pubkey = k.pubkey; is_signer = k.is_signer; is_writable = k.is_writable }
    ∷ placed_metas relayer none keys
placed_metas relayer (some zero) (k ∷ keys) =
    record { pubkey = relayer; is_signer = k.is_signer; is_writable = k.is_writable }
    ∷ placed_metas relayer none keys
placed_metas relayer (some (suc i)) (k ∷ keys) =
    record { pubkey = k.pubkey; is_signer = k.is_signer; is_writable = k.is_writable }
    ∷ placed_metas relayer (some i) keys

-- An account with the relayer's key where it signs.
abbrev signed_meta : Bytes → Accounts.AccountMeta → KeyMeta
signed_meta relayer k = record {
  pubkey = if k.is_signer then relayer else k.pubkey;
  is_signer = k.is_signer;
  is_writable = k.is_writable;
}

abbrev pub sibling_ix : Bytes → Instruction → TransactionInstruction
sibling_ix relayer x = record {
  program_id = x.program_id;
  keys = map (signed_meta relayer) x.account_keys;
  ix_data = x.ix_data;
}

module _ (to_base58 to_base64 : Bytes → Text) (public_key : Text → Option Bytes)
    (reads : (k : Bytes) → length k ≡ 32 → public_key (to_base58 k) ≡ some k)
    (relayer : Bytes) where
  abbrev json : Accounts.AccountMeta → AccountMeta
  json = account_json to_base58 to_base64

  place_relayer-map :
      (at : Option ℕ) (keys : List Accounts.AccountMeta)
      → All (λ k. IsKey k.pubkey) keys
      → place_relayer public_key relayer at (map json keys) ≡ ok (placed_metas relayer at keys)
  unfolding place_relayer to_key account_json
  place_relayer-map at [] h = refl
  place_relayer-map none (k ∷ keys) (size, h) =
      rw (place_relayer, to_key, account_json, reads k.pubkey size, place_relayer-map none keys h)
        refl
  place_relayer-map (some zero) (k ∷ keys) (size, h) =
      rw (place_relayer, account_json, place_relayer-map none keys h) refl
  place_relayer-map (some (suc i)) (k ∷ keys) (size, h) =
      rw
        (
          place_relayer,
          to_key,
          account_json,
          reads k.pubkey size,
          place_relayer-map (some i) keys h,
        )
        refl

  slot_key :
      (keys : List Accounts.AccountMeta) (i : ℕ)
      → All (λ k. IsKey k.pubkey) keys
      → relayer_slot (map json keys) ≡ some i
      → (b : Bytes) × (to_key public_key (get_or (map json keys) i no_slot).pubkey ≡ ok b)
  unfolding relayer_slot to_key account_json
  slot_key [] i h e = cc e
  slot_key (k ∷ keys) i (size, h) e = elim (Bool-cases (k.is_signer && k.is_writable)) [
    | inl both ↦
        let first : 0 ≡ i = some_eq (rw (relayer_slot, both) at e) in
        subst
          (λ (j : ℕ).
            (b : Bytes) × (to_key public_key (get_or (map json (k ∷ keys)) j no_slot).pubkey
              ≡ ok b))
          first (k.pubkey, rw (to_key, reads k.pubkey size) refl)
    | inr other ↦ elim (Option-cases (relayer_slot (map json keys))) [
      | inl nowhere ↦ cc (rw (relayer_slot, other, nowhere) at e)
      | inr (j, at) ↦
          let later : suc j ≡ i = some_eq (rw (relayer_slot, other, at) at e) in
          subst
            (λ (x : ℕ).
              (b : Bytes) × (to_key public_key (get_or (map json (k ∷ keys)) x no_slot).pubkey
                ≡ ok b))
            later (slot_key keys j h at)
    ]
  ]

  sibling_keys-map :
      (first : AccountMeta) (b : Bytes) (keys : List Accounts.AccountMeta)
      → to_key public_key first.pubkey ≡ ok b
      → All (λ k. IsKey k.pubkey) keys
      → sibling_keys public_key relayer first (map json keys) ≡ ok (map (signed_meta relayer) keys)
  unfolding sibling_keys sibling_key to_key account_json
  sibling_keys-map first b [] slot h = refl
  sibling_keys-map first b (k ∷ keys) slot (size, h) = elim (Bool-cases k.is_signer) [
    | inr passive ↦
        rw
          (
            sibling_keys,
            sibling_key,
            passive,
            to_key,
            reads k.pubkey size,
            sibling_keys-map first b keys slot h,
          )
          refl
    | inl signs ↦ elim (Bool-cases k.is_writable) [
      | inl writes ↦
          rw
            (
              sibling_keys,
              sibling_key,
              signs,
              writes,
              to_key,
              reads k.pubkey size,
              slot,
              sibling_keys-map first b keys slot h,
            )
            refl
      | inr fixed ↦
          rw
            (
              sibling_keys,
              sibling_key,
              signs,
              fixed,
              to_key,
              reads k.pubkey size,
              sibling_keys-map first b keys slot h,
            )
            refl
    ]
  ]

  sibling_ixs-map :
      (first : AccountMeta) (b : Bytes) (xs : List Instruction)
      → to_key public_key first.pubkey ≡ ok b
      → All (λ x. All (λ k. IsKey k.pubkey) x.account_keys) xs
      → sibling_ixs public_key relayer first (map (extra_input to_base58 to_base64) xs)
        ≡ ok (map (sibling_ix relayer) xs)
  unfolding sibling_ixs
  sibling_ixs-map first b [] slot h = refl
  sibling_ixs-map first b (x ∷ xs) slot (keys, h) =
      rw
        (
          sibling_ixs,
          sibling_keys-map first b x.account_keys slot keys,
          sibling_ixs-map first b xs slot h,
        )
        refl

  -- The submitter's instructions of a call with a writable signer.
  pub client_ixs-received :
      (cfg : Config) (o : SubmitOptions) (i : ℕ)
      → All (λ k. IsKey k.pubkey) o.ix.account_keys
      → All (λ x. All (λ k. IsKey k.pubkey) x.account_keys) (or_empty o.additional_ixs)
      → relayer_slot (map json o.ix.account_keys) ≡ some i
      → client_ixs public_key relayer (received to_base58 to_base64 cfg o)
        ≡ ok (
            record {
              program_id = cfg.pool_program_id;
              keys = placed_metas relayer (some i) o.ix.account_keys;
              ix_data = o.ix.ix_data;
            }
            ∷ map (sibling_ix relayer) (or_empty o.additional_ixs))
  unfolding client_ixs relayer_slot
  client_ixs-received cfg o i keys accounts at =
      let (b, slot) = slot_key o.ix.account_keys i keys at in
      let some_key : (length (map json o.ix.account_keys) == 0) ≡ false =
        filled (map json o.ix.account_keys) at in
      rw
        (
          client_ixs,
          some_key,
          at,
          place_relayer-map (some i) o.ix.account_keys keys,
          sibling_ixs-map (get_or (map json o.ix.account_keys) i no_slot) b
              (or_empty o.additional_ixs) slot accounts,
        )
        refl
    where
      filled : (l : List AccountMeta) {j : ℕ} → relayer_slot l ≡ some j → (length l == 0) ≡ false
      filled [] e = cc e
      filled (k ∷ l) e = ground arith
