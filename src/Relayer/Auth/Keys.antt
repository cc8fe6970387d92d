-- ===== src/Relayer/Auth/Keys.antt =====
-- Which requests `authenticate` admits.
use b402_solana.Common.{
  ◌≡◌, ◌≢◌, ◌↔◌, ap, refl, arith, List, [], ◌∷◌, length, Option, none, some, Text, text_eq,
  text_eq_iff, Bytes, ok, Bool-cases, inl, inr, true, Option-cases,
}
use b402_solana.Relayer.Auth.{
  ApiKeyEntry, AuthContext, AuthConfig, Headers, extract_key, match_key, check_key, authenticate,
}

module _ (utf8 : Text → Bytes) where
  -- An entry of the key file: behind entries whose bytes differ from the presented ones.
  pub data Matches (presented : Text) : List (Text × ApiKeyEntry) → AuthContext → Type 0 where
    here :
        {k : Text} {p : ApiKeyEntry} {rest : List (Text × ApiKeyEntry)} {ctx : AuthContext}
        → utf8 k ≡ utf8 presented
        → ctx ≡ record { key_id = k; policy = p }
        → Matches presented ((k, p) ∷ rest) ctx
    later :
        {k : Text} {p : ApiKeyEntry} {rest : List (Text × ApiKeyEntry)} {ctx : AuthContext}
        → utf8 k ≢ utf8 presented
        → Matches presented rest ctx
        → Matches presented ((k, p) ∷ rest) ctx

  match_key_sound :
      (presented : Text) (keys : List (Text × ApiKeyEntry)) (ctx : AuthContext)
      → match_key utf8 presented keys ≡ some ctx
      → Matches presented keys ctx
  unfolding match_key
  match_key_sound presented [] ctx e = cc
  match_key_sound presented ((k, p) ∷ rest) ctx e =
      elim (Bool-cases (text_eq (utf8 k) (utf8 presented))) [
        | inl same ↦
            let bytes : utf8 k ≡ utf8 presented = (text_eq_iff _ _).0 same in
            here bytes (ground (arith, ap (length {0}) bytes))
        | inr other ↦
            later (λ q. cc ((text_eq_iff (utf8 k) (utf8 presented)).1 q))
              (match_key_sound presented rest ctx (ground arith))
      ]

  match_key_complete :
      {presented : Text} {keys : List (Text × ApiKeyEntry)} {ctx : AuthContext}
      → Matches presented keys ctx
      → match_key utf8 presented keys ≡ some ctx
  unfolding match_key
  match_key_complete {presented} (here {k} same e) =
      ground (arith, ap (length {0}) same, (text_eq_iff (utf8 k) (utf8 presented)).1 same)
  match_key_complete {presented} (later {k} other m) =
      ground (arith, match_key_complete m, text_eq_iff (utf8 k) (utf8 presented))

  -- A presented key that selects an entry.
  abbrev pub Admits : Option (List (Text × ApiKeyEntry)) → Option Text → AuthContext → Type 0
  Admits keys? presented? ctx =
      (presented : Text) × (keys : List (Text × ApiKeyEntry)) × (presented? ≡ some presented)
      × (presented ≢ [])
      × (keys? ≡ some keys)
      × Matches presented keys ctx

  check_key_sound :
      (keys : Option (List (Text × ApiKeyEntry))) (presented : Option Text) (ctx : AuthContext)
      → check_key utf8 keys presented ≡ ok ctx
      → Admits keys presented ctx
  unfolding check_key
  check_key_sound keys none ctx e = cc
  check_key_sound keys (some []) ctx e = cc
  check_key_sound none (some (c ∷ s)) ctx e = cc
  check_key_sound (some keys) (some (c ∷ s)) ctx e =
      elim (Option-cases (match_key utf8 (c ∷ s) keys)) [
        | inl missed ↦ cc (rw (missed, check_key) at e)
        | inr (found, at) ↦
            (c ∷ s, keys, refl, λ q. cc, refl, match_key_sound (c ∷ s) keys ctx (ground arith))
      ]

  check_key_complete :
      (keys : List (Text × ApiKeyEntry)) (presented : Text) (ctx : AuthContext)
      → presented ≢ []
      → Matches presented keys ctx
      → check_key utf8 (some keys) (some presented) ≡ ok ctx
  unfolding check_key
  check_key_complete keys [] ctx h m = absurd (h refl)
  check_key_complete keys (c ∷ s) ctx h m = rw (match_key_complete m, check_key)

  check_key-Admits :
      (keys : Option (List (Text × ApiKeyEntry))) (presented : Option Text) (ctx : AuthContext)
      → Admits keys presented ctx
      → check_key utf8 keys presented ≡ ok ctx
  check_key-Admits keys? presented? ctx (presented, keys, at, full, loaded, m) =
      rw (at, loaded) (check_key_complete keys presented ctx full m)

  -- With authentication on, a request is admitted exactly when it presents a non-empty key, a key
  -- file is loaded, and the first entry whose bytes are those of the key is the one returned.
  pub authenticate_iff :
      (cfg : AuthConfig) (h : Headers) (ctx : AuthContext)
      → cfg.auth_enabled ≡ true
      → (authenticate utf8 cfg h ≡ ok ctx) ↔ Admits cfg.api_keys (extract_key h) ctx
  unfolding authenticate
  authenticate_iff cfg h ctx on = (
    λ e. check_key_sound cfg.api_keys (extract_key h) ctx (rw on at e),
    λ a. rw on (check_key-Admits cfg.api_keys (extract_key h) ctx a),
  )
