-- ===== src/Wallet/Derivation.antt =====
-- The wallet that a seed gives, and the seeds that the signers give.
use b402_solana.Common.{
  ℕ, ◌+◌, ◌*◌, ◌/◌, ◌%◌, ◌^◌, ◌≤◌, ◌<◌, ◌≡◌, inl, inr, refl, sym, ap, ◌∙◌, arith, false, List, [],
  ◌∷◌, length, take, get_or, set, length-take, All-take, length-set, bit_and-multiple_of_8,
  bit_and-seven_bits, bit_or-sixth, Text, codes, Bytes, AllBytes, value, value-lt, get_or-lt, ok,
  err, ok_eq, ◌==◌, read_down, ◌++◌, get_or-set_self, bit_and, bit_or, take-length_self,
  value-take-suc, ◌≢◌, some, Option-cases, All-set, get_or-set_ne,
}
use b402_solana.Protocol.Encoding.{le_to_fr_reduced, fr_modulus}
use b402_solana.Protocol.Poseidon.{spending_pub}
use b402_solana.Wallet.{Wallet, clamp_x25519, reduced, build_wallet, bad_seed_length}
use b402_solana.Wallet.Signer.{
  Keypair, WalletAdapter, WalletAdapterSigner, keypair_seed, from_adapter, derivation_message,
}

value-clamped :
    (out : Bytes)
    → length out ≡ 32
    → AllBytes out
    → get_or out 0 0 % 8 ≡ 0
    → 64 ≤ get_or out 31 0
    → get_or out 31 0 < 128
    → (value out % 8 ≡ 0) × (2 ^ 254 ≤ value out) × (value out < 2 ^ 255)
value-clamped [] n h low from to = absurd (omega arith)
value-clamped (x ∷ out) n h low from to =
    let whole : value (take 32 (x ∷ out)) ≡ value (x ∷ out) =
      ap (λ (i : ℕ). value (take i (x ∷ out))) (sym n) ∙ ap value (take-length_self (x ∷ out)) in
    let split = value-take-suc (x ∷ out) 31 (omega (arith, n)) in
    let short = value-lt (take 31 (x ∷ out)) (All-take (λ b. b < 256) 31 (x ∷ out) h) in
    let size = length-take 31 (x ∷ out) in
    let bound : 256 ^ length (take 31 (x ∷ out)) ≡ 256 ^ 31 =
      let count : length (take 31 (x ∷ out)) ≡ 31 = omega (arith, size, n) in
      ap (λ (i : ℕ). 256 ^ i) count in
    (
      omega (arith, low),
      omega (arith, whole, split, from),
      omega (arith, whole, split, short, bound, to),
    )

clamp_x25519-value :
    (bytes : Bytes)
    → length bytes ≡ 32
    → AllBytes bytes
    → (out : Bytes) × (clamp_x25519 bytes ≡ ok out)
      × ((length out ≡ 32) × AllBytes out)
      × ((value out % 8 ≡ 0) × (2 ^ 254 ≤ value out) × (value out < 2 ^ 255))
unfolding clamp_x25519
clamp_x25519-value bytes n h =
    let first : ℕ = bit_and (get_or bytes 0 0) 248 in
    let low : Bytes = set bytes 0 first in
    let seven : ℕ = bit_and (get_or low 31 0) 127 in
    let masked : Bytes = set low 31 seven in
    let last : ℕ = bit_or (get_or masked 31 0) 64 in
    let out : Bytes = set masked 31 last in
    let at_low : length low ≡ 32 = length-set bytes 0 first ∙ n in
    let at_masked : length masked ≡ 32 = length-set low 31 seven ∙ at_low in
    let at_out : length out ≡ 32 = length-set masked 31 last ∙ at_masked in
    let first_is : first ≡ get_or bytes 0 0 / 8 * 8 =
      bit_and-multiple_of_8 (get_or bytes 0 0) (get_or-lt bytes 0 h) in
    let seven_is : seven ≡ get_or low 31 0 % 128 = bit_and-seven_bits (get_or low 31 0) in
    let kept : get_or masked 31 0 ≡ seven =
      get_or-set_self low 31 seven 0 (omega (arith, at_low)) in
    let last_is : last ≡ 64 + seven % 64 =
      ap (λ (i : ℕ). bit_or i 64) kept ∙ bit_or-sixth seven (omega (arith, seven_is)) in
    let top : get_or out 31 0 ≡ last =
      get_or-set_self masked 31 last 0 (omega (arith, at_masked)) in
    let bottom : get_or out 0 0 ≡ first =
      get_or-set_ne masked 31 0 last 0 (λ e. omega (arith, e))
      ∙ get_or-set_ne low 31 0 seven 0 (λ e. omega (arith, e))
      ∙ get_or-set_self bytes 0 first 0 (omega (arith, n)) in
    let small : AllBytes out =
      All-set (λ b. b < 256) masked 31 last
        (All-set (λ b. b < 256) low 31 seven
          (All-set (λ b. b < 256) bytes 0 first h (omega (arith, first_is, get_or-lt bytes 0 h)))
          (omega (arith, seven_is)))
        (omega (arith, last_is)) in
    (
      out,
      rw n refl,
      (at_out, small),
      value-clamped out at_out small (omega (arith, bottom, first_is)) (omega (arith, top, last_is))
          (omega (arith, top, last_is)),
    )

reduced-lt :
    (hash : Bytes) → length hash ≡ 32 → (priv : ℕ) × (reduced hash ≡ ok priv) × (priv < fr_modulus)
unfolding reduced le_to_fr_reduced
reduced-lt hash n =
    (read_down 32 0 0 hash % fr_modulus, rw (reduced, le_to_fr_reduced, n) refl, omega arith)

from_adapter-seed {ℓ} :
    {Tx : Type ℓ} (sha256 : Bytes → Bytes) (utf8 : Text → Bytes) (a : WalletAdapter Tx)
    (s : WalletAdapterSigner Tx) (sign : Bytes → Bytes)
    → from_adapter sha256 utf8 a ≡ ok s
    → a.sign_message ≡ some sign
    → s.seed ≡ take 32 (sha256 (sign (utf8 derivation_message)))
unfolding from_adapter
from_adapter-seed {Tx = Tx} sha256 utf8 a s sign e signs = elim (Option-cases a.public_key) [
  | inl missing ↦ cc (rw (from_adapter, missing) at e)
  | inr (key, at) ↦
      ap (λ (z : WalletAdapterSigner Tx). z.seed) (sym (ok_eq (rw (from_adapter, at, signs) at e)))
]

module _ (raw : List ℕ → ℕ) (sha512 : Bytes → Bytes) (utf8 : Text → Bytes)
    (x25519_public : Bytes → Bytes)
    (digest : (m : Bytes) → (length (sha512 m) ≡ 64) × AllBytes (sha512 m)) where
  -- With a SHA-512 that returns 64 bytes, a seed of 32 bytes gives a wallet with that seed, whose
  -- spending key is a field element, whose public spending key is that key's hash, and whose viewing
  -- key is a clamped scalar of 32 bytes, a multiple of 8 from 2^254 on and below 2^255, with the
  -- public key of this scalar; and a seed of any other length is refused.
  pub build_wallet-keys :
      (seed : Bytes)
      → (length seed ≡ 32
          → (w : Wallet) × (build_wallet raw sha512 utf8 x25519_public seed ≡ ok w)
            × (w.seed ≡ seed)
            × (w.spending_priv < fr_modulus)
            × (w.spending_pub ≡ spending_pub raw w.spending_priv)
            × ((length w.viewing_priv ≡ 32)
                × (value w.viewing_priv % 8 ≡ 0)
                × (2 ^ 254 ≤ value w.viewing_priv)
                × (value w.viewing_priv < 2 ^ 255)
                × (w.viewing_pub ≡ x25519_public w.viewing_priv)))
        × (length seed ≢ 32 → build_wallet raw sha512 utf8 x25519_public seed ≡ err bad_seed_length)
  unfolding build_wallet
  build_wallet-keys seed = (
    λ n.
        let spend : Bytes = sha512 (utf8 (codes "b402/v1/spend-key") ++ seed) in
        let view : Bytes = sha512 (utf8 (codes "b402/v1/view-key") ++ seed) in
        let (priv, spends, small) =
          reduced-lt (take 32 spend) (omega (arith, length-take 32 spend, (digest _).0)) in
        let (scalar, views, (size, bytes), (multiple, least, most)) =
          clamp_x25519-value (take 32 view) (omega (arith, length-take 32 view, (digest _).0))
            (All-take (λ b. b < 256) 32 view (digest _).1) in
        (
          record {
            seed = seed;
            spending_priv = priv;
            spending_pub = spending_pub raw priv;
            viewing_priv = scalar;
            viewing_pub = x25519_public scalar;
          },
          rw (n, spends, views) refl,
          refl,
          small,
          refl,
          (size, multiple, least, most, refl),
        ),
    λ other. let differs : length seed == 32 ≡ false = ground arith in rw differs refl,
  )

  -- A wallet that an adapter's signer gives has the seed of the adapter's signature of the derivation
  -- message, so two adapters that sign this message alike give the same wallet; and with digests of
  -- their lengths, the seeds of an adapter's signer and of a key pair's 64 bytes both give a wallet.
  pub from_adapter-build_wallet {ℓ} :
      {Tx : Type ℓ} (sha256 : Bytes → Bytes)
      → ((m : Bytes) → length (sha256 m) ≡ 32)
      → (a b : WalletAdapter Tx) (s t : WalletAdapterSigner Tx) (sign : Bytes → Bytes)
      → from_adapter sha256 utf8 a ≡ ok s
      → from_adapter sha256 utf8 b ≡ ok t
      → a.sign_message ≡ some sign
      → b.sign_message ≡ some sign
      → (build_wallet raw sha512 utf8 x25519_public s.seed
          ≡ build_wallet raw sha512 utf8 x25519_public t.seed)
        × ((w : Wallet) × (build_wallet raw sha512 utf8 x25519_public s.seed ≡ ok w))
        × ((kp : Keypair)
            → length kp.secret_key ≡ 64
            → (w : Wallet) × (build_wallet raw sha512 utf8 x25519_public (keypair_seed kp) ≡ ok w))
  unfolding keypair_seed
  from_adapter-build_wallet sha256 sized a b s t sign from to signs likewise =
      let seed : Bytes = take 32 (sha256 (sign (utf8 derivation_message))) in
      let first : s.seed ≡ seed = from_adapter-seed sha256 utf8 a s sign from signs in
      let second : t.seed ≡ seed = from_adapter-seed sha256 utf8 b t sign to likewise in
      let (w, built, _, _, _, _) =
        (build_wallet-keys seed).0
          (omega (arith, length-take 32 (sha256 (sign (utf8 derivation_message))), sized _)) in
      (
        ap (build_wallet raw sha512 utf8 x25519_public) (first ∙ sym second),
        (w, ap (build_wallet raw sha512 utf8 x25519_public) first ∙ built),
        λ kp n.
            let (w', built', _, _, _, _) =
              (build_wallet-keys (take 32 kp.secret_key)).0
                (omega (arith, length-take 32 kp.secret_key, n)) in
            (w', built'),
      )
