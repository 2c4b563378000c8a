-- ===== src/Paillier.antt =====
-- src/mpc/paillierKeyPair/paillierKeygen.ts: Paillier's encryption. The messages that the program
-- encrypts are not negative; what `decrypt` returns may be.
pub mod Lifting
pub mod Ciphertexts
pub mod Affine
pub mod Decryption
use threshold_sig_multiparty.Prelude.{
  ℕ, ◌+◌, ◌-◌, ◌*◌, ◌/◌, ◌%◌, Bool, true, false, not, List, [], ◌∷◌, if◌then◌else◌, ltb, leb,
}
use threshold_sig_multiparty.Prelude.Eq.{◌==◌, nat_eq}
use threshold_sig_multiparty.Prelude.Int.{ℤ, pos, negsuc, sub_ℕ}
use threshold_sig_multiparty.Prelude.Result.{Result, ok, err, ◌>>=◌, ◌>>◌, require}
use threshold_sig_multiparty.Crypto.{Crypto}
use threshold_sig_multiparty.Hasher.{Basic}
use threshold_sig_multiparty.Pedersen.{PedersenParams}

-- PaillierPublicKey
pub record PublicKey : Type 0 where
  pub n : ℕ
  pub n_squared : ℕ
  pub n_plus_one : ℕ

-- `PaillierPublicKey.fromN`
unfoldable pub from_n : ℕ → PublicKey
from_n n = record { n = n; n_squared = n * n; n_plus_one = n + 1 }

unfoldable pub key_hashable : PublicKey → List Basic
key_hashable k = Basic.number k.n ∷ Basic.number k.n_squared ∷ Basic.number k.n_plus_one ∷ []

-- PaillierSecretKey
pub record SecretKey : Type 0 where
  pub p : ℕ
  pub q : ℕ
  pub phi : ℕ
  pub phi_inv : ℕ
  pub public_key : PublicKey

module _ (C : Crypto) where
  -- `PaillierSecretKey.fromPrimes`
  unfoldable pub from_primes : ℕ → ℕ → Result SecretKey
  unfolding from_n
  from_primes p q =
      let n = p * q in
      let phi = (p - 1) * (q - 1) in
      do
        phi_inv ← C.mod_inv phi n
        ok (record { p = p; q = q; phi = phi; phi_inv = phi_inv; public_key = from_n n })

  unfoldable pub encrypt_with_nonce : PublicKey → ℕ → ℕ → Result ℕ
  encrypt_with_nonce k message nonce = do
    require (leb message (k.n / 2)) "MESSAGE_TOO_LARGE"
    ok (
        C.mod_multiply
          (C.mod_pow k.n_plus_one message k.n_squared ∷ C.mod_pow nonce k.n k.n_squared ∷ [])
          k.n_squared)

  -- `encrypt`, with the nonce that `generateRandomNonce` returns: the ciphertext and the nonce.
  unfoldable pub encrypt : PublicKey → ℕ → ℕ → Result (ℕ × ℕ)
  unfolding encrypt_with_nonce
  encrypt k message nonce = do
    ciphertext ← encrypt_with_nonce k message nonce
    ok (ciphertext, nonce)

  unfoldable pub validate_ciphertext : PublicKey → ℕ → Bool
  validate_ciphertext k ciphertext =
      if not (ltb ciphertext k.n_squared)
      then false
      else if not (C.gcd ciphertext k.n_squared == 1)
      then false
      else true

  unfoldable pub mod_symmetric : ℕ → ℕ → ℤ
  mod_symmetric x n =
      let abs_mod = x % n in
      let negated = C.mod_negate abs_mod n in
      if leb negated abs_mod then sub_ℕ 0 negated else pos abs_mod

  unfoldable pub paillier_add : PublicKey → ℕ → ℕ → ℕ
  paillier_add k a b = C.mod_multiply (a ∷ b ∷ []) k.n_squared

  unfoldable pub paillier_multiply : PublicKey → ℕ → ℕ → ℕ
  paillier_multiply k ciphertext scalar = C.mod_pow ciphertext scalar k.n_squared

  -- The division rounds towards 0, so that it gives 0 where the difference is -1.
  unfoldable pub decrypt : SecretKey → ℕ → Result ℤ
  unfolding validate_ciphertext mod_symmetric
  decrypt sk ciphertext = do
    require (validate_ciphertext sk.public_key ciphertext) "INVALID_CIPHERTEXT"
    let c1 = C.mod_pow ciphertext sk.phi sk.public_key.n_squared
    let c3 = (c1 - 1) / sk.public_key.n
    let c4 = C.mod_multiply (c3 ∷ sk.phi_inv ∷ []) sk.public_key.n
    ok (mod_symmetric c4 sk.public_key.n)

  -- generatePedersen with samplePedersen, for the sampled lambda and tau.
  unfoldable pub generate_pedersen : SecretKey → ℕ → ℕ → PedersenParams × ℕ
  generate_pedersen sk lambda tau =
      let n = sk.public_key.n in
      let t = C.mod_multiply (tau ∷ tau ∷ []) n in
      (record { n = n; s = C.mod_pow t lambda n; t = t }, lambda)
