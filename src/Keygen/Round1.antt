-- ===== src/Keygen/Round1.antt =====
-- src/mpc/keygen/round1.ts and round2.ts: a party makes its Paillier key, its share of the secret and
-- its contributions, and commits to them; then it opens the commitment. With the checks of numbers in
-- src/mpc/paillierKeyPair/paillierBackup.ts.
use threshold_sig_multiparty.Prelude.{
  ℕ, ◌-◌, ◌/◌, ◌%◌, String, Bool, List, [], ◌∷◌, Option, none, some,
}
use threshold_sig_multiparty.Prelude.Dict.{insert}
use threshold_sig_multiparty.Prelude.Eq.{◌==◌, nat_eq, string_eq}
use threshold_sig_multiparty.Prelude.Result.{Result, ok, err, ◌>>=◌, ◌>>◌, require}
use threshold_sig_multiparty.Crypto.{Crypto, AffinePoint}
use threshold_sig_multiparty.Hasher.{
  Hashing, Basic, Ingestable, basic, affine, hashable, commit, validate_commitment,
}
use threshold_sig_multiparty.Sample.{sample_scalar_point_pair}
use threshold_sig_multiparty.Schnorr.{SchCommitment, create_randomness}
use threshold_sig_multiparty.Pedersen
use threshold_sig_multiparty.Pedersen.{PedersenParams}
use threshold_sig_multiparty.Paillier.{SecretKey, from_primes, generate_pedersen}
use threshold_sig_multiparty.Polynomial
use threshold_sig_multiparty.Polynomial.{party_id_to_scalar}
use threshold_sig_multiparty.Exponent
use threshold_sig_multiparty.Exponent.{Exponent}
use threshold_sig_multiparty.Keygen.Session.{
  KeygenSession, KeygenInput1, KeygenInput2, KeygenInput3, clone_hash,
}

-- KeygenBroadcastForRound2
pub record KeygenBroadcast2 : Type 0 where
  pub from : String
  pub commitment : List ℕ

-- KeygenBroadcastForRound3
pub record KeygenBroadcast3 (C : Crypto) : Type 0 where
  pub from : String
  pub rid : ℕ
  pub c : ℕ
  pub vss_polynomial : Exponent C
  pub schnorr_commitment : SchCommitment
  pub elgamal_public : AffinePoint
  pub pedersen_public : PedersenParams
  pub decommitment : List ℕ

-- What process of KeygenRound1 draws; `random_primes` is what randomPaillierPrimes returns.
pub record Drawn1 : Type 0 where
  pub random_primes : ℕ × ℕ
  pub lambda : ℕ
  pub tau : ℕ
  pub elgamal : ℕ
  pub schnorr : ℕ
  pub rid : ℕ
  pub chain_key : ℕ
  pub decommitment : List ℕ

abbrev bits_blum_prime : ℕ
bits_blum_prime = 1024

-- handleBroadcastMessage of KeygenRound2, on the field `commitments`; an exception is caught.
unfoldable pub handle_commitment :
    List (String × List ℕ) → KeygenBroadcast2 → List (String × List ℕ)
handle_commitment commitments bmsg = elim (validate_commitment bmsg.commitment) [
  | err text ↦ commitments
  | ok _ ↦ insert bmsg.from bmsg.commitment commitments
]

module _ (C : Crypto) where
  -- validatePaillierPrime, for the answer of `isProbablyPrime`.
  unfoldable pub validate_paillier_prime : (ℕ → Bool) → ℕ → Result (Unit {0})
  validate_paillier_prime is_probably_prime p = do
    require (C.bit_length p == bits_blum_prime) "INVALID_P_BITS"
    require (p % 4 == 3) "INVALID_P_MOD_4"
    require (is_probably_prime ((p - 1) / 2)) "INVALID_P_MINUS_1_DIV_2"

  -- The key of process, from the precomputed primes or from random ones.
  unfoldable pub make_key : (ℕ → Bool) → Option (ℕ × ℕ) → ℕ × ℕ → Result SecretKey
  unfolding validate_paillier_prime from_primes
  make_key is_probably_prime none random_primes = from_primes C random_primes.0 random_primes.1
  make_key is_probably_prime (some primes) random_primes = do
    validate_paillier_prime is_probably_prime primes.0
    validate_paillier_prime is_probably_prime primes.1
    from_primes C primes.0 primes.1

  -- What a party commits to and opens.
  abbrev pub committed :
      ℕ → ℕ → Exponent C → AffinePoint → AffinePoint → PedersenParams → List (Ingestable C.Point)
  committed rid chain_key vss schnorr elgamal pedersen =
      basic (Basic.number rid)
      ∷ basic (Basic.number chain_key)
      ∷ hashable (Exponent.hashable C vss)
      ∷ affine schnorr
      ∷ affine elgamal
      ∷ hashable (Pedersen.hashable pedersen)
      ∷ []

  module _ (H : Hashing C.Point) where
    -- process of KeygenRound1
    unfoldable pub process1 :
        (ℕ → Bool)
        → KeygenSession
        → KeygenInput1
        → Drawn1
        → Result (KeygenBroadcast2 × KeygenInput2 C)
    process1 is_probably_prime session input drawn = do
      paillier_secret ← make_key is_probably_prime input.precomputed_primes drawn.random_primes
      let (pedersen, pedersen_secret) = generate_pedersen C paillier_secret drawn.lambda drawn.tau
      (elgamal_secret, elgamal_public) ← sample_scalar_point_pair C drawn.elgamal
      self_share ← Polynomial.evaluate C input.vss_secret (party_id_to_scalar C session.self_id)
      self_vss ← Exponent.from_poly C input.vss_secret
      schnorr_rand ← create_randomness C H drawn.schnorr none
      hasher ← clone_hash H session session.self_id
      (commitment, decommitment) ←
          commit H hasher
            (committed drawn.rid drawn.chain_key self_vss schnorr_rand.commitment.c elgamal_public
              pedersen)
            drawn.decommitment
      ok (
        record { from = session.self_id; commitment = commitment },
        record {
          input_round1 = input;
          self_vss_polynomial = self_vss;
          self_commitment = commitment;
          self_rid = drawn.rid;
          chain_key = drawn.chain_key;
          self_share = self_share;
          elgamal_public = elgamal_public;
          self_paillier_public = paillier_secret.public_key;
          self_pedersen_public = pedersen;
          elgamal_secret = elgamal_secret;
          paillier_secret = paillier_secret;
          pedersen_secret = pedersen_secret;
          schnorr_rand = schnorr_rand;
          decommitment = decommitment;
        },
      )

  -- process of KeygenRound2
  unfoldable pub process2 :
      KeygenSession → KeygenInput2 C → List (String × List ℕ) → KeygenBroadcast3 C × KeygenInput3 C
  process2 session input commitments = (
    record {
      from = session.self_id;
      rid = input.self_rid;
      c = input.chain_key;
      vss_polynomial = input.self_vss_polynomial;
      schnorr_commitment = input.schnorr_rand.commitment;
      elgamal_public = input.elgamal_public;
      pedersen_public = input.self_pedersen_public;
      decommitment = input.decommitment;
    },
    record { input_for_round2 = input; commitments = commitments },
  )
