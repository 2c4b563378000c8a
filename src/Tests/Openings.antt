-- ===== src/Tests/Openings.antt =====
-- The opening of a commitment in a key generation, with a modulus of 2048 bits.
use threshold_sig_multiparty.Prelude.{
  ℕ, ◌≡◌, refl, false, List, [], ◌∷◌, String, none, some, zero, suc, arith,
}
use threshold_sig_multiparty.Prelude.Eq.{nat_eq, string_eq}
use threshold_sig_multiparty.Prelude.Int.{◌%ℤ◌}
use threshold_sig_multiparty.Prelude.Dict.{lookup}
use threshold_sig_multiparty.Prelude.Result.{Result, ok, err}
use threshold_sig_multiparty.Crypto.{AffinePoint, product, sum_ℤ}
use threshold_sig_multiparty.Hasher.{Hasher, Ingestable, new_hasher, commit, validate_commitment}
use threshold_sig_multiparty.Schnorr.{SchRandomness, create_randomness}
use threshold_sig_multiparty.Sample.{sample_scalar_point_pair}
use threshold_sig_multiparty.Pedersen
use threshold_sig_multiparty.Pedersen.{PedersenParams}
use threshold_sig_multiparty.Paillier.{SecretKey, from_n, generate_pedersen}
use threshold_sig_multiparty.Polynomial
use threshold_sig_multiparty.Polynomial.{Polynomial, party_id_to_scalar}
use threshold_sig_multiparty.Exponent
use threshold_sig_multiparty.Exponent.{Exponent}
use threshold_sig_multiparty.Keygen.Session.{
  KeygenSession, KeygenInput1, KeygenInput2, KeygenInput3, clone_hash,
}
use threshold_sig_multiparty.Keygen.Round1.{
  Drawn1, make_key, committed, handle_commitment, process1, process2,
}
use threshold_sig_multiparty.Keygen.Round3.{KeygenRound3, paillier_validate_n, handle_opening}
use threshold_sig_multiparty.Keygen.Opening.{handle_opening-process1}
use threshold_sig_multiparty.Tests.Residues.{Residue, plain_hashing, residue_of}
use threshold_sig_multiparty.Tests.Known.{
  factor_p, factor_q, modulus, totient, totient_inverse, known,
}

abbrev ones : ℕ → List ℕ
ones zero = []
ones (suc k) = 1 ∷ ones k

abbrev point_of : ℕ → AffinePoint
point_of k = record { x = k; y = k }

abbrev params : PedersenParams
params = record { n = modulus; s = 16; t = 4 }

abbrev sk : SecretKey
sk = record {
  p = factor_p;
  q = factor_q;
  phi = totient;
  phi_inv = totient_inverse;
  public_key = from_n modulus;
}

abbrev drawn : Drawn1
drawn = record {
  random_primes = (factor_p, factor_q);
  lambda = 2;
  tau = 2;
  elgamal = 7;
  schnorr = 5;
  rid = 4;
  chain_key = 6;
  decommitment = ones 32;
}

abbrev vss : ℕ → Polynomial
vss c = Polynomial.create 1 c (λ i. 3)

abbrev input_of : ℕ → KeygenInput1
input_of c = record { vss_secret = vss c; precomputed_primes = none }

abbrev vss_public : Exponent known
vss_public = record { is_constant = false; coefficients = residue_of 2 ∷ residue_of 3 ∷ [] }

abbrev randomness : SchRandomness
randomness = record { a = 5; commitment = record { c = point_of 5 } }

abbrev session_of : String → KeygenSession
session_of id = record {
  party_ids = "a" ∷ "b" ∷ [];
  self_id = id;
  threshold = 1;
  hasher = new_hasher;
}

abbrev got : {A : Type 0} → A → Result A → A
got other (ok x) = x
got other (err text) = other

abbrev named : Hasher
named = got new_hasher (clone_hash plain_hashing (session_of "b") "b")

named_lem : clone_hash plain_hashing (session_of "b") "b" ≡ ok named
unfolding clone_hash
named_lem = refl

abbrev opened : List (Ingestable Residue)
opened = committed known 4 6 vss_public (point_of 5) (point_of 7) params

abbrev commitment : List ℕ
commitment = (got ([], []) (commit plain_hashing named opened (ones 32))).0

commitment_lem : commit plain_hashing named opened (ones 32) ≡ ok (commitment, ones 32)
unfolding commit clone_hash Exponent.hashable Pedersen.hashable
commitment_lem = refl

commitment_valid : validate_commitment commitment ≡ ok tt
unfolding validate_commitment commit clone_hash Exponent.hashable Pedersen.hashable
commitment_valid = refl

ones_valid : validate_commitment (ones 32) ≡ ok tt
unfolding validate_commitment
ones_valid = refl

key_made : make_key known (λ n. false) none (factor_p, factor_q) ≡ ok sk
unfolding make_key from_n
key_made = refl

params_made : generate_pedersen known sk 2 2 ≡ (params, 2)
unfolding generate_pedersen from_n product
params_made = refl

modulus_valid : paillier_validate_n known modulus ≡ ok tt
unfolding paillier_validate_n
modulus_valid = refl

params_valid : Pedersen.validate known params ≡ ok tt
unfolding Pedersen.validate
params_valid = refl

-- The receiver after rounds 1 and 2, when it has the commitment of "b".
abbrev receiver : KeygenInput3 known
receiver = record {
  input_for_round2 = record {
    input_round1 = input_of 4;
    self_vss_polynomial = vss_public;
    self_commitment = [];
    self_rid = 4;
    chain_key = 6;
    self_share = 10;
    elgamal_public = point_of 7;
    self_paillier_public = from_n modulus;
    self_pedersen_public = params;
    elgamal_secret = 7;
    paillier_secret = sk;
    pedersen_secret = 2;
    schnorr_rand = randomness;
    decommitment = ones 32;
  };
  commitments = handle_commitment [] (record { from = "b"; commitment = commitment });
}

abbrev empty_round : KeygenRound3 known
empty_round = record {
  rids = [];
  chain_keys = [];
  paillier_public = [];
  pedersen = [];
  vss_polynomials = [];
  schnorr_commitments = [];
  elgamal_public = [];
}

share_computed : Polynomial.evaluate known (vss 2) (party_id_to_scalar known "b") ≡ ok 8
unfolding Polynomial.create Polynomial.evaluate party_id_to_scalar ◌%ℤ◌ sum_ℤ product
share_computed = refl

vss_made : Exponent.from_poly known (vss 2) ≡ ok vss_public
unfolding Polynomial.create Exponent.from_poly
vss_made = refl

pair_made : sample_scalar_point_pair known 7 ≡ ok (7, point_of 7)
unfolding sample_scalar_point_pair
pair_made = refl

random_made : create_randomness known plain_hashing 5 none ≡ ok randomness
unfolding create_randomness
random_made = refl

handle_opening-process1_example :
    (input2 : KeygenInput2 known) × (process1 known plain_hashing
        (λ n. false)
        (session_of "b")
        (input_of 2)
        drawn
      ≡ ok (record { from = "b"; commitment = commitment }, input2))
    × (let b = (process2 known (session_of "b") input2 []).0 in
        let s = handle_opening known plain_hashing (session_of "a") receiver empty_round b in
        (lookup "b" s.rids ≡ some 4)
        × (lookup "b" s.chain_keys ≡ some 6)
        × (lookup "b" s.vss_polynomials ≡ some vss_public)
        × (lookup "b" s.pedersen ≡ some params)
        × (lookup "b" s.paillier_public ≡ some (from_n modulus))
        × (lookup "b" s.schnorr_commitments ≡ some randomness.commitment)
        × (lookup "b" s.elgamal_public ≡ some (point_of 7)))
handle_opening-process1_example =
    handle_opening-process1 known plain_hashing (λ n. false) (session_of "b") (session_of "a")
      (input_of 2) drawn sk params 2 7 8 2 4 (λ i. 3) (λ i. 3) (point_of 7) vss_public randomness
      named commitment [] [] receiver empty_round refl refl (omega arith) (omega arith)
      (λ i. (omega arith, omega arith)) refl (omega arith) key_made params_made pair_made
      share_computed vss_made random_made named_lem commitment_lem commitment_valid ones_valid
      modulus_valid params_valid refl
