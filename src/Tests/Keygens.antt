-- ===== src/Tests/Keygens.antt =====
-- The rounds of a key generation and the start of a signing session at concrete inputs.
use threshold_sig_multiparty.Prelude.{
  ℕ, ◌≡◌, refl, sym, ap, ◌∙◌, String, true, false, List, [], ◌∷◌, none, some, if◌then◌else◌, arith,
}
use threshold_sig_multiparty.Prelude.Eq.{◌==◌, nat_eq, string_eq}
use threshold_sig_multiparty.Prelude.Int.{◌%ℤ◌}
use threshold_sig_multiparty.Prelude.Dict.{lookup, insert, keys}
use threshold_sig_multiparty.Prelude.Result.{Result, ok, err, ◌>>=◌}
use threshold_sig_multiparty.Crypto.{AffinePoint, product, sum_ℤ}
use threshold_sig_multiparty.Hasher.{
  Hasher, clone, Basic, basic, hashable, new_hasher, update, update_multi,
}
use threshold_sig_multiparty.Schnorr.{SchRandomness, SchResponse, challenge, create_randomness}
use threshold_sig_multiparty.Curve.{is_identity}
use threshold_sig_multiparty.Fn
use threshold_sig_multiparty.Pedersen.{PedersenParams, commit, validate_params}
use threshold_sig_multiparty.Paillier.{from_n, generate_pedersen}
use threshold_sig_multiparty.Paillier.Decryption.{key}
use threshold_sig_multiparty.Polynomial
use threshold_sig_multiparty.Polynomial.{party_id_to_scalar}
use threshold_sig_multiparty.Exponent
use threshold_sig_multiparty.Exponent.{Exponent}
use threshold_sig_multiparty.Zk.Fac.{FacSampled}
use threshold_sig_multiparty.Keygen.{Shares}
use threshold_sig_multiparty.Keygen.Session.{
  KeygenSession, KeygenInput2, KeygenInput3, KeygenInput4, clone_hash,
}
use threshold_sig_multiparty.Keygen.Round3.{
  KeygenRound3, KeygenMessage4, Drawn3, hash_with_rid, send_share,
}
use threshold_sig_multiparty.Keygen
use threshold_sig_multiparty.Keygen.Round4.{
  PartyPublicConfig, PartySecretConfig, KeygenInput5, config_hashable, handle_message,
  public_configs, process4, check_response,
}
use threshold_sig_multiparty.Zk.Mod.{ModProof}
use threshold_sig_multiparty.Zk.Prm
use threshold_sig_multiparty.Zk.Prm.{PrmProof}
use threshold_sig_multiparty.Keygen.Round3.{KeygenBroadcast4}
use threshold_sig_multiparty.Keygen.Round4.{check_proofs}
use threshold_sig_multiparty.Keygen.Broadcast.{prm_private, check_proofs-create_proof}
use threshold_sig_multiparty.Tests.Moduli.{prm_valid, sound}
use threshold_sig_multiparty.Keygen.Response.{check_response-process4}
use threshold_sig_multiparty.Lagrange.{lagrange}
use threshold_sig_multiparty.Signing.{SignSession}
use threshold_sig_multiparty.Signing.Round1.{InputForRound1}
use threshold_sig_multiparty.Signing.Start.{SignRequest, start_session, public_point}
use threshold_sig_multiparty.Signing.Start.PublicKey.{weighted_sum, start_session-public_key}
use threshold_sig_multiparty.Keygen.Acceptance.{handle_message-send_share}
use threshold_sig_multiparty.Tests.Residues.{eleven, plain_hashing, residue_of}
use threshold_sig_multiparty.Tests.Ciphers.{fifteen, IsEuler-fifteen}

abbrev aux : PedersenParams
aux = record { n = 11; s = 2; t = 3 }

abbrev point_of : ℕ → AffinePoint
point_of k = record { x = k; y = k }

abbrev exponent_of : ℕ → ℕ → Exponent eleven
exponent_of a b = record { is_constant = false; coefficients = residue_of a ∷ residue_of b ∷ [] }

abbrev randomness : SchRandomness
randomness = record { a = 5; commitment = record { c = point_of 5 } }

-- What a party has after round 1, where its polynomial is c + 3 x.
abbrev first : ℕ → KeygenInput2 eleven
first c = record {
  input_round1 = record { vss_secret = Polynomial.create 1 c (λ i. 3); precomputed_primes = none };
  self_vss_polynomial = exponent_of c 3;
  self_commitment = [];
  self_rid = 4;
  chain_key = 6;
  self_share = 10;
  elgamal_public = point_of 7;
  self_paillier_public = from_n 15;
  self_pedersen_public = aux;
  elgamal_secret = 7;
  paillier_secret = fifteen;
  pedersen_secret = 6;
  schnorr_rand = randomness;
  decommitment = [];
}

abbrev second : ℕ → KeygenInput3 eleven
second c = record { input_for_round2 = first c; commitments = [] }

-- Both parties have the same key and parameters; their polynomials are 4 + 6 x and 2 + 3 x.
abbrev third : ℕ → KeygenInput4 eleven
third c = record {
  input_for_round3 = second c;
  rid = 5;
  chain_key = 6;
  pedersen_public = ("a", aux) ∷ ("b", aux) ∷ [];
  paillier_public = ("a", from_n 15) ∷ ("b", from_n 15) ∷ [];
  vss_polynomials = ("a", exponent_of 4 6) ∷ ("b", exponent_of 2 3) ∷ [];
  elgamal_public = ("a", point_of 7) ∷ ("b", point_of 7) ∷ [];
  schnorr_commitments = ("a", randomness.commitment) ∷ ("b", randomness.commitment) ∷ [];
}

abbrev session_of : String → Hasher → KeygenSession
session_of id h = record { party_ids = "a" ∷ "b" ∷ []; self_id = id; threshold = 1; hasher = h }

abbrev hashed : Result Hasher → Hasher
hashed (ok h) = h
hashed (err text) = new_hasher

abbrev after_rid : Hasher
after_rid = hashed (update plain_hashing new_hasher (basic (Basic.number 5)))

rid_hashed : update plain_hashing new_hasher (basic (Basic.number 5)) ≡ ok after_rid
unfolding update
rid_hashed = refl

abbrev round3_state : KeygenRound3 eleven
round3_state = record {
  rids = [];
  chain_keys = [];
  paillier_public = ("a", from_n 15) ∷ [];
  pedersen = ("a", aux) ∷ [];
  vss_polynomials = [];
  schnorr_commitments = [];
  elgamal_public = [];
}

abbrev fac_draw : FacSampled
fac_draw = record { alpha = 1; beta = 2; mu = 0; nu = 1; sigma = 1; r = 2; x = 1; y = 0 }

abbrev round3_draw : Drawn3
round3_draw = record { qnr = λ i. 7; exponents = λ i. 1; fac = λ id. fac_draw; nonce = λ id. 2 }

opened_alpha : validate_params eleven 11 (commit eleven aux 1 1) (commit eleven aux 3 0) ≡ ok tt
unfolding validate_params commit product
opened_alpha = refl

opened_beta : validate_params eleven 11 (commit eleven aux 2 0) (commit eleven aux 5 1) ≡ ok tt
unfolding validate_params commit product
opened_beta = refl

handle_message-send_share_example :
    (hash : Hasher) × (message : KeygenMessage4) × (hash_with_rid eleven plain_hashing
        (session_of "b" new_hasher)
        5
      ≡ ok hash)
    × (send_share eleven plain_hashing
          (session_of "b" new_hasher)
          (second 2)
          round3_state
          round3_draw
          hash
          15
          "a"
        ≡ ok message)
    × (handle_message eleven plain_hashing (session_of "a" after_rid) (third 4) [] message
        ≡ insert "b" 5 [])
unfolding lookup party_id_to_scalar Polynomial.create Polynomial.evaluate Exponent.from_poly ◌%ℤ◌
    sum_ℤ product
handle_message-send_share_example =
    handle_message-send_share eleven plain_hashing (session_of "b" new_hasher)
      (session_of "a" after_rid) (second 2) round3_state round3_draw (third 4) [] 3 5 2 3 5 2 5 1 2
      5 (λ i. 3) aux (exponent_of 2 3) refl refl refl rid_hashed refl refl refl refl refl refl refl
      refl (omega arith) (λ i. (omega arith, omega arith)) (omega arith) (omega arith) refl
      (omega arith) (omega arith) (omega arith) refl IsEuler-fifteen refl (omega arith)
      (omega arith) refl (omega arith) (omega arith) (omega arith) (omega arith) opened_alpha
      opened_beta

-- The shares of the secret: 4 at "a" and 2 at "b".
abbrev public_of : String → ℕ → PartyPublicConfig
public_of id share = record {
  party_id = id;
  ecdsa = point_of share;
  elgamal = point_of 7;
  paillier = from_n 15;
  pedersen = aux;
}

abbrev publics : List (String × PartyPublicConfig)
publics = ("a", public_of "a" 4) ∷ ("b", public_of "b" 2) ∷ []

abbrev config : PartySecretConfig
config = record {
  party_id = "a";
  threshold = 1;
  ecdsa = 4;
  elgamal = 7;
  paillier = fifteen;
  rid = 5;
  chain_key = 6;
  public_party_data = publics;
}

abbrev points : List (String × AffinePoint)
points = ("a", point_of 4) ∷ ("b", point_of 2) ∷ []

abbrev unsorted : List String → List String
unsorted ids = ids

shares_computed :
    Keygen.process eleven (third 4).vss_polynomials "a" ("a" ∷ "b" ∷ []) 10 (("b", 5) ∷ [])
    ≡ ok (4, points)
unfolding Keygen.process ◌%ℤ◌ sum_ℤ product
shares_computed = refl

configs_made : public_configs eleven plain_hashing (third 4) points [] ("a" ∷ "b" ∷ []) ≡ ok publics
unfolding public_configs from_n
configs_made = refl

abbrev after_config : Hasher
unfolding config_hashable
after_config =
    hashed (update_multi plain_hashing new_hasher (hashable (config_hashable unsorted config) ∷ []))

config_hashed :
    update_multi plain_hashing new_hasher (hashable (config_hashable unsorted config) ∷ [])
    ≡ ok after_config
unfolding update_multi config_hashable
config_hashed = refl

challenge_drawn :
    (clone_hash plain_hashing (session_of "a" after_config) "a" >>= λ g.
    challenge eleven plain_hashing g randomness.commitment (point_of 4) eleven.base)
    ≡ ok 6
unfolding clone_hash challenge after_config config_hashable from_n Fn.sub ◌%ℤ◌ sum_ℤ
challenge_drawn = refl

abbrev round5_input : KeygenInput5 eleven
round5_input = record { input_for_round4 = third 2; updated_config = config }

not_identity : is_identity eleven (eleven.from_affine (point_of 4)) ≡ false
unfolding is_identity
not_identity = refl

random : create_randomness eleven plain_hashing 5 none ≡ ok randomness
unfolding create_randomness
random = refl

check_response-process4_example :
    (z : SchResponse) × (process4 eleven plain_hashing unsorted
        (session_of "a" new_hasher)
        (third 4)
        (("b", 5) ∷ [])
      ≡ ok (
        record { from = "a"; response = z },
        (
          record { input_for_round4 = third 4; updated_config = config },
          session_of "a" after_config,
        ),
      ))
    × (check_response eleven plain_hashing
          (session_of "b" after_config)
          round5_input
          (record { from = "a"; response = z })
        ≡ (if z.z == 0 then err "invalid schnorr response" else ok tt))
unfolding lookup clone_hash
check_response-process4_example =
    check_response-process4 eleven plain_hashing unsorted (session_of "a" new_hasher)
      (session_of "b" after_config) (third 4) (("b", 5) ∷ []) 4 5 6 points publics (public_of "a" 4)
      (public_of "a" 4) round5_input shares_computed configs_made refl refl not_identity
      (omega arith) random refl config_hashed
      (λ g made.
        ap
          (λ m. m >>= λ h.
            challenge eleven plain_hashing h randomness.commitment (point_of 4) eleven.base)
          (sym made)
        ∙ challenge_drawn)
      (omega arith) refl refl refl

-- The coefficients of "a" and "b" at 0 are 2 and -1.
abbrev coefficients : List (String × ℕ)
coefficients = ("a", 2) ∷ ("b", 10) ∷ []

coefficients_made : lagrange eleven ("a" ∷ "b" ∷ []) ≡ ok coefficients
unfolding lagrange ◌%ℤ◌ sum_ℤ product
coefficients_made = refl

abbrev request : SignRequest
request = record { message = 1 ∷ []; signer_ids = "a" ∷ "b" ∷ [] }

abbrev coefficient_of : String → ℕ
coefficient_of j = if j == "a" then 2 else 10

abbrev share_of : String → ℕ
share_of j = if j == "a" then 4 else 2

abbrev data_of : String → PartyPublicConfig
data_of j = public_of j (share_of j)

start_session-public_key_example :
    (session : SignSession) × (input : InputForRound1) × (start_session eleven plain_hashing
        unsorted request config
      ≡ ok (session, input))
    × (input.public_key
        ≡ eleven.to_affine (
            eleven.times
              (weighted_sum eleven coefficient_of share_of ("a" ∷ "b" ∷ []))
              eleven.base))
    × (input.secret_ecdsa ≡ Fn.mul eleven 2 4)
    × (lookup "a" input.parties_public
        ≡ some (record {
          ecdsa = eleven.to_affine (eleven.times input.secret_ecdsa eleven.base);
          paillier = from_n 15;
          pedersen = aux;
        }))
    × (unsorted (keys publics) ≡ "a" ∷ "b" ∷ []
        → public_point eleven unsorted config
          ≡ ok (
              eleven.to_affine (
                eleven.times
                  (weighted_sum eleven coefficient_of share_of ("a" ∷ "b" ∷ []))
                  eleven.base)))
unfolding lookup
start_session-public_key_example =
    start_session-public_key eleven plain_hashing unsorted request config coefficients
      coefficient_of share_of data_of coefficients_made
      (
        (refl, refl, omega arith, omega arith, refl),
        ((refl, refl, omega arith, omega arith, refl), tt),
      )
      refl refl refl

abbrev prm_aux : PedersenParams
prm_aux = (generate_pedersen eleven (key eleven 3 5 2) 6 2).0

abbrev knowing : KeygenInput4 eleven
knowing = record (third 4) { pedersen_public = ("b", prm_aux) ∷ [] }

check_proofs-create_proof_example :
    (hash : Hasher) × (proof : PrmProof) × (hash_with_rid eleven plain_hashing
        (session_of "b" new_hasher)
        5
      ≡ ok hash)
    × (Prm.create_proof eleven plain_hashing
          (prm_private eleven plain_hashing (second 2))
          prm_aux
          (λ i. 1)
          (clone hash)
        ≡ ok proof)
    × ((any_proof : ModProof)
        → check_proofs eleven plain_hashing
            (λ n. n == 3)
            (session_of "a" after_rid)
            knowing
            (record { from = "b"; mod_proof = any_proof; prm_proof = proof })
          ≡ ok tt)
    × ((b : KeygenBroadcast4)
        → b.from ≡ "b"
        → check_proofs eleven plain_hashing (λ n. n == 3) (session_of "a" after_rid) knowing b
          ≡ ok tt
        → Prm.verify_proof eleven plain_hashing b.prm_proof prm_aux (clone hash) ≡ ok true)
unfolding lookup
check_proofs-create_proof_example =
    check_proofs-create_proof eleven plain_hashing (λ n. n == 3) (session_of "b" new_hasher)
      (session_of "a" after_rid) (second 2) knowing 3 5 2 5 2 (λ i. 1) refl (omega arith)
      (omega arith) IsEuler-fifteen refl prm_valid sound refl rid_hashed refl
