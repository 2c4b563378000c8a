-- ===== src/Keygen/Opening.antt =====
-- How round 3 of a key generation receives what rounds 1 and 2 of another party broadcast: the
-- handlers of src/mpc/keygen/round1.ts, round2.ts and round3.ts together.
pub mod Steps
use threshold_sig_multiparty.Prelude.{
  ℕ, suc, ◌<◌, ◌≡◌, refl, sym, ap, ◌∙◌, subst, String, Bool, true, false, List, ◌∷◌, map, length,
  length-map, none, some, arith,
}
use threshold_sig_multiparty.Prelude.Dict.{lookup, insert, lookup-insert_self}
use threshold_sig_multiparty.Prelude.Eq.{◌==◌, nat_eq, string_eq, ==_refl}
use threshold_sig_multiparty.Prelude.Int.{pos, ◌-ℤ◌}
use threshold_sig_multiparty.Prelude.Result.{ok}
use threshold_sig_multiparty.Crypto.{Crypto, AffinePoint}
use threshold_sig_multiparty.Hasher.{
  Hashing, Hasher, Basic, basic, clone, update, commit, decommit, validate_commitment,
}
use threshold_sig_multiparty.Hasher.Commitment.{decommit-commit}
use threshold_sig_multiparty.Pedersen
use threshold_sig_multiparty.Pedersen.{PedersenParams}
use threshold_sig_multiparty.Polynomial
use threshold_sig_multiparty.Polynomial.{Polynomial, party_id_to_scalar}
use threshold_sig_multiparty.Polynomial.Samples.{
  samples, create-coefficients, samples-AreScalars, length-samples,
}
use threshold_sig_multiparty.Exponent
use threshold_sig_multiparty.Exponent.{Exponent, same_bool, is_zero?}
use threshold_sig_multiparty.Exponent.Horner.{from_poly-commit}
use threshold_sig_multiparty.Paillier.{SecretKey, from_n, generate_pedersen}
use threshold_sig_multiparty.Sample.{sample_scalar_point_pair}
use threshold_sig_multiparty.Schnorr.{SchRandomness, create_randomness}
use threshold_sig_multiparty.Keygen.Session.{
  KeygenSession, KeygenInput1, KeygenInput2, KeygenInput3, clone_hash,
}
use threshold_sig_multiparty.Keygen.Round1.{
  KeygenBroadcast3, Drawn1, make_key, committed, process1, process2, handle_commitment,
}
use threshold_sig_multiparty.Keygen.Round3.{
  KeygenRound3, paillier_validate_n, check_opening, handle_opening,
}
use threshold_sig_multiparty.Keygen.Opening.Steps.{
  from_poly-shape, check_opening-honest, handle_opening-checked, process1-made,
}

module _ (C : Crypto) (H : Hashing C.Point) where
  -- For a sender and a receiver whose hashers are the same and whose secret polynomials the
  -- constructor makes from a constant between 1 and order - 1 and from samples between 1 and
  -- order - 1, of the degree that is the session's threshold: where the calls of the sender's
  -- round 1 return, `validateCommitment` refuses neither the commitment nor the random bytes, the
  -- modulus passes `paillierValidateN` and the Pedersen parameters pass `validate`, and the receiver's
  -- round 2 has handled the sender's commitment: round 1 of the sender returns, and when the
  -- receiver's round 3 handles what the sender's round 2 broadcasts, it stores the sender's rid,
  -- chain key, polynomial in the exponent, parameters, key, Schnorr commitment and ElGamal point.
  pub handle_opening-process1 :
      (prime : ℕ → Bool) (from to : KeygenSession) (input : KeygenInput1) (drawn : Drawn1)
      (sk : SecretKey) (params : PedersenParams) (lambda elgamal share c d : ℕ)
      (sample sample2 : ℕ → ℕ) (elgamal_public : AffinePoint) (e : Exponent C) (r : SchRandomness)
      (g : Hasher) (commitment : List ℕ) (commitments others : List (String × List ℕ))
      (input3 : KeygenInput3 C) (s : KeygenRound3 C)
      → to.hasher ≡ from.hasher
      → input.vss_secret ≡ Polynomial.create to.threshold c sample
      → 0 < c
      → c < C.order
      → ((i : ℕ) → (0 < sample i) × (sample i < C.order))
      → input3.input_for_round2.input_round1.vss_secret ≡ Polynomial.create to.threshold d sample2
      → 0 < d
      → make_key C prime input.precomputed_primes drawn.random_primes ≡ ok sk
      → generate_pedersen C sk drawn.lambda drawn.tau ≡ (params, lambda)
      → sample_scalar_point_pair C drawn.elgamal ≡ ok (elgamal, elgamal_public)
      → Polynomial.evaluate C input.vss_secret (party_id_to_scalar C from.self_id) ≡ ok share
      → Exponent.from_poly C input.vss_secret ≡ ok e
      → create_randomness C H drawn.schnorr none ≡ ok r
      → clone_hash H from from.self_id ≡ ok g
      → commit H g
          (committed C drawn.rid drawn.chain_key e r.commitment.c elgamal_public params)
          drawn.decommitment
        ≡ ok (commitment, drawn.decommitment)
      → validate_commitment commitment ≡ ok tt
      → validate_commitment drawn.decommitment ≡ ok tt
      → paillier_validate_n C params.n ≡ ok tt
      → Pedersen.validate C params ≡ ok tt
      → input3.commitments
        ≡ handle_commitment commitments (record { from = from.self_id; commitment = commitment })
      → (input2 : KeygenInput2 C) × (process1 C H prime from input drawn
          ≡ ok (record { from = from.self_id; commitment = commitment }, input2))
        × (let b = (process2 C from input2 others).0 in
            let s' = handle_opening C H to input3 s b in
            (lookup from.self_id s'.rids ≡ some drawn.rid)
            × (lookup from.self_id s'.chain_keys ≡ some drawn.chain_key)
            × (lookup from.self_id s'.vss_polynomials ≡ some e)
            × (lookup from.self_id s'.pedersen ≡ some params)
            × (lookup from.self_id s'.paillier_public ≡ some (from_n params.n))
            × (lookup from.self_id s'.schnorr_commitments ≡ some r.commitment)
            × (lookup from.self_id s'.elgamal_public ≡ some elgamal_public))
  unfolding process2 handle_commitment
  handle_opening-process1 prime from to input drawn sk params lambda elgamal share c d sample
        sample2 elgamal_public e r g commitment commitments others input3 s shared poly c_pos c_lt
        ok_sample their_poly d_pos made pedersen pair value expo random named committed_to valid
        opened modulus checked stored =
      let (kind, degree) =
        from_poly-shape C to.threshold c sample e c_pos c_lt ok_sample
          (ap (Exponent.from_poly C) (sym poly) ∙ expo) in
      let b : KeygenBroadcast3 C = record {
        from = from.self_id;
        rid = drawn.rid;
        c = drawn.chain_key;
        vss_polynomial = e;
        schnorr_commitment = r.commitment;
        elgamal_public = elgamal_public;
        pedersen_public = params;
        decommitment = drawn.decommitment;
      } in
      let named_to : clone_hash H to from.self_id ≡ ok g = same_name from to g shared named in
      let known : lookup from.self_id input3.commitments ≡ some commitment =
        ap (lookup from.self_id) stored
        ∙ rw (valid, handle_commitment) (lookup-insert_self from.self_id commitment commitments) in
      let constant_is : is_zero?
            (Polynomial.constant input3.input_for_round2.input_round1.vss_secret)
          ≡ false =
        ap (λ f. is_zero? (Polynomial.constant f)) their_poly
        ∙ constant-create to.threshold d sample2 d_pos in
      (
        record {
          input_round1 = input;
          self_vss_polynomial = e;
          self_commitment = commitment;
          self_rid = drawn.rid;
          chain_key = drawn.chain_key;
          self_share = share;
          elgamal_public = elgamal_public;
          self_paillier_public = sk.public_key;
          self_pedersen_public = params;
          elgamal_secret = elgamal;
          paillier_secret = sk;
          pedersen_secret = lambda;
          schnorr_rand = r;
          decommitment = drawn.decommitment;
        },
        process1-made C H prime from input drawn sk params lambda elgamal share elgamal_public e r g
            commitment made pedersen pair value expo random named committed_to,
        handle_opening-checked C H to input3 s b (
            check_opening-honest C H to input3 b commitment g opened constant_is kind degree modulus
              checked named_to known
              (decommit-commit H g
                (committed C drawn.rid drawn.chain_key e r.commitment.c elgamal_public params)
                drawn.decommitment commitment drawn.decommitment committed_to valid opened)),
      )
    where
      same_name :
          (from to : KeygenSession) (g : Hasher)
          → to.hasher ≡ from.hasher
          → clone_hash H from from.self_id ≡ ok g
          → clone_hash H to from.self_id ≡ ok g
      same_name from to g shared named =
          unfold clone_hash in
          ap (λ h. update H (clone h) (basic (Basic.text from.self_id))) shared ∙ named

      constant-create :
          (t d : ℕ) (sample : ℕ → ℕ)
          → 0 < d
          → is_zero? (Polynomial.constant (Polynomial.create t d sample)) ≡ false
      constant-create t d sample d_pos =
          unfold Polynomial.constant in rw (create-coefficients t d sample) (ground (arith, d_pos))
