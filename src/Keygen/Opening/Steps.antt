-- ===== src/Keygen/Opening/Steps.antt =====
-- What the rounds 1 and 3 of a key generation in src/mpc/keygen make of calls that return and of
-- checks that pass.
use threshold_sig_multiparty.Prelude.{
  ℕ, suc, ◌<◌, ◌≡◌, refl, sym, ap, ◌∙◌, subst, Bool, true, false, List, ◌∷◌, map, length,
  length-map, none, some, arith,
}
use threshold_sig_multiparty.Prelude.Dict.{lookup, insert, lookup-insert_self}
use threshold_sig_multiparty.Prelude.Eq.{◌==◌, nat_eq, string_eq, ==_refl}
use threshold_sig_multiparty.Prelude.Int.{pos, ◌-ℤ◌}
use threshold_sig_multiparty.Prelude.Result.{ok}
use threshold_sig_multiparty.Crypto.{Crypto, AffinePoint}
use threshold_sig_multiparty.Hasher.{Hashing, Hasher, commit, decommit, validate_commitment}
use threshold_sig_multiparty.Pedersen
use threshold_sig_multiparty.Pedersen.{PedersenParams}
use threshold_sig_multiparty.Polynomial
use threshold_sig_multiparty.Polynomial.{Polynomial, party_id_to_scalar}
use threshold_sig_multiparty.Polynomial.Samples.{
  samples, create-coefficients, samples-AreScalars, length-samples,
}
use threshold_sig_multiparty.Exponent
use threshold_sig_multiparty.Exponent.{Exponent, same_bool, is_zero?}
use threshold_sig_multiparty.Exponent.Horner.{from_poly-commit}
use threshold_sig_multiparty.Paillier.{SecretKey, from_n, generate_pedersen}
use threshold_sig_multiparty.Sample.{sample_scalar_point_pair}
use threshold_sig_multiparty.Schnorr.{SchRandomness, create_randomness}
use threshold_sig_multiparty.Keygen.Session.{KeygenSession, KeygenInput1, KeygenInput3, clone_hash}
use threshold_sig_multiparty.Keygen.Round1.{KeygenBroadcast3, Drawn1, make_key, committed, process1}
use threshold_sig_multiparty.Keygen.Round3.{
  KeygenRound3, paillier_validate_n, check_opening, handle_opening,
}

module _ (C : Crypto) where
  -- The polynomial in the exponent of a polynomial that the constructor makes from a constant that is
  -- not 0: its kind and its degree.
  pub from_poly-shape :
      (t c : ℕ) (sample : ℕ → ℕ) (e : Exponent C)
      → 0 < c
      → c < C.order
      → ((i : ℕ) → (0 < sample i) × (sample i < C.order))
      → Exponent.from_poly C (Polynomial.create t c sample) ≡ ok e
      → (e.is_constant ≡ false) × (Exponent.degree C e ≡ pos t)
  unfolding Exponent.degree ◌-ℤ◌
  from_poly-shape t c sample e c_pos c_lt ok_sample made =
      let cs = samples t 1 sample in
      let nonzero : (c == 0) ≡ false = ground (arith, c_pos) in
      let shape =
        from_poly-commit C (Polynomial.create t c sample) c cs (create-coefficients t c sample) c_lt
          (samples-AreScalars C.order t 1 sample ok_sample) in
      let points = map (λ k. C.times k C.base) (c ∷ cs) in
      let exponent : Exponent C = record { is_constant = false; coefficients = points } in
      let same : e ≡ exponent = ground (arith, made, shape, nonzero) in
      let count : length points ≡ suc t =
        length-map (c ∷ cs) (λ k. C.times k C.base) ∙ ap suc (length-samples t 1 sample) in
      subst (λ f. (f.is_constant ≡ false) × (Exponent.degree C f ≡ pos t)) (sym same)
        (refl, ground (arith, count))

  module _ (H : Hashing C.Point) where
    -- What the checks of round 3 make of an opening that passes each of them.
    pub check_opening-honest :
        (to : KeygenSession) (input : KeygenInput3 C) (b : KeygenBroadcast3 C) (commitment : List ℕ)
        (g : Hasher)
        → validate_commitment b.decommitment ≡ ok tt
        → is_zero? (Polynomial.constant input.input_for_round2.input_round1.vss_secret) ≡ false
        → b.vss_polynomial.is_constant ≡ false
        → Exponent.degree C b.vss_polynomial ≡ pos to.threshold
        → paillier_validate_n C b.pedersen_public.n ≡ ok tt
        → Pedersen.validate C b.pedersen_public ≡ ok tt
        → clone_hash H to b.from ≡ ok g
        → lookup b.from input.commitments ≡ some commitment
        → decommit H g commitment b.decommitment (
            committed C b.rid b.c b.vss_polynomial b.schnorr_commitment.c b.elgamal_public
              b.pedersen_public)
          ≡ ok true
        → check_opening C H to input b ≡ ok tt
    unfolding check_opening same_bool
    check_opening-honest to input b commitment g opened kind their_kind degree modulus params named
          known valid =
        rw
          (
            opened,
            kind,
            degree,
            ==_refl to.threshold,
            modulus,
            params,
            named,
            known,
            valid,
            their_kind,
          )
          refl

    pub handle_opening-checked :
        (to : KeygenSession) (input : KeygenInput3 C) (s : KeygenRound3 C) (b : KeygenBroadcast3 C)
        → check_opening C H to input b ≡ ok tt
        → let s' = handle_opening C H to input s b in
          (lookup b.from s'.rids ≡ some b.rid)
          × (lookup b.from s'.chain_keys ≡ some b.c)
          × (lookup b.from s'.vss_polynomials ≡ some b.vss_polynomial)
          × (lookup b.from s'.pedersen ≡ some b.pedersen_public)
          × (lookup b.from s'.paillier_public ≡ some (from_n b.pedersen_public.n))
          × (lookup b.from s'.schnorr_commitments ≡ some b.schnorr_commitment)
          × (lookup b.from s'.elgamal_public ≡ some b.elgamal_public)
    unfolding handle_opening
    handle_opening-checked to input s b checked =
        let stored : KeygenRound3 C = record {
          rids = insert b.from b.rid s.rids;
          chain_keys = insert b.from b.c s.chain_keys;
          paillier_public = insert b.from (from_n b.pedersen_public.n) s.paillier_public;
          pedersen = insert b.from b.pedersen_public s.pedersen;
          vss_polynomials = insert b.from b.vss_polynomial s.vss_polynomials;
          schnorr_commitments = insert b.from b.schnorr_commitment s.schnorr_commitments;
          elgamal_public = insert b.from b.elgamal_public s.elgamal_public;
        } in
        let same : handle_opening C H to input s b ≡ stored = rw (checked, handle_opening) refl in
        (
          ap (λ s'. lookup b.from s'.rids) same ∙ lookup-insert_self b.from b.rid s.rids,
          ap (λ s'. lookup b.from s'.chain_keys) same ∙ lookup-insert_self b.from b.c s.chain_keys,
          ap (λ s'. lookup b.from s'.vss_polynomials) same
              ∙ lookup-insert_self b.from b.vss_polynomial s.vss_polynomials,
          ap (λ s'. lookup b.from s'.pedersen) same
              ∙ lookup-insert_self b.from b.pedersen_public s.pedersen,
          ap (λ s'. lookup b.from s'.paillier_public) same
              ∙ lookup-insert_self b.from (from_n b.pedersen_public.n) s.paillier_public,
          ap (λ s'. lookup b.from s'.schnorr_commitments) same
              ∙ lookup-insert_self b.from b.schnorr_commitment s.schnorr_commitments,
          ap (λ s'. lookup b.from s'.elgamal_public) same
              ∙ lookup-insert_self b.from b.elgamal_public s.elgamal_public,
        )

    pub process1-made :
        (prime : ℕ → Bool) (from : KeygenSession) (input : KeygenInput1) (drawn : Drawn1)
        (sk : SecretKey) (params : PedersenParams) (lambda elgamal share : ℕ)
        (elgamal_public : AffinePoint) (e : Exponent C) (r : SchRandomness) (g : Hasher)
        (commitment : List ℕ)
        → make_key C prime input.precomputed_primes drawn.random_primes ≡ ok sk
        → generate_pedersen C sk drawn.lambda drawn.tau ≡ (params, lambda)
        → sample_scalar_point_pair C drawn.elgamal ≡ ok (elgamal, elgamal_public)
        → Polynomial.evaluate C input.vss_secret (party_id_to_scalar C from.self_id) ≡ ok share
        → Exponent.from_poly C input.vss_secret ≡ ok e
        → create_randomness C H drawn.schnorr none ≡ ok r
        → clone_hash H from from.self_id ≡ ok g
        → commit H g
            (committed C drawn.rid drawn.chain_key e r.commitment.c elgamal_public params)
            drawn.decommitment
          ≡ ok (commitment, drawn.decommitment)
        → process1 C H prime from input drawn
          ≡ ok (
            record { from = from.self_id; commitment = commitment },
            record {
              input_round1 = input;
              self_vss_polynomial = e;
              self_commitment = commitment;
              self_rid = drawn.rid;
              chain_key = drawn.chain_key;
              self_share = share;
              elgamal_public = elgamal_public;
              self_paillier_public = sk.public_key;
              self_pedersen_public = params;
              elgamal_secret = elgamal;
              paillier_secret = sk;
              pedersen_secret = lambda;
              schnorr_rand = r;
              decommitment = drawn.decommitment;
            },
          )
    unfolding process1
    process1-made prime from input drawn sk params lambda elgamal share elgamal_public e r g
          commitment made pedersen pair value expo random named committed_to =
        rw (made, pedersen, pair, value, expo, random, named, committed_to) refl
