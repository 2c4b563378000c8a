-- ===== src/Schnorr/Completeness.antt =====
-- What the verifier of src/mpc/zk/zksch.ts makes of the prover's responses.
use threshold_sig_multiparty.Prelude.{
  ℕ, ◌+◌, ◌*◌, ◌^◌, ◌<◌, ◌≡◌, ◌≢◌, refl, ap, ◌∙◌, true, false, Option, some, [], ◌∷◌, if◌then◌else◌,
  arith,
}
use threshold_sig_multiparty.Prelude.Eq.{◌==◌, nat_eq}
use threshold_sig_multiparty.Prelude.Result.{ok, ◌>>=◌, >>=-eq-ok}
use threshold_sig_multiparty.Crypto.{Crypto, AffinePoint}
use threshold_sig_multiparty.Crypto.Group.{times-mod, times-add, times-mul}
use threshold_sig_multiparty.Fn
use threshold_sig_multiparty.Fn.Laws.{sub-lt, add_lem, mul_lem, add-lt}
use threshold_sig_multiparty.Exponent.Horner.{multiply_valid}
use threshold_sig_multiparty.Curve.{is_identity}
use threshold_sig_multiparty.Hasher.{
  Hashing, Hasher, affine, projective, update_multi, digest_bigint,
}
use threshold_sig_multiparty.Schnorr.{
  SchResponse, SchCommitment, SchRandomness, generator, create_randomness, challenge, prove,
  verify_response, is_response_valid,
}

module _ (C : Crypto) where
  open C use {
    order, base, times, multiply, multiply_lem, to_affine, from_affine, equals, equals_iff,
  }

  -- The two sides of the equation that the verifier tests.
  response_point :
      (e s a : ℕ) (g : C.Point)
      → times (Fn.add C (Fn.mul C e s) a) g ≡ C.add (times e (times s g)) (times a g)
  response_point e s a g =
      ap (λ k. times k g) (add_lem C (Fn.mul C e s) a)
      ∙ times-mod C (Fn.mul C e s + a) g
      ∙ times-add C (Fn.mul C e s) a g
      ∙ ap (λ p. C.add p (times a g))
          (ap (λ k. times k g) (mul_lem C e s) ∙ times-mod C (e * s) g ∙ times-mul C e s g)

  multiply-times : (p q : C.Point) (k : ℕ) → multiply p k ≡ ok q → q ≡ times k p
  multiply-times p q k h = ground (arith, multiply_lem p k)

  module _ (H : Hashing C.Point) where
    challenge-lt :
        (h : Hasher) (c : SchCommitment) (p : AffinePoint) (g : C.Point) (e : ℕ)
        → challenge C H h c p g ≡ ok e
        → e < order
    unfolding challenge
    challenge-lt h c p g e q =
        let (h1, _, q1) =
          >>=-eq-ok (update_multi H h (affine c.c ∷ affine p ∷ projective g ∷ []))
            (λ h1. digest_bigint H h1 >>= λ d. ok (Fn.sub C d.0 (2 ^ 255))) q in
        let (d, _, q2) = >>=-eq-ok (digest_bigint H h1) (λ d. ok (Fn.sub C d.0 (2 ^ 255))) q1 in
        ground (arith, q2, sub-lt C d.0 (2 ^ 255))

    create_randomness-commitment :
        (a : ℕ) (gen_in : Option AffinePoint) (r : SchRandomness)
        → create_randomness C H a gen_in ≡ ok r
        → (r.a ≡ a) × (from_affine r.commitment.c ≡ times a (generator C H gen_in))
    unfolding create_randomness
    create_randomness-commitment a gen_in r h =
        let g = generator C H gen_in in
        let (p, m, q) =
          >>=-eq-ok (multiply g a)
            (λ p. ok (record { a = a; commitment = record { c = to_affine p } })) h in
        ground (arith, multiply-times g p a m, q, C.from_to_affine p)

    -- For a secret s that is not 0 and the public point s·g, where that point is not the identity, and
    -- a challenge e that is not 0, `prove` returns a response; with the same transcript
    -- `verify_response` accepts it, unless it is 0: then it refuses it, without throwing.
    pub verify_response-prove :
        (h : Hasher) (gen_in : Option AffinePoint) (a s e : ℕ) (r : SchRandomness)
        (pub_point : AffinePoint)
        → pub_point ≡ to_affine (times s (generator C H gen_in))
        → is_identity C (from_affine pub_point) ≡ false
        → s ≢ 0
        → create_randomness C H a gen_in ≡ ok r
        → challenge C H h r.commitment pub_point (generator C H gen_in) ≡ ok e
        → e ≢ 0
        → (z : SchResponse) × (prove C H r h pub_point s gen_in ≡ ok (some z))
          × (verify_response C H (some z) h pub_point r.commitment gen_in
              ≡ ok (if z.z == 0 then false else true))
    unfolding prove verify_response is_response_valid
    verify_response-prove h gen_in a s e r pub_point pe not_id ns re ce ne =
        let g = generator C H gen_in in
        let k = Fn.add C (Fn.mul C e s) r.a in
        let rc = create_randomness-commitment a gen_in r re in
        let public : from_affine pub_point ≡ times s g =
          ap from_affine pe ∙ C.from_to_affine (times s g) in
        let e_lt = challenge-lt h r.commitment pub_point g e ce in
        let sides : times k g
            ≡ C.add (times e (from_affine pub_point)) (from_affine r.commitment.c) =
          response_point e s r.a g ∙ rw (public, rc.1, rc.0) refl in
        let eq : equals (times k g)
              (C.add (times e (from_affine pub_point)) (from_affine r.commitment.c))
            ≡ true =
          (equals_iff (times k g)
              (C.add (times e (from_affine pub_point)) (from_affine r.commitment.c))).1
            sides in
        (
          record { z = k },
          ground (arith, not_id, ce),
          ground (
            arith,
            not_id,
            ce,
            eq,
            multiply_valid C g k,
            multiply_valid C (from_affine pub_point) e,
            add-lt C (Fn.mul C e s) r.a,
          ),
        )
