-- ===== src/Zk/Fac/Completeness.antt =====
-- The verifier of src/mpc/zk/fac.ts on proofs of the prover.
use native.Mathlib.Nat.{mul_comm, mul-le-mul}
use threshold_sig_multiparty.Prelude.{
  ℕ, ◌+◌, ◌*◌, ◌^◌, ◌<◌, ◌≤◌, ◌≡◌, refl, ap, ◌∙◌, true, false, arith,
}
use threshold_sig_multiparty.Prelude.Eq.{nat_eq}
use threshold_sig_multiparty.Prelude.Result.{ok}
use threshold_sig_multiparty.Crypto.{Crypto}
use threshold_sig_multiparty.Hasher.{Hashing, Hasher}
use threshold_sig_multiparty.Arith.{is_in_interval_leps_plus_one_root_n}
use threshold_sig_multiparty.Pedersen
use threshold_sig_multiparty.Pedersen.{PedersenParams, validate_params}
use threshold_sig_multiparty.Pedersen.Opening.{verify-commit}
use threshold_sig_multiparty.Zk.{digest_challenge-ok}
use threshold_sig_multiparty.Zk.Fac.{
  FacPublic, FacPrivate, FacProof, FacSampled, transcript, challenge, commitments, create_proof,
  verify_proof,
}
use threshold_sig_multiparty.Zk.Fac.Product.{answer, product-honest}

module _ (C : Crypto) where
  -- A response to a factor of at most 1024 bits is in the interval.
  factor-interval :
      (e p a : ℕ)
      → e < C.order
      → p ≤ 2 ^ 1024
      → a < C.order
      → is_in_interval_leps_plus_one_root_n C (e * p + a) ≡ true
  unfolding is_in_interval_leps_plus_one_root_n
  factor-interval e p a e_lt p_le a_lt =
      let e_le : e ≤ 2 ^ 256 = omega (arith, e_lt, C.order_bound) in
      let product : e * p ≤ 2 ^ 256 * 2 ^ 1024 = mul-le-mul e_le p_le in
      let bound : e * p + a < 2 ^ 1793 = omega (arith, product, a_lt, C.order_bound) in
      ground (arith, (C.bit_length_iff (e * p + a) 1793 (omega arith)).1 bound)

  -- The response to a factor opens its commitment.
  factor-opened :
      (aux : PedersenParams) (p mu a x e : ℕ)
      → 0 < aux.n
      → validate_params C aux.n (Pedersen.commit C aux a x) (Pedersen.commit C aux p mu) ≡ ok tt
      → Pedersen.verify C aux
          (e * p + a)
          (e * mu + x)
          e
          (Pedersen.commit C aux a x)
          (Pedersen.commit C aux p mu)
        ≡ true
  factor-opened aux p mu a x e h valid =
      ap
        (λ k.
          Pedersen.verify C aux (k + a) (e * mu + x) e (Pedersen.commit C aux a x)
            (Pedersen.commit C aux p mu))
        (mul_comm e p)
      ∙ verify-commit C aux p mu a x e h valid

module _ (C : Crypto) (H : Hashing C.Point) where
  -- For a modulus that is the product of two factors of at most 1024 bits, sampled numbers alpha and
  -- beta below the order and Pedersen parameters whose t has no factor in common with their modulus,
  -- where the commitments of the factors and of alpha and beta pass `validateParams`: `create_proof`
  -- returns a proof, and `verify_proof` accepts it with the same transcript, also where V is negative.
  pub verify_fac-create_proof :
      (priv : FacPrivate) (aux : PedersenParams) (sampled : FacSampled) (h : Hasher)
      → 1 < aux.n
      → C.gcd aux.t aux.n ≡ 1
      → priv.p ≤ 2 ^ 1024
      → priv.q ≤ 2 ^ 1024
      → sampled.alpha < C.order
      → sampled.beta < C.order
      → validate_params C aux.n
          (Pedersen.commit C aux sampled.alpha sampled.x)
          (Pedersen.commit C aux priv.p sampled.mu)
        ≡ ok tt
      → validate_params C aux.n
          (Pedersen.commit C aux sampled.beta sampled.y)
          (Pedersen.commit C aux priv.q sampled.nu)
        ≡ ok tt
      → h.used ≡ false
      → let pub_data : FacPublic = record { n = priv.p * priv.q; aux = aux } in
        (proof : FacProof) × (create_proof C H priv pub_data sampled h ≡ ok proof)
        × (verify_proof C H proof pub_data h ≡ ok true)
  unfolding create_proof verify_proof challenge commitments
  verify_fac-create_proof priv aux sampled h lt unit p_le q_le a_lt b_lt valid_p valid_q fresh =
      let pub_data : FacPublic = record { n = priv.p * priv.q; aux = aux } in
      let comm = commitments C priv aux sampled in
      let pos_n : 0 < aux.n = omega (arith, lt) in
      let (e, drawn, e_lt) =
        digest_challenge-ok C H h (transcript C H pub_data comm) fresh
          (tt, (tt, (tt, (tt, (tt, (tt, (tt, tt))))))) in
      (
        answer C priv aux sampled e,
        rw drawn refl,
        rw
            (
              drawn,
              factor-opened C aux priv.p sampled.mu sampled.alpha sampled.x e pos_n valid_p,
              factor-opened C aux priv.q sampled.nu sampled.beta sampled.y e pos_n valid_q,
              product-honest C priv aux sampled e lt unit,
              factor-interval C e priv.p sampled.alpha e_lt p_le a_lt,
              factor-interval C e priv.q sampled.beta e_lt q_le b_lt,
            )
            refl,
      )
