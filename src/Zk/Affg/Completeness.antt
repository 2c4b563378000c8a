-- ===== src/Zk/Affg/Completeness.antt =====
-- What the verifier of src/mpc/zk/affg.ts makes of the prover's proofs.
use threshold_sig_multiparty.Prelude.{ℕ, ◌+◌, ◌*◌, ◌/◌, ◌%◌, ◌<◌, ◌≤◌, ◌≡◌, true, false, arith}
use threshold_sig_multiparty.Prelude.Eq.{nat_eq}
use threshold_sig_multiparty.Prelude.Result.{ok}
use threshold_sig_multiparty.Crypto.{Crypto}
use threshold_sig_multiparty.Fn.Laws.{residue-small}
use threshold_sig_multiparty.Exponent.Horner.{multiply_valid}
use threshold_sig_multiparty.Curve.{is_identity}
use threshold_sig_multiparty.Hasher.{Hashing, Hasher}
use threshold_sig_multiparty.Pedersen
use threshold_sig_multiparty.Pedersen.{PedersenParams, validate_params}
use threshold_sig_multiparty.Pedersen.Opening.{verify-commit}
use threshold_sig_multiparty.Paillier.{from_n}
use threshold_sig_multiparty.Paillier.Ciphertexts.{
  encrypt_with_nonce-cipher, combined_nonce, square-lt,
}
use threshold_sig_multiparty.Zk.{
  square-le, response-lt, response-interval, response-interval_lprime,
}
use threshold_sig_multiparty.Zk.Affg.{
  AffgPrivate, AffgProof, AffgSampled, challenge, create_proof, verify_proof,
}
use threshold_sig_multiparty.Zk.Affg.Responses.{
  statement, committed, responses, point_matches-responses, verify_proof-passed,
  affine_matches-responses, summand_matches-responses, is_proof_valid-responses,
}

module _ (C : Crypto) (H : Hashing C.Point) where
  open C use {order, times, base}

  -- For moduli n0 and n1 > 1 whose halves are at least the square of the order, any kv without a factor
  -- in common with n0², secrets x and y and sampled alpha and beta below the order, nonces without a
  -- factor in common with their modulus, where the Pedersen commitments pass `validateParams`, alpha
  -- is not 0 and its multiple of the base point is not the identity, and the challenge e and the
  -- response x e + alpha are not 0 modulo the order: `create_proof` returns a proof that the sender's
  -- ciphertext is x times kv plus y, and `verify_proof` accepts it with the same transcript.
  pub verify_affg-create_proof :
      (n0 n1 kv : ℕ) (aux : PedersenParams) (priv : AffgPrivate) (sampled : AffgSampled)
      (h : Hasher) (e : ℕ)
      → 1 < n0
      → 1 < n1
      → order * order ≤ n0 / 2
      → order * order ≤ n1 / 2
      → 0 < aux.n
      → C.gcd kv (n0 * n0) ≡ 1
      → priv.x < order
      → priv.y < order
      → 0 < sampled.alpha
      → sampled.alpha < order
      → sampled.beta < order
      → C.gcd priv.s n0 ≡ 1
      → C.gcd sampled.rho n0 ≡ 1
      → C.gcd priv.r n1 ≡ 1
      → C.gcd sampled.rho_y n1 ≡ 1
      → is_identity C (times sampled.alpha base) ≡ false
      → validate_params C aux.n
          (Pedersen.commit C aux sampled.alpha sampled.gamma)
          (Pedersen.commit C aux priv.x sampled.m)
        ≡ ok tt
      → validate_params C aux.n
          (Pedersen.commit C aux sampled.beta sampled.delta)
          (Pedersen.commit C aux priv.y sampled.mu)
        ≡ ok tt
      → challenge C H (statement C n0 n1 kv aux priv) (committed C n0 n1 kv aux priv sampled) h
        ≡ ok e
      → 0 < e
      → e < order
      → 0 < (priv.x * e + sampled.alpha) % order
      → (proof : AffgProof) × (create_proof C H (statement C n0 n1 kv aux priv) priv sampled h
          ≡ ok proof)
        × (verify_proof C H proof (statement C n0 n1 kv aux priv) h ≡ ok true)
  unfolding create_proof from_n
  verify_affg-create_proof n0 n1 kv aux priv sampled h e lt0 lt1 half0 half1 aux_pos kv_unit x_lt
        y_lt a_pos a_lt b_lt s_unit rho_unit r_unit rho_y_unit not_zero valid1 valid2 drawn e_pos
        e_lt z_pos =
      let x = priv.x in
      let y = priv.y in
      let a = sampled.alpha in
      let b = sampled.beta in
      let pos0 : 0 < n0 = omega arith in
      let pos1 : 0 < n1 = omega arith in
      let square = square-le order in
      let bound = response-lt y e b order y_lt e_lt b_lt in
      let unit_s = (C.gcd_iff priv.s n0 lt0).0 s_unit in
      let unit_rho = (C.gcd_iff sampled.rho n0 lt0).0 rho_unit in
      let unit_r = (C.gcd_iff priv.r n1 lt1).0 r_unit in
      let unit_rho_y = (C.gcd_iff sampled.rho_y n1 lt1).0 rho_y_unit in
      let unit_kv = (C.gcd_iff kv (n0 * n0) (square-lt n0 lt0)).0 kv_unit in
      (
        responses C n0 n1 kv aux priv sampled e,
        ground (
          arith,
          encrypt_with_nonce-cipher C n0 b sampled.rho pos0 (omega (arith, square)),
          residue-small C a a_lt,
          multiply_valid C base a a_pos a_lt,
          encrypt_with_nonce-cipher C n1 b sampled.rho_y pos1 (omega (arith, square)),
          drawn,
          combined_nonce C priv.s e sampled.rho n0 pos0,
          combined_nonce C priv.r e sampled.rho_y n1 pos1,
        ),
        verify_proof-passed C H (responses C n0 n1 kv aux priv sampled e)
            (statement C n0 n1 kv aux priv) h e
            (is_proof_valid-responses C H n0 n1 kv aux priv sampled e lt0 lt1 unit_kv unit_s
              unit_rho unit_r unit_rho_y not_zero)
            (response-interval C x e a x_lt e_lt a_lt)
            (response-interval_lprime C y e b y_lt e_lt b_lt) drawn
            (verify-commit C aux x sampled.m a sampled.gamma e aux_pos valid1)
            (verify-commit C aux y sampled.mu b sampled.delta e aux_pos valid2)
            (affine_matches-responses C H n0 n1 kv aux priv sampled e pos0 (omega (arith, bound)))
            (point_matches-responses C H n0 n1 kv aux priv sampled e e_pos e_lt z_pos)
            (summand_matches-responses C H n0 n1 kv aux priv sampled e pos1 (omega (arith, bound))),
      )
