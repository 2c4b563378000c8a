-- ===== src/Zk/Logstar/Completeness.antt =====
-- What the verifier of src/mpc/zk/logstar.ts makes of the prover's proofs.
use threshold_sig_multiparty.Prelude.{
  ℕ, ◌+◌, ◌*◌, ◌/◌, ◌%◌, ◌^◌, ◌<◌, ◌≤◌, ◌≡◌, true, false, Option, arith,
}
use threshold_sig_multiparty.Prelude.Eq.{nat_eq}
use threshold_sig_multiparty.Prelude.Result.{ok}
use threshold_sig_multiparty.Crypto.{Crypto, AffinePoint}
use threshold_sig_multiparty.Fn.Laws.{residue-small}
use threshold_sig_multiparty.Exponent.Horner.{multiply_valid}
use threshold_sig_multiparty.Curve.{is_identity}
use threshold_sig_multiparty.Hasher.{Hashing, Hasher}
use threshold_sig_multiparty.Pedersen
use threshold_sig_multiparty.Pedersen.{PedersenParams, validate_params}
use threshold_sig_multiparty.Pedersen.Opening.{verify-commit}
use threshold_sig_multiparty.Paillier.{from_n}
use threshold_sig_multiparty.Paillier.Ciphertexts.{
  cipher, encrypt_with_nonce-cipher, validate-cipher, combined_nonce, combined_nonce-valid,
  paillier_combine,
}
use threshold_sig_multiparty.Zk.{square-le, digest_challenge-ok, response-lt, response-interval}
use threshold_sig_multiparty.Zk.Logstar.{
  LogstarPublic, LogstarPrivate, LogstarCommitment, LogstarProof, LogstarSampled, point_g,
  transcript, challenge, create_proof, is_proof_valid, verify_proof,
}

-- The public data about the ciphertext of the secret x, with any point X.
abbrev pub encrypted :
    ℕ → AffinePoint → Option AffinePoint → PedersenParams → LogstarPrivate → LogstarPublic
encrypted n big_x g aux priv = record {
  big_c = cipher n priv.x priv.rho;
  big_x = big_x;
  g = g;
  prover = from_n n;
  aux = aux;
}

module _ (C : Crypto) (H : Hashing C.Point) where
  -- For a modulus n > 1 whose half is at least the square of the order, a secret x below the order,
  -- a sampled alpha between 1 and order - 1 whose multiple of G is not the identity, and nonces
  -- without a factor in common with n, where the two Pedersen commitments pass `validateParams`:
  -- `create_proof` returns a proof for the ciphertext of x and whatever point the public X is, and
  -- `verify_proof` accepts it with the same transcript. X need not be x times G.
  pub verify_logstar-create_proof :
      (n : ℕ) (big_x : AffinePoint) (g : Option AffinePoint) (aux : PedersenParams)
      (priv : LogstarPrivate) (sampled : LogstarSampled) (h : Hasher)
      → 1 < n
      → C.order * C.order ≤ n / 2
      → 0 < aux.n
      → priv.x < C.order
      → 0 < sampled.alpha
      → sampled.alpha < C.order
      → is_identity C
          (C.times sampled.alpha (C.from_affine (point_g C H (encrypted n big_x g aux priv))))
        ≡ false
      → C.gcd priv.rho n ≡ 1
      → C.gcd sampled.r n ≡ 1
      → validate_params C aux.n
          (Pedersen.commit C aux sampled.alpha sampled.gamma)
          (Pedersen.commit C aux priv.x sampled.mu)
        ≡ ok tt
      → h.used ≡ false
      → (proof : LogstarProof) × (create_proof C H (encrypted n big_x g aux priv) priv sampled h
          ≡ ok proof)
        × (verify_proof C H proof (encrypted n big_x g aux priv) h ≡ ok true)
  unfolding create_proof verify_proof is_proof_valid challenge from_n
  verify_logstar-create_proof n big_x g aux priv sampled h lt half aux_pos x_lt a_pos a_lt not_zero
        rho_unit r_unit valid fresh =
      let x = priv.x in
      let a = sampled.alpha in
      let rho = priv.rho in
      let r = sampled.r in
      let pos_n : 0 < n = omega arith in
      let c_a = cipher n a r in
      let pub_data = encrypted n big_x g aux priv in
      let y = C.times a (C.from_affine (point_g C H pub_data)) in
      let c : LogstarCommitment = record {
        s = Pedersen.commit C aux x sampled.mu;
        a = c_a;
        y = C.to_affine y;
        d = Pedersen.commit C aux a sampled.gamma;
      } in
      let (e, drawn, e_lt) =
        digest_challenge-ok C H h (transcript C H pub_data c) fresh
          (tt, (tt, (tt, (tt, (tt, (tt, (tt, (tt, (tt, tt))))))))) in
      let bound = response-lt x e a C.order x_lt e_lt a_lt in
      let square_pos : C.order ≤ C.order * C.order = square-le C.order in
      let unit_rho = (C.gcd_iff rho n lt).0 rho_unit in
      let unit_r = (C.gcd_iff r n lt).0 r_unit in
      let z2 = rho ^ e * r % n in
      (
        record { commitment = c; z1 = x * e + a; z2 = z2; z3 = e * sampled.mu + sampled.gamma },
        ground (
          arith,
          encrypt_with_nonce-cipher C n a r pos_n (omega (arith, square_pos)),
          residue-small C a a_lt,
          multiply_valid C (C.from_affine (point_g C H pub_data)) a a_pos a_lt,
          drawn,
          combined_nonce C rho e r n pos_n,
        ),
        ground (
          arith,
          validate-cipher C n a r lt unit_r,
          C.from_to_affine y,
          not_zero,
          combined_nonce-valid C rho e r n lt unit_rho unit_r,
          response-interval C x e a x_lt e_lt a_lt,
          drawn,
          verify-commit C aux x sampled.mu a sampled.gamma e aux_pos valid,
          encrypt_with_nonce-cipher C n (x * e + a) z2 pos_n (omega (arith, bound)),
          paillier_combine C n x a rho r e pos_n,
        ),
      )
