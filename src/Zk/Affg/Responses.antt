-- ===== src/Zk/Affg/Responses.antt =====
-- The responses of the prover of src/mpc/zk/affg.ts, and that they pass each check of the verifier.
use native.Mathlib.Nat.{mod-lt}
use threshold_sig_multiparty.Prelude.{
  ℕ, ◌+◌, ◌*◌, ◌/◌, ◌%◌, ◌^◌, ◌<◌, ◌≤◌, ◌≡◌, refl, ap, ◌∙◌, true, false, arith,
}
use threshold_sig_multiparty.Prelude.Eq.{nat_eq}
use threshold_sig_multiparty.Prelude.Result.{ok}
use threshold_sig_multiparty.Crypto.{Crypto}
use threshold_sig_multiparty.Crypto.Group.{times-add, times-mul, times-mod}
use threshold_sig_multiparty.Fn.Laws.{residue-small, residue_lem}
use threshold_sig_multiparty.Exponent.Horner.{multiply_valid}
use threshold_sig_multiparty.Curve.{is_identity}
use threshold_sig_multiparty.Hasher.{Hashing, Hasher}
use threshold_sig_multiparty.Arith.{is_in_interval_leps, is_in_interval_lprime_eps}
use threshold_sig_multiparty.Pedersen
use threshold_sig_multiparty.Pedersen.{PedersenParams, validate_params}
use threshold_sig_multiparty.Paillier.{from_n}
use threshold_sig_multiparty.Paillier.Ciphertexts.{
  IsUnit, cipher, encrypt_with_nonce-cipher, validate-cipher, combined_nonce-valid,
  paillier_combine,
}
use threshold_sig_multiparty.Paillier.Affine.{affine_of, affine_combine, validate-affine_of}
use threshold_sig_multiparty.Zk.Affg.{
  AffgPublic, AffgPrivate, AffgCommitment, AffgProof, AffgSampled, challenge, is_proof_valid,
  affine_matches, point_matches, summand_matches, verify_proof,
}

module _ (C : Crypto) where
  open C use {order, times, base, to_affine}

  -- What mtaProveAffG states for the secrets x and y: the ciphertext kv of the verifier with the
  -- modulus n0, and the prover's modulus n1.
  abbrev pub statement : ℕ → ℕ → ℕ → PedersenParams → AffgPrivate → AffgPublic
  statement n0 n1 kv aux priv = record {
    kv = kv;
    dv = affine_of C n0 (cipher n0 priv.y priv.s) kv priv.x;
    fp = cipher n1 priv.y priv.r;
    xp = to_affine (times priv.x base);
    prover = from_n n1;
    verifier = from_n n0;
    aux = aux;
  }

  abbrev pub committed : ℕ → ℕ → ℕ → PedersenParams → AffgPrivate → AffgSampled → AffgCommitment
  committed n0 n1 kv aux priv sampled = record {
    a = affine_of C n0 (cipher n0 sampled.beta sampled.rho) kv sampled.alpha;
    bx = to_affine (times sampled.alpha base);
    by = cipher n1 sampled.beta sampled.rho_y;
    e = Pedersen.commit C aux sampled.alpha sampled.gamma;
    s = Pedersen.commit C aux priv.x sampled.m;
    f = Pedersen.commit C aux sampled.beta sampled.delta;
    t = Pedersen.commit C aux priv.y sampled.mu;
  }

  abbrev pub responses : ℕ → ℕ → ℕ → PedersenParams → AffgPrivate → AffgSampled → ℕ → AffgProof
  responses n0 n1 kv aux priv sampled e = record {
    commitment = committed n0 n1 kv aux priv sampled;
    z1 = priv.x * e + sampled.alpha;
    z2 = priv.y * e + sampled.beta;
    z3 = e * sampled.m + sampled.gamma;
    z4 = e * sampled.mu + sampled.delta;
    w = priv.s ^ e * sampled.rho % n0;
    wy = priv.r ^ e * sampled.rho_y % n1;
  }

module _ (C : Crypto) (H : Hashing C.Point) where
  open C use {order, times, base}

  pub point_matches-responses :
      (n0 n1 kv : ℕ) (aux : PedersenParams) (priv : AffgPrivate) (sampled : AffgSampled) (e : ℕ)
      → 0 < e
      → e < order
      → 0 < (priv.x * e + sampled.alpha) % order
      → point_matches C H
          (responses C n0 n1 kv aux priv sampled e)
          (statement C n0 n1 kv aux priv)
          e
        ≡ ok true
  unfolding point_matches
  point_matches-responses n0 n1 kv aux priv sampled e e_pos e_lt z_pos =
      let x = priv.x in
      let a = sampled.alpha in
      let z1 = x * e + a in
      let z_lt : z1 % order < order = mod-lt z1 (omega (arith, C.one_lt_order)) in
      let commuted : z1 ≡ e * x + a = omega arith in
      let same : times (z1 % order) base ≡ C.add (times e (times x base)) (times a base) =
        times-mod C z1 base
        ∙ ap (λ k. times k base) commuted
        ∙ times-add C (e * x) a base
        ∙ ap (λ q. C.add q (times a base)) (times-mul C e x base) in
      let equal =
        (C.equals_iff (times (z1 % order) base) (C.add (times e (times x base)) (times a base))).1
          same in
      rw
        (
          residue_lem C z1,
          multiply_valid C base (z1 % order) z_pos z_lt,
          C.from_to_affine (times x base),
          residue-small C e e_lt,
          multiply_valid C (times x base) e e_pos e_lt,
          C.from_to_affine (times a base),
          equal,
        )
        refl

  pub verify_proof-passed :
      (proof : AffgProof) (p : AffgPublic) (h : Hasher) (e : ℕ)
      → is_proof_valid C H proof p ≡ true
      → is_in_interval_leps C proof.z1 ≡ true
      → is_in_interval_lprime_eps C proof.z2 ≡ true
      → challenge C H p proof.commitment h ≡ ok e
      → Pedersen.verify C p.aux proof.z1 proof.z3 e proof.commitment.e proof.commitment.s ≡ true
      → Pedersen.verify C p.aux proof.z2 proof.z4 e proof.commitment.f proof.commitment.t ≡ true
      → affine_matches C H proof p e ≡ ok true
      → point_matches C H proof p e ≡ ok true
      → summand_matches C H proof p e ≡ ok true
      → verify_proof C H proof p h ≡ ok true
  unfolding verify_proof
  verify_proof-passed proof p h e valid i1 i2 drawn v1 v2 m1 m2 m3 =
      rw (valid, i1, i2, drawn, v1, v2, m1, m2, m3) refl

  pub affine_matches-responses :
      (n0 n1 kv : ℕ) (aux : PedersenParams) (priv : AffgPrivate) (sampled : AffgSampled) (e : ℕ)
      → 0 < n0
      → priv.y * e + sampled.beta ≤ n0 / 2
      → affine_matches C H
          (responses C n0 n1 kv aux priv sampled e)
          (statement C n0 n1 kv aux priv)
          e
        ≡ ok true
  unfolding affine_matches
  affine_matches-responses n0 n1 kv aux priv sampled e pos0 small = ground (
    arith,
    encrypt_with_nonce-cipher C n0 (priv.y * e + sampled.beta) (priv.s ^ e * sampled.rho % n0) pos0
        small,
    affine_combine C n0 priv.y priv.s sampled.beta sampled.rho kv priv.x sampled.alpha e pos0,
  )

  pub summand_matches-responses :
      (n0 n1 kv : ℕ) (aux : PedersenParams) (priv : AffgPrivate) (sampled : AffgSampled) (e : ℕ)
      → 0 < n1
      → priv.y * e + sampled.beta ≤ n1 / 2
      → summand_matches C H
          (responses C n0 n1 kv aux priv sampled e)
          (statement C n0 n1 kv aux priv)
          e
        ≡ ok true
  unfolding summand_matches
  summand_matches-responses n0 n1 kv aux priv sampled e pos1 small = ground (
    arith,
    encrypt_with_nonce-cipher C n1 (priv.y * e + sampled.beta) (priv.r ^ e * sampled.rho_y % n1)
        pos1 small,
    paillier_combine C n1 priv.y sampled.beta priv.r sampled.rho_y e pos1,
  )

  pub is_proof_valid-responses :
      (n0 n1 kv : ℕ) (aux : PedersenParams) (priv : AffgPrivate) (sampled : AffgSampled) (e : ℕ)
      → 1 < n0
      → 1 < n1
      → IsUnit (n0 * n0) kv
      → IsUnit n0 priv.s
      → IsUnit n0 sampled.rho
      → IsUnit n1 priv.r
      → IsUnit n1 sampled.rho_y
      → is_identity C (times sampled.alpha base) ≡ false
      → is_proof_valid C H (responses C n0 n1 kv aux priv sampled e) (statement C n0 n1 kv aux priv)
        ≡ true
  unfolding is_proof_valid from_n
  is_proof_valid-responses n0 n1 kv aux priv sampled e lt0 lt1 u_kv u_s u_rho u_r u_rho_y not_zero =
      rw
        (
          validate-affine_of C n0 sampled.beta sampled.rho kv sampled.alpha lt0 u_rho u_kv,
          validate-cipher C n1 sampled.beta sampled.rho_y lt1 u_rho_y,
          combined_nonce-valid C priv.r e sampled.rho_y n1 lt1 u_r u_rho_y,
          combined_nonce-valid C priv.s e sampled.rho n0 lt0 u_s u_rho,
          C.from_to_affine (times sampled.alpha base),
          not_zero,
        )
        refl
