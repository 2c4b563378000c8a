-- ===== src/Zk/Affg.antt =====
-- src/mpc/zk/affg.ts: the proof that a Paillier ciphertext is an affine function of another one, with
-- the factor that a point has, and the summand that a ciphertext of the prover has.
pub mod Responses
pub mod Completeness
use threshold_sig_multiparty.Prelude.{
  ℕ, ◌+◌, ◌*◌, Bool, true, false, not, List, [], ◌∷◌, if◌then◌else◌,
}
use threshold_sig_multiparty.Prelude.Eq.{◌==◌, nat_eq}
use threshold_sig_multiparty.Prelude.Int.{ℤ, pos}
use threshold_sig_multiparty.Prelude.Result.{Result, ok, err, ◌>>=◌}
use threshold_sig_multiparty.Crypto.{Crypto, AffinePoint}
use threshold_sig_multiparty.Fn
use threshold_sig_multiparty.Curve.{is_identity}
use threshold_sig_multiparty.Hasher.{Hashing, Hasher, Basic, Ingestable, basic, hashable, affine}
use threshold_sig_multiparty.Arith.{is_valid_mod_n, is_in_interval_leps, is_in_interval_lprime_eps}
use threshold_sig_multiparty.Pedersen
use threshold_sig_multiparty.Pedersen.{PedersenParams}
use threshold_sig_multiparty.Paillier.{
  PublicKey, key_hashable, encrypt_with_nonce, validate_ciphertext, paillier_add, paillier_multiply,
}
use threshold_sig_multiparty.Zk.{digest_challenge}

-- ZkAffgPublic
pub record AffgPublic : Type 0 where
  pub kv : ℕ
  pub dv : ℕ
  pub fp : ℕ
  pub xp : AffinePoint
  pub prover : PublicKey
  pub verifier : PublicKey
  pub aux : PedersenParams

-- ZkAffgPrivate
pub record AffgPrivate : Type 0 where
  pub x : ℕ
  pub y : ℕ
  pub s : ℕ
  pub r : ℕ

-- ZkAffgCommitment
pub record AffgCommitment : Type 0 where
  pub a : ℕ
  pub bx : AffinePoint
  pub by : ℕ
  pub e : ℕ
  pub s : ℕ
  pub f : ℕ
  pub t : ℕ

-- ZkAffgProof
pub record AffgProof : Type 0 where
  pub commitment : AffgCommitment
  pub z1 : ℕ
  pub z2 : ℕ
  pub z3 : ℕ
  pub z4 : ℕ
  pub w : ℕ
  pub wy : ℕ

-- The eight numbers that zkAffgCreateProof samples.
pub record AffgSampled : Type 0 where
  pub alpha : ℕ
  pub beta : ℕ
  pub rho : ℕ
  pub rho_y : ℕ
  pub gamma : ℕ
  pub m : ℕ
  pub delta : ℕ
  pub mu : ℕ

module _ (C : Crypto) (H : Hashing C.Point) where
  -- The data that the challenge hashes.
  abbrev pub transcript : AffgPublic → AffgCommitment → List (Ingestable C.Point)
  transcript pub_data c =
      hashable (Pedersen.hashable pub_data.aux)
      ∷ hashable (key_hashable pub_data.prover)
      ∷ hashable (key_hashable pub_data.verifier)
      ∷ basic (Basic.number pub_data.kv)
      ∷ basic (Basic.number pub_data.dv)
      ∷ basic (Basic.number pub_data.fp)
      ∷ affine pub_data.xp
      ∷ basic (Basic.number c.a)
      ∷ affine c.bx
      ∷ basic (Basic.number c.by)
      ∷ basic (Basic.number c.e)
      ∷ basic (Basic.number c.s)
      ∷ basic (Basic.number c.f)
      ∷ basic (Basic.number c.t)
      ∷ []

  unfoldable pub challenge : AffgPublic → AffgCommitment → Hasher → Result ℕ
  unfolding digest_challenge Pedersen.hashable key_hashable
  challenge pub_data commitment hasher =
      digest_challenge C H hasher (transcript pub_data commitment)

  -- zkAffgIsProofValid
  unfoldable pub is_proof_valid : AffgProof → AffgPublic → Bool
  unfolding validate_ciphertext is_valid_mod_n is_identity
  is_proof_valid proof pub_data =
      if not (validate_ciphertext C pub_data.verifier proof.commitment.a)
      then false
      else if not (validate_ciphertext C pub_data.prover proof.commitment.by)
      then false
      else if not (is_valid_mod_n C pub_data.prover.n proof.wy)
      then false
      else if not (is_valid_mod_n C pub_data.verifier.n proof.w)
      then false
      else if is_identity C (C.from_affine proof.commitment.bx)
      then false
      else true

  -- zkAffgCreateProof
  unfoldable pub create_proof : AffgPublic → AffgPrivate → AffgSampled → Hasher → Result AffgProof
  unfolding Fn.residue challenge encrypt_with_nonce paillier_add paillier_multiply Pedersen.commit
  create_proof pub_data priv sampled hasher = do
    let c_alpha = paillier_multiply C pub_data.verifier pub_data.kv sampled.alpha
    encrypted ← encrypt_with_nonce C pub_data.verifier sampled.beta sampled.rho
    bx ← C.multiply C.base (Fn.residue C (pos sampled.alpha))
    by ← encrypt_with_nonce C pub_data.prover sampled.beta sampled.rho_y
    let commitment : AffgCommitment = record {
      a = paillier_add C pub_data.verifier encrypted c_alpha;
      bx = C.to_affine bx;
      by = by;
      e = Pedersen.commit C pub_data.aux sampled.alpha sampled.gamma;
      s = Pedersen.commit C pub_data.aux priv.x sampled.m;
      f = Pedersen.commit C pub_data.aux sampled.beta sampled.delta;
      t = Pedersen.commit C pub_data.aux priv.y sampled.mu;
    }
    e ← challenge pub_data commitment hasher
    let n0 = pub_data.verifier.n
    let n1 = pub_data.prover.n
    ok (record {
      commitment = commitment;
      z1 = priv.x * e + sampled.alpha;
      z2 = priv.y * e + sampled.beta;
      z3 = e * sampled.m + sampled.gamma;
      z4 = e * sampled.mu + sampled.delta;
      w = C.mod_multiply (C.mod_pow priv.s e n0 ∷ sampled.rho ∷ []) n0;
      wy = C.mod_multiply (C.mod_pow priv.r e n1 ∷ sampled.rho_y ∷ []) n1;
    })

  -- The two comparisons of ciphertexts in zkAffgVerifyProof, and that of points between them.
  unfoldable pub affine_matches : AffgProof → AffgPublic → ℕ → Result Bool
  unfolding encrypt_with_nonce paillier_add paillier_multiply
  affine_matches proof pub_data e = do
    c ← encrypt_with_nonce C pub_data.verifier proof.z2 proof.w
    let lhs =
        paillier_add C pub_data.verifier c
          (paillier_multiply C pub_data.verifier pub_data.kv proof.z1)
    let rhs =
        paillier_add C pub_data.verifier (paillier_multiply C pub_data.verifier pub_data.dv e)
          proof.commitment.a
    ok (lhs == rhs)

  unfoldable pub point_matches : AffgProof → AffgPublic → ℕ → Result Bool
  unfolding Fn.residue
  point_matches proof pub_data e = do
    lhs ← C.multiply C.base (Fn.residue C (pos proof.z1))
    scaled ← C.multiply (C.from_affine pub_data.xp) (Fn.residue C (pos e))
    ok (C.equals lhs (C.add scaled (C.from_affine proof.commitment.bx)))

  unfoldable pub summand_matches : AffgProof → AffgPublic → ℕ → Result Bool
  unfolding encrypt_with_nonce paillier_add paillier_multiply
  summand_matches proof pub_data e = do
    lhs ← encrypt_with_nonce C pub_data.prover proof.z2 proof.wy
    let rhs =
        paillier_add C pub_data.prover (paillier_multiply C pub_data.prover pub_data.fp e)
          proof.commitment.by
    ok (lhs == rhs)

  -- zkAffgVerifyProof
  unfoldable pub verify_proof : AffgProof → AffgPublic → Hasher → Result Bool
  unfolding is_proof_valid is_in_interval_leps is_in_interval_lprime_eps challenge Pedersen.verify
      affine_matches point_matches summand_matches
  verify_proof proof pub_data hasher =
      let c = proof.commitment in
      if not (is_proof_valid proof pub_data)
      then ok false
      else if not (is_in_interval_leps C proof.z1)
      then ok false
      else if not (is_in_interval_lprime_eps C proof.z2)
      then ok false
      else (do
        e ← challenge pub_data c hasher
        (if not (Pedersen.verify C pub_data.aux proof.z1 proof.z3 e c.e c.s)
            then ok false
            else if not (Pedersen.verify C pub_data.aux proof.z2 proof.z4 e c.f c.t)
            then ok false
            else (do
              affine_ok ← affine_matches proof pub_data e
              (if not affine_ok then ok false else (do
                point_ok ← point_matches proof pub_data e
                (if not point_ok then ok false else summand_matches proof pub_data e))))))
