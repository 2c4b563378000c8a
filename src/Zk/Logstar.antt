-- ===== src/Zk/Logstar.antt =====
-- src/mpc/zk/logstar.ts: the proof about a Paillier ciphertext and a point.
pub mod Completeness
use threshold_sig_multiparty.Prelude.{
  ℕ, ◌+◌, ◌*◌, Bool, true, false, not, Option, none, some, List, [], ◌∷◌, if◌then◌else◌,
}
use threshold_sig_multiparty.Prelude.Eq.{◌==◌, nat_eq}
use threshold_sig_multiparty.Prelude.Int.{ℤ, pos}
use threshold_sig_multiparty.Prelude.Result.{Result, ok, err, ◌>>=◌}
use threshold_sig_multiparty.Crypto.{Crypto, AffinePoint}
use threshold_sig_multiparty.Fn
use threshold_sig_multiparty.Curve.{is_identity}
use threshold_sig_multiparty.Hasher.{Hashing, Hasher, Basic, Ingestable, basic, hashable, affine}
use threshold_sig_multiparty.Arith.{is_valid_mod_n, is_in_interval_leps}
use threshold_sig_multiparty.Pedersen
use threshold_sig_multiparty.Pedersen.{PedersenParams}
use threshold_sig_multiparty.Paillier.{
  PublicKey, key_hashable, encrypt_with_nonce, validate_ciphertext, paillier_add, paillier_multiply,
}
use threshold_sig_multiparty.Zk.{digest_challenge}

-- ZkLogstarPublic
pub record LogstarPublic : Type 0 where
  pub big_c : ℕ
  pub big_x : AffinePoint
  pub g : Option AffinePoint
  pub prover : PublicKey
  pub aux : PedersenParams

-- ZkLogstarPrivate
pub record LogstarPrivate : Type 0 where
  pub x : ℕ
  pub rho : ℕ

-- ZkLogstarCommitment
pub record LogstarCommitment : Type 0 where
  pub s : ℕ
  pub a : ℕ
  pub y : AffinePoint
  pub d : ℕ

-- ZkLogstarProof
pub record LogstarProof : Type 0 where
  pub commitment : LogstarCommitment
  pub z1 : ℕ
  pub z2 : ℕ
  pub z3 : ℕ

-- The four numbers that zkLogstarCreateProof samples.
pub record LogstarSampled : Type 0 where
  pub alpha : ℕ
  pub r : ℕ
  pub mu : ℕ
  pub gamma : ℕ

module _ (C : Crypto) (H : Hashing C.Point) where
  -- `pubIn.G ?? secp256k1.ProjectivePoint.BASE.toAffine()`
  unfoldable pub point_g : LogstarPublic → AffinePoint
  point_g pub_in = elim pub_in.g [ none ↦ C.to_affine C.base | some p ↦ p ]

  -- The data that the challenge hashes.
  abbrev pub transcript : LogstarPublic → LogstarCommitment → List (Ingestable C.Point)
  transcript pub_in c =
      hashable (Pedersen.hashable pub_in.aux)
      ∷ hashable (key_hashable pub_in.prover)
      ∷ basic (Basic.number pub_in.big_c)
      ∷ affine pub_in.big_x
      ∷ affine (point_g pub_in)
      ∷ basic (Basic.number c.s)
      ∷ basic (Basic.number c.a)
      ∷ affine c.y
      ∷ basic (Basic.number c.d)
      ∷ []

  unfoldable pub challenge : LogstarPublic → LogstarCommitment → Hasher → Result ℕ
  unfolding digest_challenge Pedersen.hashable key_hashable point_g
  challenge pub_in commitment hasher = digest_challenge C H hasher (transcript pub_in commitment)

  -- zkLogstarIsProofValid
  unfoldable pub is_proof_valid : LogstarProof → LogstarPublic → Bool
  unfolding validate_ciphertext is_identity is_valid_mod_n
  is_proof_valid proof pub_in =
      if not (validate_ciphertext C pub_in.prover proof.commitment.a)
      then false
      else if is_identity C (C.from_affine proof.commitment.y)
      then false
      else if not (is_valid_mod_n C pub_in.prover.n proof.z2)
      then false
      else true

  -- zkLogstarCreateProof
  unfoldable pub create_proof :
      LogstarPublic → LogstarPrivate → LogstarSampled → Hasher → Result LogstarProof
  unfolding point_g Fn.residue challenge encrypt_with_nonce Pedersen.commit
  create_proof pub_in priv sampled hasher = do
    a ← encrypt_with_nonce C pub_in.prover sampled.alpha sampled.r
    y ← C.multiply (C.from_affine (point_g pub_in)) (Fn.residue C (pos sampled.alpha))
    let commitment : LogstarCommitment = record {
      s = Pedersen.commit C pub_in.aux priv.x sampled.mu;
      a = a;
      y = C.to_affine y;
      d = Pedersen.commit C pub_in.aux sampled.alpha sampled.gamma;
    }
    e ← challenge pub_in commitment hasher
    ok (record {
      commitment = commitment;
      z1 = priv.x * e + sampled.alpha;
      z2 = C.mod_multiply (C.mod_pow priv.rho e pub_in.prover.n ∷ sampled.r ∷ []) pub_in.prover.n;
      z3 = e * sampled.mu + sampled.gamma;
    })

  -- zkLogstarVerifyProof
  unfoldable pub verify_proof : LogstarProof → LogstarPublic → Hasher → Result Bool
  unfolding is_proof_valid is_in_interval_leps challenge Pedersen.verify encrypt_with_nonce
      paillier_add paillier_multiply
  verify_proof proof pub_in hasher =
      if not (is_proof_valid proof pub_in)
      then ok false
      else if not (is_in_interval_leps C proof.z1)
      then ok false
      else (do
        e ← challenge pub_in proof.commitment hasher
        let opened =
            Pedersen.verify C pub_in.aux proof.z1 proof.z3 e proof.commitment.d proof.commitment.s
        (if not opened then ok false else (do
          lhs ← encrypt_with_nonce C pub_in.prover proof.z1 proof.z2
          ok (
              lhs
              == paillier_add C pub_in.prover (paillier_multiply C pub_in.prover pub_in.big_c e)
                  proof.commitment.a))))
