-- ===== src/Zk/Enc.antt =====
-- src/mpc/zk/enc.ts: the proof that a Paillier ciphertext encrypts a number in an interval.
pub mod Completeness
pub mod Disclosure
use threshold_sig_multiparty.Prelude.{
  ℕ, ◌+◌, ◌*◌, Bool, true, false, not, List, [], ◌∷◌, if◌then◌else◌,
}
use threshold_sig_multiparty.Prelude.Eq.{◌==◌, nat_eq}
use threshold_sig_multiparty.Prelude.Result.{Result, ok, err, ◌>>=◌}
use threshold_sig_multiparty.Crypto.{Crypto}
use threshold_sig_multiparty.Hasher.{Hashing, Hasher, Basic, Ingestable, basic, hashable}
use threshold_sig_multiparty.Arith.{is_valid_mod_n, is_in_interval_leps}
use threshold_sig_multiparty.Pedersen
use threshold_sig_multiparty.Pedersen.{PedersenParams}
use threshold_sig_multiparty.Paillier.{
  PublicKey, key_hashable, encrypt_with_nonce, validate_ciphertext, paillier_add, paillier_multiply,
}
use threshold_sig_multiparty.Zk.{digest_challenge}

-- ZkEncPublic
pub record EncPublic : Type 0 where
  pub big_k : ℕ
  pub prover : PublicKey
  pub aux : PedersenParams

-- ZkEncPrivate
pub record EncPrivate : Type 0 where
  pub k : ℕ
  pub rho : ℕ

-- ZkEncCommitment
pub record EncCommitment : Type 0 where
  pub s : ℕ
  pub a : ℕ
  pub c : ℕ

-- ZkEncProof
pub record EncProof : Type 0 where
  pub commitment : EncCommitment
  pub z1 : ℕ
  pub z2 : ℕ
  pub z3 : ℕ

-- The four numbers that zkEncCreateProof samples.
pub record EncSampled : Type 0 where
  pub alpha : ℕ
  pub r : ℕ
  pub mu : ℕ
  pub gamma : ℕ

module _ (C : Crypto) (H : Hashing C.Point) where
  -- The data that the challenge hashes.
  abbrev pub transcript : EncPublic → EncCommitment → List (Ingestable C.Point)
  transcript pub_data c =
      hashable (Pedersen.hashable pub_data.aux)
      ∷ hashable (key_hashable pub_data.prover)
      ∷ basic (Basic.number pub_data.big_k)
      ∷ basic (Basic.number c.s)
      ∷ basic (Basic.number c.a)
      ∷ basic (Basic.number c.c)
      ∷ []

  unfoldable pub challenge : EncPublic → EncCommitment → Hasher → Result ℕ
  unfolding digest_challenge Pedersen.hashable key_hashable
  challenge pub_data commitment hasher =
      digest_challenge C H hasher (transcript pub_data commitment)

  -- zkEncCreateProof
  unfoldable pub create_proof : EncPublic → EncPrivate → EncSampled → Hasher → Result EncProof
  unfolding challenge encrypt_with_nonce Pedersen.commit
  create_proof pub_data priv sampled hasher = do
    a ← encrypt_with_nonce C pub_data.prover sampled.alpha sampled.r
    let commitment : EncCommitment = record {
      s = Pedersen.commit C pub_data.aux priv.k sampled.mu;
      a = a;
      c = Pedersen.commit C pub_data.aux sampled.alpha sampled.gamma;
    }
    e ← challenge pub_data commitment hasher
    ok (record {
      commitment = commitment;
      z1 = priv.k * e + sampled.alpha;
      z2 =
          C.mod_multiply (C.mod_pow priv.rho e pub_data.prover.n ∷ sampled.r ∷ [])
            pub_data.prover.n;
      z3 = e * sampled.mu + sampled.gamma;
    })

  -- zkEncIsPublicValid
  unfoldable pub is_public_valid : EncProof → EncPublic → Bool
  unfolding validate_ciphertext is_valid_mod_n
  is_public_valid proof pub_data =
      if not (validate_ciphertext C pub_data.prover proof.commitment.a)
      then false
      else if not (is_valid_mod_n C pub_data.prover.n proof.z2)
      then false
      else true

  -- zkEncVerifyProof
  unfoldable pub verify_proof : EncProof → EncPublic → Hasher → Result Bool
  unfolding is_public_valid is_in_interval_leps challenge Pedersen.verify encrypt_with_nonce
      paillier_add paillier_multiply
  verify_proof proof pub_data hasher =
      if not (is_public_valid proof pub_data)
      then ok false
      else if not (is_in_interval_leps C proof.z1)
      then ok false
      else (do
        e ← challenge pub_data proof.commitment hasher
        let opened =
            Pedersen.verify C pub_data.aux proof.z1 proof.z3 e proof.commitment.c proof.commitment.s
        (if not opened then ok false else (do
          lhs ← encrypt_with_nonce C pub_data.prover proof.z1 proof.z2
          ok (
              lhs
              == paillier_add C pub_data.prover
                  (paillier_multiply C pub_data.prover pub_data.big_k e) proof.commitment.a))))
