-- ===== src/Zk/Fac.antt =====
-- src/mpc/zk/fac.ts: the proof that the factors of a Paillier modulus are not small.
pub mod Product
pub mod Completeness
pub mod Disclosure
use threshold_sig_multiparty.Prelude.{
  ℕ, ◌+◌, ◌*◌, Bool, true, false, not, ◌&&◌, List, [], ◌∷◌, if◌then◌else◌,
}
use threshold_sig_multiparty.Prelude.Eq.{◌==◌, nat_eq}
use threshold_sig_multiparty.Prelude.Int.{ℤ, pos, ◌+ℤ◌, ◌-ℤ◌, ◌*ℤ◌}
use threshold_sig_multiparty.Prelude.Result.{Result, ok, err, ◌>>=◌}
use threshold_sig_multiparty.Crypto.{Crypto}
use threshold_sig_multiparty.Hasher.{Hashing, Hasher, Basic, Ingestable, basic, hashable}
use threshold_sig_multiparty.Arith.{is_in_interval_leps_plus_one_root_n}
use threshold_sig_multiparty.Pedersen
use threshold_sig_multiparty.Pedersen.{PedersenParams}
use threshold_sig_multiparty.Zk.{digest_challenge}

-- ZkFacPublic
pub record FacPublic : Type 0 where
  pub n : ℕ
  pub aux : PedersenParams

-- ZkFacPrivate
pub record FacPrivate : Type 0 where
  pub p : ℕ
  pub q : ℕ

-- ZkFacCommitment
pub record FacCommitment : Type 0 where
  pub big_p : ℕ
  pub big_q : ℕ
  pub big_a : ℕ
  pub big_b : ℕ
  pub big_t : ℕ

-- ZkFacProof. Only V may be negative.
pub record FacProof : Type 0 where
  pub comm : FacCommitment
  pub sigma : ℕ
  pub z1 : ℕ
  pub z2 : ℕ
  pub w1 : ℕ
  pub w2 : ℕ
  pub v : ℤ

-- The eight numbers that zkFacCreateProof samples.
pub record FacSampled : Type 0 where
  pub alpha : ℕ
  pub beta : ℕ
  pub mu : ℕ
  pub nu : ℕ
  pub sigma : ℕ
  pub r : ℕ
  pub x : ℕ
  pub y : ℕ

-- V: e times sigma - nu p, plus r.
unfoldable pub response_v : FacPrivate → FacSampled → ℕ → ℤ
response_v priv sampled e =
    let sigma_hat = pos 0 -ℤ pos (sampled.nu * priv.p) +ℤ pos sampled.sigma in
    pos e *ℤ sigma_hat +ℤ pos sampled.r

module _ (C : Crypto) where
  -- The commitments of zkFacCreateProof.
  unfoldable pub commitments : FacPrivate → PedersenParams → FacSampled → FacCommitment
  unfolding Pedersen.commit
  commitments priv aux sampled =
      let big_q = Pedersen.commit C aux priv.q sampled.nu in
      record {
        big_p = Pedersen.commit C aux priv.p sampled.mu;
        big_q = big_q;
        big_a = Pedersen.commit C aux sampled.alpha sampled.x;
        big_b = Pedersen.commit C aux sampled.beta sampled.y;
        big_t =
            C.mod_multiply
              (C.mod_pow big_q sampled.alpha aux.n ∷ C.mod_pow aux.t sampled.r aux.n ∷ []) aux.n;
      }

  -- The test of zkFacVerifyProof on R. A negative exponent throws where t has no inverse.
  unfoldable pub product_matches : FacProof → FacPublic → ℕ → Result Bool
  product_matches proof pub_data e =
      let aux = pub_data.aux in
      let n_hat = aux.n in
      let r =
        C.mod_multiply (C.mod_pow aux.s pub_data.n n_hat ∷ C.mod_pow aux.t proof.sigma n_hat ∷ [])
          n_hat in
      do
        t_v ← C.mod_pow_ℤ aux.t proof.v n_hat
        let lhs = C.mod_multiply (C.mod_pow proof.comm.big_q proof.z1 n_hat ∷ t_v ∷ []) n_hat
        let rhs = C.mod_multiply (C.mod_pow r e n_hat ∷ proof.comm.big_t ∷ []) n_hat
        ok (lhs == rhs)

module _ (C : Crypto) (H : Hashing C.Point) where
  -- The data that the challenge hashes.
  abbrev pub transcript : FacPublic → FacCommitment → List (Ingestable C.Point)
  transcript pub_data c =
      basic (Basic.number pub_data.n)
      ∷ hashable (Pedersen.hashable pub_data.aux)
      ∷ basic (Basic.number c.big_p)
      ∷ basic (Basic.number c.big_q)
      ∷ basic (Basic.number c.big_a)
      ∷ basic (Basic.number c.big_b)
      ∷ basic (Basic.number c.big_t)
      ∷ []

  unfoldable pub challenge : FacPublic → FacCommitment → Hasher → Result ℕ
  unfolding digest_challenge Pedersen.hashable
  challenge pub_data comm hasher = digest_challenge C H hasher (transcript pub_data comm)

  -- zkFacCreateProof
  unfoldable pub create_proof : FacPrivate → FacPublic → FacSampled → Hasher → Result FacProof
  unfolding commitments challenge response_v
  create_proof priv pub_data sampled hasher = do
    let comm = commitments C priv pub_data.aux sampled
    e ← challenge pub_data comm hasher
    ok (record {
      comm = comm;
      sigma = sampled.sigma;
      z1 = e * priv.p + sampled.alpha;
      z2 = e * priv.q + sampled.beta;
      w1 = e * sampled.mu + sampled.x;
      w2 = e * sampled.nu + sampled.y;
      v = response_v priv sampled e;
    })

  -- zkFacVerifyProof
  unfoldable pub verify_proof : FacProof → FacPublic → Hasher → Result Bool
  unfolding challenge Pedersen.verify product_matches is_in_interval_leps_plus_one_root_n
  verify_proof proof pub_data hasher = do
    e ← challenge pub_data proof.comm hasher
    let first = Pedersen.verify C pub_data.aux proof.z1 proof.w1 e proof.comm.big_a proof.comm.big_p
    let second =
        Pedersen.verify C pub_data.aux proof.z2 proof.w2 e proof.comm.big_b proof.comm.big_q
    (if not first then ok false else if not second then ok false else (do
      same ← product_matches C proof pub_data e
      (if not same
          then ok false
          else ok (
              is_in_interval_leps_plus_one_root_n C proof.z1
              && is_in_interval_leps_plus_one_root_n C proof.z2))))
