-- ===== src/Mta.antt =====
-- src/mpc/zk/mta.ts: a product of two parties' secrets becomes a sum of two shares.
pub mod Product
use threshold_sig_multiparty.Prelude.{ℕ}
use threshold_sig_multiparty.Prelude.Int.{ℤ, sub_ℕ}
use threshold_sig_multiparty.Prelude.Result.{Result, ok, err, ◌>>=◌}
use threshold_sig_multiparty.Crypto.{Crypto, AffinePoint}
use threshold_sig_multiparty.Hasher.{Hashing, Hasher}
use threshold_sig_multiparty.Pedersen.{PedersenParams}
use threshold_sig_multiparty.Paillier.{
  PublicKey, SecretKey, encrypt, paillier_add, paillier_multiply,
}
use threshold_sig_multiparty.Zk.Affg
use threshold_sig_multiparty.Zk.Affg.{AffgPublic, AffgPrivate, AffgProof, AffgSampled}

-- What mtaNew returns.
pub record MtaOut : Type 0 where
  pub d : ℕ
  pub f : ℕ
  pub s : ℕ
  pub r : ℕ
  pub beta_neg : ℕ

-- The sampled beta and the nonces of the two calls of `encrypt`.
pub record MtaSampled : Type 0 where
  pub beta : ℕ
  pub nonce_f : ℕ
  pub nonce_d : ℕ

-- What mtaProveAffG returns.
pub record MtaShare : Type 0 where
  pub beta : ℤ
  pub d : ℕ
  pub f : ℕ
  pub proof : AffgProof

module _ (C : Crypto) where
  unfoldable pub mta_new : ℕ → ℕ → SecretKey → PublicKey → MtaSampled → Result MtaOut
  unfolding encrypt paillier_add paillier_multiply
  mta_new secret_share encrypted_share sender receiver sampled = do
    let beta_neg = sampled.beta
    (f, r) ← encrypt C sender.public_key beta_neg sampled.nonce_f
    (d', s) ← encrypt C receiver beta_neg sampled.nonce_d
    let d = paillier_add C receiver d' (paillier_multiply C receiver encrypted_share secret_share)
    ok (record { d = d; f = f; s = s; r = r; beta_neg = beta_neg })

  -- mtaProveAffG
  unfoldable pub mta_prove_aff_g :
      Hashing C.Point
      → ℕ
      → AffinePoint
      → ℕ
      → SecretKey
      → PublicKey
      → PedersenParams
      → MtaSampled
      → AffgSampled
      → Hasher
      → Result MtaShare
  unfolding mta_new Affg.create_proof
  mta_prove_aff_g H secret_share point encrypted_share sender receiver verifier sampled proving
        hasher =
      do
        out ← mta_new secret_share encrypted_share sender receiver sampled
        let pub_data : AffgPublic = record {
          kv = encrypted_share;
          dv = out.d;
          fp = out.f;
          xp = point;
          prover = sender.public_key;
          verifier = receiver;
          aux = verifier;
        }
        let priv : AffgPrivate = record { x = secret_share; y = out.beta_neg; s = out.s; r = out.r }
        proof ← Affg.create_proof C H pub_data priv proving hasher
        ok (record { beta = sub_ℕ 0 out.beta_neg; d = out.d; f = out.f; proof = proof })
