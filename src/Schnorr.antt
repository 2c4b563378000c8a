-- ===== src/Schnorr.antt =====
-- src/mpc/zk/zksch.ts: Schnorr's proof of knowledge of a discrete logarithm. A hasher that the
-- program passes is not used again; only what it computes is returned.
pub mod Completeness
use threshold_sig_multiparty.Prelude.{
  ℕ, ◌+◌, ◌^◌, Bool, true, false, not, ◌&&◌, ◌||◌, Option, none, some, List, [], ◌∷◌, if◌then◌else◌,
}
use threshold_sig_multiparty.Prelude.Eq.{◌==◌, nat_eq}
use threshold_sig_multiparty.Prelude.Result.{Result, ok, err, ◌>>=◌}
use threshold_sig_multiparty.Crypto.{Crypto, AffinePoint}
use threshold_sig_multiparty.Fn
use threshold_sig_multiparty.Curve.{is_identity}
use threshold_sig_multiparty.Hasher.{
  Hashing, Hasher, Ingestable, affine, projective, update_multi, digest_bigint,
}

-- ZkSchResponse
pub record SchResponse : Type 0 where
  pub z : ℕ

-- ZkSchCommitment
pub record SchCommitment : Type 0 where
  pub c : AffinePoint

-- ZkSchRandomness
pub record SchRandomness : Type 0 where
  pub a : ℕ
  pub commitment : SchCommitment

-- ZkSchProof
pub record SchProof : Type 0 where
  pub commitment : SchCommitment
  pub response : SchResponse

-- zkSchIsResponseValid
unfoldable pub is_response_valid : SchResponse → Bool
is_response_valid r = not (r.z == 0)

module _ (C : Crypto) (H : Hashing C.Point) where
  -- The optional generator, `BASE` if it is missing.
  unfoldable pub generator : Option AffinePoint → C.Point
  generator none = C.base
  generator (some g) = C.from_affine g

  -- zkSchCreateRandomness, for the scalar that `sampleScalar` returns.
  unfoldable pub create_randomness : ℕ → Option AffinePoint → Result SchRandomness
  unfolding generator
  create_randomness a gen_in = do
    p ← C.multiply (generator gen_in) a
    ok (record { a = a; commitment = record { c = C.to_affine p } })

  unfoldable pub challenge : Hasher → SchCommitment → AffinePoint → C.Point → Result ℕ
  unfolding update_multi digest_bigint Fn.sub
  challenge hasher commitment pub_point gen = do
    h ← update_multi H hasher (affine commitment.c ∷ affine pub_point ∷ projective gen ∷ [])
    (big_hash, _) ← digest_bigint H h
    ok (Fn.sub C big_hash (2 ^ 255))

  -- zkSchProve
  unfoldable pub prove :
      SchRandomness → Hasher → AffinePoint → ℕ → Option AffinePoint → Result (Option SchResponse)
  unfolding generator is_identity challenge Fn.add Fn.mul
  prove r hasher pub_point secret gen_in =
      if is_identity C (C.from_affine pub_point) || (secret == 0) then ok none else (do
        e ← challenge hasher r.commitment pub_point (generator gen_in)
        ok (some (record { z = Fn.add C (Fn.mul C e secret) r.a })))

  -- zkSchCreateProof, for the sampled scalar.
  unfoldable pub create_proof :
      ℕ → Hasher → AffinePoint → ℕ → AffinePoint → Result (Option SchProof)
  unfolding create_randomness prove
  create_proof sampled hasher pub_point priv gen = do
    a ← create_randomness sampled (some gen)
    z ← prove a hasher pub_point priv (some gen)
    ok (elim z [ none ↦ none | some r ↦ some (record { commitment = a.commitment; response = r }) ])

  -- zkSchVerifyResponse
  unfoldable pub verify_response :
      Option SchResponse → Hasher → AffinePoint → SchCommitment → Option AffinePoint → Result Bool
  unfolding generator is_response_valid is_identity challenge
  verify_response none hasher pub_point commitment gen_in = ok false
  verify_response (some r) hasher pub_point commitment gen_in =
      if not (is_response_valid r) || is_identity C (C.from_affine pub_point) then ok false else (do
        e ← challenge hasher commitment pub_point (generator gen_in)
        lhs ← C.multiply (generator gen_in) r.z
        scaled ← C.multiply (C.from_affine pub_point) e
        ok (C.equals lhs (C.add scaled (C.from_affine commitment.c))))

  -- zkSchIsCommitmentValid
  unfoldable pub is_commitment_valid : SchCommitment → Bool
  unfolding is_identity
  is_commitment_valid c = not (is_identity C (C.from_affine c.c))

  -- zkSchIsProofValid
  unfoldable pub is_proof_valid : SchProof → Bool
  unfolding is_response_valid is_commitment_valid
  is_proof_valid p = is_response_valid p.response && is_commitment_valid p.commitment

  -- zkSchVerifyProof
  unfoldable pub verify_proof : SchProof → Hasher → AffinePoint → AffinePoint → Result Bool
  unfolding is_proof_valid verify_response
  verify_proof p hasher pub_point gen =
      if not (is_proof_valid p)
      then ok false
      else verify_response (some p.response) hasher pub_point p.commitment (some gen)
