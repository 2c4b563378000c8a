-- ===== src/Signing/Round4.antt =====
-- src/mpc/signing/signRound4.ts: the shares of delta are added up and checked against their points,
-- and the share of the signature is computed.
use threshold_sig_multiparty.Prelude.{ℕ, String, not, ◌||◌, List, [], ◌∷◌, some}
use threshold_sig_multiparty.Prelude.Eq.{◌==◌, nat_eq, string_eq}
use threshold_sig_multiparty.Prelude.Dict.{lookup, insert}
use threshold_sig_multiparty.Prelude.Result.{Result, ok, ◌>>=◌, ◌>>◌, require}
use threshold_sig_multiparty.Crypto.{Crypto, AffinePoint}
use threshold_sig_multiparty.Fn
use threshold_sig_multiparty.Curve.{is_identity, scalar_from_hash}
use threshold_sig_multiparty.Hasher.{Hashing}
use threshold_sig_multiparty.Keygen.{found}
use threshold_sig_multiparty.Zk.Logstar
use threshold_sig_multiparty.Zk.Logstar.{LogstarPublic, LogstarProof}
use threshold_sig_multiparty.Signing.{
  SignSession, InputForRound4, InputForRound5, clone_hash_for_id,
}

-- SignBroadcastForRound4
pub record Broadcast4 : Type 0 where
  pub from : String
  pub delta_share : ℕ
  pub big_delta_share : AffinePoint

-- SignMessageForRound4
pub record Message4 : Type 0 where
  pub from : String
  pub to : String
  pub proof_log : LogstarProof

-- The fields of SignerRound4.
pub record SignerRound4 : Type 0 where
  pub delta_shares : List (String × ℕ)
  pub big_delta_shares : List (String × AffinePoint)

module _ (C : Crypto) where
  unfoldable pub handle_broadcast : SignerRound4 → Broadcast4 → Result SignerRound4
  unfolding is_identity insert
  handle_broadcast s bmsg = do
    let point = C.from_affine bmsg.big_delta_share
    require (not ((bmsg.delta_share == 0) || is_identity C point)) "Invalid broadcast message"
    ok (record {
      delta_shares = insert bmsg.from bmsg.delta_share s.delta_shares;
      big_delta_shares = insert bmsg.from bmsg.big_delta_share s.big_delta_shares;
    })

  -- A missing entry is `undefined`, on which a later statement throws.
  unfoldable pub handle_direct :
      Hashing C.Point → SignSession → InputForRound4 → SignerRound4 → Message4 → Result (Unit {0})
  unfolding lookup clone_hash_for_id Logstar.verify_proof
  handle_direct H session input s msg = do
    big_c ← found C (lookup msg.from input.k)
    big_x ← found C (lookup msg.from s.big_delta_shares)
    prover ← found C (lookup msg.from input.parties_public)
    own ← found C (lookup msg.to input.parties_public)
    let pub_data : LogstarPublic = record {
      big_c = big_c;
      big_x = big_x;
      g = some input.gamma;
      prover = prover.paillier;
      aux = own.pedersen;
    }
    hasher ← clone_hash_for_id H session msg.from
    verified ← Logstar.verify_proof C H msg.proof_log pub_data hasher
    require verified "Invalid log proof"

  -- The loop of process over the parties.
  unfoldable pub total_deltas : SignerRound4 → List String → ℕ → C.Point → Result (ℕ × C.Point)
  unfolding lookup Fn.add
  total_deltas s [] delta big_delta = ok (delta, big_delta)
  total_deltas s (id ∷ ids) delta big_delta = do
    share ← found C (lookup id s.delta_shares)
    point ← found C (lookup id s.big_delta_shares)
    total_deltas s ids (Fn.add C delta share) (C.add big_delta (C.from_affine point))

  -- The share of the signature that goes out, the output, and the session.
  unfoldable pub process :
      SignSession → InputForRound4 → SignerRound4 → Result (ℕ × (InputForRound5 × SignSession))
  unfolding total_deltas Fn.inv Fn.mul Fn.add scalar_from_hash
  process session input s = do
    (delta, big_delta) ← total_deltas s session.party_ids 0 C.zero_point
    delta_computed ← C.multiply C.base delta
    require (C.equals delta_computed big_delta) "computed Delta is inconsistend withBigDelta"
    delta_inv ← Fn.inv C delta
    big_r ← C.multiply (C.from_affine input.gamma) delta_inv
    let r = (C.to_affine big_r).x
    let km = Fn.mul C (scalar_from_hash C input.message) input.k_share
    let sigma_share = Fn.add C (Fn.mul C r input.chi_share) km
    ok (
      sigma_share,
      (
        record {
          delta = delta;
          big_delta = C.to_affine big_delta;
          big_r = C.to_affine big_r;
          r = r;
          input_for_round4 = input;
        },
        record session { current_round = 5 },
      ),
    )
