-- ===== src/Signing/Round5.antt =====
-- src/mpc/signing/signRound5.ts: the shares of the signature are added up, and the signature is
-- verified.
use threshold_sig_multiparty.Prelude.{ℕ, String, not, List, [], ◌∷◌}
use threshold_sig_multiparty.Prelude.Eq.{◌==◌, nat_eq, string_eq}
use threshold_sig_multiparty.Prelude.Dict.{lookup, insert}
use threshold_sig_multiparty.Prelude.Result.{Result, ok, ◌>>=◌, ◌>>◌, require}
use threshold_sig_multiparty.Crypto.{Crypto, AffinePoint}
use threshold_sig_multiparty.Fn
use threshold_sig_multiparty.Curve.{verify_signature}
use threshold_sig_multiparty.Keygen.{found}
use threshold_sig_multiparty.Signing.{SignSession, InputForRound5}

-- SignBroadcastForRound5
pub record Broadcast5 : Type 0 where
  pub from : String
  pub sigma_share : ℕ

-- The signature that process returns.
pub record Signature : Type 0 where
  pub r : AffinePoint
  pub s : ℕ

-- The field SigmaShares of SignerRound5.
abbrev pub SigmaShares : Type 0
SigmaShares = List (String × ℕ)

unfoldable pub handle_broadcast : SigmaShares → Broadcast5 → Result SigmaShares
unfolding insert
handle_broadcast shares bmsg = do
  require (not (bmsg.sigma_share == 0)) "SigmaShare is zero"
  ok (insert bmsg.from bmsg.sigma_share shares)

module _ (C : Crypto) where
  -- The loop of process over the parties.
  unfoldable pub total_sigmas : SigmaShares → List String → ℕ → Result ℕ
  unfolding lookup Fn.add
  total_sigmas shares [] sigma = ok sigma
  total_sigmas shares (id ∷ ids) sigma = do
    share ← found C (lookup id shares)
    total_sigmas shares ids (Fn.add C sigma share)

  unfoldable pub process : SignSession → InputForRound5 → SigmaShares → Result Signature
  unfolding total_sigmas verify_signature
  process session input shares = do
    sigma ← total_sigmas shares session.party_ids 0
    verified ←
        verify_signature C input.big_r sigma input.input_for_round4.public_key
          input.input_for_round4.message
    require verified "Signature verification failed"
    ok (record { r = input.big_r; s = sigma })
