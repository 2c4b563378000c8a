-- ===== src/Signing/Run.antt =====
-- The end of a session of src/mpc/signing: every party runs round 4 on the same broadcasts, and every
-- share of the signature reaches the handler of round 5.
use threshold_sig_multiparty.Prelude.{ℕ, ◌+◌, String, List, [], ◌∷◌, map}
use threshold_sig_multiparty.Prelude.Result.{Result, ok, ◌>>=◌}
use threshold_sig_multiparty.Crypto.{Crypto}
use threshold_sig_multiparty.Signing.{SignSession, InputForRound4}
use threshold_sig_multiparty.Signing.Round4
use threshold_sig_multiparty.Signing.Round4.{SignerRound4}
use threshold_sig_multiparty.Signing.Round5
use threshold_sig_multiparty.Signing.Round5.{SigmaShares, Signature}

-- What a party holds: its shares of the nonce k, of k times the key, and of k times gamma.
pub record Signer : Type 0 where
  pub id : String
  pub k : ℕ
  pub chi : ℕ
  pub delta : ℕ

unfoldable pub total : (Signer → ℕ) → List Signer → ℕ
total f [] = 0
total f (p ∷ ps) = f p + total f ps

abbrev pub ids : List Signer → List String
ids = map (λ p. p.id)

-- A party's input is the common one with its own shares.
abbrev pub input_of : InputForRound4 → Signer → InputForRound4
input_of input p = record input { chi_share = p.chi; k_share = p.k }

module _ (C : Crypto) where
  unfoldable pub share_all :
      SignSession → InputForRound4 → SignerRound4 → List Signer → SigmaShares → Result SigmaShares
  unfolding Round4.process Round5.handle_broadcast
  share_all session input s [] shares = ok shares
  share_all session input s (p ∷ ps) shares = do
    (sigma_share, _) ← Round4.process C session (input_of input p) s
    next ← Round5.handle_broadcast shares (record { from = p.id; sigma_share = sigma_share })
    share_all session input s ps next

  -- The parties share, and `me` computes the signature.
  unfoldable pub sign :
      SignSession → InputForRound4 → SignerRound4 → List Signer → Signer → Result Signature
  unfolding share_all Round4.process Round5.process
  sign session input s ps me = do
    shares ← share_all session input s ps []
    (_, (output, next)) ← Round4.process C session (input_of input me) s
    Round5.process C next output shares
