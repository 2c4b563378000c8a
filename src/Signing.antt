-- ===== src/Signing.antt =====
-- src/mpc/signing: the data that the rounds of a signing session pass on, and the session's hasher.
pub mod Round1
pub mod Round2
pub mod Round3
pub mod Round4
pub mod Round5
pub mod Run
pub mod Sums
pub mod Delivery
pub mod Opening
pub mod Combination
pub mod Products
pub mod Start
use threshold_sig_multiparty.Prelude.{ℕ, String, List}
use threshold_sig_multiparty.Prelude.Result.{Result}
use threshold_sig_multiparty.Crypto.{AffinePoint}
use threshold_sig_multiparty.Hasher.{Hashing, Hasher, Basic, basic, clone, update}
use threshold_sig_multiparty.Paillier.{PublicKey}
use threshold_sig_multiparty.Pedersen.{PedersenParams}

-- An entry of `partiesPublic`.
pub record PartyPublic : Type 0 where
  pub paillier : PublicKey
  pub pedersen : PedersenParams
  pub ecdsa : AffinePoint

-- The fields of SignSession that the rounds use.
pub record SignSession : Type 0 where
  pub current_round : ℕ
  pub party_ids : List String
  pub self_id : String
  pub hasher : Hasher

-- What round 4 reads of `SignInputForRound4` and of the inputs of earlier rounds inside it.
pub record InputForRound4 : Type 0 where
  pub gamma : AffinePoint
  pub chi_share : ℕ
  pub k_share : ℕ
  pub k : List (String × ℕ)
  pub parties_public : List (String × PartyPublic)
  pub message : List ℕ
  pub public_key : AffinePoint

-- `SignInputForRound5`
pub record InputForRound5 : Type 0 where
  pub delta : ℕ
  pub big_delta : AffinePoint
  pub big_r : AffinePoint
  pub r : ℕ
  pub input_for_round4 : InputForRound4

-- `cloneHashForId`
unfoldable pub clone_hash_for_id : {P : Type 0} → Hashing P → SignSession → String → Result Hasher
unfolding clone update
clone_hash_for_id H session id = update H (clone session.hasher) (basic (Basic.text id))
