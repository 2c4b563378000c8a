-- ===== src/Signing/Start.antt =====
-- src/mpc/signing/signSession.ts, with publicPoint of src/mpc/keygen/partyKey.ts: a signing session
-- starts from the key shares of its signers, weighted by their Lagrange coefficients.
pub mod PublicKey
use threshold_sig_multiparty.Prelude.{ℕ, String, List, [], ◌∷◌}
use threshold_sig_multiparty.Prelude.Dict.{lookup, insert, keys}
use threshold_sig_multiparty.Prelude.Eq.{string_eq}
use threshold_sig_multiparty.Prelude.Result.{Result, ok, ◌>>=◌}
use threshold_sig_multiparty.Crypto.{Crypto, AffinePoint}
use threshold_sig_multiparty.Fn
use threshold_sig_multiparty.Hasher.{
  Hashing, Hasher, Basic, Ingestable, basic, hashable, new_hasher, update,
}
use threshold_sig_multiparty.Lagrange.{lagrange}
use threshold_sig_multiparty.Keygen.{found}
use threshold_sig_multiparty.Keygen.Round4.{PartyPublicConfig, PartySecretConfig, config_hashable}
use threshold_sig_multiparty.Signing.{PartyPublic, SignSession}
use threshold_sig_multiparty.Signing.Round1.{InputForRound1}

-- SignRequest
pub record SignRequest : Type 0 where
  pub message : List ℕ
  pub signer_ids : List String

module _ (C : Crypto) where
  -- The loop of init over the signers: the public key so far, and partiesPublic.
  unfoldable pub weigh_parties :
      List (String × PartyPublicConfig)
      → List (String × ℕ)
      → C.Point
      → List (String × PartyPublic)
      → List String
      → Result (C.Point × List (String × PartyPublic))
  weigh_parties publics lag public_key parties [] = ok (public_key, parties)
  weigh_parties publics lag public_key parties (id ∷ ids) = do
    party_data ← found C (lookup id publics)
    coefficient ← found C (lookup id lag)
    scaled ← C.multiply (C.from_affine party_data.ecdsa) coefficient
    let party : PartyPublic = record {
      ecdsa = C.to_affine scaled;
      paillier = party_data.paillier;
      pedersen = party_data.pedersen;
    }
    weigh_parties publics lag (C.add public_key scaled) (insert id party parties) ids

  -- `publicPoint`: the loop over the ids, and the whole for the order that `sort` gives texts.
  unfoldable pub add_scaled :
      List (String × PartyPublicConfig) → List (String × ℕ) → C.Point → List String → Result C.Point
  add_scaled publics lag sum [] = ok sum
  add_scaled publics lag sum (id ∷ ids) = do
    party_data ← found C (lookup id publics)
    coefficient ← found C (lookup id lag)
    party_point ← C.multiply (C.from_affine party_data.ecdsa) coefficient
    add_scaled publics lag (C.add sum party_point) ids

  unfoldable pub public_point : (List String → List String) → PartySecretConfig → Result AffinePoint
  public_point sort config = do
    let party_ids = sort (keys config.public_party_data)
    lag ← lagrange C party_ids
    sum ← add_scaled config.public_party_data lag C.zero_point party_ids
    ok (C.to_affine sum)

  module _ (H : Hashing C.Point) (sort : List String → List String) where
    -- init. (The random session id is not used by the rounds.)
    unfoldable pub start_session :
        SignRequest → PartySecretConfig → Result (SignSession × InputForRound1)
    start_session request config = do
      lag ← lagrange C request.signer_ids
      (public_key, parties) ←
          weigh_parties config.public_party_data lag C.zero_point [] request.signer_ids
      h1 ← update H new_hasher (basic (Basic.text "CMP-BLAKE"))
      h2 ← update H h1 (basic (Basic.text "cmp/sign"))
      h3 ← update H h2 (hashable (config_hashable sort config))
      h4 ← update H h3 (basic (Basic.bytes request.message))
      own ← found C (lookup config.party_id lag)
      ok (
        record {
          current_round = 0;
          party_ids = request.signer_ids;
          self_id = config.party_id;
          hasher = h4;
        },
        record {
          message = request.message;
          secret_ecdsa = Fn.mul C own config.ecdsa;
          secret_paillier = config.paillier;
          public_key = C.to_affine public_key;
          parties_public = parties;
        },
      )
