-- ===== src/Keygen/Round4.antt =====
-- src/mpc/keygen/round4.ts and round5.ts, with the configurations of src/mpc/keygen/partyKey.ts: the
-- proofs and the shares of the other parties are checked, and the keys are put together.
use threshold_sig_multiparty.Prelude.{ℕ, String, Bool, true, List, [], ◌∷◌, ◌++◌, map, none, some}
use threshold_sig_multiparty.Prelude.Dict.{lookup, insert, keys}
use threshold_sig_multiparty.Prelude.Eq.{◌==◌, string_eq}
use threshold_sig_multiparty.Prelude.Int.{ℤ, pos, negsuc}
use threshold_sig_multiparty.Prelude.Result.{Result, ok, err, ◌>>=◌, ◌>>◌, require}
use threshold_sig_multiparty.Crypto.{Crypto, AffinePoint}
use threshold_sig_multiparty.Hasher.{Hashing, Basic, basic, hashable, clone, update_multi}
use threshold_sig_multiparty.Schnorr.{SchResponse, prove, is_response_valid, verify_response}
use threshold_sig_multiparty.Pedersen
use threshold_sig_multiparty.Pedersen.{PedersenParams}
use threshold_sig_multiparty.Paillier.{
  PublicKey, SecretKey, key_hashable, validate_ciphertext, decrypt,
}
use threshold_sig_multiparty.Zk.Prm
use threshold_sig_multiparty.Zk.Fac
use threshold_sig_multiparty.Zk.Mod
use threshold_sig_multiparty.Keygen
use threshold_sig_multiparty.Keygen.{Shares, found, check_share}
use threshold_sig_multiparty.Keygen.Session.{KeygenSession, KeygenInput4, clone_hash}
use threshold_sig_multiparty.Keygen.Round3.{KeygenBroadcast4, KeygenMessage4}

-- PartyPublicKeyConfig
pub record PartyPublicConfig : Type 0 where
  pub party_id : String
  pub ecdsa : AffinePoint
  pub elgamal : AffinePoint
  pub paillier : PublicKey
  pub pedersen : PedersenParams

-- PartySecretKeyConfig
pub record PartySecretConfig : Type 0 where
  pub party_id : String
  pub threshold : ℕ
  pub ecdsa : ℕ
  pub elgamal : ℕ
  pub paillier : SecretKey
  pub rid : ℕ
  pub chain_key : ℕ
  pub public_party_data : List (String × PartyPublicConfig)

-- KeygenBroadcastForRound5
pub record KeygenBroadcast5 : Type 0 where
  pub from : String
  pub response : SchResponse

-- KeygenInputForRound5
pub record KeygenInput5 (C : Crypto) : Type 0 where
  pub input_for_round4 : KeygenInput4 C
  pub updated_config : PartySecretConfig

-- `hashable` of PartyPublicKeyConfig
unfoldable pub public_hashable : PartyPublicConfig → List Basic
unfolding key_hashable Pedersen.hashable
public_hashable p =
    Basic.number p.ecdsa.x
    ∷ Basic.number p.ecdsa.y
    ∷ Basic.number p.elgamal.x
    ∷ Basic.number p.elgamal.y
    ∷ (key_hashable p.paillier ++ Pedersen.hashable p.pedersen)

-- `Object.values(publicPartyData).flatMap((p) => p.hashable())`
unfoldable pub publics_hashable : List (String × PartyPublicConfig) → List Basic
unfolding public_hashable
publics_hashable [] = []
publics_hashable ((id, p) ∷ ps) = public_hashable p ++ publics_hashable ps

-- `hashable` of PartySecretKeyConfig, for the order that `sort` gives texts.
unfoldable pub config_hashable : (List String → List String) → PartySecretConfig → List Basic
unfolding publics_hashable
config_hashable sort config =
    Basic.number config.threshold
    ∷ (map Basic.text (sort (keys config.public_party_data))
        ++ (Basic.number config.rid ∷ publics_hashable config.public_party_data))

-- What a call of an `async` function returns: a promise, whatever it resolves to.
pub data Promise : Type 0 where
  promise : Result Bool → Promise

-- A promise is an object, which a condition takes for true.
abbrev pub truthy : Promise → Bool
truthy (promise outcome) = true

module _ (C : Crypto) (H : Hashing C.Point) where
  -- The checks of handleBroadcastMessage of KeygenRound4. zkModVerifyProof is called without `await`.
  unfoldable pub check_proofs :
      (ℕ → Bool) → KeygenSession → KeygenInput4 C → KeygenBroadcast4 → Result (Unit {0})
  check_proofs is_probably_prime session input bmsg = do
    aux ← found C (lookup bmsg.from input.pedersen_public)
    hasher ← clone_hash H session bmsg.from
    let mod_verified = promise (Mod.verify_proof C H is_probably_prime bmsg.mod_proof aux.n hasher)
    require (truthy mod_verified) "failed to validate mod proof"
    prm_verified ← Prm.verify_proof C H bmsg.prm_proof aux hasher
    require prm_verified "failed to validate prm proof"

  -- handleBroadcastMessage of KeygenRound4, on the field ShareReceived; an exception is caught.
  unfoldable pub handle_proofs :
      (ℕ → Bool) → KeygenSession → KeygenInput4 C → Shares C → KeygenBroadcast4 → Shares C
  handle_proofs is_probably_prime session input s bmsg =
      elim (check_proofs is_probably_prime session input bmsg) [ err text ↦ s | ok _ ↦ s ]

  -- A decrypted share that is negative is no residue.
  unfoldable pub check_decrypted : KeygenInput4 C → String → String → ℤ → Result ℕ
  check_decrypted input self_id from (pos share) =
      check_share C input.vss_polynomials self_id from share
  check_decrypted input self_id from (negsuc share) = err "decrypted share is not in correct range"

  -- The checks of handleDirectMessage of KeygenRound4: the share, if they pass.
  unfoldable pub check_message : KeygenSession → KeygenInput4 C → KeygenMessage4 → Result ℕ
  check_message session input msg = do
    require (msg.to == session.self_id) "received direct message for another party"
    own ← found C (lookup msg.to input.paillier_public)
    require (validate_ciphertext C own msg.share) "invalid ciphertext"
    theirs ← found C (lookup msg.from input.paillier_public)
    aux ← found C (lookup msg.to input.pedersen_public)
    hasher ← clone_hash H session msg.from
    fac_verified ← Fac.verify_proof C H msg.fac_proof (record { n = theirs.n; aux = aux }) hasher
    require fac_verified "failed to validate fac proof"
    decrypted ← decrypt C input.input_for_round3.input_for_round2.paillier_secret msg.share
    check_decrypted input session.self_id msg.from decrypted

  -- handleDirectMessage; an exception is caught, and nothing is stored.
  unfoldable pub handle_message :
      KeygenSession → KeygenInput4 C → Shares C → KeygenMessage4 → Shares C
  handle_message session input s msg = elim (check_message session input msg) [
    | err text ↦ s
    | ok share ↦ insert msg.from share s
  ]

  -- The loop that makes PublicData, from the public shares.
  unfoldable pub public_configs :
      KeygenInput4 C
      → List (String × AffinePoint)
      → List (String × PartyPublicConfig)
      → List String
      → Result (List (String × PartyPublicConfig))
  unfolding lookup insert
  public_configs input shares acc [] = ok acc
  public_configs input shares acc (j ∷ js) = do
    ecdsa ← found C (lookup j shares)
    elgamal ← found C (lookup j input.elgamal_public)
    paillier ← found C (lookup j input.paillier_public)
    pedersen ← found C (lookup j input.pedersen_public)
    let config : PartyPublicConfig = record {
      party_id = j;
      ecdsa = ecdsa;
      elgamal = elgamal;
      paillier = paillier;
      pedersen = pedersen;
    }
    public_configs input shares (insert j config acc) js

  module _ (sort : List String → List String) where
    -- process of KeygenRound4: the broadcast, the output, and the session.
    unfoldable pub process4 :
        KeygenSession
        → KeygenInput4 C
        → Shares C
        → Result (KeygenBroadcast5 × (KeygenInput5 C × KeygenSession))
    process4 session input s = do
      let input2 = input.input_for_round3.input_for_round2
      (secret, shares) ←
          Keygen.process C input.vss_polynomials session.self_id session.party_ids input2.self_share
            s
      publics ← public_configs input shares [] session.party_ids
      let config : PartySecretConfig = record {
        party_id = session.self_id;
        threshold = session.threshold;
        ecdsa = secret;
        elgamal = input2.elgamal_secret;
        paillier = input2.paillier_secret;
        rid = input.rid;
        chain_key = input.chain_key;
        public_party_data = publics;
      }
      let hashed = hashable (config_hashable sort config)
      hash_tmp ←
          update_multi H (clone session.hasher) (hashed ∷ basic (Basic.text session.self_id) ∷ [])
      own ← found C (lookup session.self_id publics)
      proof ← prove C H input2.schnorr_rand (clone hash_tmp) own.ecdsa secret none
      response ← (elim proof [ none ↦ err "failed to create schnorr proof" | some r ↦ ok r ])
      hasher ← update_multi H session.hasher (hashed ∷ [])
      ok (
        record { from = session.self_id; response = response },
        (
          record { input_for_round4 = input; updated_config = config },
          record session { hasher = hasher },
        ),
      )

  -- The checks of handleBroadcastMessage of KeygenRound5, whose exceptions are only logged.
  unfoldable pub check_response :
      KeygenSession → KeygenInput5 C → KeygenBroadcast5 → Result (Unit {0})
  check_response session input bmsg = do
    require (is_response_valid bmsg.response) "invalid schnorr response"
    hasher ← clone_hash H session bmsg.from
    party ← found C (lookup bmsg.from input.updated_config.public_party_data)
    commitment ← found C (lookup bmsg.from input.input_for_round4.schnorr_commitments)
    verified ← verify_response C H (some bmsg.response) hasher party.ecdsa commitment none
    require verified "failed to validate schnorr response"
