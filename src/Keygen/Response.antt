-- ===== src/Keygen/Response.antt =====
-- How round 5 of a key generation receives what round 4 of another party broadcasts: the handlers of
-- src/mpc/keygen/round4.ts and round5.ts.
use threshold_sig_multiparty.Prelude.{
  ℕ, ◌≡◌, ◌≢◌, refl, sym, ap, ◌∙◌, String, Bool, true, false, List, [], ◌∷◌, none, some,
  if◌then◌else◌, arith,
}
use threshold_sig_multiparty.Prelude.Dict.{lookup}
use threshold_sig_multiparty.Prelude.Eq.{◌==◌, nat_eq, string_eq}
use threshold_sig_multiparty.Prelude.Result.{Result, ok, err}
use threshold_sig_multiparty.Crypto.{Crypto, AffinePoint}
use threshold_sig_multiparty.Hasher.{
  Hashing, Hasher, Basic, basic, hashable, clone, update, update_all, update_multi,
}
use threshold_sig_multiparty.Curve.{is_identity}
use threshold_sig_multiparty.Schnorr.{
  SchResponse, SchCommitment, generator, challenge, create_randomness, prove, is_response_valid,
  verify_response,
}
use threshold_sig_multiparty.Schnorr.Completeness.{verify_response-prove}
use threshold_sig_multiparty.Zk.{update-ok}
use threshold_sig_multiparty.Keygen
use threshold_sig_multiparty.Keygen.{Shares}
use threshold_sig_multiparty.Keygen.Session.{KeygenSession, KeygenInput4, clone_hash}
use threshold_sig_multiparty.Keygen.Round4.{
  PartyPublicConfig, PartySecretConfig, KeygenBroadcast5, KeygenInput5, config_hashable,
  public_configs, process4, check_response,
}

module _ (C : Crypto) (H : Hashing C.Point) where
  clone-fresh : (h : Hasher) → h.used ≡ false → clone h ≡ h
  unfolding clone
  clone-fresh h fresh = ground (arith, fresh)

  -- The transcript of the sender's proof, and the one that the receiver takes after it has hashed the
  -- same configuration.
  transcripts :
      (from to : KeygenSession) (config : List Basic)
      → from.hasher.used ≡ false
      → update_multi H from.hasher (hashable config ∷ []) ≡ ok to.hasher
      → (g : Hasher) × (update_multi H
            (clone from.hasher)
            (hashable config ∷ basic (Basic.text from.self_id) ∷ [])
          ≡ ok g)
        × (clone_hash H to from.self_id ≡ ok (clone g))
  unfolding update_multi update_all clone_hash
  transcripts from to config fresh hashed =
      let (t, e1, f1) = update-ok H from.hasher (hashable config) fresh tt in
      let (g, e2, f2) = update-ok H t (basic (Basic.text from.self_id)) f1 tt in
      let same : t ≡ to.hasher = ground (arith, fresh, hashed, e1) in
      (
        g,
        ap (λ h. update_multi H h (hashable config ∷ basic (Basic.text from.self_id) ∷ []))
              (clone-fresh from.hasher fresh)
            ∙ ground (arith, fresh, e1, e2),
        ap (λ h. update H (clone h) (basic (Basic.text from.self_id))) (sym same)
            ∙ ap (λ h. update H h (basic (Basic.text from.self_id))) (clone-fresh t f1)
            ∙ e2
            ∙ ap (λ h. let r : Result Hasher = ok h in r) (sym (clone-fresh g f2)),
      )

  -- What process of round 4 returns where each of its calls does.
  process4-made :
      (sort : List String → List String) (from : KeygenSession) (input : KeygenInput4 C)
      (shares : Shares C) (secret : ℕ) (points : List (String × AffinePoint))
      (publics : List (String × PartyPublicConfig)) (own : PartyPublicConfig) (z : SchResponse)
      (g h : Hasher)
      → let input2 = input.input_for_round3.input_for_round2 in
        let config : PartySecretConfig = record {
          party_id = from.self_id;
          threshold = from.threshold;
          ecdsa = secret;
          elgamal = input2.elgamal_secret;
          paillier = input2.paillier_secret;
          rid = input.rid;
          chain_key = input.chain_key;
          public_party_data = publics;
        } in
        Keygen.process C input.vss_polynomials from.self_id from.party_ids input2.self_share shares
          ≡ ok (secret, points)
        → public_configs C H input points [] from.party_ids ≡ ok publics
        → update_multi H
            (clone from.hasher)
            (hashable (config_hashable sort config) ∷ basic (Basic.text from.self_id) ∷ [])
          ≡ ok g
        → lookup from.self_id publics ≡ some own
        → prove C H input2.schnorr_rand (clone g) own.ecdsa secret none ≡ ok (some z)
        → update_multi H from.hasher (hashable (config_hashable sort config) ∷ []) ≡ ok h
        → process4 C H sort from input shares
          ≡ ok (
            record { from = from.self_id; response = z },
            (
              record { input_for_round4 = input; updated_config = config },
              record from { hasher = h },
            ),
          )
  unfolding process4
  process4-made sort from input shares secret points publics own z g h computed configs named known
        proved hashed =
      rw (computed, configs, named, known, proved, hashed) refl

  check_response-verified :
      (to : KeygenSession) (input : KeygenInput5 C) (b : KeygenBroadcast5)
      (party : PartyPublicConfig) (commitment : SchCommitment) (g : Hasher) (accepted : Bool)
      → is_response_valid b.response ≡ accepted
      → clone_hash H to b.from ≡ ok g
      → lookup b.from input.updated_config.public_party_data ≡ some party
      → lookup b.from input.input_for_round4.schnorr_commitments ≡ some commitment
      → verify_response C H (some b.response) g party.ecdsa commitment none ≡ ok accepted
      → check_response C H to input b ≡ (if accepted then ok tt else err "invalid schnorr response")
  unfolding check_response
  check_response-verified to input b party commitment g true valid named known committed verified =
      rw (valid, named, known, committed, verified) refl
  check_response-verified to input b party commitment g false valid named known committed verified =
      rw valid refl

  -- For a sender whose secret share is not 0 and whose public share is its point and not the identity,
  -- and whose commitment was made by `zkSchCreateRandomness`, and a receiver with the sender's public
  -- share and Schnorr commitment, whose hasher is the sender's unused one after the sender's
  -- configuration; where the sender's `process` computes its shares and configurations, and the
  -- challenge of the proof is not 0: `process` of the sender's round 4 returns, and the check of the receiver's round 5 accepts its response, unless the response is 0.
  pub check_response-process4 :
      (sort : List String → List String) (from to : KeygenSession) (input : KeygenInput4 C)
      (shares : Shares C) (secret a e : ℕ) (points : List (String × AffinePoint))
      (publics : List (String × PartyPublicConfig)) (own party : PartyPublicConfig)
      (input5 : KeygenInput5 C)
      → let input2 = input.input_for_round3.input_for_round2 in
        let config : PartySecretConfig = record {
          party_id = from.self_id;
          threshold = from.threshold;
          ecdsa = secret;
          elgamal = input2.elgamal_secret;
          paillier = input2.paillier_secret;
          rid = input.rid;
          chain_key = input.chain_key;
          public_party_data = publics;
        } in
        Keygen.process C input.vss_polynomials from.self_id from.party_ids input2.self_share shares
          ≡ ok (secret, points)
        → public_configs C H input points [] from.party_ids ≡ ok publics
        → lookup from.self_id publics ≡ some own
        → own.ecdsa ≡ C.to_affine (C.times secret C.base)
        → is_identity C (C.from_affine own.ecdsa) ≡ false
        → secret ≢ 0
        → create_randomness C H a none ≡ ok input2.schnorr_rand
        → from.hasher.used ≡ false
        → update_multi H from.hasher (hashable (config_hashable sort config) ∷ []) ≡ ok to.hasher
        → ((g : Hasher)
            → clone_hash H to from.self_id ≡ ok g
            → challenge C H g input2.schnorr_rand.commitment own.ecdsa C.base ≡ ok e)
        → e ≢ 0
        → lookup from.self_id input5.updated_config.public_party_data ≡ some party
        → party.ecdsa ≡ own.ecdsa
        → lookup from.self_id input5.input_for_round4.schnorr_commitments
          ≡ some input2.schnorr_rand.commitment
        → (z : SchResponse) × (process4 C H sort from input shares
            ≡ ok (
              record { from = from.self_id; response = z },
              (
                record { input_for_round4 = input; updated_config = config },
                record from { hasher = to.hasher },
              ),
            ))
          × (check_response C H to input5 (record { from = from.self_id; response = z })
              ≡ (if z.z == 0 then err "invalid schnorr response" else ok tt))
  unfolding generator
  check_response-process4 sort from to input shares secret a e points publics own party input5
        computed configs known point not_id secret_ne random fresh hashed drawn e_ne theirs
        same_point committed =
      let input2 = input.input_for_round3.input_for_round2 in
      let rand = input2.schnorr_rand in
      let (g, made, named) = transcripts from to _ fresh hashed in
      let (z, proved, verified) =
        verify_response-prove C H (clone g) none a secret e rand own.ecdsa point not_id secret_ne
          random (drawn (clone g) named) e_ne in
      (
        z,
        process4-made sort from input shares secret points publics own z g to.hasher computed
            configs made known proved hashed,
        check_response-verified to input5 (record { from = from.self_id; response = z }) party
              rand.commitment (clone g) (if z.z == 0 then false else true) (valid_is z) named theirs
              committed
              (ap (λ k. verify_response C H (some z) (clone g) k rand.commitment none) same_point
                ∙ verified)
            ∙ flip (z.z == 0),
      )
    where
      valid_is : (z : SchResponse) → is_response_valid z ≡ (if z.z == 0 then false else true)
      valid_is z = unfold is_response_valid in ground arith

      flip :
          (b : Bool)
          → ◌≡◌ {A = Result (Unit {0})}
              (if (if b then false else true) then ok tt else err "invalid schnorr response")
              (if b then err "invalid schnorr response" else ok tt)
      flip true = refl
      flip false = refl
