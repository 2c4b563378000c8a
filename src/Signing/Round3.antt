-- ===== src/Signing/Round3.antt =====
-- src/mpc/signing/signRound3.ts: the products of the parties' secrets are checked and decrypted, and
-- the shares of delta and chi are added up.
use threshold_sig_multiparty.Prelude.{ℕ, ◌*◌, String, not, List, [], ◌∷◌, none, some, if◌then◌else◌}
use threshold_sig_multiparty.Prelude.Eq.{◌==◌, nat_eq, string_eq}
use threshold_sig_multiparty.Prelude.Dict.{lookup, insert}
use threshold_sig_multiparty.Prelude.Int.{ℤ, pos, ◌+ℤ◌}
use threshold_sig_multiparty.Prelude.Result.{Result, ok, ◌>>=◌, ◌>>◌, require}
use threshold_sig_multiparty.Crypto.{Crypto, AffinePoint}
use threshold_sig_multiparty.Fn
use threshold_sig_multiparty.Curve.{is_identity}
use threshold_sig_multiparty.Hasher.{Hashing}
use threshold_sig_multiparty.Keygen.{found}
use threshold_sig_multiparty.Paillier.{SecretKey, decrypt}
use threshold_sig_multiparty.Zk.Affg
use threshold_sig_multiparty.Zk.Affg.{AffgPublic, AffgProof}
use threshold_sig_multiparty.Zk.Logstar
use threshold_sig_multiparty.Zk.Logstar.{
  LogstarPublic, LogstarPrivate, LogstarProof, LogstarSampled,
}
use threshold_sig_multiparty.Signing.{PartyPublic, SignSession, clone_hash_for_id}
use threshold_sig_multiparty.Signing.Round4.{Broadcast4, Message4}

-- What round 3 reads of `SignInputForRound3` and of the inputs of earlier rounds inside it.
pub record InputForRound3 : Type 0 where
  pub delta_share_betas : List (String × ℤ)
  pub chi_share_betas : List (String × ℤ)
  pub k : List (String × ℕ)
  pub g : List (String × ℕ)
  pub gamma_share : ℕ
  pub k_share : ℕ
  pub k_nonce : ℕ
  pub secret_ecdsa : ℕ
  pub secret_paillier : SecretKey
  pub parties_public : List (String × PartyPublic)

-- SignBroadcastForRound3
pub record Broadcast3 : Type 0 where
  pub from : String
  pub big_gamma_share : AffinePoint

-- SignMessageForRound3
pub record Message3 : Type 0 where
  pub from : String
  pub to : String
  pub delta_d : ℕ
  pub delta_f : ℕ
  pub delta_proof : AffgProof
  pub chi_d : ℕ
  pub chi_f : ℕ
  pub chi_proof : AffgProof
  pub proof_log : LogstarProof

-- The fields of SignerRound3.
pub record SignerRound3 : Type 0 where
  pub big_gamma_share : List (String × AffinePoint)
  pub delta_share_alpha : List (String × ℤ)
  pub chi_share_alpha : List (String × ℤ)

-- What process returns for the next round.
pub record Output3 : Type 0 where
  pub delta_share : ℤ
  pub big_delta_share : AffinePoint
  pub gamma : AffinePoint
  pub chi_share : ℕ

-- `otherPartyIds` of src/mpc/keygen/partyKey.ts
unfoldable pub other_party_ids : List String → String → List String
other_party_ids [] self_id = []
other_party_ids (p ∷ ps) self_id =
    let rest = other_party_ids ps self_id in if not (p == self_id) then p ∷ rest else rest

module _ (C : Crypto) where
  unfoldable pub handle_broadcast : SignerRound3 → Broadcast3 → Result SignerRound3
  unfolding is_identity insert
  handle_broadcast s bmsg = do
    require (not (is_identity C (C.from_affine bmsg.big_gamma_share))) "BigGammaShare is identity"
    ok (record s { big_gamma_share = insert bmsg.from bmsg.big_gamma_share s.big_gamma_share })

  -- A missing entry is `undefined`, on which a later statement throws.
  unfoldable pub handle_direct :
      Hashing C.Point → SignSession → InputForRound3 → SignerRound3 → Message3 → Result SignerRound3
  unfolding lookup insert clone_hash_for_id Affg.verify_proof Logstar.verify_proof decrypt
  handle_direct H session input s msg = do
    require (msg.to == session.self_id) "Message intended for another party"
    own_k ← found C (lookup msg.to input.k)
    their_g ← found C (lookup msg.from input.g)
    point ← found C (lookup msg.from s.big_gamma_share)
    prover ← found C (lookup msg.from input.parties_public)
    own ← found C (lookup msg.to input.parties_public)
    hasher ← clone_hash_for_id H session msg.from
    let delta_public : AffgPublic = record {
      kv = own_k;
      dv = msg.delta_d;
      fp = msg.delta_f;
      xp = point;
      prover = prover.paillier;
      verifier = own.paillier;
      aux = own.pedersen;
    }
    delta_verified ← Affg.verify_proof C H msg.delta_proof delta_public hasher
    require delta_verified "Failed to validate affg proof for Delta MtA"
    let chi_public : AffgPublic = record {
      kv = own_k;
      dv = msg.chi_d;
      fp = msg.chi_f;
      xp = prover.ecdsa;
      prover = prover.paillier;
      verifier = own.paillier;
      aux = own.pedersen;
    }
    chi_verified ← Affg.verify_proof C H msg.chi_proof chi_public hasher
    require chi_verified "Failed to validate affg proof for Chi MtA"
    let log_public : LogstarPublic = record {
      big_c = their_g;
      big_x = point;
      g = none;
      prover = prover.paillier;
      aux = own.pedersen;
    }
    log_verified ← Logstar.verify_proof C H msg.proof_log log_public hasher
    require log_verified "Failed to validate log proof"
    delta_alpha ← decrypt C input.secret_paillier msg.delta_d
    chi_alpha ← decrypt C input.secret_paillier msg.chi_d
    ok (record s {
      delta_share_alpha = insert msg.from delta_alpha s.delta_share_alpha;
      chi_share_alpha = insert msg.from chi_alpha s.chi_share_alpha;
    })

  -- The loop that adds up Gamma.
  unfoldable pub sum_gamma : List (String × AffinePoint) → C.Point → C.Point
  sum_gamma [] gamma = gamma
  sum_gamma ((id, point) ∷ points) gamma = sum_gamma points (C.add gamma (C.from_affine point))

  -- The loop of process over the other parties, for one of the two shares.
  unfoldable pub add_shares : List (String × ℤ) → List (String × ℤ) → List String → ℤ → Result ℤ
  unfolding lookup ◌+ℤ◌
  add_shares alphas betas [] share = ok share
  add_shares alphas betas (id ∷ ids) share = do
    alpha ← found C (lookup id alphas)
    beta ← found C (lookup id betas)
    add_shares alphas betas ids (share +ℤ alpha +ℤ beta)

  -- The loop that proves to each other party that the broadcast point has the secret k.
  unfoldable pub prove_all :
      Hashing C.Point
      → SignSession
      → InputForRound3
      → AffinePoint
      → AffinePoint
      → (String → LogstarSampled)
      → List String
      → Result (List Message4)
  unfolding lookup clone_hash_for_id Logstar.create_proof
  prove_all H session input big_delta_share gamma draw [] = ok []
  prove_all H session input big_delta_share gamma draw (id ∷ ids) = do
    own_k ← found C (lookup session.self_id input.k)
    own ← found C (lookup session.self_id input.parties_public)
    verifier ← found C (lookup id input.parties_public)
    let pub_data : LogstarPublic = record {
      big_c = own_k;
      big_x = big_delta_share;
      g = some gamma;
      prover = own.paillier;
      aux = verifier.pedersen;
    }
    let priv : LogstarPrivate = record { x = input.k_share; rho = input.k_nonce }
    hasher ← clone_hash_for_id H session session.self_id
    proof ← Logstar.create_proof C H pub_data priv (draw id) hasher
    rest ← prove_all H session input big_delta_share gamma draw ids
    ok (record { from = session.self_id; to = id; proof_log = proof } ∷ rest)

  -- The two shares that process adds up.
  unfoldable pub shares : SignSession → InputForRound3 → SignerRound3 → Result (ℤ × ℤ)
  unfolding add_shares other_party_ids
  shares session input s = do
    let others = other_party_ids session.party_ids session.self_id
    delta_share ←
        add_shares s.delta_share_alpha input.delta_share_betas others
          (pos (input.gamma_share * input.k_share))
    chi_share ←
        add_shares s.chi_share_alpha input.chi_share_betas others
          (pos (input.secret_ecdsa * input.k_share))
    ok (delta_share, chi_share)

  -- The broadcast, the direct messages, the output, and the session.
  unfoldable pub process :
      Hashing C.Point
      → SignSession
      → InputForRound3
      → SignerRound3
      → (String → LogstarSampled)
      → Result (Broadcast4 × (List Message4 × (Output3 × SignSession)))
  unfolding sum_gamma shares prove_all Fn.residue other_party_ids
  process H session input s draw = do
    let gamma = sum_gamma s.big_gamma_share C.zero_point
    big_delta_share ← C.multiply gamma input.k_share
    (delta_share, chi_share) ← shares session input s
    messages ←
        prove_all H session input (C.to_affine big_delta_share) (C.to_affine gamma) draw
          (other_party_ids session.party_ids session.self_id)
    ok (
      record {
        from = session.self_id;
        delta_share = Fn.residue C delta_share;
        big_delta_share = C.to_affine big_delta_share;
      },
      (
        messages,
        (
          record {
            delta_share = delta_share;
            big_delta_share = C.to_affine big_delta_share;
            gamma = C.to_affine gamma;
            chi_share = Fn.residue C chi_share;
          },
          record session { current_round = 4 },
        ),
      ),
    )
