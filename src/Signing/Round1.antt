-- ===== src/Signing/Round1.antt =====
-- src/mpc/signing/signRound1.ts: a party draws its shares of the nonce and of gamma, and encrypts them.
use threshold_sig_multiparty.Prelude.{ℕ, String, List, [], ◌∷◌, if◌then◌else◌}
use threshold_sig_multiparty.Prelude.Eq.{◌==◌, string_eq}
use threshold_sig_multiparty.Prelude.Dict.{lookup}
use threshold_sig_multiparty.Prelude.Result.{Result, ok, ◌>>=◌}
use threshold_sig_multiparty.Crypto.{Crypto, AffinePoint}
use threshold_sig_multiparty.Hasher.{Hashing}
use threshold_sig_multiparty.Keygen.{found}
use threshold_sig_multiparty.Sample.{sample_scalar_point_pair}
use threshold_sig_multiparty.Paillier.{SecretKey, encrypt}
use threshold_sig_multiparty.Zk.Enc
use threshold_sig_multiparty.Zk.Enc.{EncPublic, EncPrivate, EncProof, EncSampled}
use threshold_sig_multiparty.Signing.{PartyPublic, SignSession, clone_hash_for_id}

-- `SignPartyInputRound1`
pub record InputForRound1 : Type 0 where
  pub public_key : AffinePoint
  pub secret_ecdsa : ℕ
  pub secret_paillier : SecretKey
  pub parties_public : List (String × PartyPublic)
  pub message : List ℕ

-- `SignPartyInputRound2`
pub record InputForRound2 : Type 0 where
  pub input_for_round1 : InputForRound1
  pub k : ℕ
  pub g : ℕ
  pub big_gamma_share : AffinePoint
  pub gamma_share : ℕ
  pub k_share : ℕ
  pub k_nonce : ℕ
  pub g_nonce : ℕ

-- SignBroadcastForRound2
pub record Broadcast2 : Type 0 where
  pub from : String
  pub k : ℕ
  pub g : ℕ

-- SignMessageForRound2
pub record Message2 : Type 0 where
  pub from : String
  pub to : String
  pub proof_enc : EncProof

-- The scalars that process samples, and the nonces of its two calls of `encrypt`.
pub record Drawn1 : Type 0 where
  pub gamma : ℕ
  pub g_nonce : ℕ
  pub k : ℕ
  pub k_nonce : ℕ

module _ (C : Crypto) where
  -- The loop of process over the entries of partiesPublic.
  unfoldable pub prove_each :
      Hashing C.Point
      → SignSession
      → PartyPublic
      → ℕ
      → EncPrivate
      → (String → EncSampled)
      → List (String × PartyPublic)
      → Result (List Message2)
  unfolding clone_hash_for_id Enc.create_proof
  prove_each H session own k priv draw [] = ok []
  prove_each H session own k priv draw ((id, party) ∷ parties) = do
    rest ← prove_each H session own k priv draw parties
    (if id == session.self_id then ok rest else (do
      let pub_data : EncPublic = record { big_k = k; prover = own.paillier; aux = party.pedersen }
      hasher ← clone_hash_for_id H session session.self_id
      proof ← Enc.create_proof C H pub_data priv (draw id) hasher
      ok (record { from = session.self_id; to = id; proof_enc = proof } ∷ rest)))

  unfoldable pub process :
      Hashing C.Point
      → SignSession
      → InputForRound1
      → Drawn1
      → (String → EncSampled)
      → Result (Broadcast2 × (List Message2 × (InputForRound2 × SignSession)))
  unfolding lookup sample_scalar_point_pair encrypt prove_each
  process H session input drawn draw = do
    (gamma_share, big_gamma_share) ← sample_scalar_point_pair C drawn.gamma
    own ← found C (lookup session.self_id input.parties_public)
    (g, g_nonce) ← encrypt C own.paillier gamma_share drawn.g_nonce
    let k_share = drawn.k
    (k, k_nonce) ← encrypt C own.paillier k_share drawn.k_nonce
    let priv : EncPrivate = record { k = k_share; rho = k_nonce }
    messages ← prove_each H session own k priv draw input.parties_public
    ok (
      record { from = session.self_id; k = k; g = g },
      (
        messages,
        (
          record {
            input_for_round1 = input;
            k = k;
            g = g;
            big_gamma_share = big_gamma_share;
            gamma_share = gamma_share;
            k_share = k_share;
            k_nonce = k_nonce;
            g_nonce = g_nonce;
          },
          record session { current_round = 2 },
        ),
      ),
    )
