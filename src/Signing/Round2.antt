-- ===== src/Signing/Round2.antt =====
-- src/mpc/signing/signRound2.ts: the ciphertexts of the other parties are checked, and each product
-- with their share of the nonce is prepared.
use threshold_sig_multiparty.Prelude.{ℕ, String, not, ◌&&◌, List, [], ◌∷◌, none}
use threshold_sig_multiparty.Prelude.Eq.{◌==◌, string_eq}
use threshold_sig_multiparty.Prelude.Dict.{lookup, insert}
use threshold_sig_multiparty.Prelude.Int.{ℤ}
use threshold_sig_multiparty.Prelude.Result.{Result, ok, ◌>>=◌, ◌>>◌, require}
use threshold_sig_multiparty.Crypto.{Crypto}
use threshold_sig_multiparty.Hasher.{Hashing}
use threshold_sig_multiparty.Keygen.{found}
use threshold_sig_multiparty.Paillier.{validate_ciphertext}
use threshold_sig_multiparty.Mta.{MtaSampled, mta_prove_aff_g}
use threshold_sig_multiparty.Zk.Enc
use threshold_sig_multiparty.Zk.Enc.{EncPublic}
use threshold_sig_multiparty.Zk.Affg.{AffgSampled}
use threshold_sig_multiparty.Zk.Logstar
use threshold_sig_multiparty.Zk.Logstar.{LogstarPublic, LogstarPrivate, LogstarSampled}
use threshold_sig_multiparty.Signing.{SignSession, clone_hash_for_id}
use threshold_sig_multiparty.Signing.Round1.{InputForRound2, Broadcast2, Message2}
use threshold_sig_multiparty.Signing.Round3.{InputForRound3, Broadcast3, Message3, other_party_ids}

-- The fields of SignerRound2.
pub record SignerRound2 : Type 0 where
  pub k : List (String × ℕ)
  pub g : List (String × ℕ)

-- What process samples for another party.
pub record Drawn2 : Type 0 where
  pub delta : MtaSampled
  pub delta_proof : AffgSampled
  pub chi : MtaSampled
  pub chi_proof : AffgSampled
  pub proof_log : LogstarSampled

-- The messages, and the two shares in `mtaOuts`, each with the other party's id.
pub record Prepared2 : Type 0 where
  pub messages : List Message3
  pub delta_betas : List (String × ℤ)
  pub chi_betas : List (String × ℤ)

-- A loop of assignments `obj[id] = beta`.
unfoldable pub assign_all : List (String × ℤ) → List (String × ℤ) → List (String × ℤ)
unfolding insert
assign_all [] obj = obj
assign_all ((id, beta) ∷ betas) obj = assign_all betas (insert id beta obj)

module _ (C : Crypto) where
  unfoldable pub handle_broadcast : InputForRound2 → SignerRound2 → Broadcast2 → Result SignerRound2
  unfolding lookup insert validate_ciphertext
  handle_broadcast input s bmsg = do
    party ← found C (lookup bmsg.from input.input_for_round1.parties_public)
    require
        (validate_ciphertext C party.paillier bmsg.k && validate_ciphertext C party.paillier bmsg.g)
        "Invalid ciphertexts"
    ok (record { k = insert bmsg.from bmsg.k s.k; g = insert bmsg.from bmsg.g s.g })

  -- A missing entry is `undefined`, on which a later statement throws.
  unfoldable pub handle_direct :
      Hashing C.Point → SignSession → InputForRound2 → SignerRound2 → Message2 → Result (Unit {0})
  unfolding lookup clone_hash_for_id Enc.verify_proof
  handle_direct H session input s msg = do
    require (msg.to == session.self_id) "Received message for another party"
    require (not (msg.from == session.self_id)) "Received message from myself"
    big_k ← found C (lookup msg.from s.k)
    prover ← found C (lookup msg.from input.input_for_round1.parties_public)
    own ← found C (lookup msg.to input.input_for_round1.parties_public)
    let pub_data : EncPublic = record {
      big_k = big_k;
      prover = prover.paillier;
      aux = own.pedersen;
    }
    hasher ← clone_hash_for_id H session msg.from
    verified ← Enc.verify_proof C H msg.proof_enc pub_data hasher
    require verified "Invalid proof"

  -- The call of `map` over the other parties in process.
  unfoldable pub prepare_all :
      Hashing C.Point
      → SignSession
      → InputForRound2
      → SignerRound2
      → (String → Drawn2)
      → List String
      → Result Prepared2
  unfolding lookup insert clone_hash_for_id mta_prove_aff_g Logstar.create_proof
  prepare_all H session input s draw [] =
      ok (record { messages = []; delta_betas = []; chi_betas = [] })
  prepare_all H session input s draw (id ∷ ids) = do
    let input1 = input.input_for_round1
    let drawn = draw id
    their_k ← found C (lookup id s.k)
    party ← found C (lookup id input1.parties_public)
    hasher ← clone_hash_for_id H session session.self_id
    delta ←
        mta_prove_aff_g C H input.gamma_share input.big_gamma_share their_k input1.secret_paillier
          party.paillier party.pedersen drawn.delta drawn.delta_proof hasher
    own ← found C (lookup session.self_id input1.parties_public)
    chi ←
        mta_prove_aff_g C H input1.secret_ecdsa own.ecdsa their_k input1.secret_paillier
          party.paillier party.pedersen drawn.chi drawn.chi_proof hasher
    own_g ← found C (lookup session.self_id s.g)
    let pub_data : LogstarPublic = record {
      big_c = own_g;
      big_x = input.big_gamma_share;
      g = none;
      prover = input1.secret_paillier.public_key;
      aux = party.pedersen;
    }
    let priv : LogstarPrivate = record { x = input.gamma_share; rho = input.g_nonce }
    proof ← Logstar.create_proof C H pub_data priv drawn.proof_log hasher
    rest ← prepare_all H session input s draw ids
    let message : Message3 = record {
      from = session.self_id;
      to = id;
      delta_d = delta.d;
      delta_f = delta.f;
      delta_proof = delta.proof;
      chi_d = chi.d;
      chi_f = chi.f;
      chi_proof = chi.proof;
      proof_log = proof;
    }
    ok (record {
      messages = message ∷ rest.messages;
      delta_betas = (id, delta.beta) ∷ rest.delta_betas;
      chi_betas = (id, chi.beta) ∷ rest.chi_betas;
    })

  -- The broadcast, the direct messages, the output, and the session.
  unfoldable pub process :
      Hashing C.Point
      → SignSession
      → InputForRound2
      → SignerRound2
      → (String → Drawn2)
      → Result (Broadcast3 × (List Message3 × (InputForRound3 × SignSession)))
  unfolding prepare_all other_party_ids assign_all
  process H session input s draw = do
    prepared ←
        prepare_all H session input s draw (other_party_ids session.party_ids session.self_id)
    let input1 = input.input_for_round1
    ok (
      record { from = session.self_id; big_gamma_share = input.big_gamma_share },
      (
        prepared.messages,
        (
          record {
            delta_share_betas = assign_all prepared.delta_betas [];
            chi_share_betas = assign_all prepared.chi_betas [];
            k = s.k;
            g = s.g;
            gamma_share = input.gamma_share;
            k_share = input.k_share;
            k_nonce = input.k_nonce;
            secret_ecdsa = input1.secret_ecdsa;
            secret_paillier = input1.secret_paillier;
            parties_public = input1.parties_public;
          },
          record session { current_round = 3 },
        ),
      ),
    )
