-- ===== src/Tests/Proofs.antt =====
-- The proofs about Paillier ciphertexts at concrete inputs, with the modulus 13 * 19.
use threshold_sig_multiparty.Prelude.{[], ◌∷◌, String, ◌≡◌, refl, true, false, none, arith}
use threshold_sig_multiparty.Prelude.Eq.{nat_eq}
use threshold_sig_multiparty.Prelude.Int.{◌%ℤ◌}
use threshold_sig_multiparty.Prelude.Result.{ok}
use threshold_sig_multiparty.Crypto.{product, sum_ℤ}
use threshold_sig_multiparty.Hasher.{new_hasher}
use threshold_sig_multiparty.Curve.{is_identity}
use threshold_sig_multiparty.Pedersen.{PedersenParams, commit, validate_params}
use threshold_sig_multiparty.Paillier.{paillier_add, paillier_multiply, from_n}
use threshold_sig_multiparty.Paillier.Ciphertexts.{cipher}
use threshold_sig_multiparty.Zk.Enc
use threshold_sig_multiparty.Zk.Enc.{EncPublic, EncPrivate, EncProof, EncSampled}
use threshold_sig_multiparty.Zk.Enc.Completeness.{verify_proof-create_proof}
use threshold_sig_multiparty.Zk.Logstar
use threshold_sig_multiparty.Zk.Logstar.{point_g, LogstarPrivate, LogstarProof, LogstarSampled}
use threshold_sig_multiparty.Zk.Logstar.Completeness.{encrypted, verify_logstar-create_proof}
use threshold_sig_multiparty.Zk.Affg
use threshold_sig_multiparty.Zk.Affg.{AffgPrivate, AffgProof, AffgSampled}
use threshold_sig_multiparty.Zk.Affg.Responses.{statement, committed}
use threshold_sig_multiparty.Zk.Affg.Completeness.{verify_affg-create_proof}
use threshold_sig_multiparty.Prelude.Dict.{lookup}
use threshold_sig_multiparty.Signing.{PartyPublic, SignSession}
use threshold_sig_multiparty.Signing.Round1.{InputForRound2, Message2, prove_each}
use threshold_sig_multiparty.Signing.Round2.{SignerRound2, handle_direct}
use threshold_sig_multiparty.Signing.Opening.{handle_direct-prove_each}
use threshold_sig_multiparty.Tests.Residues.{eleven, plain_hashing}
use threshold_sig_multiparty.Tests.Ciphers.{fifteen}

abbrev aux : PedersenParams
aux = record { n = 11; s = 2; t = 3 }

opened : validate_params eleven 11 (commit eleven aux 3 0) (commit eleven aux 2 0) ≡ ok tt
unfolding validate_params commit product
opened = refl

abbrev enc_secret : EncPrivate
enc_secret = record { k = 2; rho = 246 }

abbrev enc_draw : EncSampled
enc_draw = record { alpha = 3; r = 246; mu = 0; gamma = 0 }

abbrev enc_data : EncPublic
enc_data = record { big_k = cipher 247 2 246; prover = from_n 247; aux = aux }

verify_proof-create_proof_example :
    (proof : EncProof) × (Enc.create_proof eleven plain_hashing enc_data enc_secret enc_draw
        new_hasher
      ≡ ok proof)
    × (Enc.verify_proof eleven plain_hashing proof enc_data new_hasher ≡ ok true)
verify_proof-create_proof_example =
    verify_proof-create_proof eleven plain_hashing 247 aux enc_secret enc_draw new_hasher
      (omega arith) (omega arith) (omega arith) (omega arith) (omega arith) refl refl opened refl

not_identity :
    is_identity eleven (eleven.times 3 (eleven.from_affine (eleven.to_affine eleven.base))) ≡ false
unfolding is_identity
not_identity = refl

abbrev log_secret : LogstarPrivate
log_secret = record { x = 2; rho = 246 }

abbrev log_draw : LogstarSampled
log_draw = record { alpha = 3; r = 246; mu = 0; gamma = 0 }

verify_logstar-create_proof_example :
    (proof : LogstarProof) × (Logstar.create_proof eleven plain_hashing
        (encrypted 247 (record { x = 5; y = 5 }) none aux log_secret)
        log_secret
        log_draw
        new_hasher
      ≡ ok proof)
    × (Logstar.verify_proof eleven plain_hashing proof
          (encrypted 247 (record { x = 5; y = 5 }) none aux log_secret)
          new_hasher
        ≡ ok true)
verify_logstar-create_proof_example =
    verify_logstar-create_proof eleven plain_hashing 247 (record { x = 5; y = 5 }) none aux
      log_secret log_draw new_hasher (omega arith) (omega arith) (omega arith) (omega arith)
      (omega arith) (omega arith) (unfold point_g in not_identity) refl refl opened refl

abbrev affg_secret : AffgPrivate
affg_secret = record { x = 2; y = 3; s = 246; r = 246 }

abbrev affg_draw : AffgSampled
affg_draw = record {
  alpha = 3;
  beta = 5;
  rho = 246;
  rho_y = 246;
  gamma = 0;
  m = 0;
  delta = 0;
  mu = 0;
}

opened_summand : validate_params eleven 11 (commit eleven aux 5 0) (commit eleven aux 3 0) ≡ ok tt
unfolding validate_params commit product
opened_summand = refl

affg_challenge :
    Affg.challenge eleven plain_hashing
      (statement eleven 247 247 61008 aux affg_secret)
      (committed eleven 247 247 61008 aux affg_secret affg_draw)
      new_hasher
    ≡ ok 10
unfolding Affg.challenge product sum_ℤ cipher ◌%ℤ◌ commit from_n paillier_add paillier_multiply
affg_challenge = refl

not_identity_base : is_identity eleven (eleven.times 3 eleven.base) ≡ false
unfolding is_identity
not_identity_base = refl

verify_affg-create_proof_example :
    (proof : AffgProof) × (Affg.create_proof eleven plain_hashing
        (statement eleven 247 247 61008 aux affg_secret)
        affg_secret
        affg_draw
        new_hasher
      ≡ ok proof)
    × (Affg.verify_proof eleven plain_hashing proof
          (statement eleven 247 247 61008 aux affg_secret)
          new_hasher
        ≡ ok true)
verify_affg-create_proof_example =
    verify_affg-create_proof eleven plain_hashing 247 247 61008 aux affg_secret affg_draw new_hasher
      10 (omega arith) (omega arith) (omega arith) (omega arith) (omega arith) refl (omega arith)
      (omega arith) (omega arith) (omega arith) (omega arith) refl refl refl refl not_identity_base
      opened opened_summand affg_challenge (omega arith) (omega arith) (omega arith)

abbrev party_public : PartyPublic
party_public = record { paillier = from_n 247; pedersen = aux; ecdsa = record { x = 1; y = 1 } }

abbrev session_at : String → SignSession
session_at id = record {
  current_round = 1;
  party_ids = "a" ∷ "b" ∷ [];
  self_id = id;
  hasher = new_hasher;
}

abbrev receiver_input : InputForRound2
receiver_input = record {
  input_for_round1 = record {
    public_key = record { x = 7; y = 7 };
    secret_ecdsa = 3;
    secret_paillier = fifteen;
    parties_public = ("a", party_public) ∷ ("b", party_public) ∷ [];
    message = [];
  };
  k = 1;
  g = 1;
  big_gamma_share = record { x = 1; y = 1 };
  gamma_share = 1;
  k_share = 1;
  k_nonce = 1;
  g_nonce = 1;
}

abbrev receiver_state : SignerRound2
receiver_state = record { k = ("a", cipher 247 2 246) ∷ []; g = [] }

handle_direct-prove_each_example :
    (message : Message2) × (prove_each eleven plain_hashing
        (session_at "a")
        party_public
        (cipher 247 2 246)
        enc_secret
        (λ id. enc_draw)
        (("b", party_public) ∷ [])
      ≡ ok (message ∷ []))
    × (handle_direct eleven plain_hashing (session_at "b") receiver_input receiver_state message
        ≡ ok tt)
unfolding lookup
handle_direct-prove_each_example =
    handle_direct-prove_each eleven plain_hashing (session_at "a") (session_at "b") 247 party_public
      party_public enc_secret (λ id. enc_draw) receiver_input receiver_state refl refl refl refl
      refl refl (omega arith) (omega arith) (omega arith) (omega arith) (omega arith) refl refl
      opened
