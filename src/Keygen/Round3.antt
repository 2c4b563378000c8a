-- ===== src/Keygen/Round3.antt =====
-- src/mpc/keygen/round3.ts, with paillierValidateN of src/mpc/paillierKeyPair/paillierBackup.ts: the
-- openings of the other parties are checked, and each party proves its key and sends the shares.
use Prim.Native.Nat.{bit_xor}
use threshold_sig_multiparty.Prelude.{
  ℕ, ◌%◌, String, Bool, false, not, List, [], ◌∷◌, if◌then◌else◌,
}
use threshold_sig_multiparty.Prelude.Dict.{lookup, insert}
use threshold_sig_multiparty.Prelude.Eq.{◌==◌, nat_eq, string_eq}
use threshold_sig_multiparty.Prelude.Int.{ℤ, pos, negsuc}
use threshold_sig_multiparty.Prelude.Result.{Result, ok, err, ◌>>=◌, ◌>>◌, require}
use threshold_sig_multiparty.Crypto.{Crypto, AffinePoint}
use threshold_sig_multiparty.Hasher.{
  Hashing, Hasher, Basic, basic, clone, update, update_multi, decommit, validate_commitment,
}
use threshold_sig_multiparty.Schnorr.{SchCommitment}
use threshold_sig_multiparty.Pedersen
use threshold_sig_multiparty.Pedersen.{PedersenParams}
use threshold_sig_multiparty.Paillier.{PublicKey, from_n, encrypt}
use threshold_sig_multiparty.Polynomial
use threshold_sig_multiparty.Polynomial.{party_id_to_scalar}
use threshold_sig_multiparty.Exponent
use threshold_sig_multiparty.Exponent.{Exponent, same_bool, is_zero?}
use threshold_sig_multiparty.Zk.Prm
use threshold_sig_multiparty.Zk.Prm.{PrmProof}
use threshold_sig_multiparty.Zk.Fac
use threshold_sig_multiparty.Zk.Fac.{FacPublic, FacProof, FacSampled}
use threshold_sig_multiparty.Zk.Mod
use threshold_sig_multiparty.Zk.Mod.{ModProof}
use threshold_sig_multiparty.Keygen.{found}
use threshold_sig_multiparty.Keygen.Session.{KeygenSession, KeygenInput3, KeygenInput4, clone_hash}
use threshold_sig_multiparty.Keygen.Round1.{KeygenBroadcast3, committed}

-- The fields of KeygenRound3.
pub record KeygenRound3 (C : Crypto) : Type 0 where
  pub rids : List (String × ℕ)
  pub chain_keys : List (String × ℕ)
  pub paillier_public : List (String × PublicKey)
  pub pedersen : List (String × PedersenParams)
  pub vss_polynomials : List (String × Exponent C)
  pub schnorr_commitments : List (String × SchCommitment)
  pub elgamal_public : List (String × AffinePoint)

-- KeygenBroadcastForRound4
pub record KeygenBroadcast4 : Type 0 where
  pub from : String
  pub mod_proof : ModProof
  pub prm_proof : PrmProof

-- KeygenDirectMessageForRound4
pub record KeygenMessage4 : Type 0 where
  pub from : String
  pub to : String
  pub share : ℕ
  pub fac_proof : FacProof

-- What process draws: for sampleQNR, for the 80 exponents, and for each other party the numbers of
-- the proof and the nonce of the ciphertext.
pub record Drawn3 : Type 0 where
  pub qnr : ℕ → ℕ
  pub exponents : ℕ → ℕ
  pub fac : String → FacSampled
  pub nonce : String → ℕ

abbrev bits_paillier : ℕ
bits_paillier = 2048

-- `degree === threshold`
abbrev same_degree : ℤ → ℕ → Bool
same_degree (pos d) threshold = d == threshold
same_degree (negsuc d) threshold = false

module _ (C : Crypto) where
  unfoldable pub paillier_validate_n : ℕ → Result (Unit {0})
  paillier_validate_n n = do
    require (not (n == 0)) "N_IS_NULL"
    require (C.bit_length n == bits_paillier) "INVALID_N_BITS"
    require (not (n % 2 == 0)) "INVALID_N_EVEN"

  -- The loops that combine the contributions of the parties.
  unfoldable pub xor_all : List (String × ℕ) → ℕ → List String → Result ℕ
  unfolding lookup
  xor_all values acc [] = ok acc
  xor_all values acc (j ∷ js) = do
    value ← found C (lookup j values)
    xor_all values (bit_xor acc value) js

  module _ (H : Hashing C.Point) where
    -- The checks of handleBroadcastMessage.
    unfoldable pub check_opening :
        KeygenSession → KeygenInput3 C → KeygenBroadcast3 C → Result (Unit {0})
    check_opening session input bmsg = do
      validate_commitment bmsg.decommitment
      let vss_secret = input.input_for_round2.input_round1.vss_secret
      require
          (same_bool (is_zero? (Polynomial.constant vss_secret)) bmsg.vss_polynomial.is_constant)
          "vss polynomial has incorrect constant"
      require (same_degree (Exponent.degree C bmsg.vss_polynomial) session.threshold)
          "vss polynomial has incorrect degree"
      paillier_validate_n bmsg.pedersen_public.n
      Pedersen.validate C bmsg.pedersen_public
      hasher ← clone_hash H session bmsg.from
      commitment ← found C (lookup bmsg.from input.commitments)
      valid ← decommit H hasher commitment bmsg.decommitment (
          committed C bmsg.rid bmsg.c bmsg.vss_polynomial bmsg.schnorr_commitment.c
            bmsg.elgamal_public bmsg.pedersen_public)
      require valid "failed to decommit"

    -- handleBroadcastMessage; an exception is caught, and nothing is stored.
    unfoldable pub handle_opening :
        KeygenSession → KeygenInput3 C → KeygenRound3 C → KeygenBroadcast3 C → KeygenRound3 C
    handle_opening session input s bmsg = elim (check_opening session input bmsg) [
      | err text ↦ s
      | ok _ ↦ record {
        rids = insert bmsg.from bmsg.rid s.rids;
        chain_keys = insert bmsg.from bmsg.c s.chain_keys;
        paillier_public = insert bmsg.from (from_n bmsg.pedersen_public.n) s.paillier_public;
        pedersen = insert bmsg.from bmsg.pedersen_public s.pedersen;
        vss_polynomials = insert bmsg.from bmsg.vss_polynomial s.vss_polynomials;
        schnorr_commitments = insert bmsg.from bmsg.schnorr_commitment s.schnorr_commitments;
        elgamal_public = insert bmsg.from bmsg.elgamal_public s.elgamal_public;
      }
    ]

    -- `session.hasher.clone().updateMulti([rid, selfId])`
    unfoldable pub hash_with_rid : KeygenSession → ℕ → Result Hasher
    unfolding clone update_multi
    hash_with_rid session rid =
        update_multi H (clone session.hasher)
          (basic (Basic.number rid) ∷ basic (Basic.text session.self_id) ∷ [])

    -- What process sends to another party: the proof of the factors for its parameters, and its share.
    unfoldable pub send_share :
        KeygenSession
        → KeygenInput3 C
        → KeygenRound3 C
        → Drawn3
        → Hasher
        → ℕ
        → String
        → Result KeygenMessage4
    send_share session input s drawn hash own_n j = do
      let secret = input.input_for_round2.paillier_secret
      aux ← found C (lookup j s.pedersen)
      proof ←
          Fac.create_proof C H (record { p = secret.p; q = secret.q })
            (record { n = own_n; aux = aux }) (drawn.fac j) (clone hash)
      share ←
          Polynomial.evaluate C input.input_for_round2.input_round1.vss_secret
            (party_id_to_scalar C j)
      key ← found C (lookup j s.paillier_public)
      (ciphertext, nonce) ← encrypt C key share (drawn.nonce j)
      ok (record { from = session.self_id; to = j; share = ciphertext; fac_proof = proof })

    -- The loop over the other parties.
    unfoldable pub send_shares :
        KeygenSession
        → KeygenInput3 C
        → KeygenRound3 C
        → Drawn3
        → Hasher
        → ℕ
        → List String
        → Result (List KeygenMessage4)
    unfolding send_share
    send_shares session input s drawn hash own_n [] = ok []
    send_shares session input s drawn hash own_n (j ∷ js) =
        let rest = send_shares session input s drawn hash own_n js in
        if j == session.self_id then rest else (do
          message ← send_share session input s drawn hash own_n j
          messages ← rest
          ok (message ∷ messages))

    -- process: the broadcast, the direct messages, the output, and the session.
    unfoldable pub process3 :
        KeygenSession
        → KeygenInput3 C
        → KeygenRound3 C
        → Drawn3
        → Result (KeygenBroadcast4 × (List KeygenMessage4 × (KeygenInput4 C × KeygenSession)))
    unfolding xor_all hash_with_rid lookup Mod.create_proof Prm.create_proof send_shares update
        clone
    process3 session input s drawn = do
      chain_key ← xor_all s.chain_keys 0 session.party_ids
      rid ← xor_all s.rids 0 session.party_ids
      hash ← hash_with_rid session rid
      let secret = input.input_for_round2.paillier_secret
      own ← found C (lookup session.self_id s.paillier_public)
      mod_proof ←
          Mod.create_proof C H (record { p = secret.p; q = secret.q; phi = secret.phi }) own.n
            drawn.qnr (clone hash)
      aux ← found C (lookup session.self_id s.pedersen)
      prm_proof ←
          Prm.create_proof C H
            (record {
              lambda = input.input_for_round2.pedersen_secret;
              phi = secret.phi;
              p = secret.p;
              q = secret.q;
            })
            aux drawn.exponents (clone hash)
      messages ← send_shares session input s drawn hash own.n session.party_ids
      hasher ← update H session.hasher (basic (Basic.number rid))
      ok (
        record { from = session.self_id; mod_proof = mod_proof; prm_proof = prm_proof },
        (
          messages,
          (
            record {
              input_for_round3 = input;
              rid = rid;
              chain_key = chain_key;
              pedersen_public = s.pedersen;
              paillier_public = s.paillier_public;
              vss_polynomials = s.vss_polynomials;
              elgamal_public = s.elgamal_public;
              schnorr_commitments = s.schnorr_commitments;
            },
            record session { hasher = hasher },
          ),
        ),
      )
