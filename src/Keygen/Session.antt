-- ===== src/Keygen/Session.antt =====
-- src/mpc/keygen/keygenSession.ts and the inputs of the rounds in src/mpc/keygen/types.ts: a key
-- generation from its start, and what its rounds pass on. The fields for a refresh of the keys are
-- `null` in every session, and are left out.
use threshold_sig_multiparty.Prelude.{ℕ, String, List, [], ◌∷◌, Option, some}
use threshold_sig_multiparty.Prelude.Result.{Result, ok, ◌>>=◌}
use threshold_sig_multiparty.Crypto.{Crypto, AffinePoint}
use threshold_sig_multiparty.Hasher.{Hashing, Hasher, Basic, basic, new_hasher, clone, update}
use threshold_sig_multiparty.Schnorr.{SchCommitment, SchRandomness}
use threshold_sig_multiparty.Pedersen.{PedersenParams}
use threshold_sig_multiparty.Paillier.{PublicKey, SecretKey}
use threshold_sig_multiparty.Polynomial
use threshold_sig_multiparty.Polynomial.{Polynomial}
use threshold_sig_multiparty.Exponent.{Exponent}

-- SessionConfig
pub record SessionConfig : Type 0 where
  pub self_id : String
  pub party_ids : List String
  pub threshold : ℕ

-- The fields of KeygenSession that the rounds use.
pub record KeygenSession : Type 0 where
  pub party_ids : List String
  pub self_id : String
  pub threshold : ℕ
  pub hasher : Hasher

-- KeygenInputForRound1
pub record KeygenInput1 : Type 0 where
  pub vss_secret : Polynomial
  pub precomputed_primes : Option (ℕ × ℕ)

-- KeygenInputForRound2
pub record KeygenInput2 (C : Crypto) : Type 0 where
  pub input_round1 : KeygenInput1
  pub self_vss_polynomial : Exponent C
  pub self_commitment : List ℕ
  pub self_rid : ℕ
  pub chain_key : ℕ
  pub self_share : ℕ
  pub elgamal_public : AffinePoint
  pub self_paillier_public : PublicKey
  pub self_pedersen_public : PedersenParams
  pub elgamal_secret : ℕ
  pub paillier_secret : SecretKey
  pub pedersen_secret : ℕ
  pub schnorr_rand : SchRandomness
  pub decommitment : List ℕ

-- KeygenInputForRound3
pub record KeygenInput3 (C : Crypto) : Type 0 where
  pub input_for_round2 : KeygenInput2 C
  pub commitments : List (String × List ℕ)

-- KeygenInputForRound4
pub record KeygenInput4 (C : Crypto) : Type 0 where
  pub input_for_round3 : KeygenInput3 C
  pub rid : ℕ
  pub chain_key : ℕ
  pub pedersen_public : List (String × PedersenParams)
  pub paillier_public : List (String × PublicKey)
  pub vss_polynomials : List (String × Exponent C)
  pub elgamal_public : List (String × AffinePoint)
  pub schnorr_commitments : List (String × SchCommitment)

-- The primes that init writes into every session.
abbrev precomputed_p : ℕ
precomputed_p =
    140656066935617068498146945231934875455216373658357415502745428687235261656648638287551719750772170167072660618746434922467026175316328679021082239834872641463481202598538804109033672325604594242999482643715131298123781048438272500363100287151576822437239577277536933950267625817888142008490020035657029276407

abbrev precomputed_q : ℕ
precomputed_q =
    175437726479818986625224700860380920063101111865374554740519436736586455912956005968158447930382949780886369408190562582756101804782170061689786605035300744632482593570950291647513234434906219657068892385520913477200820946242503153623041776816739567937245171318575515185901118752529992399233786355959816486303

module _ {P : Type 0} (H : Hashing P) where
  -- `this.hasher.update(partyId)` for each party.
  unfoldable pub update_ids : Hasher → List String → Result Hasher
  unfolding update
  update_ids h [] = ok h
  update_ids h (id ∷ ids) = do next ← update H h (basic (Basic.text id)); update_ids next ids

  -- `init`, for the scalars that sampleScalar returns.
  unfoldable pub start_session : SessionConfig → ℕ → (ℕ → ℕ) → Result (KeygenSession × KeygenInput1)
  unfolding update update_ids Polynomial.create
  start_session config vss_constant samples = do
    h1 ← update H new_hasher (basic (Basic.text "CMP-BLAKE"))
    h2 ← update H h1 (basic (Basic.text "cmp/sign"))
    h3 ← update H h2 (basic (Basic.text "secp256k1"))
    h4 ← update H h3 (basic (Basic.number config.threshold))
    h5 ← update_ids h4 config.party_ids
    ok (
      record {
        party_ids = config.party_ids;
        self_id = config.self_id;
        threshold = config.threshold;
        hasher = h5;
      },
      record {
        vss_secret = Polynomial.create config.threshold vss_constant samples;
        precomputed_primes = some (precomputed_p, precomputed_q);
      },
    )

  -- `cloneHashForId`
  unfoldable pub clone_hash : KeygenSession → String → Result Hasher
  unfolding clone update
  clone_hash session id = update H (clone session.hasher) (basic (Basic.text id))
