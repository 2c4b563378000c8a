-- ===== src/Zk/Mod.antt =====
-- src/mpc/zk/mod.ts: the proof that a Paillier modulus is the product of two primes that leave the
-- rest 3 modulo 4, in 80 rounds. The test for primes is an argument.
pub mod Residues
pub mod Roots
pub mod Symbols
pub mod Candidates
pub mod Completeness
pub mod Empty
use threshold_sig_multiparty.Prelude.{
  ℕ, zero, suc, ◌+◌, ◌*◌, ◌/◌, ◌%◌, Bool, true, false, not, ◌&&◌, Option, none, some, List, [], ◌∷◌,
  map, all, if◌then◌else◌, take,
}
use threshold_sig_multiparty.Prelude.Eq.{◌==◌, nat_eq}
use threshold_sig_multiparty.Prelude.Result.{Result, ok, err, ◌>>=◌}
use threshold_sig_multiparty.Crypto.{Crypto}
use threshold_sig_multiparty.Hasher.{
  Hashing, Hasher, Basic, Ingestable, basic, update_multi, digest_bytes_into,
}
use threshold_sig_multiparty.Arith.{is_valid_mod_n, jacobi}
use threshold_sig_multiparty.Sample.{is_minus, sample_qnr}
use threshold_sig_multiparty.Zk.Rounds.{stat_param, head?, tail, drop}

-- ZkModPrivate
pub record ModPrivate : Type 0 where
  pub p : ℕ
  pub q : ℕ
  pub phi : ℕ

-- ZkModResponse
pub record ModResponse : Type 0 where
  pub a : Bool
  pub b : Bool
  pub x : ℕ
  pub z : ℕ

-- ZkModProof
pub record ModProof : Type 0 where
  pub w : ℕ
  pub responses : List ModResponse

-- What zkModMakeQuadraticResidue returns.
pub record MadeResidue : Type 0 where
  pub a : Bool
  pub b : Bool
  pub out : ℕ

module _ (C : Crypto) where
  unfoldable pub is_qr_mod_pq : ℕ → ℕ → ℕ → ℕ → ℕ → Bool
  is_qr_mod_pq y p_half q_half p q = (C.mod_pow y p_half p == 1) && (C.mod_pow y q_half q == 1)

  -- zkModFourthRootExponent
  unfoldable pub fourth_root_exponent : ℕ → ℕ
  fourth_root_exponent phi = let e' = (phi + 4) / 8 in C.mod_multiply (e' ∷ e' ∷ []) phi

  -- zkModMakeQuadraticResidue
  unfoldable pub make_quadratic_residue : ℕ → ℕ → ℕ → ℕ → ℕ → ℕ → ℕ → MadeResidue
  unfolding is_qr_mod_pq
  make_quadratic_residue y w p_half q_half n p q =
      let out = y % n in
      let negated = C.mod_negate out n in
      let multiplied = C.mod_multiply (negated ∷ w ∷ []) n in
      if is_qr_mod_pq out p_half q_half p q
      then record { a = false; b = false; out = out }
      else if is_qr_mod_pq negated p_half q_half p q
      then record { a = true; b = false; out = negated }
      else if is_qr_mod_pq multiplied p_half q_half p q
      then record { a = true; b = true; out = multiplied }
      else record { a = false; b = true; out = C.mod_negate multiplied n }

  -- The loop of zkModIsProofValid.
  unfoldable pub responses_valid : ℕ → List ModResponse → Bool
  unfolding is_valid_mod_n
  responses_valid n [] = true
  responses_valid n (r ∷ rs) =
      if not (is_valid_mod_n C n r.x)
      then false
      else if not (is_valid_mod_n C n r.z)
      then false
      else responses_valid n rs

  -- zkModIsProofValid; jacobi throws on an even modulus.
  unfoldable pub is_proof_valid : ModProof → ℕ → Result Bool
  unfolding is_valid_mod_n responses_valid
  is_proof_valid proof n = do
    sign ← jacobi proof.w n
    ok (
        if not (is_minus sign)
        then false
        else if not (is_valid_mod_n C n proof.w)
        then false
        else responses_valid n proof.responses)

  -- verifyResponse
  unfoldable pub verify_response : ModResponse → ℕ → ℕ → ℕ → Bool
  verify_response r n w y =
      if not (C.mod_pow r.z n n == y)
      then false
      else (let lhs = C.mod_multiply (r.x ∷ r.x ∷ r.x ∷ r.x ∷ []) n in
          let negated = if r.a then C.mod_negate y n else y in
          let rhs = if r.b then C.mod_multiply (negated ∷ w ∷ []) n else negated in lhs == rhs)

  -- The responses beside the challenges; a challenge that is missing matches no response.
  unfoldable pub verify_responses : ℕ → ℕ → List ModResponse → List ℕ → Bool
  unfolding verify_response
  verify_responses n w [] ys = true
  verify_responses n w (r ∷ rs) [] = false
  verify_responses n w (r ∷ rs) (y ∷ ys) = verify_response r n w y && verify_responses n w rs ys

  -- The loop of zkModChallenge over the samples that are left in the buffer.
  unfoldable pub samples : ℕ → ℕ → ℕ → List ℕ → List ℕ
  samples n bytes_per_sample zero buffer = []
  samples n bytes_per_sample (suc left) buffer =
      C.bytes_to_number_be (take bytes_per_sample buffer) % n
      ∷ samples n bytes_per_sample left (drop bytes_per_sample buffer)

  -- One element of `ys.map` in zkModCreateProof.
  unfoldable pub respond : ModPrivate → ℕ → ℕ → ℕ → ℕ → ModResponse
  unfolding make_quadratic_residue fourth_root_exponent
  respond priv n w n_inverse y =
      let made = make_quadratic_residue y w (priv.p / 2) (priv.q / 2) n priv.p priv.q in
      record {
        a = made.a;
        b = made.b;
        x = C.mod_pow made.out (fourth_root_exponent priv.phi) n;
        z = C.mod_pow y n_inverse n;
      }

module _ (C : Crypto) (H : Hashing C.Point) where
  -- zkModChallenge
  unfoldable pub challenge : Hasher → ℕ → ℕ → Result (List ℕ)
  unfolding update_multi digest_bytes_into samples
  challenge hasher n w = do
    h ← update_multi H hasher (basic (Basic.number n) ∷ basic (Basic.number w) ∷ [])
    let bytes_per_sample = C.bit_length n / 8 + 2
    (digest, _) ← digest_bytes_into H h (bytes_per_sample * stat_param)
    ok (samples C n bytes_per_sample stat_param digest)

  -- zkModCreateProof, for the numbers that sampleQNR draws.
  unfoldable pub create_proof : ModPrivate → ℕ → (ℕ → ℕ) → Hasher → Result ModProof
  unfolding respond
  create_proof priv n draws hasher = do
    w ← sample_qnr C n draws
    n_inverse ← C.mod_inv n priv.phi
    ys ← challenge hasher n w
    ok (record { w = w; responses = map (respond C priv n w n_inverse) ys })

  -- What zkModVerifyProof resolves to, for the answer of `isProbablyPrime`.
  unfoldable pub verify_proof : (ℕ → Bool) → ModProof → ℕ → Hasher → Result Bool
  unfolding verify_responses
  verify_proof is_probably_prime proof n hasher =
      if n % 2 == 0 then ok false else if is_probably_prime n then ok false else (do
        sign ← jacobi proof.w n
        (if not (is_minus sign)
            then ok false
            else if not (is_valid_mod_n C n proof.w)
            then ok false
            else (do
              ys ← challenge hasher n proof.w
              ok (verify_responses C n proof.w proof.responses ys))))
