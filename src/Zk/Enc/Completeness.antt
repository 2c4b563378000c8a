-- ===== src/Zk/Enc/Completeness.antt =====
-- What the verifier of src/mpc/zk/enc.ts makes of the prover's proofs.
use threshold_sig_multiparty.Prelude.{ℕ, ◌+◌, ◌*◌, ◌/◌, ◌%◌, ◌^◌, ◌<◌, ◌≤◌, ◌≡◌, true, false, arith}
use threshold_sig_multiparty.Prelude.Eq.{nat_eq}
use threshold_sig_multiparty.Prelude.Result.{ok}
use threshold_sig_multiparty.Crypto.{Crypto}
use threshold_sig_multiparty.Hasher.{Hashing, Hasher}
use threshold_sig_multiparty.Pedersen
use threshold_sig_multiparty.Pedersen.{PedersenParams, validate_params}
use threshold_sig_multiparty.Pedersen.Opening.{verify-commit}
use threshold_sig_multiparty.Paillier.{from_n}
use threshold_sig_multiparty.Paillier.Ciphertexts.{
  cipher, encrypt_with_nonce-cipher, validate-cipher, combined_nonce, combined_nonce-valid,
  paillier_combine,
}
use threshold_sig_multiparty.Zk.{square-le, digest_challenge-ok, response-lt, response-interval}
use threshold_sig_multiparty.Zk.Enc.{
  EncPublic, EncPrivate, EncCommitment, EncProof, EncSampled, transcript, challenge, create_proof,
  is_public_valid, verify_proof,
}

module _ (C : Crypto) (H : Hashing C.Point) where
  -- For a modulus n > 1 whose half is at least the square of the order, a number k and a sampled
  -- alpha below the order, and nonces without a factor in common with n, where the two Pedersen
  -- commitments pass `validateParams`: `create_proof` returns a proof that k is what its ciphertext
  -- encrypts, and `verify_proof` accepts it with the same transcript.
  pub verify_proof-create_proof :
      (n : ℕ) (aux : PedersenParams) (priv : EncPrivate) (sampled : EncSampled) (h : Hasher)
      → 1 < n
      → C.order * C.order ≤ n / 2
      → 0 < aux.n
      → priv.k < C.order
      → sampled.alpha < C.order
      → C.gcd priv.rho n ≡ 1
      → C.gcd sampled.r n ≡ 1
      → validate_params C aux.n
          (Pedersen.commit C aux sampled.alpha sampled.gamma)
          (Pedersen.commit C aux priv.k sampled.mu)
        ≡ ok tt
      → h.used ≡ false
      → let pub_data : EncPublic = record {
        big_k = cipher n priv.k priv.rho;
        prover = from_n n;
        aux = aux;
      } in
        (proof : EncProof) × (create_proof C H pub_data priv sampled h ≡ ok proof)
        × (verify_proof C H proof pub_data h ≡ ok true)
  unfolding create_proof verify_proof is_public_valid challenge from_n
  verify_proof-create_proof n aux priv sampled h lt half aux_pos k_lt a_lt rho_unit r_unit valid
        fresh =
      let k = priv.k in
      let a = sampled.alpha in
      let rho = priv.rho in
      let r = sampled.r in
      let pos_n : 0 < n = omega arith in
      let c_a = cipher n a r in
      let pub_data : EncPublic = record { big_k = cipher n k rho; prover = from_n n; aux = aux } in
      let c : EncCommitment = record {
        s = Pedersen.commit C aux k sampled.mu;
        a = c_a;
        c = Pedersen.commit C aux a sampled.gamma;
      } in
      let (e, drawn, e_lt) =
        digest_challenge-ok C H h (transcript C H pub_data c) fresh
          (tt, (tt, (tt, (tt, (tt, (tt, tt)))))) in
      let bound = response-lt k e a C.order k_lt e_lt a_lt in
      let square_pos : C.order ≤ C.order * C.order = square-le C.order in
      let unit_rho = (C.gcd_iff rho n lt).0 rho_unit in
      let unit_r = (C.gcd_iff r n lt).0 r_unit in
      let z2 = rho ^ e * r % n in
      (
        record { commitment = c; z1 = k * e + a; z2 = z2; z3 = e * sampled.mu + sampled.gamma },
        ground (
          arith,
          encrypt_with_nonce-cipher C n a r pos_n (omega (arith, square_pos)),
          drawn,
          combined_nonce C rho e r n pos_n,
        ),
        ground (
          arith,
          validate-cipher C n a r lt unit_r,
          combined_nonce-valid C rho e r n lt unit_rho unit_r,
          response-interval C k e a k_lt e_lt a_lt,
          drawn,
          verify-commit C aux k sampled.mu a sampled.gamma e aux_pos valid,
          encrypt_with_nonce-cipher C n (k * e + a) z2 pos_n (omega (arith, bound)),
          paillier_combine C n k a rho r e pos_n,
        ),
      )
