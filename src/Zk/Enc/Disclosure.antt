-- ===== src/Zk/Enc/Disclosure.antt =====
-- What a proof of src/mpc/zk/enc.ts discloses.
use threshold_sig_multiparty.Prelude.{ℕ, ◌+◌, ◌*◌, ◌/◌, ◌<◌, ◌≡◌, sym, ap, ◌∙◌, [], ◌∷◌, arith}
use threshold_sig_multiparty.Prelude.Result.{ok, >>=-eq-ok}
use threshold_sig_multiparty.Crypto.{Crypto}
use threshold_sig_multiparty.Hasher.{Hashing, Hasher}
use threshold_sig_multiparty.Pedersen
use threshold_sig_multiparty.Paillier.{encrypt_with_nonce}
use threshold_sig_multiparty.Zk.Enc.{
  EncPublic, EncPrivate, EncCommitment, EncProof, EncSampled, challenge, create_proof,
}

quotient : (k e a : ℕ) → a < e → (k * e + a) / e ≡ k
quotient k e a lt = grind arith

module _ (C : Crypto) (H : Hashing C.Point) where
  -- Where the sampled alpha is below the challenge of the proof, which everybody can compute, the
  -- quotient of the response z1 by the challenge is the secret number k.
  pub z1-discloses :
      (pub_data : EncPublic) (priv : EncPrivate) (sampled : EncSampled) (h : Hasher)
      (proof : EncProof) (e : ℕ)
      → create_proof C H pub_data priv sampled h ≡ ok proof
      → challenge C H pub_data proof.commitment h ≡ ok e
      → sampled.alpha < e
      → proof.z1 / e ≡ priv.k
  unfolding create_proof
  z1-discloses pub_data priv sampled h proof e made drawn lt =
      let (a, encrypted, next) =
        >>=-eq-ok (encrypt_with_nonce C pub_data.prover sampled.alpha sampled.r) _ made in
      let c : EncCommitment = record {
        s = Pedersen.commit C pub_data.aux priv.k sampled.mu;
        a = a;
        c = Pedersen.commit C pub_data.aux sampled.alpha sampled.gamma;
      } in
      let answer : ℕ → EncProof = λ e''. record {
        commitment = c;
        z1 = priv.k * e'' + sampled.alpha;
        z2 =
            C.mod_multiply (C.mod_pow priv.rho e'' pub_data.prover.n ∷ sampled.r ∷ [])
              pub_data.prover.n;
        z3 = e'' * sampled.mu + sampled.gamma;
      } in
      let (e', drawn', last) =
        >>=-eq-ok (challenge C H pub_data c h) (λ e''. ok (answer e'')) next in
      let same : answer e' ≡ proof = ground (arith, last) in
      let challenged : challenge C H pub_data proof.commitment h ≡ ok e' =
        ap (λ p. challenge C H pub_data p.commitment h) (sym same) ∙ drawn' in
      let agree : e' ≡ e = ground (arith, challenged, drawn) in
      ap (λ p. p.z1 / e) (sym same)
      ∙ ap (λ j. (priv.k * j + sampled.alpha) / e) agree
      ∙ quotient priv.k e sampled.alpha lt
