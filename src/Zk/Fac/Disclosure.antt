-- ===== src/Zk/Fac/Disclosure.antt =====
-- What a proof of src/mpc/zk/fac.ts discloses.
use threshold_sig_multiparty.Prelude.{ℕ, ◌+◌, ◌*◌, ◌/◌, ◌<◌, ◌≡◌, sym, ap, ◌∙◌, arith}
use threshold_sig_multiparty.Prelude.Result.{ok, >>=-eq-ok}
use threshold_sig_multiparty.Crypto.{Crypto}
use threshold_sig_multiparty.Hasher.{Hashing, Hasher}
use threshold_sig_multiparty.Zk.Fac.{
  FacPublic, FacPrivate, FacProof, FacSampled, challenge, commitments, response_v, create_proof,
}

quotient : (p e a : ℕ) → a < e → (e * p + a) / e ≡ p
quotient p e a lt = grind arith

module _ (C : Crypto) (H : Hashing C.Point) where
  -- Where the two numbers that mask the factors are below the challenge of the proof, which everybody
  -- can compute, the quotients of the responses z1 and z2 by the challenge are the secret factors p
  -- and q of the Paillier modulus.
  pub z1-z2-disclose :
      (pub_data : FacPublic) (priv : FacPrivate) (sampled : FacSampled) (h : Hasher)
      (proof : FacProof) (e : ℕ)
      → create_proof C H priv pub_data sampled h ≡ ok proof
      → challenge C H pub_data proof.comm h ≡ ok e
      → sampled.alpha < e
      → sampled.beta < e
      → (proof.z1 / e ≡ priv.p) × (proof.z2 / e ≡ priv.q)
  unfolding create_proof
  z1-z2-disclose pub_data priv sampled h proof e made drawn a_lt b_lt =
      let comm = commitments C priv pub_data.aux sampled in
      let answer : ℕ → FacProof = λ j. record {
        comm = comm;
        sigma = sampled.sigma;
        z1 = j * priv.p + sampled.alpha;
        z2 = j * priv.q + sampled.beta;
        w1 = j * sampled.mu + sampled.x;
        w2 = j * sampled.nu + sampled.y;
        v = response_v priv sampled j;
      } in
      let (e', drawn', last) =
        >>=-eq-ok (challenge C H pub_data comm h) (λ j. ok (answer j)) made in
      let same : answer e' ≡ proof = ground (arith, last) in
      let challenged : challenge C H pub_data proof.comm h ≡ ok e' =
        ap (λ p. challenge C H pub_data p.comm h) (sym same) ∙ drawn' in
      let agree : e' ≡ e = ground (arith, challenged, drawn) in
      (
        ap (λ p. p.z1 / e) (sym same)
            ∙ ap (λ j. (j * priv.p + sampled.alpha) / e) agree
            ∙ quotient priv.p e sampled.alpha a_lt,
        ap (λ p. p.z2 / e) (sym same)
            ∙ ap (λ j. (j * priv.q + sampled.beta) / e) agree
            ∙ quotient priv.q e sampled.beta b_lt,
      )
