-- ===== src/Keygen/Broadcast.antt =====
-- Which broadcasts of round 3 pass the checks of round 4: src/mpc/keygen/round3.ts and the handler of
-- src/mpc/keygen/round4.ts.
use threshold_sig_multiparty.Prelude.{
  ℕ, ◌-◌, ◌*◌, ◌<◌, ◌≡◌, refl, ap, ◌∙◌, Bool, true, false, some, arith,
}
use threshold_sig_multiparty.Prelude.Dict.{lookup}
use threshold_sig_multiparty.Prelude.Eq.{string_eq}
use threshold_sig_multiparty.Prelude.Result.{Result, ok, require, >>=-eq-ok}
use threshold_sig_multiparty.Crypto.{Crypto}
use threshold_sig_multiparty.Hasher.{Hashing, Hasher, Basic, basic, clone, update}
use threshold_sig_multiparty.Pedersen
use threshold_sig_multiparty.Paillier.{generate_pedersen}
use threshold_sig_multiparty.Paillier.Decryption.{key, IsEuler}
use threshold_sig_multiparty.Zk.Rounds.{stat_param}
use threshold_sig_multiparty.Zk.Mod.{ModProof}
use threshold_sig_multiparty.Zk.Prm
use threshold_sig_multiparty.Zk.Prm.{PrmPrivate, PrmProof}
use threshold_sig_multiparty.Zk.Prm.Completeness.{IsSound, verify_prm-create_proof}
use threshold_sig_multiparty.Keygen.Session.{KeygenSession, KeygenInput3, KeygenInput4, clone_hash}
use threshold_sig_multiparty.Keygen.Round3.{KeygenBroadcast4, hash_with_rid}
use threshold_sig_multiparty.Keygen.Round4.{check_proofs}
use threshold_sig_multiparty.Keygen.Acceptance.{transcripts}

module _ (C : Crypto) (H : Hashing C.Point) where
  -- The private numbers that round 3 hands to zkPrmCreateProof.
  abbrev pub prm_private : KeygenInput3 C → PrmPrivate
  prm_private input =
      let secret = input.input_for_round2.paillier_secret in
      record {
        lambda = input.input_for_round2.pedersen_secret;
        phi = secret.phi;
        p = secret.p;
        q = secret.q;
      }

  check_proofs-verified :
      (prime : ℕ → Bool) (to : KeygenSession) (input4 : KeygenInput4 C) (b : KeygenBroadcast4)
      (aux : Pedersen.PedersenParams) (h : Hasher)
      → lookup b.from input4.pedersen_public ≡ some aux
      → clone_hash H to b.from ≡ ok h
      → Prm.verify_proof C H b.prm_proof aux h ≡ ok true
      → check_proofs C H prime to input4 b ≡ ok tt
  unfolding check_proofs
  check_proofs-verified prime to input4 b aux h known named verified =
      rw (known, named, verified) refl

  verified-check_proofs :
      (prime : ℕ → Bool) (to : KeygenSession) (input4 : KeygenInput4 C) (b : KeygenBroadcast4)
      (aux : Pedersen.PedersenParams) (h : Hasher)
      → lookup b.from input4.pedersen_public ≡ some aux
      → clone_hash H to b.from ≡ ok h
      → check_proofs C H prime to input4 b ≡ ok tt
      → Prm.verify_proof C H b.prm_proof aux h ≡ ok true
  unfolding check_proofs
  verified-check_proofs prime to input4 b aux h known named passed =
      let (good, e, f) =
        >>=-eq-ok (Prm.verify_proof C H b.prm_proof aux h)
          (λ v. require v "failed to validate prm proof") (rw (known, named) at passed) in
      e ∙ ap (λ v. let r : Result Bool = ok v in r) (ground (arith, f))

  -- For a sender with the key that `fromPrimes` makes of p and q and the parameters that
  -- `generatePedersen` makes for it from a tau without a factor in common with the modulus, where p and
  -- q are more than 1 and satisfy Euler's theorem, the parameters pass `validate` and the 80 sampled
  -- exponents are sound, the sender's hasher is unused, the receiver's hasher is the sender's after the
  -- rid, and the receiver knows the sender's parameters: round 3 of the sender makes the proof about
  -- its parameters, and round 4 of the receiver accepts it beside any proof whatever about the modulus.
  -- Of a broadcast of that sender that passes the checks of round 4, the proof about the parameters is
  -- one that the verifier accepts with the sender's transcript.
  pub check_proofs-create_proof :
      (prime : ℕ → Bool) (from to : KeygenSession) (input3 : KeygenInput3 C)
      (input4 : KeygenInput4 C) (p q inv rid tau : ℕ) (draws : ℕ → ℕ)
      → let lambda = input3.input_for_round2.pedersen_secret in
        let aux = (generate_pedersen C (key C p q inv) lambda tau).0 in
        input3.input_for_round2.paillier_secret ≡ key C p q inv
        → 1 < p
        → 1 < q
        → IsEuler C p q
        → C.gcd tau (p * q) ≡ 1
        → Pedersen.validate C aux ≡ ok tt
        → ((k : ℕ) → k < stat_param → IsSound C aux lambda ((p - 1) * (q - 1)) (draws k))
        → from.hasher.used ≡ false
        → update H from.hasher (basic (Basic.number rid)) ≡ ok to.hasher
        → lookup from.self_id input4.pedersen_public ≡ some aux
        → (hash : Hasher) × (proof : PrmProof) × (hash_with_rid C H from rid ≡ ok hash)
          × (Prm.create_proof C H (prm_private input3) aux draws (clone hash) ≡ ok proof)
          × ((any_proof : ModProof)
              → check_proofs C H prime to input4
                  (record { from = from.self_id; mod_proof = any_proof; prm_proof = proof })
                ≡ ok tt)
          × ((b : KeygenBroadcast4)
              → b.from ≡ from.self_id
              → check_proofs C H prime to input4 b ≡ ok tt
              → Prm.verify_proof C H b.prm_proof aux (clone hash) ≡ ok true)
  check_proofs-create_proof prime from to input3 input4 p q inv rid tau draws own_key p_lt q_lt
        euler coprime validated sound fresh hashed known =
      let lambda = input3.input_for_round2.pedersen_secret in
      let aux = (generate_pedersen C (key C p q inv) lambda tau).0 in
      let (hash, made, named) = transcripts C H from to rid fresh hashed in
      let (proof, created, verified) =
        verify_prm-create_proof C H p q inv lambda tau draws (clone hash) p_lt q_lt euler coprime
          validated sound (unfold clone in refl) in
      (
        hash,
        proof,
        made,
        ap
              (λ k.
                Prm.create_proof C H (record { lambda = lambda; phi = k.phi; p = k.p; q = k.q }) aux
                  draws (clone hash))
              own_key
            ∙ created,
        λ any_proof.
            check_proofs-verified prime to input4
              (record { from = from.self_id; mod_proof = any_proof; prm_proof = proof }) aux
              (clone hash) known named verified,
        λ b same passed.
            verified-check_proofs prime to input4 b aux (clone hash)
              (ap (λ i. lookup i input4.pedersen_public) same ∙ known)
              (ap (clone_hash H to) same ∙ named) passed,
      )
