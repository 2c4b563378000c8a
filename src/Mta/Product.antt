-- ===== src/Mta/Product.antt =====
-- The two shares that mtaNew of src/mpc/zk/mta.ts and the receiver's decryption make.
use native.Mathlib.Nat.{mod-eq_of_lt, le-div_iff_mul-le}
use threshold_sig_multiparty.Prelude.{
  ℕ, ◌+◌, ◌-◌, ◌*◌, ◌/◌, ◌%◌, ◌^◌, ◌<◌, ◌≤◌, ◌≡◌, subst, refl, ◌∙◌, arith,
}
use threshold_sig_multiparty.Prelude.Int.{ℤ, pos, sub_ℕ, ◌+ℤ◌}
use threshold_sig_multiparty.Prelude.Result.{ok, >>=-eq-ok}
use threshold_sig_multiparty.Crypto.{Crypto}
use threshold_sig_multiparty.Paillier.{SecretKey, from_n, from_primes, encrypt, decrypt}
use threshold_sig_multiparty.Paillier.Ciphertexts.{
  IsUnit-mul, IsUnit-pow, IsUnit-mod, cipher, encrypt_with_nonce-cipher,
}
use threshold_sig_multiparty.Paillier.Affine.{affine_of-cipher}
use threshold_sig_multiparty.Paillier.Decryption.{key, IsEuler, decrypt-cipher}
use threshold_sig_multiparty.Mta.{MtaOut, MtaSampled, mta_new}

cancel : (a b : ℕ) → pos (a + b) +ℤ sub_ℕ 0 b ≡ pos a
unfolding ◌+ℤ◌
cancel a b = ground arith

combined_unit :
    (C : Crypto) (n rho x r : ℕ)
    → 1 < n
    → C.gcd rho n ≡ 1
    → C.gcd r n ≡ 1
    → C.gcd (rho ^ x * r % n) n ≡ 1
combined_unit C n rho x r lt u v =
    let unit_rho = (C.gcd_iff rho n lt).0 u in
    let unit_r = (C.gcd_iff r n lt).0 v in
    (C.gcd_iff (rho ^ x * r % n) n lt).1 (
      IsUnit-mod n (rho ^ x * r)
        (IsUnit-mul n (rho ^ x) r lt (IsUnit-pow n rho x lt unit_rho) unit_r))

module _ (C : Crypto) where
  -- For a receiver's key from `fromPrimes` whose primes satisfy Euler's theorem, the encryption of the
  -- receiver's k, nonces without a factor in common with its modulus n, a sender's modulus n1 > 0,
  -- and a sampled beta that is at most n1 / 2 and with which k x + beta is below n / 2: `mtaNew`
  -- returns for the sender's x; the receiver decrypts the D of it to a number that, with the
  -- sender's share -beta added, is the product k x.
  pub decrypt-mta_new :
      (p q n1 x k rho : ℕ) (sender receiver : SecretKey) (sampled : MtaSampled)
      → 1 < p * q
      → from_primes C p q ≡ ok receiver
      → IsEuler C p q
      → sender.public_key ≡ from_n n1
      → 0 < n1
      → sampled.beta ≤ n1 / 2
      → C.gcd rho (p * q) ≡ 1
      → C.gcd sampled.nonce_d (p * q) ≡ 1
      → 2 * (k * x + sampled.beta) < p * q
      → (out : MtaOut) × (alpha : ℤ) × (mta_new C x
            (cipher (p * q) k rho)
            sender
            receiver.public_key
            sampled
          ≡ ok out)
        × (decrypt C receiver out.d ≡ ok alpha)
        × (alpha +ℤ sub_ℕ 0 out.beta_neg ≡ pos (k * x))
  unfolding from_primes mta_new encrypt
  decrypt-mta_new p q n1 x k rho sender receiver sampled lt made euler own pos1 small1 unit_rho
        unit_d small =
      let n = p * q in
      let phi = (p - 1) * (q - 1) in
      let b = sampled.beta in
      let r = sampled.nonce_d in
      let c = cipher n k rho in
      let pos_n : 0 < n = omega arith in
      let (phi_inv, i, e) = >>=-eq-ok (C.mod_inv phi n) (λ j. ok (key C p q j)) made in
      let same : key C p q phi_inv ≡ receiver = ground (arith, e) in
      let inverse : phi * phi_inv % n ≡ 1 = C.mod_inv_lem phi n phi_inv i ∙ mod-eq_of_lt lt in
      let half : b ≤ n / 2 =
        (le-div_iff_mul-le {k = 2} {x = b} {y = n} (omega arith)).1 (omega arith) in
      let value = affine_of-cipher C n k rho x b r pos_n in
      let out : MtaOut = record {
        d = cipher n (k * x + b) (rho ^ x * r % n);
        f = cipher n1 b sampled.nonce_f;
        s = r;
        r = sampled.nonce_f;
        beta_neg = b;
      } in
      subst
        (λ sk.
          (out : MtaOut) × (alpha : ℤ) × (mta_new C x c sender sk.public_key sampled ≡ ok out)
          × (decrypt C sk out.d ≡ ok alpha)
          × (alpha +ℤ sub_ℕ 0 out.beta_neg ≡ pos (k * x)))
        same
        (
          out,
          pos (k * x + b),
          rw
              (
                own,
                encrypt_with_nonce-cipher C n1 b sampled.nonce_f pos1 small1,
                encrypt_with_nonce-cipher C n b r pos_n half,
                value,
              )
              refl,
          decrypt-cipher C p q phi_inv (k * x + b) (rho ^ x * r % n) lt inverse euler
              (combined_unit C n rho x r lt unit_rho unit_d) small,
          cancel (k * x) b,
        )
