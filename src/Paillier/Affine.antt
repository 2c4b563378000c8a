-- ===== src/Paillier/Affine.antt =====
-- Affine functions of ciphertexts, from paillierAdd and paillierMultiply of
-- src/mpc/paillierKeyPair/paillierKeygen.ts.
use native.Mathlib.Nat.{mod-lt, mul_comm}
use threshold_sig_multiparty.Prelude.{
  ℕ, ◌+◌, ◌*◌, ◌%◌, ◌^◌, ◌<◌, ◌≡◌, refl, sym, ap, ◌∙◌, true, arith,
}
use threshold_sig_multiparty.Prelude.Modular.{
  Cong, Cong-mul, Cong-mod, Cong-pow, pow-add, pow-mul, mul-pow,
}
use threshold_sig_multiparty.Crypto.{Crypto}
use threshold_sig_multiparty.Paillier.{from_n, paillier_add, paillier_multiply, validate_ciphertext}
use threshold_sig_multiparty.Paillier.Ciphertexts.{
  IsUnit, IsUnit-mul, IsUnit-pow, IsUnit-mod, IsUnit-cipher, cipher, cipher-combine, validate-unit,
  paillier_add-mod, paillier_multiply-mod, paillier_combine, square-lt,
}

module _ (C : Crypto) where
  -- a times c, and a ciphertext b added to it, as mtaNew and the proofs compute them.
  abbrev pub affine_of : ℕ → ℕ → ℕ → ℕ → ℕ
  affine_of n b c a = paillier_add C (from_n n) b (paillier_multiply C (from_n n) c a)

  affine_of-mod : (n b c a : ℕ) → 0 < n → affine_of n b c a ≡ b * c ^ a % (n * n)
  affine_of-mod n b c a h =
      paillier_add-mod C n b (paillier_multiply C (from_n n) c a) h
      ∙ ap (λ k. b * k % (n * n)) (paillier_multiply-mod C n c a h)
      ∙ Cong-mul (n * n) b b (c ^ a % (n * n)) (c ^ a) refl (Cong-mod (n * n) (c ^ a))

  -- What the verifier of affg.ts compares: the affine function at the responses, against e times the
  -- affine function of the secrets and that of the blinding numbers.
  pub affine_combine :
      (n y s b rho c x a e : ℕ)
      → 0 < n
      → affine_of n (cipher n (y * e + b) (s ^ e * rho % n)) c (x * e + a)
        ≡ paillier_add C
            (from_n n)
            (paillier_multiply C (from_n n) (affine_of n (cipher n y s) c x) e)
            (affine_of n (cipher n b rho) c a)
  affine_combine n y s b rho c x a e h =
      let m = n * n in
      let p = cipher n y s in
      let q = cipher n b rho in
      let z = cipher n (y * e + b) (s ^ e * rho % n) in
      let u = affine_of n p c x in
      let v = affine_of n q c a in
      let u_mod : Cong m u (p * c ^ x) =
        ap (λ k. k % m) (affine_of-mod n p c x h) ∙ Cong-mod m (p * c ^ x) in
      let v_mod : Cong m v (q * c ^ a) =
        ap (λ k. k % m) (affine_of-mod n q c a h) ∙ Cong-mod m (q * c ^ a) in
      let pe = p ^ e in
      let ce = c ^ (x * e) in
      let ca = c ^ a in
      let regroup : pe * ce * (q * ca) ≡ pe * q * (ce * ca) = omega arith in
      let powers : c ^ (x * e + a) ≡ ce * ca = pow-add c (x * e) a in
      affine_of-mod n z c (x * e + a) h
      ∙ Cong-mul m z (pe * q) (c ^ (x * e + a)) (ce * ca) (sym (cipher-combine n y b s rho e))
          (ap (λ k. k % m) powers)
      ∙ ap (λ k. k % m) (sym regroup)
      ∙ ap (λ k. pe * k * (q * ca) % m) (pow-mul c x e)
      ∙ ap (λ k. k * (q * ca) % m) (sym (mul-pow p (c ^ x) e))
      ∙ sym
          (Cong-mul m (u ^ e) ((p * c ^ x) ^ e) v (q * ca) (Cong-pow m u (p * c ^ x) e u_mod) v_mod)
      ∙ sym (
          paillier_add-mod C n (paillier_multiply C (from_n n) u e) v h
          ∙ ap (λ k. k * v % m) (paillier_multiply-mod C n u e h)
          ∙ Cong-mul m (u ^ e % m) (u ^ e) v v (Cong-mod m (u ^ e)) refl)

  -- An affine function of an encrypted number is a ciphertext of its value.
  pub affine_of-cipher :
      (n k rho a b r : ℕ)
      → 0 < n
      → affine_of n (cipher n b r) (cipher n k rho) a ≡ cipher n (k * a + b) (rho ^ a * r % n)
  affine_of-cipher n k rho a b r h =
      let c = paillier_multiply C (from_n n) (cipher n k rho) a in
      let d = cipher n b r in
      paillier_add-mod C n d c h
      ∙ ap (λ y. y % (n * n)) (mul_comm d c)
      ∙ sym (paillier_add-mod C n c d h)
      ∙ paillier_combine C n k b rho r a h

  -- It passes `validateCiphertext` where the ciphertexts do.
  pub validate-affine_of :
      (n b r c a : ℕ)
      → 1 < n
      → IsUnit n r
      → IsUnit (n * n) c
      → validate_ciphertext C (from_n n) (affine_of n (cipher n b r) c a) ≡ true
  validate-affine_of n b r c a lt unit_r unit_c =
      let m = n * n in
      let sq = square-lt n lt in
      let z = affine_of n (cipher n b r) c a in
      let value : z ≡ cipher n b r * c ^ a % m = affine_of-mod n (cipher n b r) c a (omega arith) in
      let unit : IsUnit m (cipher n b r * c ^ a % m) = IsUnit-mod m (cipher n b r * c ^ a) (
        IsUnit-mul m (cipher n b r) (c ^ a) sq (IsUnit-cipher n b r lt unit_r)
          (IsUnit-pow m c a sq unit_c)) in
      ap (validate_ciphertext C (from_n n)) value
      ∙ validate-unit C n (cipher n b r * c ^ a % m) lt
          (mod-lt (cipher n b r * c ^ a) (omega (arith, sq))) unit
