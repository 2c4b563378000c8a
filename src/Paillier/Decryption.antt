-- ===== src/Paillier/Decryption.antt =====
-- decrypt of src/mpc/paillierKeyPair/paillierKeygen.ts on ciphertexts.
use native.Mathlib.Nat.{
  mod-eq_of_lt, mod-lt, mul-one, mul_assoc, div-add-mod, mod_self, le-div_iff_mul-le,
}
use threshold_sig_multiparty.Prelude.{
  ℕ, zero, suc, ◌+◌, ◌-◌, ◌*◌, ◌/◌, ◌%◌, ◌^◌, ◌<◌, ◌≡◌, subst, refl, sym, ap, ◌∙◌, true, [], ◌∷◌,
  if◌then◌else◌, leb, arith,
}
use threshold_sig_multiparty.Prelude.Eq.{nat_eq}
use threshold_sig_multiparty.Prelude.Int.{pos, sub_ℕ}
use threshold_sig_multiparty.Prelude.Modular.{
  Cong, Cong-mul, Cong-mod, Cong-pow, Cong-multiple, pow-mul, mul-pow, one-pow, pow_swap,
}
use threshold_sig_multiparty.Prelude.Result.{ok, >>=-eq-ok}
use threshold_sig_multiparty.Crypto.{Crypto}
use threshold_sig_multiparty.Pedersen.Opening.{multiply_two}
use threshold_sig_multiparty.Paillier.{
  SecretKey, from_n, from_primes, encrypt, decrypt, mod_symmetric, validate_ciphertext,
}
use threshold_sig_multiparty.Paillier.Lifting.{suc_pow, lift}
use threshold_sig_multiparty.Paillier.Ciphertexts.{
  cipher, square_pos, validate-cipher, encrypt_with_nonce-cipher,
}

-- The power of a ciphertext that decryption takes.
cipher-pow :
    (n x r phi : ℕ) → 1 < n → r ^ phi % n ≡ 1 → Cong (n * n) (cipher n x r ^ phi) (1 + x * phi * n)
unfolding cipher
cipher-pow n x r phi lt euler =
    let m = n * n in
    let a = (n + 1) ^ x in
    let b = r ^ n in
    Cong-pow m (a * b % m) (a * b) phi (Cong-mod m (a * b))
    ∙ ap (λ k. k % m) (mul-pow a b phi)
    ∙ Cong-mul m (a ^ phi) (1 + x * phi * n) (b ^ phi) 1
        (ap (λ k. k % m) (sym (pow-mul (n + 1) x phi)) ∙ suc_pow n (x * phi))
        (ap (λ k. k % m) (pow_swap r n phi)
          ∙ lift n (r ^ phi) 1 (euler ∙ sym (mod-eq_of_lt lt))
          ∙ ap (λ k. k % m) (one-pow n))
    ∙ ap (λ k. k % m) (mul-one (1 + x * phi * n))

reduced : (n k : ℕ) → 1 < n → (1 + k * n) % (n * n) ≡ 1 + k % n * n
reduced n k lt =
    let s = k % n in
    let q = k / n in
    let below : s < n = mod-lt k (omega arith) in
    let whole : 1 + k * n ≡ 1 + s * n + n * n * q =
      ap (λ j. 1 + j * n) (sym (div-add-mod k n)) ∙ omega arith in
    let bound : 1 + s * n < n * n = small n s lt below in
    ap (λ j. j % (n * n)) whole ∙ Cong-multiple (n * n) (1 + s * n) q ∙ mod-eq_of_lt bound
  where
    small : (n s : ℕ) → 1 < n → s < n → 1 + s * n < n * n
    small n s lt below = grind arith

quotient : (n s : ℕ) → 0 < n → (1 + s * n - 1) / n ≡ s
quotient n s h = grind arith

module _ (C : Crypto) where
  mod_symmetric-small : (x n : ℕ) → 2 * x < n → mod_symmetric C x n ≡ pos x
  unfolding mod_symmetric
  mod_symmetric-small x n h =
      let own : x % n ≡ x = mod-eq_of_lt (omega arith) in
      rw (own, C.mod_negate_lem x n (omega arith), own) (cases x n h)
    where
      cases :
          (x n : ℕ)
          → 2 * x < n
          → (if leb ((n - x) % n) x then sub_ℕ 0 ((n - x) % n) else pos x) ≡ pos x
      cases zero n h =
          let n' : n - zero ≡ n = omega arith in
          let z : (n - zero) % n ≡ 0 = ap (λ k. k % n) n' ∙ mod_self n in rw z refl
      cases (suc k) n h =
          let y : (n - suc k) % n ≡ n - suc k = mod-eq_of_lt (omega arith) in ground (arith, y)

  -- The key that `fromPrimes` makes.
  abbrev pub key : ℕ → ℕ → ℕ → SecretKey
  key p q phi_inv = record {
    p = p;
    q = q;
    phi = (p - 1) * (q - 1);
    phi_inv = phi_inv;
    public_key = from_n (p * q);
  }

  -- Two different primes have this property, by Euler's theorem.
  abbrev pub IsEuler : ℕ → ℕ → Type 0
  IsEuler p q = (a : ℕ) → C.gcd a (p * q) ≡ 1 → a ^ ((p - 1) * (q - 1)) % (p * q) ≡ 1

  pub decrypt-cipher :
      (p q phi_inv x r : ℕ)
      → 1 < p * q
      → (p - 1) * (q - 1) * phi_inv % (p * q) ≡ 1
      → IsEuler p q
      → C.gcd r (p * q) ≡ 1
      → 2 * x < p * q
      → decrypt C (key p q phi_inv) (cipher (p * q) x r) ≡ ok (pos x)
  unfolding decrypt from_n
  decrypt-cipher p q phi_inv x r lt inverse euler unit small =
      let n = p * q in
      let phi = (p - 1) * (q - 1) in
      let c = cipher n x r in
      let pos_n : 0 < n = omega arith in
      let s = x * phi % n in
      let valid : validate_ciphertext C (from_n n) c ≡ true =
        validate-cipher C n x r lt ((C.gcd_iff r n lt).0 unit) in
      let c1 : C.mod_pow c phi (n * n) ≡ 1 + s * n =
        C.mod_pow_lem c phi (n * n) (square_pos n pos_n)
        ∙ cipher-pow n x r phi lt (euler r unit)
        ∙ reduced n (x * phi) lt in
      let c4 : C.mod_multiply (s ∷ phi_inv ∷ []) n ≡ x =
        multiply_two C s phi_inv n pos_n
        ∙ Cong-mul n s (x * phi) phi_inv phi_inv (Cong-mod n (x * phi)) refl
        ∙ ap (λ k. k % n) (mul_assoc x phi phi_inv)
        ∙ Cong-mul n x x (phi * phi_inv) 1 refl (inverse ∙ sym (mod-eq_of_lt lt))
        ∙ ap (λ k. k % n) (mul-one x)
        ∙ mod-eq_of_lt (omega arith) in
      rw (valid, c1, quotient n s pos_n, c4, mod_symmetric-small x n small) refl

  -- For a key from `fromPrimes` whose primes satisfy Euler's theorem, a nonce without a factor in
  -- common with the modulus and a message below half of it, `encrypt` returns a ciphertext, and
  -- `decrypt` gives the message back.
  pub decrypt-encrypt :
      (p q x r : ℕ) (sk : SecretKey)
      → 1 < p * q
      → from_primes C p q ≡ ok sk
      → IsEuler p q
      → C.gcd r (p * q) ≡ 1
      → 2 * x < p * q
      → (c : ℕ) × (encrypt C sk.public_key x r ≡ ok (c, r)) × (decrypt C sk c ≡ ok (pos x))
  unfolding from_primes encrypt
  decrypt-encrypt p q x r sk lt made euler unit small =
      let n = p * q in
      let phi = (p - 1) * (q - 1) in
      let (phi_inv, i, e) = >>=-eq-ok (C.mod_inv phi n) (λ j. ok (key p q j)) made in
      let same : key p q phi_inv ≡ sk = ground (arith, e) in
      let inverse : phi * phi_inv % n ≡ 1 = C.mod_inv_lem phi n phi_inv i ∙ mod-eq_of_lt lt in
      let encrypted =
        encrypt_with_nonce-cipher C n x r (omega arith)
          ((le-div_iff_mul-le {k = 2} {x = x} {y = n} (omega arith)).1 (omega arith)) in
      subst (λ k. (c : ℕ) × (encrypt C k.public_key x r ≡ ok (c, r)) × (decrypt C k c ≡ ok (pos x)))
        same
        (
          cipher n x r,
          rw encrypted refl,
          decrypt-cipher p q phi_inv x r lt inverse euler unit small,
        )
