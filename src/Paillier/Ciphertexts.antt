-- ===== src/Paillier/Ciphertexts.antt =====
-- Ciphertexts of src/mpc/paillierKeyPair/paillierKeygen.ts: their value, their sums and multiples,
-- and that `validateCiphertext` accepts them.
use native.Mathlib.Nat.{pow-suc, mod-eq_of_lt, mod-lt, mul-one, mul_comm}
use threshold_sig_multiparty.Prelude.{
  ℕ, zero, suc, ◌+◌, ◌*◌, ◌/◌, ◌%◌, ◌^◌, ◌<◌, ◌≤◌, ◌≡◌, refl, sym, ap, ◌∙◌, true, [], ◌∷◌, arith,
}
use threshold_sig_multiparty.Prelude.Eq.{nat_eq}
use threshold_sig_multiparty.Prelude.Modular.{
  Cong, Cong-mul, Cong-mod, Cong-pow, Cong-multiple, pow-add, pow-mul, mul-pow, one-pow, pow_swap,
}
use threshold_sig_multiparty.Prelude.Result.{ok}
use threshold_sig_multiparty.Crypto.{Crypto}
use threshold_sig_multiparty.Pedersen.Opening.{multiply_two, multiply_powers}
use threshold_sig_multiparty.Arith.{is_valid_mod_n}
use threshold_sig_multiparty.Paillier.{
  from_n, encrypt_with_nonce, paillier_add, paillier_multiply, validate_ciphertext,
}
use threshold_sig_multiparty.Paillier.Lifting.{suc_pow, lift}

-- A number with an inverse modulo m.
abbrev pub IsUnit : ℕ → ℕ → Type 0
IsUnit m a = (x : ℕ) × (a * x % m ≡ 1)

pub IsUnit-mul : (m a b : ℕ) → 1 < m → IsUnit m a → IsUnit m b → IsUnit m (a * b)
IsUnit-mul m a b lt (x, e) (y, f) =
    let one : 1 % m ≡ 1 = mod-eq_of_lt lt in
    let regroup : a * b * (x * y) ≡ a * x * (b * y) = omega arith in
    (
      x * y,
      ap (λ k. k % m) regroup ∙ Cong-mul m (a * x) 1 (b * y) 1 (e ∙ sym one) (f ∙ sym one) ∙ one,
    )

pub IsUnit-pow : (m a k : ℕ) → 1 < m → IsUnit m a → IsUnit m (a ^ k)
IsUnit-pow m a k lt (x, e) =
    let one : 1 % m ≡ 1 = mod-eq_of_lt lt in
    (
      x ^ k,
      ap (λ y. y % m) (sym (mul-pow a x k))
          ∙ Cong-pow m (a * x) 1 k (e ∙ sym one)
          ∙ ap (λ y. y % m) (one-pow k)
          ∙ one,
    )

pub IsUnit-mod : (m a : ℕ) → IsUnit m a → IsUnit m (a % m)
IsUnit-mod m a (x, e) = (x, Cong-mul m (a % m) a x x (Cong-mod m a) refl ∙ e)

pub square_pos : (n : ℕ) → 0 < n → 0 < n * n
square_pos n h = grind arith

pub square-lt : (n : ℕ) → 1 < n → 1 < n * n
square-lt n h = grind arith

IsUnit-lift : (n a : ℕ) → 1 < n → IsUnit n a → IsUnit (n * n) (a ^ n)
IsUnit-lift n a lt (x, e) =
    let m = n * n in
    (
      x ^ n,
      ap (λ y. y % m) (sym (mul-pow a x n))
          ∙ lift n (a * x) 1 (e ∙ sym (mod-eq_of_lt lt))
          ∙ ap (λ y. y % m) (one-pow n)
          ∙ mod-eq_of_lt (square-lt n lt),
    )

IsUnit-suc : (n : ℕ) → 1 < n → IsUnit (n * n) (n + 1)
IsUnit-suc zero lt = absurd (omega arith)
IsUnit-suc (suc k) lt =
    let n = suc k in
    let m = n * n in
    (
      (n + 1) ^ k,
      ap (λ y. y % m) (mul_comm (n + 1) ((n + 1) ^ k) ∙ sym (pow-suc (n + 1) k))
          ∙ suc_pow n n
          ∙ ap (λ y. (1 + y) % m) (sym (mul-one (n * n)))
          ∙ Cong-multiple m 1 1
          ∙ mod-eq_of_lt (square-lt n lt),
    )

-- The ciphertext of a message under a nonce.
unfoldable pub cipher : ℕ → ℕ → ℕ → ℕ
cipher n message nonce = (n + 1) ^ message * nonce ^ n % (n * n)

pub IsUnit-cipher : (n x r : ℕ) → 1 < n → IsUnit n r → IsUnit (n * n) (cipher n x r)
unfolding cipher
IsUnit-cipher n x r lt unit =
    let m = n * n in
    let sq = square-lt n lt in
    IsUnit-mod m ((n + 1) ^ x * r ^ n) (
      IsUnit-mul m ((n + 1) ^ x) (r ^ n) sq (IsUnit-pow m (n + 1) x sq (IsUnit-suc n lt))
        (IsUnit-lift n r lt unit))

module _ (C : Crypto) where
  pub encrypt_with_nonce-cipher :
      (n x r : ℕ) → 0 < n → x ≤ n / 2 → encrypt_with_nonce C (from_n n) x r ≡ ok (cipher n x r)
  unfolding encrypt_with_nonce from_n cipher
  encrypt_with_nonce-cipher n x r h small =
      ground (arith, multiply_powers C (n + 1) x r n (n * n) (square_pos n h))

  pub paillier_add-mod : (n a b : ℕ) → 0 < n → paillier_add C (from_n n) a b ≡ a * b % (n * n)
  unfolding paillier_add from_n
  paillier_add-mod n a b h = multiply_two C a b (n * n) (square_pos n h)

  pub paillier_multiply-mod :
      (n c k : ℕ) → 0 < n → paillier_multiply C (from_n n) c k ≡ c ^ k % (n * n)
  unfolding paillier_multiply from_n
  paillier_multiply-mod n c k h = C.mod_pow_lem c k (n * n) (square_pos n h)

  -- The nonce of e times a ciphertext and another one.
  pub combined_nonce :
      (rho e r n : ℕ) → 0 < n → C.mod_multiply (C.mod_pow rho e n ∷ r ∷ []) n ≡ rho ^ e * r % n
  combined_nonce rho e r n h =
      multiply_two C (C.mod_pow rho e n) r n h
      ∙ ap (λ x. x * r % n) (C.mod_pow_lem rho e n h)
      ∙ Cong-mul n (rho ^ e % n) (rho ^ e) r r (Cong-mod n (rho ^ e)) refl

  pub validate-unit :
      (n z : ℕ) → 1 < n → z < n * n → IsUnit (n * n) z → validate_ciphertext C (from_n n) z ≡ true
  unfolding validate_ciphertext from_n
  validate-unit n z lt bound unit =
      let coprime = (C.gcd_iff z (n * n) (square-lt n lt)).1 unit in ground (arith, bound, coprime)

  pub validate-cipher :
      (n x r : ℕ) → 1 < n → IsUnit n r → validate_ciphertext C (from_n n) (cipher n x r) ≡ true
  validate-cipher n x r lt unit =
      let sq = square-lt n lt in
      let bound : cipher n x r < n * n = unfold cipher in mod-lt _ (omega (arith, sq)) in
      validate-unit n (cipher n x r) lt bound (IsUnit-cipher n x r lt unit)

  pub combined_nonce-valid :
      (rho e r n : ℕ)
      → 1 < n
      → IsUnit n rho
      → IsUnit n r
      → is_valid_mod_n C n (rho ^ e * r % n) ≡ true
  unfolding is_valid_mod_n
  combined_nonce-valid rho e r n lt u v =
      let z = rho ^ e * r % n in
      let bound : z < n = mod-lt (rho ^ e * r) (omega arith) in
      let unit =
        IsUnit-mod n (rho ^ e * r) (IsUnit-mul n (rho ^ e) r lt (IsUnit-pow n rho e lt u) v) in
      ground (arith, bound, (C.gcd_iff z n lt).1 unit)

-- The product of e times one ciphertext and another one is a ciphertext of the combined message.
pub cipher-combine :
    (n x y rho r e : ℕ)
    → Cong (n * n) (cipher n x rho ^ e * cipher n y r) (cipher n (x * e + y) (rho ^ e * r % n))
unfolding cipher
cipher-combine n x y rho r e =
    let m = n * n in
    let g = n + 1 in
    let a = g ^ x in
    let b = rho ^ n in
    let u = g ^ y in
    let v = r ^ n in
    let z = rho ^ e * r in
    let regroup : a ^ e * b ^ e * (u * v) ≡ a ^ e * u * (b ^ e * v) = omega arith in
    Cong-mul m ((a * b % m) ^ e) (a ^ e * b ^ e) (u * v % m) (u * v)
      (Cong-pow m (a * b % m) (a * b) e (Cong-mod m (a * b)) ∙ ap (λ k. k % m) (mul-pow a b e))
      (Cong-mod m (u * v))
    ∙ ap (λ k. k % m) regroup
    ∙ Cong-mul m (a ^ e * u) (g ^ (x * e + y)) (b ^ e * v) ((z % n) ^ n)
        (ap (λ k. k % m) (ap (λ k. k * u) (sym (pow-mul g x e)) ∙ sym (pow-add g (x * e) y)))
        (ap (λ k. k % m) (ap (λ k. k * v) (pow_swap rho n e) ∙ sym (mul-pow (rho ^ e) r n))
          ∙ lift n z (z % n) (sym (Cong-mod n z)))
    ∙ sym (Cong-mod m (g ^ (x * e + y) * (z % n) ^ n))

module _ (C : Crypto) where
  -- What the verifiers of the proofs compare: e times a ciphertext and another one, against the
  -- encryption of the combined message under the combined nonce.
  pub paillier_combine :
      (n x y rho r e : ℕ)
      → 0 < n
      → paillier_add C (from_n n) (paillier_multiply C (from_n n) (cipher n x rho) e) (cipher n y r)
        ≡ cipher n (x * e + y) (rho ^ e * r % n)
  paillier_combine n x y rho r e h =
      let m = n * n in
      let c = cipher n x rho in
      let d = cipher n y r in
      let f = cipher n (x * e + y) (rho ^ e * r % n) in
      paillier_add-mod C n (paillier_multiply C (from_n n) c e) d h
      ∙ ap (λ k. k * d % m) (paillier_multiply-mod C n c e h)
      ∙ Cong-mul m (c ^ e % m) (c ^ e) d d (Cong-mod m (c ^ e)) refl
      ∙ cipher-combine n x y rho r e
      ∙ (let bound : f < m = unfold cipher in mod-lt _ (square_pos n h) in mod-eq_of_lt bound)
