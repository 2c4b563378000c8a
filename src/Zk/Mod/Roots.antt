-- ===== src/Zk/Mod/Roots.antt =====
-- zkModFourthRootExponent of src/mpc/zk/mod.ts: the exponent takes a fourth root of a quadratic
-- residue.
use native.Mathlib.Nat.{mod-eq_of_lt, mul_comm, pow-suc, pow-zero, one-mul}
use threshold_sig_multiparty.Prelude.{
  ℕ, zero, ◌+◌, ◌-◌, ◌*◌, ◌/◌, ◌%◌, ◌^◌, ◌<◌, ◌≡◌, sym, ap, ◌∙◌, [], ◌∷◌, arith,
}
use threshold_sig_multiparty.Prelude.Eq.{nat_eq}
use threshold_sig_multiparty.Prelude.Modular.{
  Cong, Cong-mul, Cong-mod, Cong-pow, pow-add, pow-mul, pow_mod, one-pow,
}
use threshold_sig_multiparty.Crypto.{Crypto, product}
use threshold_sig_multiparty.Pedersen.Opening.{multiply_two}
use threshold_sig_multiparty.Paillier.Ciphertexts.{IsUnit}
use threshold_sig_multiparty.Zk.Prm.Completeness.{product-lt, totient_pos}
use threshold_sig_multiparty.Zk.Mod.{fourth_root_exponent}
use threshold_sig_multiparty.Zk.Mod.Residues.{Cong-product}

-- A residue whose power j is 1 has the fourth root that its power ((j + 1) / 2)² is.
root_power :
    (n y j k : ℕ) → 1 < n → y ^ j % n ≡ 1 → j + 1 ≡ 2 * k → Cong n ((y ^ (k * k % (4 * j))) ^ 4) y
root_power n y j k lt one half =
    let one' : Cong n (y ^ j) 1 = one ∙ sym (mod-eq_of_lt lt) in
    let power : (i : ℕ) → Cong n (y ^ (j * i)) 1 = λ i.
      ap (λ x. x % n) (pow-mul y j i) ∙ Cong-pow n (y ^ j) 1 i one' ∙ ap (λ x. x % n) (one-pow i) in
    let phi_one : y ^ (4 * j) % n ≡ 1 =
      ap (λ x. y ^ x % n) (mul_comm 4 j) ∙ power 4 ∙ mod-eq_of_lt lt in
    let square : k * k * 4 ≡ j * (j + 2) + 1 = four k ∙ ap (λ x. x * x) (sym half) ∙ expand j in
    Cong-pow n (y ^ (k * k % (4 * j))) (y ^ (k * k)) 4 (pow_mod n y (k * k) (4 * j) lt phi_one)
    ∙ ap (λ x. x % n)
        (sym (pow-mul y (k * k) 4) ∙ ap (λ x. y ^ x) square ∙ pow-add y (j * (j + 2)) 1)
    ∙ Cong-mul n (y ^ (j * (j + 2))) 1 (y ^ 1) y (power (j + 2))
        (ap (λ x. x % n) (pow-suc y zero ∙ ap (λ x. x * y) (pow-zero y) ∙ one-mul y))
    ∙ ap (λ x. x % n) (one-mul y)
  where
    four : (k : ℕ) → k * k * 4 ≡ 2 * k * (2 * k)
    four k = omega arith

    expand : (j : ℕ) → (j + 1) * (j + 1) ≡ j * (j + 2) + 1
    expand j = omega arith

-- The numbers of zkModCreateProof for p = 4 c + 3 and q = 4 d + 3.
module _ (p q c d : ℕ) (p_is : p ≡ 4 * c + 3) (q_is : q ≡ 4 * d + 3) where
  half_p : p / 2 ≡ 2 * c + 1
  half_p = omega (arith, p_is)

  half_q : q / 2 ≡ 2 * d + 1
  half_q = omega (arith, q_is)

  abbrev quarter : ℕ
  quarter = (2 * c + 1) * (2 * d + 1)

  totient : (p - 1) * (q - 1) ≡ 4 * quarter
  totient =
      let a : p - 1 ≡ 2 * (2 * c + 1) = omega (arith, p_is) in
      let b : q - 1 ≡ 2 * (2 * d + 1) = omega (arith, q_is) in
      ap (λ x. x * (q - 1)) a ∙ ap (λ x. 2 * (2 * c + 1) * x) b ∙ regroup (2 * c + 1) (2 * d + 1)
    where
      regroup : (a b : ℕ) → 2 * a * (2 * b) ≡ 4 * (a * b)
      regroup a b = omega arith

  abbrev eighth : ℕ
  eighth = 2 * (c * d) + c + d + 1

  quarter-eighth : quarter + 1 ≡ 2 * eighth
  quarter-eighth = omega arith

  exponent : ((p - 1) * (q - 1) + 4) / 8 ≡ eighth
  exponent = omega (arith, totient, quarter-eighth)

  -- A number is a quadratic residue modulo both primes.
  abbrev pub IsResidue : ℕ → Type 0
  IsResidue y = (y ^ (p / 2) % p ≡ 1) × (y ^ (q / 2) % q ≡ 1)

  quarter_power : (y : ℕ) → 1 < p → 1 < q → IsUnit q p → IsResidue y → y ^ quarter % (p * q) ≡ 1
  quarter_power y lt_p lt_q unit (rp, rq) =
      let a = 2 * c + 1 in
      let b = 2 * d + 1 in
      let at_p : Cong p (y ^ quarter) 1 =
        ap (λ x. x % p) (pow-mul y a b)
        ∙ Cong-pow p (y ^ a) 1 b (ap (λ x. y ^ x % p) (sym half_p) ∙ rp ∙ sym (mod-eq_of_lt lt_p))
        ∙ ap (λ x. x % p) (one-pow b) in
      let at_q : Cong q (y ^ quarter) 1 =
        ap (λ x. x % q) (ap (λ x. y ^ x) (mul_comm a b) ∙ pow-mul y b a)
        ∙ Cong-pow q (y ^ b) 1 a (ap (λ x. y ^ x % q) (sym half_q) ∙ rq ∙ sym (mod-eq_of_lt lt_q))
        ∙ ap (λ x. x % q) (one-pow a) in
      Cong-product p q (y ^ quarter) 1 (omega (arith, lt_p)) lt_q unit at_p at_q
      ∙ mod-eq_of_lt (product-lt p q lt_p lt_q)

  module _ (C : Crypto) (lt_p : 1 < p) (lt_q : 1 < q) where
    exponent-is : fourth_root_exponent C ((p - 1) * (q - 1)) ≡ eighth * eighth % (4 * quarter)
    unfolding fourth_root_exponent
    exponent-is =
        let phi = (p - 1) * (q - 1) in
        let e = (phi + 4) / 8 in
        multiply_two C e e phi (totient_pos p q lt_p lt_q)
        ∙ ap (λ x. x * x % phi) exponent
        ∙ ap (λ x. eighth * eighth % x) totient

    -- What verifyResponse computes of the root of a quadratic residue is the residue.
    pub fourth_root :
        (y : ℕ)
        → IsUnit q p
        → IsResidue y
        → let x = C.mod_pow y (fourth_root_exponent C ((p - 1) * (q - 1))) (p * q) in
          C.mod_multiply (x ∷ x ∷ x ∷ x ∷ []) (p * q) ≡ y % (p * q)
    unfolding product
    fourth_root y unit residue =
        let n = p * q in
        let lt = product-lt p q lt_p lt_q in
        let pos_n : 0 < n = omega (arith, lt) in
        let i = eighth * eighth % (4 * quarter) in
        let x = C.mod_pow y (fourth_root_exponent C ((p - 1) * (q - 1))) n in
        let x_is : Cong n x (y ^ i) =
          ap (λ k. k % n) (ap (λ k. C.mod_pow y k n) exponent-is ∙ C.mod_pow_lem y i n pos_n)
          ∙ Cong-mod n (y ^ i) in
        C.mod_multiply_lem (x ∷ x ∷ x ∷ x ∷ []) n pos_n
        ∙ ap (λ k. k % n) (fourth x)
        ∙ Cong-pow n x (y ^ i) 4 x_is
        ∙ root_power n y quarter eighth lt (quarter_power y lt_p lt_q unit residue) quarter-eighth
      where
        fourth : (x : ℕ) → x * (x * (x * (x * 1))) ≡ x ^ 4
        fourth x = rw (pow-suc x 3, pow-suc x 2, pow-suc x 1, pow-suc x 0, pow-zero x) (omega arith)
