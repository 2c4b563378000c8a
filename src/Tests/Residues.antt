-- ===== src/Tests/Residues.antt =====
-- An instance of the third-party operations for tests: the group is that of the residues modulo 11,
-- and a hash is the first 32 of the bytes that were absorbed.
use std.HLevel.{Σ_prop_path}
use native.Mathlib.Bridge.{le_prop}
use native.Mathlib.Nat.{mod-lt, mod-eq_of_lt, div-add-mod, add-mul, mul_assoc, suc-mul, zero-mul}
use threshold_sig_multiparty.Prelude.{
  ℕ, zero, suc, ◌+◌, ◌-◌, ◌*◌, ◌/◌, ◌%◌, ◌^◌, ◌<◌, ◌≡◌, ◌≢◌, ◌↔◌, refl, sym, ap, ◌∙◌, Bool, true,
  false, ◌&&◌, List, [], ◌∷◌, if◌then◌else◌, ltb, arith, length, take,
}
use threshold_sig_multiparty.Prelude.Eq.{◌==◌, nat_eq, string_eq, ==_sound, ==_refl}
use threshold_sig_multiparty.Prelude.Int.{◌%ℤ◌}
use threshold_sig_multiparty.Prelude.Result.{Result, ok, err}
use threshold_sig_multiparty.Crypto.{Crypto, sum_ℤ, product}
use threshold_sig_multiparty.Hasher.{Hashing}
use threshold_sig_multiparty.Tests.Numbers.{
  gcd_test, gcd_test_iff, bits_test, bits_test_iff, inverse_test, inverse_test_lem,
  inverse_test_bound, power_test, power_test_negsuc,
}

abbrev pub Residue : Type 0
Residue = (k : ℕ) × (k < 11)

pub Residue-path : (p q : Residue) → p.0 ≡ q.0 → p ≡ q
Residue-path p q e = Σ_prop_path (λ (k : ℕ). le_prop {n = suc k} {m = 11}) {u = p} {v = q} e

abbrev pub residue_of : ℕ → Residue
residue_of k = (k % 11, mod-lt k {m = 11} (omega arith))

scale : (i b : ℕ) → i < 11 → i ≢ 0 → b % 11 ≢ 0 → i * b % 11 ≢ 0
scale zero b lt ne h = absurd (ne refl)
scale (suc zero) b lt ne h = omega arith
scale (suc (suc zero)) b lt ne h = omega arith
scale (suc (suc (suc zero))) b lt ne h = omega arith
scale (suc (suc (suc (suc zero)))) b lt ne h = omega arith
scale (suc (suc (suc (suc (suc zero))))) b lt ne h = omega arith
scale (suc (suc (suc (suc (suc (suc zero)))))) b lt ne h = omega arith
scale (suc (suc (suc (suc (suc (suc (suc zero))))))) b lt ne h = omega arith
scale (suc (suc (suc (suc (suc (suc (suc (suc zero)))))))) b lt ne h = omega arith
scale (suc (suc (suc (suc (suc (suc (suc (suc (suc zero))))))))) b lt ne h = omega arith
scale (suc (suc (suc (suc (suc (suc (suc (suc (suc (suc zero)))))))))) b lt ne h = omega arith
scale (suc (suc (suc (suc (suc (suc (suc (suc (suc (suc (suc i))))))))))) b lt ne h =
    absurd (omega arith)

pub no_divisors : (a b : ℕ) → a % 11 ≢ 0 → b % 11 ≢ 0 → a * b % 11 ≢ 0
no_divisors a b ha hb =
    let e : a * b ≡ 11 * (a / 11 * b) + a % 11 * b =
      ap (λ k. k * b) (sym (div-add-mod a 11))
      ∙ add-mul (11 * (a / 11)) (a % 11) b
      ∙ ap (λ k. k + a % 11 * b) (mul_assoc 11 (a / 11) b) in
    omega (arith, e, scale (a % 11) b (mod-lt a {m = 11} (omega arith)) ha hb)

abbrev multiply_eleven : Residue → ℕ → Result Residue
multiply_eleven p k =
    if ltb 0 k && ltb k 11 then ok (residue_of (k * p.0)) else err "invalid scalar"

abbrev add_eleven : Residue → Residue → Residue
add_eleven p q = residue_of (p.0 + q.0)

pub equal_iff : (p q : Residue) → ((p.0 == q.0) ≡ true) ↔ (p ≡ q)
equal_iff p q =
    (λ h. Residue-path p q (==_sound p.0 q.0 h), λ e. ap (λ r. p.0 == r.0) (sym e) ∙ ==_refl p.0)

abbrev pub eleven : Crypto
eleven = record {
  mod_add = λ xs m. sum_ℤ xs %ℤ m;
  mod_multiply = λ xs m. product xs % m;
  mod_inv = inverse_test;
  mod_pow = λ b k m. b ^ k % m;
  mod_pow_ℤ = power_test;
  mod_negate = λ a m. (m - a % m) % m;
  gcd = gcd_test;
  bit_length = bits_test;
  mod_add_lem = λ xs m h. refl;
  mod_multiply_lem = λ xs m h. refl;
  mod_pow_lem = λ b k m h. refl;
  mod_pow_ℤ_pos = λ b k m h. refl;
  mod_pow_ℤ_negsuc = power_test_negsuc;
  mod_inv_lem = inverse_test_lem;
  mod_inv_bound = inverse_test_bound;
  mod_negate_lem = λ a m h. refl;
  gcd_iff = gcd_test_iff;
  bit_length_iff = λ x k h. bits_test_iff x k;
  Point = Residue;
  order = 11;
  zero_point = residue_of 0;
  base = residue_of 1;
  add = add_eleven;
  multiply = multiply_eleven;
  equals = λ p q. p.0 == q.0;
  to_affine = λ p. record { x = p.0; y = p.0 };
  from_affine = λ a. residue_of a.x;
  px = λ p. p.0;
  py = λ p. p.0;
  pz = λ p. p.0;
  times = λ k p. residue_of (k * p.0);
  times_zero =
      λ p. Residue-path (residue_of (0 * p.0)) (residue_of 0) (ap (λ k. k % 11) (zero-mul p.0));
  times_suc = λ k p.
      Residue-path (residue_of (suc k * p.0)) (add_eleven p (residue_of (k * p.0)))
        (ap (λ j. j % 11) (suc-mul k p.0) ∙ omega arith);
  multiply_lem = λ p k. refl;
  add_assoc = λ p q r.
      Residue-path (add_eleven (add_eleven p q) r) (add_eleven p (add_eleven q r)) (omega arith);
  add_comm = λ p q. Residue-path (add_eleven p q) (add_eleven q p) (omega arith);
  zero_add = λ p. Residue-path (add_eleven (residue_of 0) p) p (omega (arith, p.1));
  times_order = λ p. Residue-path (residue_of (11 * p.0)) (residue_of 0) (omega arith);
  one_lt_order = omega arith;
  order_bound = omega arith;
  no_zero_divisors = no_divisors;
  equals_iff = equal_iff;
  from_to_affine = λ p. Residue-path (residue_of p.0) p (mod-eq_of_lt p.1);
  pz_iff = λ p. (λ e. Residue-path p (residue_of 0) e, λ e. ap (λ q. q.0) e);
  px_py = λ p e _. Residue-path p (residue_of 0) e;
  utf8_to_bytes = λ s. if s == "a" then 1 ∷ [] else 1 ∷ 1 ∷ [];
  bytes_to_number_be = length;
}

abbrev sum_bytes : List ℕ → ℕ
sum_bytes [] = 0
sum_bytes (b ∷ bs) = b + sum_bytes bs

abbrev same_bytes : List ℕ → List ℕ → Bool
same_bytes [] [] = true
same_bytes [] (b ∷ bs) = false
same_bytes (a ∷ as') [] = false
same_bytes (a ∷ as') (b ∷ bs) = (a == b) && same_bytes as' bs

pub same_bytes_refl : (bs : List ℕ) → same_bytes bs bs ≡ true
same_bytes_refl [] = refl
same_bytes_refl (b ∷ bs) = ground (arith, ==_refl b, same_bytes_refl bs)

abbrev pub plain_hashing : Hashing Residue
plain_hashing = record {
  blake3 = take 32;
  blake3_into = λ bs len. take len bs;
  text_bytes = λ s. 1 ∷ [];
  hex_digits = λ n. n ∷ [];
  hex_to_bytes = λ ds. ds;
  number_be = sum_bytes;
  to_raw_bytes = λ p. ok (p.0 ∷ []);
  equal_bytes = same_bytes;
  equal_bytes_refl = same_bytes_refl;
}
