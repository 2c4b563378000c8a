-- ===== src/Pedersen/Opening.antt =====
-- The equation that `verify` of PedersenParams tests.
use native.Mathlib.Nat.{mul-one}
use threshold_sig_multiparty.Prelude.{
  ℕ, ◌+◌, ◌*◌, ◌%◌, ◌^◌, ◌<◌, ◌≡◌, sym, ap, ◌∙◌, true, [], ◌∷◌, arith,
}
use threshold_sig_multiparty.Prelude.Eq.{nat_eq}
use threshold_sig_multiparty.Prelude.Modular.{
  Cong, Cong-mul, Cong-mod, Cong-pow, pow-add, pow-mul, mul-pow, pow_swap,
}
use threshold_sig_multiparty.Prelude.Result.{ok}
use threshold_sig_multiparty.Crypto.{Crypto, product}
use threshold_sig_multiparty.Pedersen.{PedersenParams, commit, verify, validate_params}

module _ (C : Crypto) where
  -- A product of two numbers by bigint-crypto-utils.
  pub multiply_two : (a b m : ℕ) → 0 < m → C.mod_multiply (a ∷ b ∷ []) m ≡ a * b % m
  unfolding product
  multiply_two a b m h = C.mod_multiply_lem (a ∷ b ∷ []) m h ∙ ap (λ k. a * k % m) (mul-one b)

  -- A product of two powers.
  pub multiply_powers :
      (a j b k m : ℕ)
      → 0 < m
      → C.mod_multiply (C.mod_pow a j m ∷ C.mod_pow b k m ∷ []) m ≡ a ^ j * b ^ k % m
  multiply_powers a j b k m h =
      multiply_two (C.mod_pow a j m) (C.mod_pow b k m) m h
      ∙ ap (λ x. x * C.mod_pow b k m % m) (C.mod_pow_lem a j m h)
      ∙ ap (λ x. a ^ j % m * x % m) (C.mod_pow_lem b k m h)
      ∙ Cong-mul m (a ^ j % m) (a ^ j) (b ^ k % m) (b ^ k) (Cong-mod m (a ^ j)) (Cong-mod m (b ^ k))

  -- e times an opening and another opening open the product of the commitments.
  pub powers_combine :
      (s t x y u v e m : ℕ)
      → Cong m ((s ^ x * t ^ y) ^ e * (s ^ u * t ^ v)) (s ^ (x * e + u) * t ^ (e * y + v))
  powers_combine s t x y u v e m =
      let p = (s ^ x) ^ e in
      let q = (t ^ y) ^ e in
      let left : (s ^ x * t ^ y) ^ e ≡ p * q = mul-pow (s ^ x) (t ^ y) e in
      let first : s ^ (x * e + u) ≡ p * s ^ u =
        pow-add s (x * e) u ∙ ap (λ k. k * s ^ u) (pow-mul s x e) in
      let second : t ^ (e * y + v) ≡ q * t ^ v =
        pow-add t (e * y) v ∙ ap (λ k. k * t ^ v) (pow-mul t e y ∙ pow_swap t e y) in
      let a = s ^ u in
      let b = t ^ v in
      let regroup : p * q * (a * b) ≡ p * a * (q * b) = omega arith in
      ap (λ k. k % m)
        (ap (λ k. k * (a * b)) left
          ∙ regroup
          ∙ ap (λ k. k * (q * b)) (sym first)
          ∙ ap (λ k. s ^ (x * e + u) * k) (sym second))

  -- A response that is e times an opening plus a further opening is accepted, when the two
  -- commitments pass `validateParams`.
  pub verify-commit :
      (p : PedersenParams) (x y u v e : ℕ)
      → 0 < p.n
      → validate_params C p.n (commit C p u v) (commit C p x y) ≡ ok tt
      → verify C p (x * e + u) (e * y + v) e (commit C p u v) (commit C p x y) ≡ true
  unfolding commit verify
  verify-commit p x y u v e h valid =
      let m = p.n in
      let big_t = commit C p x y in
      let big_s = commit C p u v in
      let big_t_is : big_t ≡ p.s ^ x * p.t ^ y % m = multiply_powers p.s x p.t y m h in
      let big_s_is : big_s ≡ p.s ^ u * p.t ^ v % m = multiply_powers p.s u p.t v m h in
      let lhs = multiply_powers p.s (x * e + u) p.t (e * y + v) m h in
      let rhs : C.mod_multiply (C.mod_pow big_t e m ∷ big_s ∷ []) m
          ≡ (p.s ^ x * p.t ^ y) ^ e * (p.s ^ u * p.t ^ v) % m =
        multiply_two (C.mod_pow big_t e m) big_s m h
        ∙ ap (λ k. k * big_s % m) (C.mod_pow_lem big_t e m h)
        ∙ Cong-mul m (big_t ^ e % m) ((p.s ^ x * p.t ^ y) ^ e) big_s (p.s ^ u * p.t ^ v)
            (Cong-mod m (big_t ^ e)
              ∙ Cong-pow m big_t (p.s ^ x * p.t ^ y) e
                  (ap (λ k. k % m) big_t_is ∙ Cong-mod m (p.s ^ x * p.t ^ y)))
            (ap (λ k. k % m) big_s_is ∙ Cong-mod m (p.s ^ u * p.t ^ v)) in
      ground (arith, valid, lhs, rhs, powers_combine p.s p.t x y u v e m)
