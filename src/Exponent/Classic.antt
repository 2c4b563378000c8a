-- ===== src/Exponent/Classic.antt =====
-- The two ways to evaluate an exponent, by Horner's rule and by powers of x, agree.
use native.Mathlib.Nat.{mod-lt, mod-eq_of_lt, one-mul}
use threshold_sig_multiparty.Prelude.{
  ℕ, ◌*◌, ◌%◌, ◌<◌, ◌≡◌, refl, sym, ap, ◌∙◌, List, [], ◌∷◌, if◌then◌else◌, arith,
}
use threshold_sig_multiparty.Prelude.Result.{ok}
use threshold_sig_multiparty.Crypto.{Crypto, AffinePoint}
use threshold_sig_multiparty.Crypto.Group.{
  times-mul, times-mod, add_zero, times-add_point, times-zero_point, times-one,
}
use threshold_sig_multiparty.Fn
use threshold_sig_multiparty.Fn.Laws.{mul_lem}
use threshold_sig_multiparty.Exponent
use threshold_sig_multiparty.Exponent.{Exponent}
use threshold_sig_multiparty.Exponent.Horner.{multiply_valid}

module _ (C : Crypto) where
  open C use {
    Point, order, times, zero_point, add_assoc, zero_add, to_affine, no_zero_divisors, one_lt_order,
  }

  -- The point that Horner's rule computes.
  unfoldable pub value : ℕ → List Point → Point
  value x [] = zero_point
  value x (a ∷ as') = C.add (times x (value x as')) a

  pub horner-value :
      (x : ℕ) (ps : List Point) → 0 < x → x < order → Exponent.horner C x ps ≡ ok (value x ps)
  unfolding Exponent.horner value
  horner-value x [] px lx = refl
  horner-value x (a ∷ as') px lx =
      rw (horner-value x as' px lx, multiply_valid C (value x as') x px lx) refl

  step_value :
      (x w : ℕ) (a result : Point) (as' : List Point)
      → C.add (C.add result (times w a)) (times (Fn.mul C w x) (value x as'))
        ≡ C.add result (times w (C.add (times x (value x as')) a))
  step_value x w a result as' =
      add_assoc result (times w a) (times (Fn.mul C w x) (value x as'))
      ∙ ap (C.add result) (
          ap (C.add (times w a)) (
            ap (λ k. times k (value x as')) (mul_lem C w x)
            ∙ times-mod C (w * x) (value x as')
            ∙ times-mul C w x (value x as'))
          ∙ C.add_comm (times w a) (times w (times x (value x as')))
          ∙ sym (times-add_point C w (times x (value x as')) a))

  power_valid :
      (x w : ℕ)
      → 0 < x
      → x < order
      → 0 < w
      → w < order
      → (0 < Fn.mul C w x) × (Fn.mul C w x < order)
  power_valid x w px lx pw lw = rw (mul_lem C w x) (
      omega (
        arith,
        no_zero_divisors w x (λ e. absurd (omega (arith, mod-eq_of_lt lw)))
            (λ e. absurd (omega (arith, mod-eq_of_lt lx))),
        mod-lt (w * x) {m = order} (omega arith),
      ))

  classic-value :
      (x w : ℕ) (result : Point) (ps : List Point)
      → 0 < x
      → x < order
      → 0 < w
      → w < order
      → Exponent.classic C x w result ps ≡ ok (C.add result (times w (value x ps)))
  unfolding Exponent.classic value
  classic-value x w result [] px lx pw lw =
      ap ok (sym (ap (C.add result) (times-zero_point C w) ∙ add_zero C result))
  classic-value x w result (a ∷ as') px lx pw lw =
      let next = power_valid x w px lx pw lw in
      rw (multiply_valid C a w pw lw) (
        classic-value x (Fn.mul C w x) (C.add result (times w a)) as' px lx next.0 next.1
        ∙ ap ok (step_value x w a result as'))

  -- The point that an exponent stands for at x.
  unfoldable pub value_at : ℕ → Exponent C → Point
  unfolding value
  value_at x e = if e.is_constant then times x (value x e.coefficients) else value x e.coefficients

  pub evaluate-value_at :
      (e : Exponent C) (x : ℕ)
      → 0 < x
      → x < order
      → Exponent.evaluate C e x ≡ ok (to_affine (value_at x e))
  unfolding Exponent.evaluate value_at
  evaluate-value_at e x px lx = ground (
    arith,
    horner-value x e.coefficients px lx,
    multiply_valid C (value x e.coefficients) x px lx,
  )

  evaluate_classic-value_at :
      (e : Exponent C) (x : ℕ)
      → 0 < x
      → x < order
      → Exponent.evaluate_classic C e x ≡ ok (to_affine (value_at x e))
  unfolding Exponent.evaluate_classic value_at
  evaluate_classic-value_at e x px lx =
      let one_x : Fn.mul C 1 x ≡ x =
        mul_lem C 1 x ∙ ap (λ k. k % order) (one-mul x) ∙ mod-eq_of_lt lx in
      ground (
        arith,
        one_x,
        classic-value x x zero_point e.coefficients px lx px lx,
        classic-value x 1 zero_point e.coefficients px lx (omega arith) one_lt_order,
        zero_add (times x (value x e.coefficients)),
        zero_add (times 1 (value x e.coefficients)),
        times-one C (value x e.coefficients),
      )

  -- For 0 < x < order the evaluation by Horner's rule and the one by powers of x both return, and
  -- they return the same point.
  pub evaluate_classic-eq-evaluate :
      (e : Exponent C) (x : ℕ)
      → 0 < x
      → x < order
      → (a : AffinePoint) × (Exponent.evaluate C e x ≡ ok a)
        × (Exponent.evaluate_classic C e x ≡ ok a)
  evaluate_classic-eq-evaluate e x px lx =
      (to_affine (value_at x e), evaluate-value_at e x px lx, evaluate_classic-value_at e x px lx)
