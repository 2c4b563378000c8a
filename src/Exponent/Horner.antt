-- ===== src/Exponent/Horner.antt =====
-- The commitment to a polynomial evaluates to the commitment to the polynomial's value.
use threshold_sig_multiparty.Prelude.{
  ℕ, ◌+◌, ◌*◌, ◌<◌, ◌≡◌, ◌≢◌, refl, sym, ap, ◌∙◌, Bool, true, false, List, [], ◌∷◌, map,
  if◌then◌else◌, arith, inl, inr, Bool-cases,
}
use threshold_sig_multiparty.Prelude.Eq.{◌==◌, nat_eq, ==_sound}
use threshold_sig_multiparty.Prelude.Result.{ok, ◌>>=◌}
use threshold_sig_multiparty.Crypto.{Crypto}
use threshold_sig_multiparty.Crypto.Group.{times-add, times-mul, times-mod, add_zero}
use native.Mathlib.Nat.{mul_comm}
use threshold_sig_multiparty.Fn
use threshold_sig_multiparty.Fn.Laws.{add_lem, mul_lem}
use threshold_sig_multiparty.Polynomial
use threshold_sig_multiparty.Polynomial.{Polynomial}
use threshold_sig_multiparty.Polynomial.Samples.{
  AreScalars, samples, create-coefficients, samples-AreScalars,
}
use threshold_sig_multiparty.Exponent
use threshold_sig_multiparty.Exponent.{Exponent, multiply_base}

module _ (C : Crypto) where
  open C use {Point, order, base, multiply, times, times_zero, to_affine, multiply_lem}

  pub multiply_valid : (p : Point) (k : ℕ) → 0 < k → k < order → multiply p k ≡ ok (times k p)
  multiply_valid p k pos_k lt = ground (arith, multiply_lem p k)

  -- The points of a list of coefficients.
  abbrev pub commit : List ℕ → List Point
  commit = map (λ c. times c base)

  times-horner :
      (x c : ℕ) (cs : List ℕ)
      → times (Polynomial.horner C x (c ∷ cs)) base
        ≡ C.add (times x (times (Polynomial.horner C x cs) base)) (times c base)
  unfolding Polynomial.horner
  times-horner x c cs =
      let r = Polynomial.horner C x cs in
      ap (λ k. times k base) (add_lem C (Fn.mul C r x) c)
      ∙ times-mod C (Fn.mul C r x + c) base
      ∙ times-add C (Fn.mul C r x) c base
      ∙ ap (λ p. C.add p (times c base))
          (ap (λ k. times k base) (mul_lem C r x)
            ∙ times-mod C (r * x) base
            ∙ ap (λ k. times k base) (mul_comm r x)
            ∙ times-mul C x r base)

  pub horner-commit :
      (x : ℕ) (cs : List ℕ)
      → 0 < x
      → x < order
      → Exponent.horner C x (commit cs) ≡ ok (times (Polynomial.horner C x cs) base)
  unfolding Exponent.horner Polynomial.horner
  horner-commit x [] px lt = ap ok (sym (times_zero base))
  horner-commit x (c ∷ cs) px lt =
      rw (horner-commit x cs px lt, multiply_valid (times (Polynomial.horner C x cs) base) x px lt)
        (ap ok (sym (times-horner x c cs)))

  multiply_base-commit :
      (k : Bool) (i : ℕ) (cs : List ℕ)
      → i ≢ 0
      → AreScalars order cs
      → multiply_base C k i cs ≡ ok (commit cs)
  unfolding multiply_base
  multiply_base-commit k i [] ne h = refl
  multiply_base-commit k i (c ∷ cs) ne h = ground (
    arith,
    multiply_valid base c h.0 h.1,
    multiply_base-commit k (i + 1) cs (λ e. absurd (omega arith)) h.2,
  )

  multiply_base-first :
      (c : ℕ) (cs : List ℕ)
      → c < order
      → AreScalars order cs
      → multiply_base C (c == 0) 0 (c ∷ cs) ≡ ok (commit (if c == 0 then cs else c ∷ cs))
  unfolding multiply_base
  multiply_base-first c cs lt h = ground (
    arith,
    multiply_base-commit true (0 + 1) cs (λ z. absurd (omega arith)) h,
    multiply_base-commit false (0 + 1) cs (λ z. absurd (omega arith)) h,
    multiply_valid base c,
  )

  -- The commitment of a polynomial whose further coefficients are scalars.
  pub from_poly-commit :
      (p : Polynomial) (c : ℕ) (cs : List ℕ)
      → p.coefficients ≡ c ∷ cs
      → c < order
      → AreScalars order cs
      → Exponent.from_poly C p
        ≡ ok
            (record { is_constant = c == 0; coefficients = commit (if c == 0 then cs else c ∷ cs) })
  unfolding Exponent.from_poly Polynomial.constant
  from_poly-commit p c cs e lt h = rw e (rw (multiply_base-first c cs lt h) refl)

  times-horner_zero :
      (x c : ℕ) (cs : List ℕ)
      → c ≡ 0
      → times (Polynomial.horner C x (c ∷ cs)) base
        ≡ times x (times (Polynomial.horner C x cs) base)
  times-horner_zero x c cs e =
      times-horner x c cs
      ∙ ap (C.add (times x (times (Polynomial.horner C x cs) base)))
          (ap (λ k. times k base) e ∙ times_zero base)
      ∙ add_zero C _

  evaluate-commit :
      (x c : ℕ) (cs : List ℕ)
      → 0 < x
      → x < order
      → Exponent.evaluate C
          (record { is_constant = c == 0; coefficients = commit (if c == 0 then cs else c ∷ cs) })
          x
        ≡ ok (to_affine (times (Polynomial.horner C x (c ∷ cs)) base))
  unfolding Exponent.evaluate
  evaluate-commit x c cs px lt = elim (Bool-cases (c == 0)) [
    | inl z ↦
        rw
          (
            z,
            horner-commit x cs px lt,
            multiply_valid (times (Polynomial.horner C x cs) base) x px lt,
          )
          (ap (λ p. ok (to_affine p)) (sym (times-horner_zero x c cs (==_sound c 0 z))))
    | inr nz ↦ rw (nz, horner-commit x (c ∷ cs) px lt) refl
  ]

  -- For a polynomial made by the constructor from a constant below the order and samples between 1
  -- and order - 1, and for 0 < x < order: `fromPoly` does not throw, the exponent that it returns
  -- evaluates at x without throwing, and the result is the multiple of the base point by the value
  -- of the polynomial at x.
  pub evaluate-from_poly :
      (d c x : ℕ) (sample : ℕ → ℕ)
      → c < order
      → ((i : ℕ) → (0 < sample i) × (sample i < order))
      → 0 < x
      → x < order
      → (Exponent.from_poly C (Polynomial.create d c sample) >>= λ e. Exponent.evaluate C e x) ≡ (
          Polynomial.evaluate C (Polynomial.create d c sample) x >>= λ y.
          ok (to_affine (times y base)))
  unfolding Polynomial.evaluate
  evaluate-from_poly d c x sample lt h px lx =
      let cs = samples d 1 sample in
      let e = create-coefficients d c sample in
      let nonzero : (x == 0) ≡ false = ground arith in
      rw
        (
          from_poly-commit (Polynomial.create d c sample) c cs e lt
              (samples-AreScalars order d 1 sample h),
          e,
          nonzero,
        )
        (evaluate-commit x c cs px lx)
