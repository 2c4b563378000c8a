-- ===== src/Sample/Draws.antt =====
-- What the functions of src/mpc/math/sample.ts return.
use threshold_sig_multiparty.Prelude.{
  ℕ, zero, suc, ◌+◌, ◌<◌, ◌≤◌, ◌≡◌, ◌≢◌, Option, true, sym, ap, ◌∙◌, subst, refl, ◌⊎◌, inl, inr,
  Bool-cases, arith,
}
use threshold_sig_multiparty.Prelude.Eq.{◌==◌, nat_eq, ==_sound, ==_refl}
use threshold_sig_multiparty.Prelude.Result.{ok, Result-cases}
use threshold_sig_multiparty.Arith.{Sign, jacobi}
use threshold_sig_multiparty.Crypto.{Crypto}
use threshold_sig_multiparty.Fn.Laws.{residue-lt}
use threshold_sig_multiparty.Sample.{
  max_iterations, exceeded, unit_loop, sample_unit_mod_n, sample_neg, qnr_loop, sample_qnr,
  is_minus,
}

extend {ℓ} :
    (P : ℕ → Type ℓ) (i b : ℕ)
    → P i
    → ((k : ℕ) → i + 1 ≤ k → k < b → P k)
    → (k : ℕ) → i ≤ k
    → k < b
    → P k
extend P i b here later k le lt = elim (Bool-cases (i == k)) [
  | inl e ↦ subst P (==_sound i k e) here
  | inr e ↦ later k (ground (arith, ==_refl i, e, le)) lt
]

module _ (C : Crypto) where
  unit_loop-first :
      (n i : ℕ) (draws : ℕ → ℕ) (left : ℕ)
      → ((j : ℕ) × (unit_loop C n i draws left ≡ ok (draws j))
          × (i ≤ j)
          × (j < i + left)
          × (C.gcd (draws j) n ≡ 1)
          × ((k : ℕ) → i ≤ k → k < j → C.gcd (draws k) n ≢ 1))
        ⊎ ((unit_loop C n i draws left ≡ exceeded)
            × ((k : ℕ) → i ≤ k → k < i + left → C.gcd (draws k) n ≢ 1))
  unfolding unit_loop
  unit_loop-first n i draws zero = inr (refl, λ k le lt. absurd (omega (arith, le, lt)))
  unit_loop-first n i draws (suc left) =
      let rest = unit_loop C n (i + 1) draws left in
      elim (Bool-cases (C.gcd (draws i) n == 1)) [
        | inl e ↦ inl (
          i,
          rw e refl,
          omega arith,
          omega arith,
          ==_sound (C.gcd (draws i) n) 1 e,
          λ k le lt. absurd (omega (arith, le, lt)),
        )
        | inr e ↦
            let no : C.gcd (draws i) n ≢ 1 = λ h. absurd (ground (arith, e, h)) in
            elim (unit_loop-first n (i + 1) draws left) [
              | inl (j, found, le, lt, unit, before) ↦ inl (
                j,
                rw e found,
                omega (arith, le),
                omega (arith, lt),
                unit,
                extend (λ k. C.gcd (draws k) n ≢ 1) i j no before,
              )
              | inr (none, never) ↦ inr (
                rw e none,
                λ k le lt.
                    extend (λ k. C.gcd (draws k) n ≢ 1) i (i + suc left) no
                      (λ k' le' lt'. never k' le' (omega (arith, lt'))) k le lt,
              )
            ]
      ]

  -- `sampleUnitModN` returns the first of the numbers drawn in its 256 iterations that has no factor
  -- in common with the modulus, and throws when there is none among them.
  pub sample_unit_mod_n-first :
      (n : ℕ) (draws : ℕ → ℕ)
      → ((j : ℕ) × (sample_unit_mod_n C n draws ≡ ok (draws j))
          × (j < max_iterations)
          × (C.gcd (draws j) n ≡ 1)
          × ((k : ℕ) → k < j → C.gcd (draws k) n ≢ 1))
        ⊎ ((sample_unit_mod_n C n draws ≡ exceeded)
            × ((k : ℕ) → k < max_iterations → C.gcd (draws k) n ≢ 1))
  unfolding sample_unit_mod_n
  sample_unit_mod_n-first n draws = elim (unit_loop-first n 0 draws max_iterations) [
    | inl (j, found, le, lt, unit, before) ↦
        inl (j, found, lt, unit, λ k below. before k (omega arith) below)
    | inr (none, never) ↦ inr (none, λ k below. never k (omega arith) below)
  ]

  qnr_loop-minus :
      (n i : ℕ) (draws : ℕ → ℕ) (left w : ℕ)
      → qnr_loop C n i draws left ≡ ok w
      → (sign : Option Sign) × (jacobi w n ≡ ok sign) × (is_minus sign ≡ true)
  unfolding qnr_loop
  qnr_loop-minus n i draws zero w h = cc
  qnr_loop-minus n i draws (suc left) w h = elim (Result-cases (jacobi (draws i) n)) [
    | inl (sign, e) ↦ elim (Bool-cases (is_minus sign)) [
      | inl yes_minus ↦
          let same : draws i ≡ w = ground (arith, e, yes_minus, h) in
          (sign, ap (λ k. jacobi k n) (sym same) ∙ e, yes_minus)
      | inr no_minus ↦ qnr_loop-minus n (i + 1) draws left w (ground (arith, e, no_minus, h))
    ]
    | inr (text, e) ↦ absurd (ground (arith, e, h))
  ]

  -- The Jacobi symbol of what `sampleQNR` returns is -1.
  pub sample_qnr-minus :
      (n : ℕ) (draws : ℕ → ℕ) (w : ℕ)
      → sample_qnr C n draws ≡ ok w
      → (sign : Option Sign) × (jacobi w n ≡ ok sign) × (is_minus sign ≡ true)
  unfolding sample_qnr
  sample_qnr-minus n draws w h = qnr_loop-minus n 0 draws max_iterations w h

  -- What `sampleNeg` returns is below the order, however many random bits it is given: it is the
  -- residue of the signed number.
  pub sample_neg-lt : (random_bits : ℕ) → sample_neg C random_bits < C.order
  unfolding sample_neg
  sample_neg-lt random_bits = residue-lt C _
