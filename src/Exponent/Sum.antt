-- ===== src/Exponent/Sum.antt =====
-- The sum of exponents evaluates to the sum of their values.
use threshold_sig_multiparty.Prelude.{
  ℕ, suc, ◌≡◌, refl, sym, ap, ◌∙◌, Bool, true, false, List, [], ◌∷◌, arith, length,
}
use threshold_sig_multiparty.Prelude.Eq.{nat_eq, ==_refl}
use threshold_sig_multiparty.Prelude.Result.{ok}
use threshold_sig_multiparty.Crypto.{Crypto}
use threshold_sig_multiparty.Crypto.Group.{times-add_point, add_swap, add_zero}
use threshold_sig_multiparty.Exponent
use threshold_sig_multiparty.Exponent.{Exponent, same_bool}
use threshold_sig_multiparty.Exponent.Classic.{value, value_at}

module _ (C : Crypto) where
  open C use {Point, order, times, zero_point, zero_add}

  value-add_points :
      (x : ℕ) (ps qs : List Point)
      → length ps ≡ length qs
      → value C x (Exponent.add_points C ps qs) ≡ C.add (value C x ps) (value C x qs)
  unfolding value Exponent.add_points
  value-add_points x [] [] h = sym (zero_add zero_point)
  value-add_points x [] (q ∷ qs) h = absurd (omega arith)
  value-add_points x (p ∷ ps) [] h = absurd (omega arith)
  value-add_points x (p ∷ ps) (q ∷ qs) h =
      rw (value-add_points x ps qs (omega arith), times-add_point C x (value C x ps) (value C x qs))
        (add_swap C (times x (value C x ps)) (times x (value C x qs)) p q)

  length-add_points :
      (ps qs : List Point)
      → length ps ≡ length qs
      → length (Exponent.add_points C ps qs) ≡ length ps
  unfolding Exponent.add_points
  length-add_points [] qs h = refl
  length-add_points (p ∷ ps) [] h = refl
  length-add_points (p ∷ ps) (q ∷ qs) h = ap suc (length-add_points ps qs (omega arith))

  -- Two exponents that `add` accepts together.
  abbrev pub HasShape : Bool → ℕ → Exponent C → Type 0
  HasShape k n e = (e.is_constant ≡ k) × (length e.coefficients ≡ n)

  abbrev pub AllShape : Bool → ℕ → List (Exponent C) → Type 0
  AllShape k n [] = Unit
  AllShape k n (e ∷ es) = HasShape k n e × AllShape k n es

  same_bool_refl : (b : Bool) → same_bool b b ≡ true
  unfolding same_bool
  same_bool_refl true = refl
  same_bool_refl false = refl

  plus : Exponent C → Exponent C → Exponent C
  plus e f = record e { coefficients = Exponent.add_points C e.coefficients f.coefficients }

  add-plus :
      (k : Bool) (n : ℕ) (e f : Exponent C)
      → HasShape k n e
      → HasShape k n f
      → Exponent.add C e f ≡ ok (plus e f)
  unfolding Exponent.add plus
  add-plus k n e f he hf = rw (he.0, hf.0, he.1, hf.1, ==_refl n, same_bool_refl k) refl

  plus-HasShape :
      (k : Bool) (n : ℕ) (e f : Exponent C)
      → HasShape k n e
      → HasShape k n f
      → HasShape k n (plus e f)
  unfolding plus
  plus-HasShape k n e f he hf =
      (he.0, length-add_points e.coefficients f.coefficients (he.1 ∙ sym hf.1) ∙ he.1)

  value_at-plus :
      (k : Bool) (n x : ℕ) (e f : Exponent C)
      → HasShape k n e
      → HasShape k n f
      → value_at C x (plus e f) ≡ C.add (value_at C x e) (value_at C x f)
  unfolding value_at plus
  value_at-plus k n x e f he hf = ground (
    arith,
    value-add_points x e.coefficients f.coefficients,
    times-add_point C x (value C x e.coefficients) (value C x f.coefficients),
  )

  -- The sum of the points that the exponents stand for at x.
  unfoldable pub sum_at : ℕ → List (Exponent C) → Point
  sum_at x [] = zero_point
  sum_at x (e ∷ es) = C.add (value_at C x e) (sum_at x es)

  add_all-sum_at :
      (k : Bool) (n x : ℕ) (e : Exponent C) (es : List (Exponent C))
      → HasShape k n e
      → AllShape k n es
      → (s : Exponent C) × (Exponent.add_all C e es ≡ ok s)
        × HasShape k n s
        × (value_at C x s ≡ C.add (value_at C x e) (sum_at x es))
  unfolding Exponent.add_all sum_at
  add_all-sum_at k n x e [] he hs = (e, refl, he, sym (add_zero C (value_at C x e)))
  add_all-sum_at k n x e (f ∷ fs) he hs =
      let (s, r, h, v) = add_all-sum_at k n x (plus e f) fs (plus-HasShape k n e f he hs.0) hs.1 in
      (
        s,
        rw (add-plus k n e f he hs.0) r,
        h,
        v
            ∙ ap (λ p. C.add p (sum_at x fs)) (value_at-plus k n x e f he hs.0)
            ∙ C.add_assoc (value_at C x e) (value_at C x f) (sum_at x fs),
      )

  -- Exponents of one length and one kind have a sum, of that length and kind, and the sum stands at
  -- every x for the sum of the points that they stand for.
  pub sum-sum_at :
      (k : Bool) (n x : ℕ) (e : Exponent C) (es : List (Exponent C))
      → AllShape k n (e ∷ es)
      → (s : Exponent C) × (Exponent.sum C (e ∷ es) ≡ ok s)
        × HasShape k n s
        × (value_at C x s ≡ sum_at x (e ∷ es))
  unfolding Exponent.sum sum_at
  sum-sum_at k n x e es h = add_all-sum_at k n x e es h.0 h.1
