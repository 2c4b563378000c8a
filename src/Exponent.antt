-- ===== src/Exponent.antt =====
-- src/mpc/math/polynomial/exponent.ts: a polynomial in the exponent, the commitment to a secret
-- polynomial. `add` changes its receiver; here it returns the changed value.
pub mod Horner
pub mod Classic
pub mod Sum
use threshold_sig_multiparty.Prelude.{
  ℕ, zero, suc, ◌+◌, String, Bool, true, false, not, ◌&&◌, Option, none, some, List, [], ◌∷◌,
  length, if◌then◌else◌,
}
use threshold_sig_multiparty.Prelude.Eq.{◌==◌, nat_eq}
use threshold_sig_multiparty.Prelude.Int.{ℤ, pos, ◌-ℤ◌}
use threshold_sig_multiparty.Prelude.Result.{Result, ok, err, ◌>>=◌, ◌>>◌, require}
use threshold_sig_multiparty.Crypto.{Crypto, AffinePoint}
use threshold_sig_multiparty.Hasher.{Basic}
use threshold_sig_multiparty.Fn
use threshold_sig_multiparty.Polynomial
use threshold_sig_multiparty.Polynomial.{Polynomial}

pub record Exponent (C : Crypto) : Type 0 where
  pub is_constant : Bool
  pub coefficients : List C.Point

-- `a === b` on two booleans.
unfoldable pub same_bool : Bool → Bool → Bool
same_bool true b = b
same_bool false b = not b

abbrev pub is_zero? : Option ℕ → Bool
is_zero? none = false
is_zero? (some c) = c == 0

module _ (C : Crypto) where
  open C use {Point, base, multiply, zero_point, to_affine}

  -- `hashable`, the loop over the coefficients.
  unfoldable pub hashable_points : List Point → List Basic
  hashable_points [] = []
  hashable_points (a ∷ as') =
      let p = to_affine a in Basic.number p.x ∷ Basic.number p.y ∷ hashable_points as'

  unfoldable pub hashable : Exponent C → List Basic
  unfolding hashable_points
  hashable e = hashable_points e.coefficients

  -- The loop of `fromPoly` from index `i`.
  unfoldable pub multiply_base : Bool → ℕ → List ℕ → Result (List Point)
  multiply_base is_constant i [] = ok []
  multiply_base is_constant i (c ∷ cs) =
      let rest = multiply_base is_constant (i + 1) cs in
      if is_constant && (i == 0)
      then rest
      else (multiply base c >>= λ p. rest >>= λ ps. ok (p ∷ ps))

  unfoldable pub from_poly : Polynomial → Result (Exponent C)
  unfolding multiply_base Polynomial.constant
  from_poly poly =
      let is_constant = is_zero? (Polynomial.constant poly) in
      multiply_base is_constant 0 poly.coefficients >>= λ ps.
      ok (record { is_constant = is_constant; coefficients = ps })

  -- The loop of `evaluate`, which runs from the last coefficient to the first.
  unfoldable pub horner : ℕ → List Point → Result Point
  horner x [] = ok zero_point
  horner x (a ∷ as') = do r ← horner x as'; m ← multiply r x; ok (C.add m a)

  unfoldable pub evaluate : Exponent C → ℕ → Result AffinePoint
  unfolding horner
  evaluate e x = do
    result ← horner x e.coefficients
    scaled ← if e.is_constant then multiply result x else ok result
    ok (to_affine scaled)

  -- The loop of `evaluateClassic`.
  unfoldable pub classic : ℕ → ℕ → Point → List Point → Result Point
  unfolding Fn.mul
  classic x x_power result [] = ok result
  classic x x_power result (a ∷ as') = do
    tmp ← multiply a x_power
    classic x (Fn.mul C x_power x) (C.add result tmp) as'

  unfoldable pub evaluate_classic : Exponent C → ℕ → Result AffinePoint
  unfolding classic Fn.mul
  evaluate_classic e x =
      classic x (if e.is_constant then Fn.mul C 1 x else 1) zero_point e.coefficients >>= λ result.
      ok (to_affine result)

  unfoldable pub degree : Exponent C → ℤ
  unfolding ◌-ℤ◌
  degree e =
      if e.is_constant then pos (length e.coefficients) else pos (length e.coefficients) -ℤ pos 1

  -- The loop of `add`, on lists that have one length.
  unfoldable pub add_points : List Point → List Point → List Point
  add_points [] bs = []
  add_points (a ∷ as') [] = a ∷ as'
  add_points (a ∷ as') (b ∷ bs) = C.add a b ∷ add_points as' bs

  unfoldable pub add : Exponent C → Exponent C → Result (Exponent C)
  unfolding add_points same_bool
  add e other = do
    require (length e.coefficients == length other.coefficients) "q is not the same length as p"
    require (same_bool e.is_constant other.is_constant) "p and q differ in 'IsConstant'"
    ok (record e { coefficients = add_points e.coefficients other.coefficients })

  unfoldable pub add_all : Exponent C → List (Exponent C) → Result (Exponent C)
  unfolding add
  add_all summed [] = ok summed
  add_all summed (p ∷ ps) = do next ← add summed p; add_all next ps

  -- `polys[0].copy()` throws on the empty array.
  unfoldable pub sum : List (Exponent C) → Result (Exponent C)
  unfolding add_all
  sum [] = err "Cannot read properties of undefined"
  sum (p ∷ ps) = add_all p ps
