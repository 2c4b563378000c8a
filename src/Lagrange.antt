-- ===== src/Lagrange.antt =====
-- src/mpc/math/polynomial/lagrange.ts: the coefficients that combine the shares of the parties.
use threshold_sig_multiparty.Prelude.{ℕ, String, List, [], ◌∷◌, if◌then◌else◌}
use threshold_sig_multiparty.Prelude.Eq.{◌==◌, string_eq}
use threshold_sig_multiparty.Prelude.Dict.{lookup, insert}
use threshold_sig_multiparty.Prelude.Result.{Result, ok, ◌>>=◌}
use threshold_sig_multiparty.Crypto.{Crypto}
use threshold_sig_multiparty.Fn
use threshold_sig_multiparty.Polynomial.{party_id_to_scalar}
use threshold_sig_multiparty.Keygen.{found}

-- What getScalarsAndNumerator returns.
pub record Domain : Type 0 where
  pub scalars : List (String × ℕ)
  pub numerator : ℕ

module _ (C : Crypto) where
  -- The loop of getScalarsAndNumerator.
  unfoldable pub collect_scalars : List String → Domain → Domain
  unfolding party_id_to_scalar insert Fn.mul
  collect_scalars [] acc = acc
  collect_scalars (id ∷ ids) acc =
      let xi = party_id_to_scalar C id in
      collect_scalars ids
        (record { scalars = insert id xi acc.scalars; numerator = Fn.mul C acc.numerator xi })

  -- getScalarsAndNumerator
  unfoldable pub scalars_and_numerator : List String → Domain
  unfolding collect_scalars
  scalars_and_numerator ids = collect_scalars ids (record { scalars = []; numerator = 1 })

  -- The loop of lagrangeInternal over the entries.
  unfoldable pub denominator : String → ℕ → List (String × ℕ) → ℕ → ℕ
  unfolding Fn.mul Fn.sub
  denominator j x_j [] acc = acc
  denominator j x_j ((i, x_i) ∷ entries) acc =
      denominator j x_j entries
        (if i == j then Fn.mul C acc x_j else Fn.mul C acc (Fn.sub C x_i x_j))

  -- lagrangeInternal
  unfoldable pub lagrange_internal : List (String × ℕ) → ℕ → String → Result ℕ
  unfolding lookup denominator Fn.div
  lagrange_internal domain numerator j = do
    x_j ← found C (lookup j domain)
    Fn.div C numerator (denominator j x_j domain 1)

  -- The loop of lagrangeFor.
  unfoldable pub coefficients :
      Domain → List String → List (String × ℕ) → Result (List (String × ℕ))
  unfolding lagrange_internal insert
  coefficients domain [] acc = ok acc
  coefficients domain (j ∷ js) acc = do
    l_j ← lagrange_internal domain.scalars domain.numerator j
    coefficients domain js (insert j l_j acc)

  -- lagrangeFor
  unfoldable pub lagrange_for : List String → List String → Result (List (String × ℕ))
  unfolding scalars_and_numerator coefficients
  lagrange_for interpolation_domain subset' =
      coefficients (scalars_and_numerator interpolation_domain) subset' []

  unfoldable pub lagrange : List String → Result (List (String × ℕ))
  unfolding lagrange_for
  lagrange interpolation_domain = lagrange_for interpolation_domain interpolation_domain
