-- ===== src/Polynomial.antt =====
-- src/mpc/math/polynomial/polynomial.ts, with sampleScalar of src/mpc/math/sample.ts and
-- partyIdToScalar of src/mpc/keygen/partyKey.ts: the secret polynomial of a party.
pub mod Samples
use threshold_sig_multiparty.Prelude.{
  ℕ, zero, suc, ◌+◌, String, Bool, true, false, not, Option, none, some, List, [], ◌∷◌, ◌++◌,
  length, if◌then◌else◌,
}
use threshold_sig_multiparty.Prelude.Eq.{◌==◌, nat_eq}
use threshold_sig_multiparty.Prelude.Int.{ℤ, pos, ◌-ℤ◌}
use threshold_sig_multiparty.Prelude.Result.{Result, ok, err, ◌>>=◌, ◌>>◌, require}
use threshold_sig_multiparty.Crypto.{Crypto}
use threshold_sig_multiparty.Fn

pub record Polynomial : Type 0 where
  pub coefficients : List ℕ

-- The loop of the constructor, with the number of rounds left; `sample i` is the scalar that the
-- i-th call of `sampleScalar` returns.
unfoldable pub push_samples : ℕ → ℕ → (ℕ → ℕ) → List ℕ → List ℕ
push_samples zero i sample coefficients = coefficients
push_samples (suc left) i sample coefficients =
    push_samples left (i + 1) sample (coefficients ++ sample i ∷ [])

-- `Polynomial.new` and the constructor.
unfoldable pub create : ℕ → ℕ → (ℕ → ℕ) → Polynomial
unfolding push_samples
create degree constant sample = record {
  coefficients = push_samples degree 1 sample (constant ∷ []);
}

unfoldable pub from_coefficients : List ℕ → Polynomial
from_coefficients coefficients = record { coefficients = coefficients }

-- `coefficients.length - 1`
unfoldable pub degree : Polynomial → ℤ
unfolding ◌-ℤ◌
degree p = pos (length p.coefficients) -ℤ pos 1

-- `coefficients[0]`, `none` for `undefined`.
unfoldable pub constant : Polynomial → Option ℕ
constant p = elim p.coefficients [ [] ↦ none | c ∷ _ ↦ some c ]

module _ (C : Crypto) where
  -- The loop of `evaluate`, which runs from the last coefficient to the first.
  unfoldable pub horner : ℕ → List ℕ → ℕ
  unfolding Fn.add Fn.mul
  horner index [] = 0
  horner index (c ∷ cs) = Fn.add C (Fn.mul C (horner index cs) index) c

  unfoldable pub evaluate : Polynomial → ℕ → Result ℕ
  unfolding horner
  evaluate p index = do
    require (not (index == 0)) "attempt to leak secret"
    ok (horner index p.coefficients)

  unfoldable pub party_id_to_scalar : String → ℕ
  party_id_to_scalar id = C.bytes_to_number_be (C.utf8_to_bytes id)
