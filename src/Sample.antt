-- ===== src/Sample.antt =====
-- src/mpc/math/sample.ts: the numbers that the proofs and the rounds draw at random. What the random
-- number generators return is an argument.
pub mod Draws
use threshold_sig_multiparty.Prelude.{
  ℕ, zero, suc, ◌+◌, ◌*◌, ◌/◌, ◌%◌, Bool, true, false, not, Option, none, some, if◌then◌else◌,
}
use threshold_sig_multiparty.Prelude.Eq.{◌==◌, nat_eq}
use threshold_sig_multiparty.Prelude.Int.{ℤ, pos, sub_ℕ}
use threshold_sig_multiparty.Prelude.Result.{Result, ok, err, ◌>>=◌}
use threshold_sig_multiparty.Crypto.{Crypto, AffinePoint}
use threshold_sig_multiparty.Fn
use threshold_sig_multiparty.Arith.{Sign, plus, nought, minus, jacobi}

abbrev pub max_iterations : ℕ
max_iterations = 256

abbrev pub exceeded : Result ℕ
exceeded = err "MAX_INT_ITERATIONS_EXCEEDED"

-- `=== -1`
abbrev pub is_minus : Option Sign → Bool
is_minus none = false
is_minus (some plus) = false
is_minus (some nought) = false
is_minus (some minus) = true

module _ (C : Crypto) where
  -- The loop of sampleUnitModN, with so many iterations left, where the i-th one draws `draws i`.
  unfoldable pub unit_loop : ℕ → ℕ → (ℕ → ℕ) → ℕ → Result ℕ
  unit_loop modulus i draws zero = exceeded
  unit_loop modulus i draws (suc left) =
      let rest = unit_loop modulus (i + 1) draws left in
      if C.gcd (draws i) modulus == 1 then ok (draws i) else rest

  unfoldable pub sample_unit_mod_n : ℕ → (ℕ → ℕ) → Result ℕ
  unfolding unit_loop
  sample_unit_mod_n modulus draws = unit_loop modulus 0 draws max_iterations

  -- The loop of sampleQNR; `jacobi` throws on an even modulus.
  unfoldable pub qnr_loop : ℕ → ℕ → (ℕ → ℕ) → ℕ → Result ℕ
  qnr_loop n i draws zero = exceeded
  qnr_loop n i draws (suc left) =
      let rest = qnr_loop n (i + 1) draws left in
      do sign ← jacobi (draws i) n; (if is_minus sign then ok (draws i) else rest)

  unfoldable pub sample_qnr : ℕ → (ℕ → ℕ) → Result ℕ
  unfolding qnr_loop
  sample_qnr n draws = qnr_loop n 0 draws max_iterations

  -- sampleNeg of the number that `bits + 1` random bits make.
  unfoldable pub sample_neg : ℕ → ℕ
  unfolding Fn.residue
  sample_neg random_bits =
      let sign = random_bits % 2 in
      let rest = random_bits / 2 in
      Fn.residue C (if not (sign == 0) then sub_ℕ 0 rest else pos rest)

  -- sampleScalarPointPair, for the scalar that `randBetween` draws.
  unfoldable pub sample_scalar_point_pair : ℕ → Result (ℕ × AffinePoint)
  sample_scalar_point_pair scalar = do
    point ← C.multiply C.base scalar
    ok (scalar, C.to_affine point)
