-- ===== src/Arith.antt =====
-- src/mpc/math/arith.ts: tests on the numbers of the zero-knowledge proofs, and the Jacobi symbol.
-- The numbers that the program passes are not negative.
pub mod Jacobi
use threshold_sig_multiparty.Prelude.{
  ℕ, zero, suc, ◌+◌, ◌/◌, ◌%◌, ◌^◌, Bool, true, false, not, ◌&&◌, ◌||◌, Option, none, some,
  if◌then◌else◌, ltb, leb,
}
use threshold_sig_multiparty.Prelude.Eq.{◌==◌, nat_eq}
use threshold_sig_multiparty.Prelude.Int.{ℤ, pos, negsuc}
use threshold_sig_multiparty.Prelude.Result.{Result, ok, err}
use threshold_sig_multiparty.Crypto.{Crypto}

-- The constants of src/mpc/math/sample.ts.
abbrev pub l_plus_epsilon : ℕ
l_plus_epsilon = 768

abbrev pub lprime_plus_epsilon : ℕ
lprime_plus_epsilon = 1792

abbrev pub bits_int_mod_n : ℕ
bits_int_mod_n = 2048

module _ (C : Crypto) where
  unfoldable pub is_valid_mod_n : ℕ → ℕ → Bool
  is_valid_mod_n n x = if leb n x then false else if not (C.gcd x n == 1) then false else true

  unfoldable pub is_in_interval_leps : ℕ → Bool
  is_in_interval_leps x = leb (C.bit_length x) l_plus_epsilon

  unfoldable pub is_in_interval_lprime_eps : ℕ → Bool
  is_in_interval_lprime_eps x = leb (C.bit_length x) lprime_plus_epsilon

  unfoldable pub is_in_interval_leps_plus_one_root_n : ℕ → Bool
  is_in_interval_leps_plus_one_root_n x =
      leb (C.bit_length x) (1 + l_plus_epsilon + bits_int_mod_n / 2)

-- The loop of trailingZeroBits over the binary digits from the last one, for a number that has at
-- most as many digits as the fuel. (The text of 0 is "0", which has one trailing zero.)
unfoldable pub trailing_zeros : ℕ → ℕ → ℕ
trailing_zeros zero x = 0
trailing_zeros (suc fuel) x =
    let rest = trailing_zeros fuel (x / 2) in
    if not (x % 2 == 0) then 0 else if x / 2 == 0 then 1 else suc rest

unfoldable pub trailing_zero_bits : ℕ → ℕ
unfolding trailing_zeros
trailing_zero_bits x = trailing_zeros (x + 1) x

-- 1, 0 or -1.
pub data Sign : Type 0 where
  plus nought minus : Sign

abbrev pub opposite : Sign → Sign
opposite plus = minus
opposite nought = nought
opposite minus = plus

-- `(s & 1) !== 0` with b modulo 8
abbrev pub flips_even : ℕ → ℕ → Bool
flips_even s b = not (s % 2 == 0) && ((b % 8 == 3) || (b % 8 == 5))

abbrev pub flips_odd : ℕ → ℕ → Bool
flips_odd b c = (b % 4 == 3) && (c % 4 == 3)

-- The loop of jacobi; `none` when the fuel is used up.
unfoldable pub jacobi_loop : ℕ → ℕ → ℕ → Sign → Option Sign
unfolding trailing_zero_bits
jacobi_loop zero a b j = none
jacobi_loop (suc fuel) a b j =
    if b == 1
    then some j
    else if a == 0
    then some nought
    else (let r = a % b in
        let s = trailing_zero_bits r in
        let c = r / 2 ^ s in
        let j1 = if flips_even s b then opposite j else j in
        let j2 = if flips_odd b c then opposite j1 else j1 in
        let rest = jacobi_loop fuel b c j2 in if r == 0 then some nought else rest)

-- jacobi, for a second argument that is not negative. Each round lowers the second number.
unfoldable pub jacobi : ℕ → ℕ → Result (Option Sign)
unfolding jacobi_loop
jacobi x y =
    if (y == 0) || (y % 2 == 0)
    then err "invalid 2nd argument to jacobi: need odd integer"
    else ok (jacobi_loop (y + 1) x y plus)
