-- ===== src/Arith/Jacobi.antt =====
-- The loop of jacobi in src/mpc/math/arith.ts ends.
use threshold_sig_multiparty.Prelude.{
  ℕ, zero, suc, ◌+◌, ◌/◌, ◌%◌, ◌^◌, ◌<◌, ◌≤◌, ◌≢◌, ◌≡◌, refl, inl, inr, false, some, if◌then◌else◌,
  arith, Bool-cases,
}
use native.Mathlib.Nat.{mod-lt, div-le_self, le-div_iff_mul-le, one-le-pow, pow-zero, pow-suc}
use threshold_sig_multiparty.Prelude.Eq.{◌==◌, nat_eq, ==_sound}
use threshold_sig_multiparty.Prelude.Result.{ok, err}
use threshold_sig_multiparty.Arith.{
  Sign, jacobi_loop, jacobi, opposite, flips_even, flips_odd, trailing_zero_bits, trailing_zeros,
}

-- What the last binary digits count for is no more than the number.
trailing_zeros-le : (fuel x : ℕ) → 0 < x → 2 ^ trailing_zeros fuel x ≤ x
unfolding trailing_zeros
trailing_zeros-le zero x h = omega (arith, pow-zero 2)
trailing_zeros-le (suc fuel) x h = elim (Bool-cases (x % 2 == 0)) [
  | inr odd ↦ rw odd (omega (arith, pow-zero 2))
  | inl even ↦ elim (Bool-cases (x / 2 == 0)) [
    | inl small ↦
        let e : x % 2 ≡ 0 = ==_sound (x % 2) 0 even in
        let z : x / 2 ≡ 0 = ==_sound (x / 2) 0 small in absurd (omega arith)
    | inr more ↦
        let half : x / 2 ≢ 0 = (λ z. absurd (ground (arith, z, more))) in
        let ih = trailing_zeros-le fuel (x / 2) (omega (arith, half)) in
        rw (even, more) (omega (arith, pow-suc 2 (trailing_zeros fuel (x / 2)), ih))
  ]
]

odd_part-pos : (r : ℕ) → 0 < r → 0 < r / 2 ^ trailing_zero_bits r
unfolding trailing_zero_bits
odd_part-pos r h =
    let p = 2 ^ trailing_zeros (r + 1) r in
    (le-div_iff_mul-le {k = p} {x = 1} {y = r}
        (omega (arith, one-le-pow (trailing_zeros (r + 1) r) 2 (omega arith)))).1
      (omega (arith, trailing_zeros-le (r + 1) r h))

jacobi_loop-some :
    (fuel a b : ℕ) (j : Sign) → 0 < b → b < fuel → (s : Sign) × (jacobi_loop fuel a b j ≡ some s)
unfolding jacobi_loop
jacobi_loop-some zero a b j pos_b h = absurd (omega arith)
jacobi_loop-some (suc fuel) a b j pos_b h = elim (Bool-cases (b == 1)) [
  | inl one ↦ (j, rw one)
  | inr more ↦ elim (Bool-cases (a == 0)) [
    | inl none_left ↦ (Sign.nought, rw (more, none_left))
    | inr some_left ↦ elim (Bool-cases (a % b == 0)) [
      | inl divides ↦ (Sign.nought, rw (more, some_left, divides))
      | inr rest ↦
          let r = a % b in
          let c = r / 2 ^ trailing_zero_bits r in
          let nonzero : r ≢ 0 = (λ z. absurd (ground (arith, z, rest))) in
          let below : c < fuel =
            omega (arith, div-le_self r (2 ^ trailing_zero_bits r), mod-lt a pos_b) in
          let positive : 0 < c = odd_part-pos r (omega (arith, nonzero)) in
          let next =
            jacobi_loop-some fuel b c
              (if flips_odd b c
                then opposite (if flips_even (trailing_zero_bits r) b then opposite j else j)
                else (if flips_even (trailing_zero_bits r) b then opposite j else j))
              positive below in
          (next.0, rw (more, some_left, rest) next.1)
    ]
  ]
]

-- For an odd second argument y the loop of `jacobi` ends within y + 1 rounds, with 1, 0 or -1; for an
-- even one `jacobi` throws.
pub jacobi_returns :
    (x y : ℕ)
    → (s : Sign) × (jacobi x y ≡ (
        if y % 2 == 0 then err "invalid 2nd argument to jacobi: need odd integer" else ok (some s)))
unfolding jacobi
jacobi_returns x y = elim (Bool-cases (y % 2 == 0)) [
  | inl even ↦ (Sign.plus, ground (arith, even))
  | inr odd ↦
      let y_pos : 0 < y = ground (arith, odd) in
      let (s, e) = jacobi_loop-some (y + 1) x y Sign.plus y_pos (omega arith) in
      let not_zero : (y == 0) ≡ false = ground arith in (s, rw (not_zero, odd, e) refl)
]
