-- ===== src/Crypto.antt =====
-- What the program takes from bigint-crypto-utils, @noble/curves and @noble/hashes: operations that
-- are not under src/, with the documented behaviour that the proofs rely on.
pub mod Group
use threshold_sig_multiparty.Prelude.{
  ℕ, zero, suc, ◌+◌, ◌*◌, ◌%◌, ◌^◌, ◌<◌, ◌≤◌, ◌-◌, ◌≡◌, ◌≢◌, ◌↔◌, String, Bool, true, false, ◌&&◌,
  List, [], ◌∷◌, if◌then◌else◌, ltb,
}
use threshold_sig_multiparty.Prelude.Int.{ℤ, pos, negsuc, ◌+ℤ◌, ◌%ℤ◌}
use threshold_sig_multiparty.Prelude.Result.{Result, ok, err}

-- `AffinePoint` of @noble/curves.
pub record AffinePoint : Type 0 where
  pub x : ℕ
  pub y : ℕ

unfoldable pub sum_ℤ : List ℤ → ℤ
unfolding ◌+ℤ◌
sum_ℤ [] = pos 0
sum_ℤ (a ∷ as') = a +ℤ sum_ℤ as'

unfoldable pub product : List ℕ → ℕ
product [] = 1
product (a ∷ as') = a * product as'

pub record Crypto : Type 1 where
  -- bigint-crypto-utils
  pub gcd : ℕ → ℕ → ℕ
  pub mod_add : List ℤ → ℕ → ℕ
  pub mod_multiply : List ℕ → ℕ → ℕ
  pub mod_inv : ℕ → ℕ → Result ℕ
  pub mod_pow : ℕ → ℕ → ℕ → ℕ
  -- `modPow` with an exponent that may be negative; it throws where the base has no inverse.
  pub mod_pow_ℤ : ℕ → ℤ → ℕ → Result ℕ
  -- `modMultiply([-a], m)`, and `modMultiply([a, -1n], m)`
  pub mod_negate : ℕ → ℕ → ℕ
  pub bit_length : ℕ → ℕ
  pub mod_add_lem : (xs : List ℤ) (m : ℕ) → 0 < m → mod_add xs m ≡ sum_ℤ xs %ℤ m
  pub mod_multiply_lem : (xs : List ℕ) (m : ℕ) → 0 < m → mod_multiply xs m ≡ product xs % m
  pub mod_pow_lem : (b k m : ℕ) → 0 < m → mod_pow b k m ≡ b ^ k % m
  pub mod_pow_ℤ_pos : (b k m : ℕ) → 0 < m → mod_pow_ℤ b (pos k) m ≡ ok (mod_pow b k m)
  pub mod_pow_ℤ_negsuc :
      (b k m : ℕ)
      → 1 < m
      → gcd b m ≡ 1
      → (c : ℕ) × (mod_pow_ℤ b (negsuc k) m ≡ ok c) × (c * b ^ suc k % m ≡ 1)
  pub mod_inv_lem : (a m b : ℕ) → mod_inv a m ≡ ok b → a * b % m ≡ 1 % m
  pub mod_inv_bound : (a m b : ℕ) → 0 < m → mod_inv a m ≡ ok b → b < m
  pub mod_negate_lem : (a m : ℕ) → 0 < m → mod_negate a m ≡ (m - a % m) % m
  -- An inverse modulo m > 1 is there for what has no factor in common with m.
  pub gcd_iff : (a m : ℕ) → 1 < m → (gcd a m ≡ 1) ↔ ((x : ℕ) × (a * x % m ≡ 1))
  -- The library gives 2 for the number 0.
  pub bit_length_iff : (x k : ℕ) → 1 < k → (bit_length x ≤ k) ↔ (x < 2 ^ k)
  -- @noble/curves: the group of secp256k1, of prime order `order`. `multiply` throws on a scalar
  -- outside 1 .. order - 1.
  pub Point : Type 0
  pub order : ℕ
  pub zero_point : Point
  pub base : Point
  pub add : Point → Point → Point
  pub multiply : Point → ℕ → Result Point
  pub equals : Point → Point → Bool
  pub to_affine : Point → AffinePoint
  pub from_affine : AffinePoint → Point
  pub px : Point → ℕ
  pub py : Point → ℕ
  pub pz : Point → ℕ
  -- k times a point, for any k
  pub times : ℕ → Point → Point
  pub times_zero : (p : Point) → times 0 p ≡ zero_point
  pub times_suc : (k : ℕ) (p : Point) → times (suc k) p ≡ add p (times k p)
  pub multiply_lem :
      (p : Point) (k : ℕ)
      → multiply p k ≡ (if ltb 0 k && ltb k order then ok (times k p) else err "invalid scalar")
  pub add_assoc : (p q r : Point) → add (add p q) r ≡ add p (add q r)
  pub add_comm : (p q : Point) → add p q ≡ add q p
  pub zero_add : (p : Point) → add zero_point p ≡ p
  pub times_order : (p : Point) → times order p ≡ zero_point
  pub one_lt_order : 1 < order
  pub order_bound : order ≤ 2 ^ 256
  pub no_zero_divisors : (a b : ℕ) → a % order ≢ 0 → b % order ≢ 0 → a * b % order ≢ 0
  pub equals_iff : (p q : Point) → (equals p q ≡ true) ↔ (p ≡ q)
  pub from_to_affine : (p : Point) → from_affine (to_affine p) ≡ p
  pub pz_iff : (p : Point) → (pz p ≡ 0) ↔ (p ≡ zero_point)
  pub px_py : (p : Point) → px p ≡ 0 → py p ≡ 0 → p ≡ zero_point
  -- @noble/hashes and @noble/curves/abstract/utils
  pub utf8_to_bytes : String → List ℕ
  pub bytes_to_number_be : List ℕ → ℕ
