-- ===== src/Fn.antt =====
-- src/mpc/math/polynomial/Fn.ts: arithmetic modulo the order of the group. The numbers that the
-- program passes are not negative, but for the argument of `mod` and the difference inside `sub`.
pub mod Laws
use threshold_sig_multiparty.Prelude.{ℕ, ◌/◌, Bool, List, [], ◌∷◌, ltb}
use threshold_sig_multiparty.Prelude.Int.{ℤ, pos, ◌-ℤ◌}
use threshold_sig_multiparty.Prelude.Result.{Result, ok, err, ◌>>=◌}
use threshold_sig_multiparty.Crypto.{Crypto}

module _ (C : Crypto) where
  open C use {order, mod_add, mod_multiply, mod_inv, mod_pow}

  -- `Fn.mod`
  unfoldable pub residue : ℤ → ℕ
  residue x = mod_add (x ∷ pos 0 ∷ []) order

  unfoldable pub mul : ℕ → ℕ → ℕ
  mul lhs rhs = mod_multiply (lhs ∷ rhs ∷ []) order

  unfoldable pub add : ℕ → ℕ → ℕ
  add lhs rhs = mod_add (pos lhs ∷ pos rhs ∷ []) order

  unfoldable pub sub : ℕ → ℕ → ℕ
  unfolding ◌-ℤ◌
  sub lhs rhs = mod_add (pos lhs ∷ (pos order -ℤ pos rhs) ∷ []) order

  unfoldable pub inv : ℕ → Result ℕ
  inv x = mod_inv x order

  unfoldable pub div : ℕ → ℕ → Result ℕ
  unfolding inv
  div lhs rhs = do i ← inv rhs; ok (mod_multiply (lhs ∷ i ∷ []) order)

  unfoldable pub pow : ℕ → ℕ → ℕ
  pow x e = mod_pow x e order

  unfoldable pub is_over_half_order : ℕ → Bool
  is_over_half_order x = ltb (order / 2) x
