-- ===== src/Fn/Laws.antt =====
-- The operations of Fn as arithmetic modulo the order.
use native.Mathlib.Nat.{mod-lt, mod-eq_of_lt}
use threshold_sig_multiparty.Prelude.{ℕ, ◌+◌, ◌*◌, ◌%◌, ◌<◌, ◌≤◌, ◌≡◌, ◌∙◌, arith, [], ◌∷◌, ◌-◌}
use threshold_sig_multiparty.Prelude.Int.{ℤ, negsuc, pos, ◌+ℤ◌, ◌%ℤ◌, ◌-ℤ◌}
use threshold_sig_multiparty.Crypto.{Crypto, sum_ℤ, product}
use threshold_sig_multiparty.Fn

pub %ℤ-lt : (a : ℤ) (n : ℕ) → 0 < n → a %ℤ n < n
unfolding ◌%ℤ◌
%ℤ-lt (pos a) n h = mod-lt a h
%ℤ-lt (negsuc a) n h = omega arith

module _ (C : Crypto) where
  open C use {order, one_lt_order, mod_add_lem, mod_multiply_lem, mod_inv_lem, mod_pow_lem}

  order_pos : 0 < order
  order_pos = omega (arith, one_lt_order)

  pub add_lem : (a b : ℕ) → Fn.add C a b ≡ (a + b) % order
  unfolding Fn.add sum_ℤ ◌+ℤ◌ ◌%ℤ◌
  add_lem a b = ground (arith, mod_add_lem (pos a ∷ pos b ∷ []) order order_pos)

  pub mul_lem : (a b : ℕ) → Fn.mul C a b ≡ a * b % order
  unfolding Fn.mul product
  mul_lem a b = ground (arith, mod_multiply_lem (a ∷ b ∷ []) order order_pos)

  pub sub_lem : (a b : ℕ) → b ≤ order → Fn.sub C a b ≡ (a + (order - b)) % order
  unfolding Fn.sub sum_ℤ ◌+ℤ◌ ◌%ℤ◌ ◌-ℤ◌
  sub_lem a b h = ground (arith, mod_add_lem (pos a ∷ (pos order -ℤ pos b) ∷ []) order order_pos)

  pub add-lt : (a b : ℕ) → Fn.add C a b < order
  add-lt a b = rw (add_lem a b) (mod-lt (a + b) order_pos)

  pub mul-lt : (a b : ℕ) → Fn.mul C a b < order
  mul-lt a b = rw (mul_lem a b) (mod-lt (a * b) order_pos)

  pub sub-lt : (a b : ℕ) → Fn.sub C a b < order
  unfolding Fn.sub
  sub-lt a b =
      let l = pos a ∷ (pos order -ℤ pos b) ∷ [] in
      let o : 0 < order = omega (arith, C.one_lt_order) in
      rw (C.mod_add_lem l order o) (%ℤ-lt (sum_ℤ l) order o)

  pub residue_lem : (a : ℕ) → Fn.residue C (pos a) ≡ a % order
  unfolding Fn.residue sum_ℤ ◌+ℤ◌ ◌%ℤ◌
  residue_lem a = ground (arith, mod_add_lem (pos a ∷ pos 0 ∷ []) order order_pos)

  -- A number below the order is its own residue.
  pub residue-small : (a : ℕ) → a < order → Fn.residue C (pos a) ≡ a
  residue-small a lt = residue_lem a ∙ mod-eq_of_lt lt

  pub residue-lt : (x : ℤ) → Fn.residue C x < order
  unfolding Fn.residue
  residue-lt x =
      let l = x ∷ pos 0 ∷ [] in rw (mod_add_lem l order order_pos) (%ℤ-lt (sum_ℤ l) order order_pos)

  pub residue-negsuc : (t : ℕ) → Fn.residue C (negsuc t) ≡ order - 1 - t % order
  unfolding Fn.residue sum_ℤ ◌+ℤ◌ ◌%ℤ◌
  residue-negsuc t = ground (arith, mod_add_lem (negsuc t ∷ pos 0 ∷ []) order order_pos)
