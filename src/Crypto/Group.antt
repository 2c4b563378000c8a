-- ===== src/Crypto/Group.antt =====
-- The laws of multiples of a point.
use threshold_sig_multiparty.Prelude.{ℕ, zero, suc, ◌+◌, ◌*◌, ◌/◌, ◌%◌, ◌≡◌, sym, ap, ◌∙◌}
use native.Mathlib.Nat.{zero-add, suc-add, zero-mul, suc-mul, div-add-mod}
use threshold_sig_multiparty.Crypto.{Crypto}

module _ (C : Crypto) where
  open C use {
    Point, order, zero_point, add, times, times_zero, times_suc, add_assoc, add_comm, zero_add,
    times_order,
  }

  pub add_zero : (p : Point) → add p zero_point ≡ p
  add_zero p = add_comm p zero_point ∙ zero_add p

  pub add_swap : (p q r s : Point) → add (add p q) (add r s) ≡ add (add p r) (add q s)
  add_swap p q r s =
      add_assoc p q (add r s)
      ∙ ap (add p) (sym (add_assoc q r s) ∙ ap (λ t. add t s) (add_comm q r) ∙ add_assoc r q s)
      ∙ sym (add_assoc p r (add q s))

  pub times-add : (a b : ℕ) (p : Point) → times (a + b) p ≡ add (times a p) (times b p)
  times-add zero b p = rw (zero-add, times_zero p) (sym (zero_add (times b p)))
  times-add (suc a) b p =
      rw (suc-add, times_suc (a + b) p, times_suc a p, times-add a b p) (sym (add_assoc _ _ _))

  pub times-zero_point : (a : ℕ) → times a zero_point ≡ zero_point
  times-zero_point zero = times_zero zero_point
  times-zero_point (suc a) = times_suc a zero_point ∙ zero_add _ ∙ times-zero_point a

  pub times-add_point : (a : ℕ) (p q : Point) → times a (add p q) ≡ add (times a p) (times a q)
  times-add_point zero p q =
      rw (times_zero (add p q), times_zero p, times_zero q) (sym (zero_add zero_point))
  times-add_point (suc a) p q =
      rw (times_suc a (add p q), times_suc a p, times_suc a q, times-add_point a p q)
        (add_swap p q (times a p) (times a q))

  pub times-mul : (a b : ℕ) (p : Point) → times (a * b) p ≡ times a (times b p)
  times-mul zero b p = rw (zero-mul, times_zero p) (sym (times_zero (times b p)))
  times-mul (suc a) b p =
      rw (suc-mul, times-add (a * b) b p, times-mul a b p, times_suc a (times b p))
        (add_comm (times a (times b p)) (times b p))

  -- A scalar counts up to the order of the group.
  pub times-mod : (a : ℕ) (p : Point) → times (a % order) p ≡ times a p
  times-mod a p = sym (
      ap (λ k. times k p) (sym (div-add-mod a order))
      ∙ times-add (order * (a / order)) (a % order) p
      ∙ ap (λ q. add q (times (a % order) p))
          (times-mul order (a / order) p ∙ times_order (times (a / order) p))
      ∙ zero_add (times (a % order) p))

  pub times-one : (p : Point) → times 1 p ≡ p
  times-one p = times_suc 0 p ∙ ap (add p) (times_zero p) ∙ add_zero p
