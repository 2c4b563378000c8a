-- ===== src/Zk/Mod/Symbols.antt =====
-- The symbol of a number modulo a prime that leaves the rest 3 modulo 4, by Euler's criterion: how the
-- test `isQRmodPQ` of src/mpc/zk/mod.ts answers.
use native.Mathlib.Nat.{mod-lt, mod-eq_of_lt, mul-one, one-mul, add-mod}
use threshold_sig_multiparty.Prelude.{
  ℕ, ◌+◌, ◌-◌, ◌*◌, ◌/◌, ◌%◌, ◌^◌, ◌<◌, ◌≡◌, refl, sym, ap, ◌∙◌, subst, Bool, true, false, not,
  if◌then◌else◌, arith,
}
use threshold_sig_multiparty.Prelude.Eq.{◌==◌, nat_eq}
use threshold_sig_multiparty.Prelude.Modular.{Cong, Cong-pow, mul-pow, mul-mod, Cong-multiple}
use threshold_sig_multiparty.Crypto.{Crypto}
use threshold_sig_multiparty.Zk.Mod.Residues.{odd_power_opposite}

-- The Legendre symbol by Euler's criterion: the power is 1, or -1 modulo p.
abbrev pub HasSymbol : ℕ → ℕ → Bool → Type 0
HasSymbol p y s = y ^ (p / 2) % p ≡ (if s then 1 else p - 1)

-- The symbol of a product.
abbrev pub same : Bool → Bool → Bool
same true c = c
same false c = not c

symbol-opposite_rest : (p r s : ℕ) → r < p → 0 < s → s < p → (r + s) % p ≡ 0 → r ≡ p - s
symbol-opposite_rest p r s r_lt s_pos s_lt h = grind arith

module _ (p c : ℕ) (p_is : p ≡ 4 * c + 3) where
  half : p / 2 ≡ 2 * c + 1
  half = omega (arith, p_is)

  pub HasSymbol-Cong : (y z : ℕ) (s : Bool) → Cong p y z → HasSymbol p y s → HasSymbol p z s
  HasSymbol-Cong y z s h symbol = Cong-pow p z y (p / 2) (sym h) ∙ symbol

  pub HasSymbol-opposite :
      (y z : ℕ) (s : Bool) → (z + y) % p ≡ 0 → HasSymbol p y s → HasSymbol p z (not s)
  HasSymbol-opposite y z s h symbol =
      let i = p / 2 in
      let pos_p : 0 < p = omega (arith, p_is) in
      let sum : (z ^ i + y ^ i) % p ≡ 0 =
        subst (λ k. (z ^ k + y ^ k) % p ≡ 0) (sym half) (odd_power_opposite p z y c pos_p h) in
      let rests : (z ^ i % p + y ^ i % p) % p ≡ 0 = sym (add-mod (z ^ i) (y ^ i) p) ∙ sum in
      finish s (z ^ i % p) (y ^ i % p) (mod-lt (z ^ i) pos_p) symbol rests
    where
      finish :
          (s : Bool) (r t : ℕ)
          → r < p
          → t ≡ (if s then 1 else p - 1)
          → (r + t) % p ≡ 0
          → r ≡ (if not s then 1 else p - 1)
      finish true r t r_lt e h =
          symbol-opposite_rest p r 1 r_lt (omega arith) (omega (arith, p_is))
            (ap (λ k. (r + k) % p) (sym e) ∙ h)
      finish false r t r_lt e h =
          symbol-opposite_rest p r (p - 1) r_lt (omega (arith, p_is)) (omega (arith, p_is))
            (ap (λ k. (r + k) % p) (sym e) ∙ h)
          ∙ omega (arith, p_is)

  pub HasSymbol-mul :
      (y z : ℕ) (s t : Bool) → HasSymbol p y s → HasSymbol p z t → HasSymbol p (y * z) (same s t)
  HasSymbol-mul y z s t hy hz =
      let i = p / 2 in
      ap (λ k. k % p) (mul-pow y z i)
      ∙ mul-mod (y ^ i) (z ^ i) p
      ∙ ap (λ k. k * (z ^ i % p) % p) hy
      ∙ ap (λ k. (if s then 1 else p - 1) * k % p) hz
      ∙ table s t
    where
      minus_square : (c : ℕ) → (4 * c + 3 - 1) * (4 * c + 3 - 1) ≡ 1 + (4 * c + 3) * (4 * c + 1)
      minus_square c = let e : 4 * c + 3 - 1 ≡ 4 * c + 2 = omega arith in rw (e) (omega arith)

      one : 1 % p ≡ 1
      one = mod-eq_of_lt (omega (arith, p_is))

      minus : (p - 1) % p ≡ p - 1
      minus = mod-eq_of_lt (omega (arith, p_is))

      table :
          (s t : Bool)
          → (if s then 1 else p - 1) * (if t then 1 else p - 1) % p
            ≡ (if same s t then 1 else p - 1)
      table true true = one
      table true false = ap (λ k. k % p) (one-mul (p - 1)) ∙ minus
      table false true = ap (λ k. k % p) (mul-one (p - 1)) ∙ minus
      table false false =
          ap (λ k. k % p)
            (ap (λ k. (k - 1) * (k - 1)) p_is
              ∙ minus_square c
              ∙ ap (λ k. 1 + k * (4 * c + 1)) (sym p_is))
          ∙ Cong-multiple p 1 (4 * c + 1)
          ∙ one

  pub HasSymbol-test :
      (C : Crypto) (y : ℕ) (s : Bool) → HasSymbol p y s → (C.mod_pow y (p / 2) p == 1) ≡ s
  HasSymbol-test C y s h =
      ap (λ k. k == 1) (C.mod_pow_lem y (p / 2) p (omega (arith, p_is)) ∙ h) ∙ decide s
    where
      decide : (s : Bool) → ((if s then 1 else p - 1) == 1) ≡ s
      decide true = refl
      decide false = ground (arith, p_is)
