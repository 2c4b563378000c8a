-- ===== src/Zk/Mod/Residues.antt =====
-- Residues modulo a product, and powers of opposite numbers: the arithmetic behind
-- src/mpc/zk/mod.ts.
use native.Mathlib.Nat.{
  mod-eq_of_lt, div-add-mod, mul_assoc, mul_comm, mul-one, one-mul, mul-add, mul-zero, zero-mul,
  zero-add, add-zero, pow-suc, pow-zero,
}
use threshold_sig_multiparty.Prelude.{
  ℕ, zero, ◌+◌, ◌-◌, ◌*◌, ◌/◌, ◌%◌, ◌^◌, ◌<◌, ◌≡◌, refl, sym, ap, ◌∙◌, subst, dec_lt, arith,
}
use threshold_sig_multiparty.Prelude.Modular.{
  Cong, Cong-mul, Cong-add, Cong-pow, Cong-multiple, pow-add, pow-mul,
}
use threshold_sig_multiparty.Paillier.Ciphertexts.{IsUnit}

-- What is congruent modulo a product is congruent modulo its factors.
Cong-rest : (p q a : ℕ) → Cong p (a % (p * q)) a
Cong-rest p q a =
    let r = a % (p * q) in
    let k = a / (p * q) in
    let e : r + p * (q * k) ≡ a = omega (arith, div-add-mod a (p * q), mul_assoc p q k) in
    sym (Cong-multiple p r (q * k)) ∙ ap (λ x. x % p) e

pub Cong-left : (p q a b : ℕ) → Cong (p * q) a b → Cong p a b
Cong-left p q a b h = sym (Cong-rest p q a) ∙ ap (λ x. x % p) h ∙ Cong-rest p q b

pub Cong-right : (p q a b : ℕ) → Cong (p * q) a b → Cong q a b
Cong-right p q a b h = Cong-left q p a b (subst (λ m. Cong m a b) (mul_comm p q) h)

-- A summand that changes no residue is 0 modulo m.
summand-zero : (m b d : ℕ) → 0 < m → Cong m (b + d) b → d % m ≡ 0
summand-zero m b d pos_m h =
    let u = (b + d) / m in
    let v = b / m in
    let r = b % m in
    let e : m * u + r ≡ b + d = ap (λ x. m * u + x) (sym h) ∙ div-add-mod (b + d) m in
    let f : m * v + r ≡ b = div-add-mod b m in
    let g : m * u ≡ d + m * v = omega (arith, e, f) in
    sym (Cong-multiple m d v)
    ∙ ap (λ x. x % m) (sym g ∙ sym (zero-add (m * u)))
    ∙ Cong-multiple m 0 u
    ∙ mod-eq_of_lt pos_m

-- A multiple of p and of q is a multiple of p * q, where p has an inverse modulo q.
multiple : (p q d : ℕ) → 0 < p → 1 < q → IsUnit q p → d % p ≡ 0 → d % q ≡ 0 → d % (p * q) ≡ 0
multiple p q d pos_p lt (x, e) dp dq =
    let k = d / p in
    let whole : p * k ≡ d = omega (arith, div-add-mod d p, dp) in
    let regroup : k * (p * x) ≡ p * k * x = omega arith in
    let zero_q : 0 % q ≡ 0 = mod-eq_of_lt (omega (arith, lt)) in
    let k_zero : k % q ≡ 0 =
      ap (λ j. j % q) (sym (mul-one k))
      ∙ Cong-mul q k k 1 (p * x) refl (mod-eq_of_lt lt ∙ sym e)
      ∙ ap (λ j. j % q) regroup
      ∙ Cong-mul q (p * k) 0 x x (ap (λ j. j % q) whole ∙ dq ∙ sym zero_q) refl
      ∙ ap (λ j. j % q) (zero-mul x)
      ∙ zero_q in
    let j = k / q in
    let k_is : q * j ≡ k = omega (arith, div-add-mod k q, k_zero) in
    let d_is : 0 + p * q * j ≡ d =
      zero-add (p * q * j) ∙ mul_assoc p q j ∙ ap (λ i. p * i) k_is ∙ whole in
    ap (λ i. i % (p * q)) (sym d_is) ∙ Cong-multiple (p * q) 0 j ∙ zero-mod (p * q)
  where
    zero-mod : (m : ℕ) → 0 % m ≡ 0
    zero-mod m = omega arith

Cong-product_le :
    (p q b d : ℕ)
    → 0 < p
    → 1 < q
    → IsUnit q p
    → Cong p (b + d) b
    → Cong q (b + d) b
    → Cong (p * q) (b + d) b
Cong-product_le p q b d pos_p lt unit hp hq =
    let m = p * q in
    let z : d % m ≡ 0 =
      multiple p q d pos_p lt unit (summand-zero p b d pos_p hp)
        (summand-zero q b d (omega (arith, lt)) hq) in
    let whole : m * (d / m) ≡ d = omega (arith, div-add-mod d m, z) in
    ap (λ x. (b + x) % m) (sym whole) ∙ Cong-multiple m b (d / m)

-- What is congruent modulo p and modulo q is congruent modulo p * q.
pub Cong-product :
    (p q a b : ℕ) → 0 < p → 1 < q → IsUnit q p → Cong p a b → Cong q a b → Cong (p * q) a b
Cong-product p q a b pos_p lt unit hp hq = elim (dec_lt a b) [
  | yes below ↦
      let e : a + (b - a) ≡ b = omega (arith, below) in
      sym (
        subst (λ x. Cong (p * q) x a) e
          (Cong-product_le p q a (b - a) pos_p lt unit (ap (λ x. x % p) e ∙ sym hp)
            (ap (λ x. x % q) e ∙ sym hq)))
  | no above ↦
      let e : b + (a - b) ≡ a = omega (arith, above) in
      subst (λ x. Cong (p * q) x b) e
        (Cong-product_le p q b (a - b) pos_p lt unit (ap (λ x. x % p) e ∙ hp)
          (ap (λ x. x % q) e ∙ hq))
]

-- Opposite numbers have one square.
square_opposite : (m z y : ℕ) → 0 < m → (z + y) % m ≡ 0 → Cong m (z * z) (y * y)
square_opposite m z y pos_m h =
    let zero_m : 0 % m ≡ 0 = mod-eq_of_lt pos_m in
    let a : Cong m (z * (z + y)) 0 =
      Cong-mul m z z (z + y) 0 refl (h ∙ sym zero_m) ∙ ap (λ k. k % m) (mul-zero z) in
    let b : Cong m (y * (z + y)) 0 =
      Cong-mul m y y (z + y) 0 refl (h ∙ sym zero_m) ∙ ap (λ k. k % m) (mul-zero y) in
    let l : z * z + y * (z + y) ≡ y * y + z * (z + y) = omega arith in
    ap (λ k. k % m) (sym (add-zero (z * z)))
    ∙ Cong-add m (z * z) (z * z) 0 (y * (z + y)) refl (sym b)
    ∙ ap (λ k. k % m) l
    ∙ Cong-add m (y * y) (y * y) (z * (z + y)) 0 refl a
    ∙ ap (λ k. k % m) (add-zero (y * y))

-- An odd power of opposite numbers is opposite.
pub odd_power_opposite :
    (m z y k : ℕ) → 0 < m → (z + y) % m ≡ 0 → (z ^ (2 * k + 1) + y ^ (2 * k + 1)) % m ≡ 0
odd_power_opposite m z y k pos_m h =
    let odd : (a : ℕ) → a ^ (2 * k + 1) ≡ (a * a) ^ k * a = λ a.
      pow-add a (2 * k) 1
      ∙ ap (λ x. x * a ^ 1) (pow-mul a 2 k ∙ ap (λ x. x ^ k) (two a))
      ∙ ap (λ x. (a * a) ^ k * x) (one a) in
    let s = (y * y) ^ k in
    ap (λ x. (x + y ^ (2 * k + 1)) % m) (odd z)
    ∙ ap (λ x. ((z * z) ^ k * z + x) % m) (odd y)
    ∙ Cong-add m ((z * z) ^ k * z) (s * z) (s * y) (s * y)
        (Cong-mul m ((z * z) ^ k) s z z
          (Cong-pow m (z * z) (y * y) k (square_opposite m z y pos_m h)) refl)
        refl
    ∙ ap (λ x. x % m) (sym (mul-add s z y))
    ∙ Cong-mul m s s (z + y) 0 refl (h ∙ sym (mod-eq_of_lt pos_m))
    ∙ ap (λ x. x % m) (mul-zero s)
    ∙ mod-eq_of_lt pos_m
  where
    one : (a : ℕ) → a ^ 1 ≡ a
    one a = pow-suc a zero ∙ ap (λ x. x * a) (pow-zero a) ∙ one-mul a

    two : (a : ℕ) → a ^ 2 ≡ a * a
    two a = pow-suc a 1 ∙ ap (λ x. x * a) (one a)
