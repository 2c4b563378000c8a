-- ===== src/Prelude/Modular.antt =====
-- Congruence of natural numbers, and powers.
use Prim.Native.Nat.{ℕ, zero, suc, ◌+◌, ◌*◌, ◌/◌, ◌%◌, ◌^◌, ◌<◌}
use mathlib.Core.Path.{◌≡◌, refl, sym, ap, ◌∙◌}
use native.Mathlib.Nat.{
  pow-zero, pow-suc, div-add-mod, mod-mod, add-mod, add-mul-mod_self_left, mul_assoc, mul_comm,
  mul-zero, mul-suc, one-mul, mul-one, mod-eq_of_lt,
}
use native.Mathlib.Omega.{arith}

-- a and b leave one rest.
abbrev pub Cong : ℕ → ℕ → ℕ → Type 0
Cong m a b = a % m ≡ b % m

pub mul-mod : (a b m : ℕ) → a * b % m ≡ a % m * (b % m) % m
mul-mod a b m =
    let q = a / m in
    let r = a % m in
    let u = b / m in
    let v = b % m in
    let e : a * b ≡ r * v + m * (q * (m * u + v) + r * u) =
      ap (λ k. k * b) (sym (div-add-mod a m))
      ∙ ap (λ k. (m * q + r) * k) (sym (div-add-mod b m))
      ∙ omega arith in
    ap (λ k. k % m) e ∙ add-mul-mod_self_left (r * v) m (q * (m * u + v) + r * u)

pub Cong-mul : (m a b c d : ℕ) → Cong m a b → Cong m c d → Cong m (a * c) (b * d)
Cong-mul m a b c d h k =
    mul-mod a c m ∙ ap (λ x. x * (c % m) % m) h ∙ ap (λ x. b % m * x % m) k ∙ sym (mul-mod b d m)

pub Cong-add : (m a b c d : ℕ) → Cong m a b → Cong m c d → Cong m (a + c) (b + d)
Cong-add m a b c d h k =
    add-mod a c m ∙ ap (λ x. (x + c % m) % m) h ∙ ap (λ x. (b % m + x) % m) k ∙ sym (add-mod b d m)

pub Cong-pow : (m a b k : ℕ) → Cong m a b → Cong m (a ^ k) (b ^ k)
Cong-pow m a b zero h = ap (λ x. x % m) (pow-zero a ∙ sym (pow-zero b))
Cong-pow m a b (suc k) h =
    ap (λ x. x % m) (pow-suc a k)
    ∙ Cong-mul m (a ^ k) (b ^ k) a b (Cong-pow m a b k h) h
    ∙ ap (λ x. x % m) (sym (pow-suc b k))

pub Cong-mod : (m a : ℕ) → Cong m (a % m) a
Cong-mod m a = mod-mod a m

pub Cong-multiple : (m a k : ℕ) → Cong m (a + m * k) a
Cong-multiple m a k = add-mul-mod_self_left a m k

pub pow-add : (a j k : ℕ) → a ^ (j + k) ≡ a ^ j * a ^ k
pow-add a j zero =
    let z : j + zero ≡ j = omega arith in
    ap (λ x. a ^ x) z ∙ sym (mul-one (a ^ j)) ∙ ap (λ x. a ^ j * x) (sym (pow-zero a))
pow-add a j (suc k) =
    let s : j + suc k ≡ suc (j + k) = omega arith in
    ap (λ x. a ^ x) s
    ∙ pow-suc a (j + k)
    ∙ ap (λ x. x * a) (pow-add a j k)
    ∙ mul_assoc (a ^ j) (a ^ k) a
    ∙ ap (λ x. a ^ j * x) (sym (pow-suc a k))

pub pow-mul : (a j k : ℕ) → a ^ (j * k) ≡ (a ^ j) ^ k
pow-mul a j zero = ap (λ x. a ^ x) (mul-zero j) ∙ pow-zero a ∙ sym (pow-zero (a ^ j))
pow-mul a j (suc k) =
    ap (λ x. a ^ x) (mul-suc j k)
    ∙ pow-add a (j * k) j
    ∙ ap (λ x. x * a ^ j) (pow-mul a j k)
    ∙ sym (pow-suc (a ^ j) k)

pub mul-pow : (a b k : ℕ) → (a * b) ^ k ≡ a ^ k * b ^ k
mul-pow a b zero =
    pow-zero (a * b) ∙ sym (ap (λ x. x * b ^ zero) (pow-zero a) ∙ one-mul (b ^ zero) ∙ pow-zero b)
mul-pow a b (suc k) =
    let e = mul-pow a b k in
    let p = a ^ k in
    let q = b ^ k in
    let regroup : p * q * (a * b) ≡ p * a * (q * b) = omega arith in
    pow-suc (a * b) k
    ∙ ap (λ x. x * (a * b)) e
    ∙ regroup
    ∙ ap (λ x. x * (q * b)) (sym (pow-suc a k))
    ∙ ap (λ x. a ^ suc k * x) (sym (pow-suc b k))

pub one-pow : (k : ℕ) → 1 ^ k ≡ 1
one-pow zero = pow-zero 1
one-pow (suc k) = pow-suc 1 k ∙ mul-one (1 ^ k) ∙ one-pow k

pub pow_swap : (a j k : ℕ) → (a ^ j) ^ k ≡ (a ^ k) ^ j
pow_swap a j k = sym (pow-mul a j k) ∙ ap (λ x. a ^ x) (mul_comm j k) ∙ pow-mul a k j

-- Powers depend on the exponent modulo phi, where the power phi is 1.
pub pow_mod : (n t k phi : ℕ) → 1 < n → t ^ phi % n ≡ 1 → Cong n (t ^ (k % phi)) (t ^ k)
pow_mod n t k phi lt euler =
    let q = k / phi in
    let r = k % phi in
    let one : Cong n ((t ^ phi) ^ q) 1 =
      Cong-pow n (t ^ phi) 1 q (euler ∙ sym (mod-eq_of_lt lt)) ∙ ap (λ x. x % n) (one-pow q) in
    sym (
      ap (λ x. t ^ x % n) (sym (div-add-mod k phi))
      ∙ ap (λ x. x % n) (pow-add t (phi * q) r ∙ ap (λ x. x * t ^ r) (pow-mul t phi q))
      ∙ Cong-mul n ((t ^ phi) ^ q) 1 (t ^ r) (t ^ r) one refl
      ∙ ap (λ x. x % n) (one-mul (t ^ r)))
