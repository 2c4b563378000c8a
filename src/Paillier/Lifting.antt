-- ===== src/Paillier/Lifting.antt =====
-- Powers modulo the square of a number: the arithmetic behind Paillier's encryption.
use native.Mathlib.Nat.{pow-zero, pow-suc, div-add-mod, one-mul}
use threshold_sig_multiparty.Prelude.{
  ℕ, zero, suc, ◌+◌, ◌*◌, ◌/◌, ◌%◌, ◌^◌, ◌≡◌, refl, sym, ap, ◌∙◌, arith,
}
use threshold_sig_multiparty.Prelude.Modular.{Cong, Cong-mul, Cong-multiple}

-- The powers of n + 1.
pub suc_pow : (n k : ℕ) → Cong (n * n) ((n + 1) ^ k) (1 + k * n)
suc_pow n zero =
    let e : 1 + zero * n ≡ 1 = omega arith in ap (λ x. x % (n * n)) (pow-zero (n + 1) ∙ sym e)
suc_pow n (suc k) =
    let m = n * n in
    let e : (1 + k * n) * (n + 1) ≡ 1 + suc k * n + n * n * k = omega arith in
    ap (λ x. x % m) (pow-suc (n + 1) k)
    ∙ Cong-mul m ((n + 1) ^ k) (1 + k * n) (n + 1) (n + 1) (suc_pow n k) refl
    ∙ ap (λ x. x % m) e
    ∙ Cong-multiple m (1 + suc k * n) k

-- The two leading terms of a power of a sum.
leading_terms :
    (n r t k : ℕ) → Cong (n * n) ((r + n * t) ^ suc k) (r ^ suc k + suc k * (n * t * r ^ k))
leading_terms n r t zero =
    let m = n * n in
    let one : (r + n * t) ^ suc zero ≡ r + n * t =
      pow-suc (r + n * t) zero ∙ ap (λ x. x * (r + n * t)) (pow-zero (r + n * t)) ∙ one-mul _ in
    let r_one : r ^ suc zero ≡ r = pow-suc r zero ∙ ap (λ x. x * r) (pow-zero r) ∙ one-mul r in
    let r_zero : r ^ zero ≡ 1 = pow-zero r in
    ap (λ x. x % m)
      (one
        ∙ sym (
            ap (λ x. x + suc zero * (n * t * r ^ zero)) r_one
            ∙ ap (λ x. r + suc zero * (n * t * x)) r_zero
            ∙ omega arith))
leading_terms n r t (suc k) =
    let m = n * n in
    let p = r ^ k in
    let step : r ^ suc k ≡ p * r = pow-suc r k in
    let last : r ^ suc (suc k) ≡ p * r * r = pow-suc r (suc k) ∙ ap (λ x. x * r) step in
    let e : (p * r + suc k * (n * t * p)) * (r + n * t)
        ≡ p * r * r + suc (suc k) * (n * t * (p * r)) + n * n * (suc k * (t * t * p)) =
      omega arith in
    ap (λ x. x % m) (pow-suc (r + n * t) (suc k))
    ∙ Cong-mul m ((r + n * t) ^ suc k) (r ^ suc k + suc k * (n * t * p)) (r + n * t) (r + n * t)
        (leading_terms n r t k) refl
    ∙ ap (λ x. (x + suc k * (n * t * p)) * (r + n * t) % m) step
    ∙ ap (λ x. x % m) e
    ∙ Cong-multiple m (p * r * r + suc (suc k) * (n * t * (p * r))) (suc k * (t * t * p))
    ∙ ap (λ x. (x + suc (suc k) * (n * t * (p * r))) % m) (sym last)
    ∙ ap (λ x. (r ^ suc (suc k) + suc (suc k) * (n * t * x)) % m) (sym step)

-- The n-th power modulo the square of n depends on the rest modulo n only.
lift_mod : (n a : ℕ) → Cong (n * n) (a ^ n) ((a % n) ^ n)
lift_mod zero a = ap (λ x. x % (zero * zero)) (pow-zero a ∙ sym (pow-zero (a % zero)))
lift_mod (suc k) a =
    let n = suc k in
    let m = n * n in
    let r = a % n in
    let t = a / n in
    let e : a ≡ r + n * t = sym (div-add-mod a n) ∙ omega arith in
    let f : suc k * (n * t * r ^ k) ≡ n * n * (t * r ^ k) = omega arith in
    ap (λ x. x ^ n % m) e
    ∙ leading_terms n r t k
    ∙ ap (λ x. (r ^ suc k + x) % m) f
    ∙ Cong-multiple m (r ^ n) (t * r ^ k)

pub lift : (n a b : ℕ) → Cong n a b → Cong (n * n) (a ^ n) (b ^ n)
lift n a b h = lift_mod n a ∙ ap (λ x. x ^ n % (n * n)) h ∙ sym (lift_mod n b)
