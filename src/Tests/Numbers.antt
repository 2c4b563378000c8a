-- ===== src/Tests/Numbers.antt =====
-- Executable instances of the number functions of bigint-crypto-utils, for tests.
use native.Mathlib.Nat.{mod-lt, pow-suc, mod-eq_of_lt, mul_comm}
use threshold_sig_multiparty.Prelude.{
  ℕ, zero, suc, ◌*◌, ◌/◌, ◌%◌, ◌^◌, ◌<◌, ◌≤◌, ◌≡◌, ◌≢◌, ◌↔◌, refl, sym, ap, ◌∙◌, Bool, true, false,
  ◌||◌, ◌&&◌, if◌then◌else◌, inl, inr, arith,
}
use threshold_sig_multiparty.Prelude.Eq.{◌==◌, nat_eq, ==_sound, ==_refl}
use threshold_sig_multiparty.Prelude.{Bool-cases}
use threshold_sig_multiparty.Prelude.Result.{Result, ok, err}
use threshold_sig_multiparty.Prelude.Modular.{
  Cong-mul, Cong-mod, Cong-pow, mul-mod, mul-pow, one-pow,
}
use threshold_sig_multiparty.Prelude.Int.{ℤ, pos, negsuc}

-- Whether one of the numbers below k is an inverse of a modulo m.
abbrev pub has_inverse : ℕ → ℕ → ℕ → Bool
has_inverse zero a m = false
has_inverse (suc k) a m = (a * k % m == 1) || has_inverse k a m

abbrev pub gcd_test : ℕ → ℕ → ℕ
gcd_test a m = if has_inverse m a m then 1 else 0

has_inverse_sound : (k a m : ℕ) → has_inverse k a m ≡ true → (x : ℕ) × (a * x % m ≡ 1)
has_inverse_sound zero a m h = absurd (ground (arith, h))
has_inverse_sound (suc k) a m h = elim (Bool-cases (a * k % m == 1)) [
  | inl e ↦ (k, ==_sound (a * k % m) 1 e)
  | inr e ↦ has_inverse_sound k a m (ground (arith, e, h))
]

has_inverse_complete : (k a m x : ℕ) → x < k → a * x % m ≡ 1 → has_inverse k a m ≡ true
has_inverse_complete zero a m x lt h = absurd (omega (arith, lt))
has_inverse_complete (suc k) a m x lt h = elim (Bool-cases (x == k)) [
  | inl e ↦
      let same : x ≡ k = ==_sound x k e in
      let found : (a * k % m == 1) ≡ true = rw (sym same, h) refl in ground (arith, found)
  | inr e ↦
      let below : x < k = ground (arith, ==_refl x, lt, e) in
      ground (arith, has_inverse_complete k a m x below h)
]

mul-mod_right : (a x m : ℕ) → a * x % m ≡ a * (x % m) % m
mul-mod_right a x m = Cong-mul m a a x (x % m) refl (sym (Cong-mod m x))

pub gcd_test_iff : (a m : ℕ) → 1 < m → (gcd_test a m ≡ 1) ↔ ((x : ℕ) × (a * x % m ≡ 1))
gcd_test_iff a m lt = (
  λ h. has_inverse_sound m a m (ground (arith, h)),
  λ found.
      let below : found.0 % m < m = mod-lt found.0 {m = m} (omega arith) in
      let inverse : a * (found.0 % m) % m ≡ 1 = sym (mul-mod_right a found.0 m) ∙ found.1 in
      ground (arith, has_inverse_complete m a m (found.0 % m) below inverse),
)

abbrev pub count_bits : ℕ → ℕ → ℕ
count_bits zero x = 0
count_bits (suc f) x = let rest = count_bits f (x / 2) in if x == 0 then 0 else suc rest

abbrev pub bits_test : ℕ → ℕ
bits_test x = count_bits x x

two-pow-suc : (k : ℕ) → 2 ^ suc k ≡ 2 ^ k * 2
two-pow-suc k = pow-suc 2 k

two-pow-pos : (k x : ℕ) → x ≤ 0 → x < 2 ^ k
two-pow-pos zero x le = omega (arith, le)
two-pow-pos (suc k) x le = omega (arith, two-pow-suc k, two-pow-pos k x le)

count_bits_iff : (f x k : ℕ) → x ≤ f → (count_bits f x ≤ k) ↔ (x < 2 ^ k)
count_bits_iff zero x k le = (λ h. two-pow-pos k x le, λ h. omega arith)
count_bits_iff (suc f) x zero le = (λ h. ground arith, λ h. ground (arith, h))
count_bits_iff (suc f) x (suc k) le =
    let rest = count_bits_iff f (x / 2) k (omega arith) in
    (
      λ h.
          let counted : (if x == 0 then 0 else suc (count_bits f (x / 2))) ≤ suc k = h in
          ground (arith, two-pow-suc k, two-pow-pos (suc k) 0 (omega arith), rest.0, counted),
      λ h. ground (arith, two-pow-suc k, rest.1, h),
    )

pub bits_test_iff : (x k : ℕ) → (bits_test x ≤ k) ↔ (x < 2 ^ k)
bits_test_iff x k = count_bits_iff x x k (omega arith)

-- The inverse of a modulo m below k, by search.
abbrev pub find_inverse : ℕ → ℕ → ℕ → Result ℕ
find_inverse zero a m = err "not invertible"
find_inverse (suc k) a m =
    let rest = find_inverse k a m in if a * k % m == 1 % m then ok k else rest

abbrev pub inverse_test : ℕ → ℕ → Result ℕ
inverse_test a m = find_inverse m a m

find_inverse_lem : (k a m b : ℕ) → find_inverse k a m ≡ ok b → (a * b % m ≡ 1 % m) × (b < k)
find_inverse_lem zero a m b h = cc
find_inverse_lem (suc k) a m b h = elim (Bool-cases (a * k % m == 1 % m)) [
  | inl e ↦
      let same : k ≡ b = ground (arith, e, h) in
      let good : a * k % m ≡ 1 % m = ==_sound (a * k % m) (1 % m) e in
      (rw (sym same) good, omega (arith, same))
  | inr e ↦
      let (good, lt) = find_inverse_lem k a m b (ground (arith, e, h)) in (good, omega (arith, lt))
]

pub inverse_test_lem : (a m b : ℕ) → inverse_test a m ≡ ok b → a * b % m ≡ 1 % m
inverse_test_lem a m b h = (find_inverse_lem m a m b h).0

pub inverse_test_bound : (a m b : ℕ) → 0 < m → inverse_test a m ≡ ok b → b < m
inverse_test_bound a m b lt h = (find_inverse_lem m a m b h).1

-- A test that every number below k passes.
abbrev pub every : (ℕ → Bool) → ℕ → Bool
every f zero = true
every f (suc k) = f k && every f k

pub every_sound : (f : ℕ → Bool) (k j : ℕ) → every f k ≡ true → j < k → f j ≡ true
every_sound f zero j h lt = absurd (omega (arith, lt))
every_sound f (suc k) j h lt = elim (Bool-cases (j == k)) [
  | inl e ↦ ap f (==_sound j k e) ∙ ground (arith, h)
  | inr e ↦
      let below : j < k = ground (arith, ==_refl j, lt, e) in
      every_sound f k j (ground (arith, h)) below
]

find_inverse-found :
    (k a m x : ℕ) → x < k → a * x % m ≡ 1 % m → (b : ℕ) × (find_inverse k a m ≡ ok b)
find_inverse-found zero a m x lt h = absurd (omega (arith, lt))
find_inverse-found (suc k) a m x lt h = elim (Bool-cases (a * k % m == 1 % m)) [
  | inl e ↦ (k, rw e refl)
  | inr e ↦
      let other : x ≢ k =
        λ same. absurd (ground (arith, e, ==_refl (1 % m), ap (λ j. a * j % m) same, h)) in
      let (b, f) = find_inverse-found k a m x (omega (arith, lt, other)) h in (b, rw e f)
]

-- `modPow` with a negative exponent inverts the power.
abbrev pub power_test : ℕ → ℤ → ℕ → Result ℕ
power_test b (pos k) m = ok (b ^ k % m)
power_test b (negsuc k) m = inverse_test (b ^ suc k % m) m

pub power_test_negsuc :
    (b k m : ℕ)
    → 1 < m
    → gcd_test b m ≡ 1
    → (c : ℕ) × (power_test b (negsuc k) m ≡ ok c) × (c * b ^ suc k % m ≡ 1)
power_test_negsuc b k m lt coprime =
    let (x, e) = (gcd_test_iff b m lt).0 coprime in
    let one : 1 % m ≡ 1 = mod-eq_of_lt lt in
    let p = b ^ suc k in
    let y = x ^ suc k in
    let inverse : p % m * (y % m) % m ≡ 1 % m =
      sym (mul-mod p y m)
      ∙ ap (λ j. j % m) (sym (mul-pow b x (suc k)))
      ∙ Cong-pow m (b * x) 1 (suc k) (e ∙ sym one)
      ∙ ap (λ j. j % m) (one-pow (suc k)) in
    let (c, found) =
      find_inverse-found m (p % m) m (y % m) (mod-lt y {m = m} (omega (arith, lt))) inverse in
    (
      c,
      found,
      ap (λ j. j % m) (mul_comm c p)
          ∙ Cong-mul m p (p % m) c c (sym (Cong-mod m p)) refl
          ∙ inverse_test_lem (p % m) m c found
          ∙ one,
    )
