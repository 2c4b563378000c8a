-- ===== src/Tests/Known.antt =====
-- An instance of the third-party operations that knows the answers for a modulus of 2048 bits, which
-- the searches of the other instance do not reach.
use threshold_sig_multiparty.Prelude.{
  ℕ, ◌+◌, ◌*◌, ◌%◌, ◌^◌, ◌<◌, ◌≤◌, ◌≡◌, ◌↔◌, ◌⊎◌, subst, refl, sym, ap, ◌∙◌, Bool, true, false, ltb,
  ◌&&◌, ◌||◌, if◌then◌else◌, suc, Bool-cases, inl, inr, arith,
}
use threshold_sig_multiparty.Prelude.Eq.{◌==◌, nat_eq, string_eq, ==_sound}
use threshold_sig_multiparty.Prelude.Int.{negsuc}
use threshold_sig_multiparty.Prelude.Result.{Result, ok}
use threshold_sig_multiparty.Crypto.{Crypto}
use threshold_sig_multiparty.Tests.Numbers.{
  gcd_test, gcd_test_iff, inverse_test, inverse_test_lem, inverse_test_bound, power_test,
  power_test_negsuc, bits_test, bits_test_iff,
}
use threshold_sig_multiparty.Tests.Residues.{eleven}

-- Two factors that are no primes, which the key generation does not test.
abbrev pub factor_p : ℕ
factor_p = 2 ^ 1024 + 1

abbrev pub factor_q : ℕ
factor_q = 2 ^ 1023 + 1

abbrev pub modulus : ℕ
modulus = factor_p * factor_q

abbrev pub totient : ℕ
totient = 2 ^ 1024 * 2 ^ 1023

abbrev pub totient_inverse : ℕ
totient_inverse =
    8079251517827751825178719172167487990111025667428871008032586356881163784716972723299300352880728365922179490230474504873529889787622730273772038096612070780157719341825249022937549437597413026699014409596016892069198054660654939040459523584619042617645411463009076260721893972885266452151888099780982596380883064302761106684410337364568672938778088829093599493384669097437655068739492245586158722191461235229006157159326099394131864767907848876709831122247138587656759181383652394302969269534536542636189072287355437463647338352358791142870185790314220617503439182898626572201210923012817398734268515144419403366404

abbrev is_known : ℕ → ℕ → Bool
is_known a m = (m == modulus) && ((a == 4) || (a == 16))

-- The search for an inverse and the test for one, with the answers for the modulus at hand.
abbrev known_gcd : ℕ → ℕ → ℕ
known_gcd a m = if is_known a m then 1 else gcd_test a m

abbrev known_inverse : ℕ → ℕ → Result ℕ
known_inverse a m =
    if (a == totient) && (m == modulus) then ok totient_inverse else inverse_test a m

abbrev known_bits : ℕ → ℕ
known_bits x = if x == modulus then 2048 else bits_test x

bits_test-exact : (x k : ℕ) → x < 2 ^ suc k → 2 ^ k ≤ x → bits_test x ≡ suc k
bits_test-exact x k lt le =
    exactly (bits_test x) ((bits_test_iff x (suc k)).1 lt)
      (λ h. omega (arith, (bits_test_iff x k).0 h, le))
  where
    exactly : (y : ℕ) → y ≤ suc k → (y ≤ k → y ≡ suc k) → y ≡ suc k
    exactly y le h = elim (Bool-cases (ltb k y)) [
      | inl e ↦ ground (arith, e, le)
      | inr e ↦ h (ground (arith, e))
    ]

modulus_lt : modulus < 2 ^ 2048
modulus_lt = omega arith

modulus_le : 2 ^ 2047 ≤ modulus
modulus_le = omega arith

known_bits_lem : (x : ℕ) → known_bits x ≡ bits_test x
known_bits_lem x = elim (Bool-cases (x == modulus)) [
  | inl e ↦
      let same : x ≡ modulus = ==_sound x modulus e in
      rw e (
        sym (
          bits_test-exact x 2047 (subst (λ y. y < 2 ^ 2048) (sym same) modulus_lt)
            (subst (λ y. 2 ^ 2047 ≤ y) (sym same) modulus_le)))
  | inr e ↦ rw e refl
]

pub known_bits_iff : (x k : ℕ) → (known_bits x ≤ k) ↔ (x < 2 ^ k)
known_bits_iff x k = subst (λ y. (y ≤ k) ↔ (x < 2 ^ k)) (sym (known_bits_lem x)) (bits_test_iff x k)

inverse_lem : totient * totient_inverse % modulus ≡ 1 % modulus
inverse_lem = refl

inverse_lt : totient_inverse < modulus
inverse_lt = omega arith

known_inverse-or :
    (a m b : ℕ)
    → known_inverse a m ≡ ok b
    → ((a ≡ totient) × (m ≡ modulus) × (b ≡ totient_inverse)) ⊎ (inverse_test a m ≡ ok b)
known_inverse-or a m b h = elim (Bool-cases ((a == totient) && (m == modulus))) [
  | inl e ↦
      let both : ((a == totient) ≡ true) × ((m == modulus) ≡ true) =
        split_and (a == totient) (m == modulus) e in
      let got : totient_inverse ≡ b =
        ok-injective (sym (if-true (ok totient_inverse) (inverse_test a m) e) ∙ h) in
      inl (==_sound a totient both.0, ==_sound m modulus both.1, sym got)
  | inr e ↦ inr (sym (if-false (ok totient_inverse) (inverse_test a m) e) ∙ h)
]
  where
    split_and : (b c : Bool) → (b && c) ≡ true → (b ≡ true) × (c ≡ true)
    split_and b c h = (ground (arith, h), ground (arith, h))

    ok-injective : {x y : ℕ} → (let r : Result ℕ = ok x in r) ≡ ok y → x ≡ y
    ok-injective e = cc

    if-true : {c : Bool} (x y : Result ℕ) → c ≡ true → (if c then x else y) ≡ x
    if-true x y e = rw e refl

    if-false : {c : Bool} (x y : Result ℕ) → c ≡ false → (if c then x else y) ≡ y
    if-false x y e = rw e refl

pub known_inverse_lem : (a m b : ℕ) → known_inverse a m ≡ ok b → a * b % m ≡ 1 % m
known_inverse_lem a m b h = elim (known_inverse-or a m b h) [
  | inl (ea, em, eb) ↦
      ap (λ x. x * b % m) ea
      ∙ ap (λ x. totient * x % m) eb
      ∙ ap (λ x. totient * totient_inverse % x) em
      ∙ inverse_lem
      ∙ ap (λ x. 1 % x) (sym em)
  | inr e ↦ inverse_test_lem a m b e
]

pub known_inverse_bound : (a m b : ℕ) → 0 < m → known_inverse a m ≡ ok b → b < m
known_inverse_bound a m b lt h = elim (known_inverse-or a m b h) [
  | inl (ea, em, eb) ↦ subst2_lt (sym eb) (sym em) inverse_lt
  | inr e ↦ inverse_test_bound a m b lt e
]
  where
    subst2_lt : {x y z w : ℕ} → x ≡ y → z ≡ w → x < z → y < w
    subst2_lt e f h = omega (arith, e, f, h)

abbrev fourth : ℕ
fourth =
    12118877276741627737768078758251231985166538501143306512048879535321745677075459084948950529321092548883269235345711757310294834681434095410658057144918106170236579012737873534406324156396119540048521614394025338103797081990982408560689285376928563926468117194513614391082840959327899678227832149671473894570920115498797638947376412378925478843103088423378380261211785963551584082546861201330644009311774896795988979509278514036465520172029335914455839964431891101635161011869531249582773910199001102185514171788841893215585168493267645230988974186754469642637620125307620687261935081157646736415523220974974600740865

abbrev sixteenth : ℕ
sixteenth =
    15148596595927034672210098447814039981458173126429133140061099419152182096344323856186188161651365686104086544182139696637868543351792619263322571431147632712795723765922341918007905195495149425060652017992531672629746352488728010700861606721160704908085146493142017988853551199159874597784790187089342368213650144373497048684220515473656848553878860529222975326514732454439480103183576501663305011639718620994986224386598142545581900215036669893069799955539863877043951264836914061978467387748751377731892714736052366519481460616584556538736217733443087053297025156634525859077418851447058420519404026218718250926081

four : 4 * fourth % modulus ≡ 1
four = refl

sixteen : 16 * sixteenth % modulus ≡ 1
sixteen = refl

known_unit : (a m : ℕ) → is_known a m ≡ true → (x : ℕ) × (a * x % m ≡ 1)
known_unit a m h = elim (Bool-cases (a == 4)) [
  | inl e ↦ (fourth, found a m 4 fourth (==_sound a 4 e) (at_modulus a m h) four)
  | inr e ↦ (
    sixteenth,
    found a m 16 sixteenth (==_sound a 16 (ground (arith, e, h))) (at_modulus a m h) sixteen,
  )
]
  where
    at_modulus : (a m : ℕ) → is_known a m ≡ true → m ≡ modulus
    at_modulus a m h = ==_sound m modulus (first (m == modulus) _ h)
      where
        first : (b c : Bool) → (b && c) ≡ true → b ≡ true
        first b c h = ground (arith, h)

    found : (a m c x : ℕ) → a ≡ c → m ≡ modulus → c * x % modulus ≡ 1 → a * x % m ≡ 1
    found a m c x ea em h = ap (λ y. y * x % m) ea ∙ ap (λ y. c * x % y) em ∙ h

pub known_gcd_iff : (a m : ℕ) → 1 < m → (known_gcd a m ≡ 1) ↔ ((x : ℕ) × (a * x % m ≡ 1))
known_gcd_iff a m lt = elim (Bool-cases (is_known a m)) [
  | inl e ↦ (λ h. known_unit a m e, λ x. rw e refl)
  | inr e ↦
      subst (λ y. (y ≡ 1) ↔ ((x : ℕ) × (a * x % m ≡ 1))) (sym (closed e)) (gcd_test_iff a m lt)
]
  where
    closed : is_known a m ≡ false → known_gcd a m ≡ gcd_test a m
    closed e = rw e refl

-- A negative power of a number for which the modulus is at hand.
pub known_power_negsuc :
    (b k m : ℕ)
    → 1 < m
    → known_gcd b m ≡ 1
    → (c : ℕ) × (power_test b (negsuc k) m ≡ ok c) × (c * b ^ suc k % m ≡ 1)
known_power_negsuc b k m lt h =
    power_test_negsuc b k m lt ((gcd_test_iff b m lt).1 ((known_gcd_iff b m lt).0 h))

abbrev pub known : Crypto
known = record eleven {
  gcd = known_gcd;
  gcd_iff = known_gcd_iff;
  mod_inv = known_inverse;
  mod_inv_lem = known_inverse_lem;
  mod_inv_bound = known_inverse_bound;
  bit_length = known_bits;
  bit_length_iff = λ x k h. known_bits_iff x k;
  mod_pow_ℤ_negsuc = known_power_negsuc;
}
