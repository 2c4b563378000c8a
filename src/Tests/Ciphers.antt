-- ===== src/Tests/Ciphers.antt =====
-- Paillier ciphertexts and a Jacobi symbol at concrete inputs, with the modulus 3 * 5.
use native.Mathlib.Nat.{mod-lt}
use threshold_sig_multiparty.Prelude.{
  ℕ, ◌*◌, ◌%◌, ◌^◌, ◌≡◌, refl, sym, ap, ◌∙◌, Bool, true, not, ◌||◌, some, if◌then◌else◌, arith,
}
use threshold_sig_multiparty.Prelude.Eq.{◌==◌, nat_eq, ==_sound}
use threshold_sig_multiparty.Prelude.Int.{ℤ, pos, sub_ℕ, ◌+ℤ◌}
use threshold_sig_multiparty.Prelude.Modular.{Cong-pow, Cong-mod, Cong-mul}
use threshold_sig_multiparty.Prelude.Result.{ok, err}
use threshold_sig_multiparty.Arith.{Sign, jacobi}
use threshold_sig_multiparty.Arith.Jacobi.{jacobi_returns}
use threshold_sig_multiparty.Paillier.{SecretKey, from_primes, encrypt, decrypt}
use threshold_sig_multiparty.Paillier.Ciphertexts.{cipher}
use threshold_sig_multiparty.Paillier.Decryption.{key, IsEuler, decrypt-encrypt}
use threshold_sig_multiparty.Mta.{MtaOut, MtaSampled, mta_new}
use threshold_sig_multiparty.Mta.Product.{decrypt-mta_new}
use threshold_sig_multiparty.Tests.Numbers.{gcd_test, gcd_test_iff, every_sound}
use threshold_sig_multiparty.Tests.Residues.{eleven}

jacobi_returns_example :
    (s : Sign) × (jacobi 2 15 ≡ (
      if 15 % 2 == 0 then err "invalid 2nd argument to jacobi: need odd integer" else ok (some s)))
jacobi_returns_example = jacobi_returns 2 15

abbrev euler_test : ℕ → Bool
euler_test a = not (gcd_test a 15 == 1) || (a ^ 8 % 15 == 1)

implied : (b c : Bool) → b ≡ true → (not b || c) ≡ true → c ≡ true
implied b c h k = ground (h, k, arith)

pub IsEuler-fifteen : IsEuler eleven 3 5
IsEuler-fifteen a coprime =
    let (x, e) = (gcd_test_iff a 15 (omega arith)).0 coprime in
    let reduced : a % 15 * x % 15 ≡ 1 = Cong-mul 15 (a % 15) a x x (Cong-mod 15 a) refl ∙ e in
    let unit : gcd_test (a % 15) 15 ≡ 1 = (gcd_test_iff (a % 15) 15 (omega arith)).1 (x, reduced) in
    let tested : euler_test (a % 15) ≡ true =
      every_sound euler_test 15 (a % 15) refl (mod-lt a {m = 15} (omega arith)) in
    let power : (a % 15) ^ 8 % 15 ≡ 1 =
      ==_sound ((a % 15) ^ 8 % 15) 1
        (implied (gcd_test (a % 15) 15 == 1) _ (ap (λ k. k == 1) unit) tested) in
    sym (Cong-pow 15 (a % 15) a 8 (Cong-mod 15 a)) ∙ power

abbrev pub fifteen : SecretKey
fifteen = key eleven 3 5 2

decrypt-encrypt_example :
    (c : ℕ) × (encrypt eleven fifteen.public_key 7 2 ≡ ok (c, 2))
    × (decrypt eleven fifteen c ≡ ok (pos 7))
decrypt-encrypt_example =
    decrypt-encrypt eleven 3 5 7 2 fifteen (omega arith) (unfold from_primes in refl)
      IsEuler-fifteen refl (omega arith)

abbrev mta_draw : MtaSampled
mta_draw = record { beta = 1; nonce_f = 4; nonce_d = 2 }

decrypt-mta_new_example :
    (out : MtaOut) × (alpha : ℤ) × (mta_new eleven 2
        (cipher 15 2 7)
        fifteen
        fifteen.public_key
        mta_draw
      ≡ ok out)
    × (decrypt eleven fifteen out.d ≡ ok alpha)
    × (alpha +ℤ sub_ℕ 0 out.beta_neg ≡ pos 4)
decrypt-mta_new_example =
    decrypt-mta_new eleven 3 5 15 2 2 7 fifteen fifteen mta_draw (omega arith)
      (unfold from_primes in refl) IsEuler-fifteen refl (omega arith) (omega arith) refl refl
      (omega arith)
