-- ===== src/Tests/Moduli.antt =====
-- The proofs about moduli at concrete inputs.
use native.Mathlib.Nat.{mod-lt}
use threshold_sig_multiparty.Prelude.{
  ℕ, zero, suc, ◌-◌, ◌/◌, ◌%◌, ◌^◌, ◌<◌, ◌≡◌, refl, sym, ap, ◌∙◌, Bool, true, false, Bool-cases,
  inl, inr, not, ◌||◌, some, List, [], ◌∷◌, arith,
}
use threshold_sig_multiparty.Prelude.Distinct.{All}
use threshold_sig_multiparty.Prelude.Eq.{◌==◌, nat_eq, ==_sound}
use threshold_sig_multiparty.Prelude.Int.{negsuc, ◌%ℤ◌, ◌+ℤ◌, ◌*ℤ◌, ◌-ℤ◌}
use threshold_sig_multiparty.Prelude.Modular.{Cong-pow, Cong-mod, Cong-mul}
use threshold_sig_multiparty.Prelude.Result.{ok}
use threshold_sig_multiparty.Crypto.{product, sum_ℤ}
use threshold_sig_multiparty.Hasher.{Hashing, new_hasher}
use threshold_sig_multiparty.Arith.{minus, jacobi, is_valid_mod_n}
use threshold_sig_multiparty.Sample.{sample_qnr}
use threshold_sig_multiparty.Pedersen
use threshold_sig_multiparty.Pedersen.{PedersenParams, commit, validate_params}
use threshold_sig_multiparty.Paillier.{from_n, generate_pedersen}
use threshold_sig_multiparty.Paillier.Decryption.{key, IsEuler}
use threshold_sig_multiparty.Zk.Rounds.{stat_param}
use threshold_sig_multiparty.Zk.Prm
use threshold_sig_multiparty.Zk.Prm.{PrmPrivate, PrmProof}
use threshold_sig_multiparty.Zk.Prm.Completeness.{IsSound, verify_prm-create_proof}
use threshold_sig_multiparty.Zk.Fac
use threshold_sig_multiparty.Zk.Fac.{FacPublic, FacPrivate, FacProof, FacSampled}
use threshold_sig_multiparty.Zk.Fac.Completeness.{verify_fac-create_proof}
use threshold_sig_multiparty.Zk.Fac.Disclosure.{z1-z2-disclose}
use threshold_sig_multiparty.Zk.Mod
use threshold_sig_multiparty.Zk.Mod.{ModPrivate, ModProof, samples}
use threshold_sig_multiparty.Zk.Mod.Completeness.{HasSymbols, verify_mod-create_proof}
use threshold_sig_multiparty.Zk.Mod.Empty.{verify_proof-empty}
use threshold_sig_multiparty.Tests.Numbers.{gcd_test, gcd_test_iff, every, every_sound}
use threshold_sig_multiparty.Tests.Residues.{eleven, plain_hashing}
use threshold_sig_multiparty.Tests.Ciphers.{IsEuler-fifteen}

verify_proof-empty_example :
    Mod.verify_proof eleven plain_hashing
      (λ n. n == 3)
      (record { w = 7; responses = [] })
      15
      new_hasher
    ≡ ok true
verify_proof-empty_example =
    verify_proof-empty eleven plain_hashing (λ n. n == 3) 15 7 new_hasher (some minus) (omega arith)
      refl (unfold jacobi in refl) refl (unfold is_valid_mod_n in refl) refl

abbrev aux : PedersenParams
aux = record { n = 11; s = 2; t = 3 }

abbrev fac_secret : FacPrivate
fac_secret = record { p = 3; q = 5 }

abbrev fac_draw : FacSampled
fac_draw = record { alpha = 1; beta = 2; mu = 0; nu = 1; sigma = 1; r = 2; x = 1; y = 0 }

opened_alpha : validate_params eleven 11 (commit eleven aux 1 1) (commit eleven aux 3 0) ≡ ok tt
unfolding validate_params commit product
opened_alpha = refl

opened_beta : validate_params eleven 11 (commit eleven aux 2 0) (commit eleven aux 5 1) ≡ ok tt
unfolding validate_params commit product
opened_beta = refl

verify_fac-create_proof_example :
    (proof : FacProof) × (Fac.create_proof eleven plain_hashing fac_secret
        (record { n = 15; aux = aux })
        fac_draw
        new_hasher
      ≡ ok proof)
    × (Fac.verify_proof eleven plain_hashing proof (record { n = 15; aux = aux }) new_hasher
        ≡ ok true)
verify_fac-create_proof_example =
    verify_fac-create_proof eleven plain_hashing fac_secret aux fac_draw new_hasher (omega arith)
      refl (omega arith) (omega arith) (omega arith) (omega arith) opened_alpha opened_beta refl

fac_challenge :
    Fac.challenge eleven plain_hashing
      (record { n = 15; aux = aux })
      (Fac.commitments eleven fac_secret aux fac_draw)
      new_hasher
    ≡ ok 9
unfolding Fac.challenge Fac.commitments product commit sum_ℤ ◌%ℤ◌
fac_challenge = refl

abbrev fac_proof : FacProof
fac_proof = record {
  comm = Fac.commitments eleven fac_secret aux fac_draw;
  sigma = 1;
  z1 = 28;
  z2 = 47;
  w1 = 1;
  w2 = 9;
  v = negsuc 15;
}

fac_made :
    Fac.create_proof eleven plain_hashing fac_secret
      (record { n = 15; aux = aux })
      fac_draw
      new_hasher
    ≡ ok fac_proof
unfolding Fac.create_proof Fac.response_v Fac.challenge Fac.commitments product commit sum_ℤ ◌%ℤ◌
    ◌+ℤ◌ ◌*ℤ◌ ◌-ℤ◌
fac_made = refl

z1-z2-disclose_example : (28 / 9 ≡ 3) × (47 / 9 ≡ 5)
z1-z2-disclose_example =
    z1-z2-disclose eleven plain_hashing (record { n = 15; aux = aux }) fac_secret fac_draw
      new_hasher fac_proof 9 fac_made fac_challenge (omega arith) (omega arith)

pub prm_valid : Pedersen.validate eleven (generate_pedersen eleven (key eleven 3 5 2) 6 2).0 ≡ ok tt
unfolding Pedersen.validate generate_pedersen product from_n
prm_valid = refl

pub sound :
    (k : ℕ)
    → k < stat_param
    → IsSound eleven (generate_pedersen eleven (key eleven 3 5 2) 6 2).0 6 8 1
unfolding generate_pedersen product from_n
sound k h = (omega arith, refl, refl, omega arith)

verify_prm-create_proof_example :
    (proof : PrmProof) × (Prm.create_proof eleven plain_hashing
        (record { lambda = 6; phi = 8; p = 3; q = 5 })
        (generate_pedersen eleven (key eleven 3 5 2) 6 2).0
        (λ i. 1)
        new_hasher
      ≡ ok proof)
    × (Prm.verify_proof eleven plain_hashing proof
          (generate_pedersen eleven (key eleven 3 5 2) 6 2).0
          new_hasher
        ≡ ok true)
verify_prm-create_proof_example =
    verify_prm-create_proof eleven plain_hashing 3 5 2 6 2 (λ i. 1) new_hasher (omega arith)
      (omega arith) IsEuler-fifteen refl prm_valid sound refl

-- Hashing where each pair of bytes of a long digest is read as 2.
abbrev pairs_of : ℕ → List ℕ
pairs_of zero = []
pairs_of (suc k) = 1 ∷ 1 ∷ pairs_of k

abbrev pair_hashing : Hashing eleven.Point
pair_hashing = record plain_hashing { blake3_into = λ bs len. pairs_of (len / 2) }

abbrev euler_test : ℕ → Bool
euler_test a = not (gcd_test a 33 == 1) || (a ^ 20 % 33 == 1)

implied : (b c : Bool) → b ≡ true → (not b || c) ≡ true → c ≡ true
implied b c h k = ground (h, k, arith)

reduced_unit : (m a : ℕ) → 1 < m → gcd_test a m ≡ 1 → gcd_test (a % m) m ≡ 1
reduced_unit m a lt coprime =
    let (x, e) = (gcd_test_iff a m lt).0 coprime in
    (gcd_test_iff (a % m) m lt).1 (x, Cong-mul m (a % m) a x x (Cong-mod m a) refl ∙ e)

IsEuler-33 : IsEuler eleven 3 11
IsEuler-33 a coprime =
    let unit = reduced_unit 33 a (omega arith) coprime in
    let tested : euler_test (a % 33) ≡ true =
      every_sound euler_test 33 (a % 33) refl (mod-lt a {m = 33} (omega arith)) in
    sym (Cong-pow 33 (a % 33) a 20 (Cong-mod 33 a))
    ∙ ==_sound ((a % 33) ^ 20 % 33) 1
        (implied (gcd_test (a % 33) 33 == 1) _ (ap (λ k. k == 1) unit) tested)

abbrev symbol_test : ℕ → ℕ → Bool
symbol_test p a = not (gcd_test a p == 1) || ((a ^ (p / 2) % p == 1) || (a ^ (p / 2) % p == p - 1))

symbols : (p : ℕ) → 1 < p → every (symbol_test p) p ≡ true → HasSymbols eleven p
symbols p lt tested a coprime =
    let unit = reduced_unit p a lt coprime in
    let found =
      implied (gcd_test (a % p) p == 1) _ (ap (λ k. k == 1) unit)
        (every_sound (symbol_test p) p (a % p) tested (mod-lt a {m = p} (omega (arith, lt)))) in
    let back = Cong-pow p (a % p) a (p / 2) (Cong-mod p a) in
    elim (Bool-cases ((a % p) ^ (p / 2) % p == 1)) [
      | inl e ↦ (true, sym back ∙ ==_sound _ 1 e)
      | inr e ↦ (false, sym back ∙ ==_sound _ (p - 1) (ground (arith, e, found)))
    ]

abbrev drawn_samples : List ℕ
drawn_samples = samples eleven 33 2 80 (pairs_of 80)

samples-units : (k : ℕ) → All (λ y. eleven.gcd y 33 ≡ 1) (samples eleven 33 2 k (pairs_of k))
unfolding samples
samples-units zero = tt
samples-units (suc k) = (refl, samples-units k)

drawn : Mod.challenge eleven pair_hashing new_hasher 33 5 ≡ ok drawn_samples
unfolding Mod.challenge
drawn = refl

qnr : sample_qnr eleven 33 (λ i. 5) ≡ ok 5
unfolding sample_qnr jacobi
qnr = refl

verify_mod-create_proof_example :
    (proof : ModProof) × (Mod.create_proof eleven pair_hashing
        (record { p = 3; q = 11; phi = 20 })
        33
        (λ i. 5)
        new_hasher
      ≡ ok proof)
    × (Mod.verify_proof eleven pair_hashing (λ n. n == 3) proof 33 new_hasher ≡ ok true)
verify_mod-create_proof_example =
    verify_mod-create_proof eleven pair_hashing 3 11 (λ i. 5) new_hasher (λ n. n == 3) 5 false 17
      drawn_samples refl refl refl IsEuler-33 (symbols 3 (omega arith) refl)
      (symbols 11 (omega arith) refl) refl refl qnr refl refl refl drawn (samples-units 80)
