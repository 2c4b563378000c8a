-- ===== src/Zk/Mod/Completeness.antt =====
-- The verifier of src/mpc/zk/mod.ts on proofs of the prover.
use native.Mathlib.Nat.{mod-lt, mod-eq_of_lt, mul_comm, mul-pos, pow-suc, pow-zero, one-mul}
use threshold_sig_multiparty.Prelude.{
  ℕ, zero, suc, ◌+◌, ◌-◌, ◌*◌, ◌/◌, ◌%◌, ◌^◌, ◌<◌, ◌≡◌, refl, sym, ap, ◌∙◌, subst, Bool, true,
  false, not, List, [], ◌∷◌, map, Option, ltb, leb, take, ◌≢◌, if◌then◌else◌, arith,
}
use threshold_sig_multiparty.Prelude.Distinct.{All}
use threshold_sig_multiparty.Prelude.Eq.{◌==◌, nat_eq, ==_refl}
use threshold_sig_multiparty.Prelude.Modular.{Cong-mod, Cong-pow, pow-mul, pow_mod, mul-mod}
use threshold_sig_multiparty.Prelude.Result.{Result, ok, ◌>>=◌, >>=-eq-ok}
use threshold_sig_multiparty.Crypto.{Crypto}
use threshold_sig_multiparty.Hasher.{Hashing, Hasher, Basic, basic, update_multi, digest_bytes_into}
use threshold_sig_multiparty.Arith.{Sign, is_valid_mod_n, jacobi}
use threshold_sig_multiparty.Sample.{is_minus, sample_qnr}
use threshold_sig_multiparty.Sample.Draws.{sample_qnr-minus}
use threshold_sig_multiparty.Paillier.Decryption.{IsEuler}
use threshold_sig_multiparty.Zk.Rounds.{stat_param, drop}
use threshold_sig_multiparty.Zk.Mod.{
  ModPrivate, make_quadratic_residue, ModProof, respond, samples, challenge, create_proof,
  verify_response, verify_responses, verify_proof,
}
use threshold_sig_multiparty.Zk.Mod.Residues.{Cong-left, Cong-right}
use threshold_sig_multiparty.Zk.Mod.Roots.{fourth_root}
use threshold_sig_multiparty.Zk.Mod.Symbols.{HasSymbol}
use threshold_sig_multiparty.Zk.Mod.Candidates.{expected, make-expected}
use threshold_sig_multiparty.Zk.Prm.Completeness.{product-lt}

-- An odd prime p has this property, by Euler's criterion.
abbrev pub HasSymbols : Crypto → ℕ → Type 0
HasSymbols C p = (a : ℕ) → C.gcd a p ≡ 1 → (s : Bool) × HasSymbol p a s

module _ (C : Crypto) (p q : ℕ) (p_mod : p % 4 ≡ 3) (q_mod : q % 4 ≡ 3) (coprime : C.gcd p q ≡ 1)
    (euler : IsEuler C p q) (at_p : HasSymbols C p) (at_q : HasSymbols C q) where
  lt_p : 1 < p
  lt_p = omega (arith, p_mod)

  lt_q : 1 < q
  lt_q = omega (arith, q_mod)

  p_is : p ≡ 4 * (p / 4) + 3
  p_is = omega (arith, p_mod)

  q_is : q ≡ 4 * (q / 4) + 3
  q_is = omega (arith, q_mod)

  unit_left : (y : ℕ) → C.gcd y (p * q) ≡ 1 → C.gcd y p ≡ 1
  unit_left y unit =
      let (x, e) = (C.gcd_iff y (p * q) (product-lt p q lt_p lt_q)).0 unit in
      let one = mod-eq_of_lt (product-lt p q lt_p lt_q) in
      (C.gcd_iff y p lt_p).1 (x, Cong-left p q (y * x) 1 (e ∙ sym one) ∙ mod-eq_of_lt lt_p)

  unit_right : (y : ℕ) → C.gcd y (p * q) ≡ 1 → C.gcd y q ≡ 1
  unit_right y unit =
      let (x, e) = (C.gcd_iff y (p * q) (product-lt p q lt_p lt_q)).0 unit in
      let one = mod-eq_of_lt (product-lt p q lt_p lt_q) in
      (C.gcd_iff y q lt_q).1 (x, Cong-right p q (y * x) 1 (e ∙ sym one) ∙ mod-eq_of_lt lt_q)

  module _ (n_inverse : ℕ) (inverse : C.mod_inv (p * q) ((p - 1) * (q - 1)) ≡ ok n_inverse) (w : ℕ)
      (s : Bool) (w_p : HasSymbol p w s) (w_q : HasSymbol q w (not s)) where
    abbrev priv : ModPrivate
    priv = record { p = p; q = q; phi = (p - 1) * (q - 1) }

    -- The n-th root that the prover takes.
    root_n :
        (y : ℕ)
        → y < p * q
        → C.gcd y (p * q) ≡ 1
        → C.mod_pow (C.mod_pow y n_inverse (p * q)) (p * q) (p * q) ≡ y
    root_n y small unit =
        let n = p * q in
        let phi = (p - 1) * (q - 1) in
        let lt = product-lt p q lt_p lt_q in
        let pos_n : 0 < n = omega (arith, lt) in
        let one_phi : n_inverse * n % phi ≡ 1 % phi =
          ap (λ k. k % phi) (mul_comm n_inverse n) ∙ C.mod_inv_lem n phi n_inverse inverse in
        let z = C.mod_pow y n_inverse n in
        C.mod_pow_lem z n n pos_n
        ∙ Cong-pow n z (y ^ n_inverse) n
            (ap (λ k. k % n) (C.mod_pow_lem y n_inverse n pos_n) ∙ Cong-mod n (y ^ n_inverse))
        ∙ ap (λ k. k % n) (sym (pow-mul y n_inverse n))
        ∙ sym (pow_mod n y (n_inverse * n) phi lt (euler y unit))
        ∙ ap (λ k. y ^ k % n) one_phi
        ∙ pow_mod n y 1 phi lt (euler y unit)
        ∙ ap (λ k. k % n) (pow-suc y zero ∙ ap (λ x. x * y) (pow-zero y) ∙ one-mul y)
        ∙ mod-eq_of_lt small

    respond-verified :
        (y : ℕ)
        → y < p * q
        → C.gcd y (p * q) ≡ 1
        → verify_response C (respond C priv (p * q) w n_inverse y) (p * q) w y ≡ true
    unfolding verify_response respond
    respond-verified y small unit =
        let n = p * q in
        let (t, y_p) = at_p y (unit_left y unit) in
        let (u, y_q) = at_q y (unit_right y unit) in
        let made = make_quadratic_residue C y w (p / 2) (q / 2) n p q in
        let (symbols, (is_expected, bound)) =
          make-expected C p q (p / 4) (q / 4) p_is q_is y w small s w_p w_q t u (y_p, y_q) in
        let fourth =
          fourth_root p q (p / 4) (q / 4) p_is q_is C lt_p lt_q made.out
            ((C.gcd_iff p q lt_q).0 coprime) symbols
          ∙ mod-eq_of_lt bound
          ∙ is_expected in
        rw (root_n y small unit, ==_refl y, fourth, ==_refl (expected C made.a made.b y w n)) refl

    verify-respond :
        (ys : List ℕ)
        → All (λ y. y < p * q) ys
        → All (λ y. C.gcd y (p * q) ≡ 1) ys
        → verify_responses C (p * q) w (map (respond C priv (p * q) w n_inverse) ys) ys ≡ true
    unfolding verify_responses
    verify-respond [] small units = refl
    verify-respond (y ∷ ys) small units =
        rw (respond-verified y small.0 units.0) (verify-respond ys small.1 units.1)

module _ (C : Crypto) (H : Hashing C.Point) where
  samples-lt :
      (n k left : ℕ) (buffer : List ℕ) → 0 < n → All (λ y. y < n) (samples C n k left buffer)
  unfolding samples
  samples-lt n k zero buffer h = tt
  samples-lt n k (suc left) buffer h =
      (mod-lt (C.bytes_to_number_be (take k buffer)) h, samples-lt n k left (drop k buffer) h)

  challenge-lt :
      (n w : ℕ) (h : Hasher) (ys : List ℕ)
      → 0 < n
      → challenge C H h n w ≡ ok ys
      → All (λ y. y < n) ys
  unfolding challenge
  challenge-lt n w h ys pos_n drawn =
      let k = C.bit_length n / 8 + 2 in
      let sampled : List ℕ × Hasher → Result (List ℕ) = λ d. ok (samples C n k stat_param d.0) in
      let (h1, e1, next) =
        >>=-eq-ok (update_multi H h (basic (Basic.number n) ∷ basic (Basic.number w) ∷ []))
          (λ h'. digest_bytes_into H h' (k * stat_param) >>= sampled) drawn in
      let ((digest, h2), e2, last) =
        >>=-eq-ok (digest_bytes_into H h1 (k * stat_param)) sampled next in
      let same : samples C n k stat_param digest ≡ ys = ground (arith, last) in
      subst (All (λ y. y < n)) same (samples-lt n k stat_param digest pos_n)

  verify-decided :
      (prime : ℕ → Bool) (proof : ModProof) (n : ℕ) (h : Hasher) (sign : Option Sign) (ys : List ℕ)
      → n % 2 ≢ 0
      → prime n ≡ false
      → jacobi proof.w n ≡ ok sign
      → is_minus sign ≡ true
      → C.gcd proof.w n ≡ 1
      → challenge C H h n proof.w ≡ ok ys
      → verify_responses C n proof.w proof.responses ys ≡ true
      → verify_proof C H prime proof n h ≡ ok (ltb proof.w n)
  unfolding verify_proof is_valid_mod_n
  verify-decided prime proof n h sign ys odd composite symbol minus unit drawn good =
      let even : (n % 2 == 0) ≡ false = ground (arith, odd) in
      rw (even, composite, symbol, minus, drawn, good, unit) (compare_w proof.w n)
    where
      compare_w :
          (w n : ℕ)
          → (if not (if leb n w then false else true) then ok false else ok true) ≡ ok (ltb w n)
      compare_w w n = ground arith

  -- For p and q without a common factor that leave the rest 3 modulo 4 and satisfy Euler's theorem and
  -- criterion, where `modInv` inverts the modulus modulo phi and `isProbablyPrime` does not take the
  -- modulus for a prime; where `sampleQNR` returns a w without a factor in common with the modulus
  -- that is a quadratic residue modulo exactly one of the primes, and no challenge has a factor in
  -- common with the modulus: `create_proof` returns a proof, and `verify_proof` accepts it with the
  -- same transcript exactly when w is below the modulus.
  pub verify_mod-create_proof :
      (p q : ℕ) (draws : ℕ → ℕ) (h : Hasher) (prime : ℕ → Bool) (w : ℕ) (s : Bool) (n_inverse : ℕ)
      (ys : List ℕ)
      → p % 4 ≡ 3
      → q % 4 ≡ 3
      → C.gcd p q ≡ 1
      → IsEuler C p q
      → HasSymbols C p
      → HasSymbols C q
      → C.mod_inv (p * q) ((p - 1) * (q - 1)) ≡ ok n_inverse
      → prime (p * q) ≡ false
      → sample_qnr C (p * q) draws ≡ ok w
      → C.gcd w (p * q) ≡ 1
      → HasSymbol p w s
      → HasSymbol q w (not s)
      → challenge C H h (p * q) w ≡ ok ys
      → All (λ y. C.gcd y (p * q) ≡ 1) ys
      → let priv : ModPrivate = record { p = p; q = q; phi = (p - 1) * (q - 1) } in
        (proof : ModProof) × (create_proof C H priv (p * q) draws h ≡ ok proof)
        × (verify_proof C H prime proof (p * q) h ≡ ok (ltb w (p * q)))
  unfolding create_proof
  verify_mod-create_proof p q draws h prime w s n_inverse ys p_mod q_mod coprime euler at_p at_q
        inverse composite drawn_w unit w_p w_q drawn units =
      let n = p * q in
      let priv' : ModPrivate = record { p = p; q = q; phi = (p - 1) * (q - 1) } in
      let proof : ModProof = record { w = w; responses = map (respond C priv' n w n_inverse) ys } in
      let (sign, symbol, minus) = sample_qnr-minus C n draws w drawn_w in
      let pos_n : 0 < n = mul-pos (omega (arith, p_mod)) (omega (arith, q_mod)) in
      (
        proof,
        rw (drawn_w, inverse, drawn) refl,
        verify-decided prime proof n h sign ys (odd p q p_mod q_mod) composite symbol minus unit
            drawn
            (verify-respond C p q p_mod q_mod coprime euler at_p at_q n_inverse inverse w s w_p w_q
              ys (challenge-lt n w h ys pos_n drawn) units),
      )
    where
      odd : (p q : ℕ) → p % 4 ≡ 3 → q % 4 ≡ 3 → p * q % 2 ≢ 0
      odd p q h k e =
          let one : p * q % 2 ≡ 1 =
            mul-mod p q 2
            ∙ (let a : p % 2 ≡ 1 = omega (arith, h) in
                let b : q % 2 ≡ 1 = omega (arith, k) in
                ap (λ x. x * (q % 2) % 2) a ∙ ap (λ x. 1 * x % 2) b) in
          absurd (omega (arith, one, e))
