-- ===== src/Zk/Prm/Completeness.antt =====
-- The verifier of src/mpc/zk/prm.ts on proofs of the prover.
use native.Mathlib.Nat.{mod-lt, lt_of_lt_of_le, mul-le-mul, mul-pos}
use threshold_sig_multiparty.Prelude.{
  ℕ, zero, suc, ◌+◌, ◌*◌, ◌%◌, ◌^◌, ◌<◌, ◌≤◌, ◌-◌, ◌≡◌, ◌≢◌, refl, sym, ap, ◌∙◌, Bool, true, false,
  some, List, [], ◌∷◌, map, if◌then◌else◌, arith,
}
use threshold_sig_multiparty.Prelude.Eq.{◌==◌, nat_eq, ==_refl}
use threshold_sig_multiparty.Prelude.Int.{pos, ◌+ℤ◌, ◌%ℤ◌}
use threshold_sig_multiparty.Prelude.Modular.{Cong-mul, Cong-mod, pow-add, pow_mod}
use threshold_sig_multiparty.Prelude.Result.{ok}
use threshold_sig_multiparty.Crypto.{Crypto, sum_ℤ}
use threshold_sig_multiparty.Arith.{is_valid_mod_n}
use threshold_sig_multiparty.Hasher.{Hashing, Hasher, Basic, basic, hashable, digest_bytes_into}
use threshold_sig_multiparty.Pedersen
use threshold_sig_multiparty.Pedersen.{PedersenParams}
use threshold_sig_multiparty.Pedersen.Opening.{multiply_two}
use threshold_sig_multiparty.Paillier.{from_n, generate_pedersen}
use threshold_sig_multiparty.Paillier.Decryption.{key, IsEuler}
use threshold_sig_multiparty.Paillier.Ciphertexts.{IsUnit-mul, IsUnit-pow, IsUnit-mod}
use threshold_sig_multiparty.Zk.{update-ok}
use threshold_sig_multiparty.Zk.Rounds.{stat_param, head_bit, tail, draw_list}
use threshold_sig_multiparty.Zk.Prm.{
  PrmPrivate, PrmProof, bits, responses, verify_round, verify_rounds, update_numbers, challenge,
  create_proof, verify_proof,
}

pub product-lt : (p q : ℕ) → 1 < p → 1 < q → 1 < p * q
product-lt p q h k = grind arith

pub totient_pos : (p q : ℕ) → 1 < p → 1 < q → 0 < (p - 1) * (q - 1)
totient_pos p q h k = mul-pos (omega arith) (omega arith)

module _ (C : Crypto) (aux : PedersenParams) (lambda phi : ℕ) where
  -- A sampled exponent for which the verifier does not refuse the numbers as such: the exponent and
  -- its sum with lambda have no factor in common with the modulus, and the power is not 1.
  abbrev pub IsSound : ℕ → Type 0
  IsSound a =
      (a < aux.n)
      × (C.gcd a aux.n ≡ 1)
      × (C.gcd ((a + lambda) % phi) aux.n ≡ 1)
      × (aux.t ^ a % aux.n ≢ 1)

module _ (C : Crypto) (aux : PedersenParams) (lambda phi : ℕ) (lt : 1 < aux.n) (phi_pos : 0 < phi)
    (phi_le : phi ≤ aux.n) (euler : aux.t ^ phi % aux.n ≡ 1) (unit : C.gcd aux.t aux.n ≡ 1)
    (power : aux.s ≡ aux.t ^ lambda % aux.n) where
  sum_phi : (a : ℕ) → C.mod_add (pos a ∷ pos lambda ∷ []) phi ≡ (a + lambda) % phi
  unfolding sum_ℤ ◌+ℤ◌ ◌%ℤ◌
  sum_phi a = ground (arith, C.mod_add_lem (pos a ∷ pos lambda ∷ []) phi phi_pos)

  commitment-valid : (a : ℕ) → is_valid_mod_n C aux.n (aux.t ^ a % aux.n) ≡ true
  unfolding is_valid_mod_n
  commitment-valid a =
      let n = aux.n in
      let bound : aux.t ^ a % n < n = mod-lt (aux.t ^ a) (omega (arith, lt)) in
      let coprime : C.gcd (aux.t ^ a % n) n ≡ 1 =
        (C.gcd_iff (aux.t ^ a % n) n lt).1
          (IsUnit-mod n (aux.t ^ a) (IsUnit-pow n aux.t a lt ((C.gcd_iff aux.t n lt).0 unit))) in
      ground (arith, bound, coprime)

  valid : (x : ℕ) → x < aux.n → C.gcd x aux.n ≡ 1 → is_valid_mod_n C aux.n x ≡ true
  unfolding is_valid_mod_n
  valid x bound coprime = ground (arith, bound, coprime)

  commitment_is : (a : ℕ) → C.mod_pow aux.t a aux.n ≡ aux.t ^ a % aux.n
  commitment_is a = C.mod_pow_lem aux.t a aux.n (omega (arith, lt))

  -- The equation of a round whose bit is set.
  opened :
      (a : ℕ)
      → aux.t ^ ((a + lambda) % phi) % aux.n ≡ C.mod_multiply (aux.t ^ a % aux.n ∷ aux.s ∷ []) aux.n
  opened a =
      let n = aux.n in
      let t = aux.t in
      pow_mod n t (a + lambda) phi lt euler
      ∙ ap (λ x. x % n) (pow-add t a lambda)
      ∙ sym (
          multiply_two C (t ^ a % n) aux.s n (omega (arith, lt))
          ∙ Cong-mul n (t ^ a % n) (t ^ a) aux.s (t ^ lambda) (Cong-mod n (t ^ a))
              (ap (λ x. x % n) power ∙ Cong-mod n (t ^ lambda)))

  round :
      (e : Bool) (a : ℕ)
      → IsSound C aux lambda phi a
      → verify_round C aux e
          (some (C.mod_pow aux.t a aux.n))
          (some (if e then C.mod_add (pos a ∷ pos lambda ∷ []) phi else a))
        ≡ true
  unfolding verify_round
  round true a (bound, coprime, sum_coprime, ne) =
      let z = (a + lambda) % phi in
      let z_lt : z < aux.n = lt_of_lt_of_le (mod-lt (a + lambda) phi_pos) phi_le in
      let one : (aux.t ^ a % aux.n == 1) ≡ false = ground (arith, ne) in
      rw
        (
          sum_phi a,
          commitment_is a,
          commitment-valid a,
          valid z z_lt sum_coprime,
          one,
          commitment_is z,
          opened a,
          ==_refl (C.mod_multiply (aux.t ^ a % aux.n ∷ aux.s ∷ []) aux.n),
        )
        refl
  round false a (bound, coprime, sum_coprime, ne) =
      let one : (aux.t ^ a % aux.n == 1) ≡ false = ground (arith, ne) in
      rw
        (
          commitment_is a,
          commitment-valid a,
          valid a bound coprime,
          one,
          ==_refl (aux.t ^ a % aux.n),
        )
        refl

  rounds :
      (draws : ℕ → ℕ) (i left : ℕ) (es : List Bool)
      → ((k : ℕ) → k < i + left → IsSound C aux lambda phi (draws k))
      → let as' = draw_list draws i left in
        verify_rounds C aux left es
          (map (λ a. C.mod_pow aux.t a aux.n) as')
          (responses C lambda phi as' es)
        ≡ true
  unfolding verify_rounds draw_list responses
  rounds draws i zero es sound = refl
  rounds draws i (suc left) es sound =
      rw (round (head_bit es) (draws i) (sound i (omega arith)))
        (rounds draws (i + 1) left (tail es) (λ k h. sound k (omega (arith, h))))

module _ (C : Crypto) (H : Hashing C.Point) where
  update_numbers-ok :
      (h : Hasher) (as' : List ℕ)
      → h.used ≡ false
      → (h' : Hasher) × (update_numbers H h as' ≡ ok h') × (h'.used ≡ false)
  unfolding update_numbers
  update_numbers-ok h [] fresh = (h, refl, fresh)
  update_numbers-ok h (a ∷ as') fresh =
      let (h1, e1, f1) = update-ok H h (basic (Basic.number a)) fresh tt in
      let (h2, e2, f2) = update_numbers-ok h1 as' f1 in (h2, rw e1 e2, f2)

  challenge-ok :
      (aux : PedersenParams) (big_as : List ℕ) (h : Hasher)
      → h.used ≡ false
      → (es : List Bool) × (challenge H aux big_as h ≡ ok es)
  unfolding challenge digest_bytes_into
  challenge-ok aux big_as h fresh =
      let (h1, e1, f1) = update-ok H h (hashable (Pedersen.hashable aux)) fresh tt in
      let (h2, e2, f2) = update_numbers-ok h1 big_as f1 in
      (bits stat_param (H.blake3_into h2.absorbed stat_param), rw (e1, e2, f2) refl)

  verify-valid :
      (proof : PrmProof) (aux : PedersenParams) (h : Hasher) (es : List Bool)
      → Pedersen.validate C aux ≡ ok tt
      → challenge H aux proof.big_as h ≡ ok es
      → verify_proof C H proof aux h ≡ ok (verify_rounds C aux stat_param es proof.big_as proof.zs)
  unfolding verify_proof
  verify-valid proof aux h es valid drawn = ground (arith, valid, drawn)

  -- For a key of the form that `fromPrimes` makes, whose primes satisfy Euler's theorem, and the
  -- parameters that `generatePedersen` makes for it from a tau without a factor in common with the
  -- modulus, where the parameters pass `validate` and the 80 sampled exponents are sound:
  -- `create_proof` returns a proof, and `verify_proof` accepts it with the same transcript.
  pub verify_prm-create_proof :
      (p q phi_inv lambda tau : ℕ) (draws : ℕ → ℕ) (h : Hasher)
      → 1 < p
      → 1 < q
      → IsEuler C p q
      → C.gcd tau (p * q) ≡ 1
      → let aux = (generate_pedersen C (key C p q phi_inv) lambda tau).0 in
        Pedersen.validate C aux ≡ ok tt
        → ((k : ℕ) → k < stat_param → IsSound C aux lambda ((p - 1) * (q - 1)) (draws k))
        → h.used ≡ false
        → let priv : PrmPrivate = record {
          lambda = lambda;
          phi = (p - 1) * (q - 1);
          p = p;
          q = q;
        } in
          (proof : PrmProof) × (create_proof C H priv aux draws h ≡ ok proof)
          × (verify_proof C H proof aux h ≡ ok true)
  unfolding create_proof verify_proof generate_pedersen from_n
  verify_prm-create_proof p q phi_inv lambda tau draws h p_lt q_lt euler tau_unit validated sound
        fresh =
      let n = p * q in
      let phi = (p - 1) * (q - 1) in
      let aux = (generate_pedersen C (key C p q phi_inv) lambda tau).0 in
      let lt : 1 < n = product-lt p q p_lt q_lt in
      let phi_pos : 0 < phi = totient_pos p q p_lt q_lt in
      let phi_le : phi ≤ n = mul-le-mul (omega arith) (omega arith) in
      let unit : C.gcd aux.t n ≡ 1 = square-unit n tau lt tau_unit in
      let power : aux.s ≡ aux.t ^ lambda % n = C.mod_pow_lem aux.t lambda n (omega (arith, lt)) in
      let as' = draw_list draws 0 stat_param in
      let big_as = map (λ a. C.mod_pow aux.t a n) as' in
      let (es, drawn) = challenge-ok aux big_as h fresh in
      let accepted : verify_rounds C aux stat_param es big_as (responses C lambda phi as' es)
          ≡ true =
        rounds C aux lambda phi lt phi_pos phi_le (euler aux.t unit) unit power draws 0 stat_param
          es sound in
      (
        record { big_as = big_as; zs = responses C lambda phi as' es },
        rw drawn refl,
        verify-valid (record { big_as = big_as; zs = responses C lambda phi as' es }) aux h es
              validated drawn
            ∙ ap ok accepted,
      )
    where
      square-unit :
          (n tau : ℕ) → 1 < n → C.gcd tau n ≡ 1 → C.gcd (C.mod_multiply (tau ∷ tau ∷ []) n) n ≡ 1
      square-unit n tau lt coprime =
          let u = (C.gcd_iff tau n lt).0 coprime in
          rw (multiply_two C tau tau n (omega (arith, lt))) (
            (C.gcd_iff (tau * tau % n) n lt).1
              (IsUnit-mod n (tau * tau) (IsUnit-mul n tau tau lt u u)))
