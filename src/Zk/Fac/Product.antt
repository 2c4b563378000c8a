-- ===== src/Zk/Fac/Product.antt =====
-- The equation of src/mpc/zk/fac.ts about the product of the factors, for a response V that may be
-- negative.
use native.Mathlib.Nat.{mod-eq_of_lt, mul_comm, mul-one, mul-add, mul_assoc, pow-zero}
use threshold_sig_multiparty.Prelude.{
  ℕ, ◌+◌, ◌*◌, ◌%◌, ◌^◌, ◌<◌, ◌≡◌, refl, sym, ap, ◌∙◌, true, [], ◌∷◌, arith,
}
use threshold_sig_multiparty.Prelude.Eq.{nat_eq, ==_refl}
use threshold_sig_multiparty.Prelude.Int.{ℤ, pos, negsuc, pos_part, neg_part, ◌+ℤ◌, ◌-ℤ◌, ◌*ℤ◌}
use threshold_sig_multiparty.Prelude.Modular.{
  Cong, Cong-mul, Cong-mod, Cong-pow, pow-add, pow-mul, mul-pow,
}
use threshold_sig_multiparty.Prelude.Result.{ok}
use threshold_sig_multiparty.Crypto.{Crypto}
use threshold_sig_multiparty.Pedersen
use threshold_sig_multiparty.Pedersen.{PedersenParams, validate_params}
use threshold_sig_multiparty.Pedersen.Opening.{multiply_two, multiply_powers}
use threshold_sig_multiparty.Paillier.Ciphertexts.{IsUnit, IsUnit-pow}
use threshold_sig_multiparty.Zk.Fac.{
  FacPrivate, FacProof, FacSampled, commitments, response_v, product_matches,
}

*ℤ_parts :
    (a b : ℤ)
    → pos_part (a *ℤ b) + (pos_part a * neg_part b + neg_part a * pos_part b)
      ≡ neg_part (a *ℤ b) + (pos_part a * pos_part b + neg_part a * neg_part b)
unfolding ◌*ℤ◌
*ℤ_parts a b = ground arith

+ℤ_parts :
    (a b : ℤ)
    → pos_part (a +ℤ b) + neg_part a + neg_part b ≡ neg_part (a +ℤ b) + pos_part a + pos_part b
unfolding ◌+ℤ◌
+ℤ_parts a b = ground arith

-ℤ_parts :
    (a b : ℤ)
    → pos_part (a -ℤ b) + neg_part a + pos_part b ≡ neg_part (a -ℤ b) + pos_part a + neg_part b
unfolding ◌-ℤ◌
-ℤ_parts a b = ground arith

-- V stands for e (sigma - nu p) + r.
response_v-parts :
    (priv : FacPrivate) (sampled : FacSampled) (e : ℕ)
    → let v = response_v priv sampled e in
      pos_part v + e * (sampled.nu * priv.p) ≡ neg_part v + (e * sampled.sigma + sampled.r)
unfolding response_v
response_v-parts priv sampled e =
    let w = sampled.nu * priv.p in
    let s = sampled.sigma in
    let b = pos 0 -ℤ pos w +ℤ pos s in
    let hat : pos_part b + w ≡ neg_part b + s =
      omega (arith, -ℤ_parts (pos 0) (pos w), +ℤ_parts (pos 0 -ℤ pos w) (pos s)) in
    let times : e * pos_part b + e * w ≡ e * neg_part b + e * s =
      sym (mul-add e (pos_part b) w) ∙ ap (λ k. e * k) hat ∙ mul-add e (neg_part b) s in
    let product = *ℤ_parts (pos e) b in
    let total = +ℤ_parts (pos e *ℤ b) (pos sampled.r) in omega (arith, times, product, total)

-- The two sides of the test on R, for the exponents v - u of V.
exponents :
    (m s t p q nu e alpha sigma r v u : ℕ)
    → v + e * (nu * p) ≡ u + (e * sigma + r)
    → let big_q = s ^ q * t ^ nu in
      Cong m
        (big_q ^ (e * p + alpha) * t ^ v)
        ((s ^ (p * q) * t ^ sigma) ^ e * (big_q ^ alpha * t ^ r) * t ^ u)
exponents m s t p q nu e alpha sigma r v u h =
    let big_q = s ^ q * t ^ nu in
    let a = big_q ^ alpha in
    let b = s ^ (q * (e * p)) in
    let left : big_q ^ (e * p + alpha) * t ^ v ≡ b * a * t ^ (v + e * (nu * p)) =
      ap (λ k. k * t ^ v)
        (pow-add big_q (e * p) alpha
          ∙ ap (λ k. k * a)
              (mul-pow (s ^ q) (t ^ nu) (e * p)
                ∙ ap (λ k. k * (t ^ nu) ^ (e * p)) (sym (pow-mul s q (e * p)))
                ∙ ap (λ k. b * k) (sym (pow-mul t nu (e * p)) ∙ ap (λ k. t ^ k) (swap nu e p))))
      ∙ regroup_left b (t ^ (e * (nu * p))) a (t ^ v)
      ∙ ap (λ k. b * a * k) (sym (pow-add t v (e * (nu * p)))) in
    let right : (s ^ (p * q) * t ^ sigma) ^ e * (a * t ^ r) * t ^ u
        ≡ b * a * t ^ (u + (e * sigma + r)) =
      ap (λ k. k * (a * t ^ r) * t ^ u)
        (mul-pow (s ^ (p * q)) (t ^ sigma) e
          ∙ ap (λ k. k * (t ^ sigma) ^ e)
              (sym (pow-mul s (p * q) e) ∙ ap (λ k. s ^ k) (swap_factors p q e))
          ∙ ap (λ k. b * k) (sym (pow-mul t sigma e) ∙ ap (λ k. t ^ k) (mul_comm sigma e)))
      ∙ regroup_right b (t ^ (e * sigma)) a (t ^ r) (t ^ u)
      ∙ ap (λ k. b * a * (t ^ u * k)) (sym (pow-add t (e * sigma) r))
      ∙ ap (λ k. b * a * k) (sym (pow-add t u (e * sigma + r))) in
    ap (λ k. k % m) (left ∙ ap (λ k. b * a * t ^ k) h ∙ sym right)
  where
    swap : (nu e p : ℕ) → nu * (e * p) ≡ e * (nu * p)
    swap nu e p = omega arith

    swap_factors : (p q e : ℕ) → p * q * e ≡ q * (e * p)
    swap_factors p q e = omega arith

    regroup_left : (b c a d : ℕ) → b * c * a * d ≡ b * a * (d * c)
    regroup_left b c a d = omega arith

    regroup_right : (b c a d f : ℕ) → b * c * (a * d) * f ≡ b * a * (f * (c * d))
    regroup_right b c a d f = omega arith

cancel : (m a b z : ℕ) → 1 < m → IsUnit m z → Cong m (a * z) (b * z) → Cong m a b
cancel m a b z lt (x, e) h =
    let drop : (k : ℕ) → Cong m (k * z * x) k = λ k.
      ap (λ j. j % m) (mul_assoc k z x)
      ∙ Cong-mul m k k (z * x) 1 refl (e ∙ sym (mod-eq_of_lt lt))
      ∙ ap (λ j. j % m) (mul-one k) in
    sym (drop a) ∙ Cong-mul m (a * z) (b * z) x x h refl ∙ drop b

module _ (C : Crypto) where
  -- A power of a unit by an integer.
  power-ok :
      (t m : ℕ) (v : ℤ)
      → 1 < m
      → C.gcd t m ≡ 1
      → (c : ℕ) × (C.mod_pow_ℤ t v m ≡ ok c) × Cong m (c * t ^ neg_part v) (t ^ pos_part v)
  power-ok t m (pos k) lt unit = (
    C.mod_pow t k m,
    C.mod_pow_ℤ_pos t k m (omega (arith, lt)),
    ap (λ j. C.mod_pow t k m * j % m) (pow-zero t)
        ∙ ap (λ j. j % m) (mul-one (C.mod_pow t k m) ∙ C.mod_pow_lem t k m (omega (arith, lt)))
        ∙ Cong-mod m (t ^ k),
  )
  power-ok t m (negsuc k) lt unit =
      let (c, e, inverse) = C.mod_pow_ℤ_negsuc t k m lt unit in
      (c, e, inverse ∙ sym (ap (λ j. j % m) (pow-zero t) ∙ mod-eq_of_lt lt))

  module _ (priv : FacPrivate) (aux : PedersenParams) (sampled : FacSampled) (e : ℕ) where
    abbrev pub answer : FacProof
    answer = record {
      comm = commitments C priv aux sampled;
      sigma = sampled.sigma;
      z1 = e * priv.p + sampled.alpha;
      z2 = e * priv.q + sampled.beta;
      w1 = e * sampled.mu + sampled.x;
      w2 = e * sampled.nu + sampled.y;
      v = response_v priv sampled e;
    }

    pub product-honest :
        1 < aux.n
        → C.gcd aux.t aux.n ≡ 1
        → product_matches C answer (record { n = priv.p * priv.q; aux = aux }) e ≡ ok true
    unfolding product_matches commitments
    product-honest lt unit =
        let m = aux.n in
        let s = aux.s in
        let t = aux.t in
        let v = response_v priv sampled e in
        let u = neg_part v in
        let pos_m : 0 < m = omega (arith, lt) in
        let (c, raised, c_is) = power-ok t m v lt unit in
        let q0 = s ^ priv.q * t ^ sampled.nu in
        let r0 = s ^ (priv.p * priv.q) * t ^ sampled.sigma in
        let t0 = q0 ^ sampled.alpha * t ^ sampled.r in
        let z1 = e * priv.p + sampled.alpha in
        let big_q = Pedersen.commit C aux priv.q sampled.nu in
        let big_r =
          C.mod_multiply (C.mod_pow s (priv.p * priv.q) m ∷ C.mod_pow t sampled.sigma m ∷ []) m in
        let big_t =
          C.mod_multiply (C.mod_pow big_q sampled.alpha m ∷ C.mod_pow t sampled.r m ∷ []) m in
        let q_is : Cong m big_q q0 =
          ap (λ k. k % m)
            (unfold Pedersen.commit in multiply_powers C s priv.q t sampled.nu m pos_m)
          ∙ Cong-mod m q0 in
        let r_is : Cong m big_r r0 =
          ap (λ k. k % m) (multiply_powers C s (priv.p * priv.q) t sampled.sigma m pos_m)
          ∙ Cong-mod m r0 in
        let t_is : Cong m big_t t0 =
          ap (λ k. k % m) (multiply_powers C big_q sampled.alpha t sampled.r m pos_m)
          ∙ Cong-mod m (big_q ^ sampled.alpha * t ^ sampled.r)
          ∙ Cong-mul m (big_q ^ sampled.alpha) (q0 ^ sampled.alpha) (t ^ sampled.r) (t ^ sampled.r)
              (Cong-pow m big_q q0 sampled.alpha q_is) refl in
        let lhs : C.mod_multiply (C.mod_pow big_q z1 m ∷ c ∷ []) m ≡ q0 ^ z1 * c % m =
          power_times big_q q0 z1 c c m pos_m q_is refl in
        let rhs : C.mod_multiply (C.mod_pow big_r e m ∷ big_t ∷ []) m ≡ r0 ^ e * t0 % m =
          power_times big_r r0 e big_t t0 m pos_m r_is t_is in
        let both : Cong m (q0 ^ z1 * c * t ^ u) (r0 ^ e * t0 * t ^ u) =
          ap (λ k. k % m) (mul_assoc (q0 ^ z1) c (t ^ u))
          ∙ Cong-mul m (q0 ^ z1) (q0 ^ z1) (c * t ^ u) (t ^ pos_part v) refl c_is
          ∙ exponents m s t priv.p priv.q sampled.nu e sampled.alpha sampled.sigma sampled.r
              (pos_part v) u (response_v-parts priv sampled e) in
        let same : Cong m (q0 ^ z1 * c) (r0 ^ e * t0) =
          cancel m (q0 ^ z1 * c) (r0 ^ e * t0) (t ^ u) lt
            (IsUnit-pow m t u lt ((C.gcd_iff t m lt).0 unit)) both in
        rw
          (
            raised,
            lhs ∙ same ∙ sym rhs,
            ==_refl (C.mod_multiply (C.mod_pow big_r e m ∷ big_t ∷ []) m),
          )
          refl
      where
        power_times :
            (b b0 k a a0 m : ℕ)
            → 0 < m
            → Cong m b b0
            → Cong m a a0
            → C.mod_multiply (C.mod_pow b k m ∷ a ∷ []) m ≡ b0 ^ k * a0 % m
        power_times b b0 k a a0 m h same same' =
            multiply_two C (C.mod_pow b k m) a m h
            ∙ Cong-mul m (C.mod_pow b k m) (b0 ^ k) a a0
                (ap (λ j. j % m) (C.mod_pow_lem b k m h)
                  ∙ Cong-mod m (b ^ k)
                  ∙ Cong-pow m b b0 k same)
                same'
