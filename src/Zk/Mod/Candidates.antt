-- ===== src/Zk/Mod/Candidates.antt =====
-- zkModMakeQuadraticResidue of src/mpc/zk/mod.ts: one of the four candidates is a quadratic residue
-- modulo both primes, and the bits say which.
use native.Mathlib.Nat.{
  mod-lt, mod-eq_of_lt, sub-add_cancel, le_of_lt, mod_self, add-mul, add_assoc, zero-add, add-zero,
  zero-mul,
}
use threshold_sig_multiparty.Prelude.{
  ℕ, ◌+◌, ◌-◌, ◌*◌, ◌/◌, ◌%◌, ◌<◌, ◌≡◌, refl, sym, ap, ◌∙◌, [], ◌∷◌, Bool, true, false, not, ◌&&◌,
  if◌then◌else◌, arith,
}
use threshold_sig_multiparty.Prelude.Eq.{nat_eq}
use threshold_sig_multiparty.Prelude.Modular.{Cong, Cong-mul, Cong-add, Cong-mod}
use threshold_sig_multiparty.Crypto.{Crypto}
use threshold_sig_multiparty.Pedersen.Opening.{multiply_two}
use threshold_sig_multiparty.Zk.Mod.{MadeResidue, is_qr_mod_pq, make_quadratic_residue}
use threshold_sig_multiparty.Zk.Mod.Symbols.{
  HasSymbol, same, HasSymbol-Cong, HasSymbol-opposite, HasSymbol-mul, HasSymbol-test,
}
use threshold_sig_multiparty.Zk.Mod.Residues.{Cong-left, Cong-right}

negate-zero : (C : Crypto) (y n : ℕ) → 0 < n → (C.mod_negate y n + y) % n ≡ 0
negate-zero C y n h =
    ap (λ k. (k + y) % n) (C.mod_negate_lem y n h)
    ∙ Cong-add n ((n - y % n) % n) (n - y % n) y (y % n) (Cong-mod n (n - y % n))
        (sym (Cong-mod n y))
    ∙ ap (λ k. k % n) (sub-add_cancel (le_of_lt (mod-lt y h)))
    ∙ mod_self n

-- The choice between four candidates by the symbols t and u of the first one.
abbrev choose : Bool → Bool → Bool → ℕ → ℕ → ℕ → ℕ → MadeResidue
choose t u s y1 y2 y3 y4 =
    if t && u
    then record { a = false; b = false; out = y1 }
    else if not t && not u
    then record { a = true; b = false; out = y2 }
    else if same (not t) s && same (not u) (not s)
    then record { a = true; b = true; out = y3 }
    else record { a = false; b = true; out = y4 }

choose-lem :
    (P : ℕ → Bool → Bool → Type 0) (Q : Bool → Bool → ℕ → Type 0) (t u s : Bool) (y1 y2 y3 y4 : ℕ)
    → P y1 t u
    → P y2 (not t) (not u)
    → P y3 (same (not t) s) (same (not u) (not s))
    → P y4 (not (same (not t) s)) (not (same (not u) (not s)))
    → Q false false y1
    → Q true false y2
    → Q true true y3
    → Q false true y4
    → let made = choose t u s y1 y2 y3 y4 in P made.out true true × Q made.a made.b made.out
choose-lem P Q true true s y1 y2 y3 y4 p1 p2 p3 p4 q1 q2 q3 q4 = (p1, q1)
choose-lem P Q true false true y1 y2 y3 y4 p1 p2 p3 p4 q1 q2 q3 q4 = (p4, q4)
choose-lem P Q true false false y1 y2 y3 y4 p1 p2 p3 p4 q1 q2 q3 q4 = (p3, q3)
choose-lem P Q false true true y1 y2 y3 y4 p1 p2 p3 p4 q1 q2 q3 q4 = (p3, q3)
choose-lem P Q false true false y1 y2 y3 y4 p1 p2 p3 p4 q1 q2 q3 q4 = (p4, q4)
choose-lem P Q false false s y1 y2 y3 y4 p1 p2 p3 p4 q1 q2 q3 q4 = (p2, q2)

-- What verifyResponse compares the fourth power with.
abbrev pub expected : Crypto → Bool → Bool → ℕ → ℕ → ℕ → ℕ
expected C a b y w n =
    let negated = if a then C.mod_negate y n else y in
    if b then C.mod_multiply (negated ∷ w ∷ []) n else negated

module _ (C : Crypto) (p q c d : ℕ) (p_is : p ≡ 4 * c + 3) (q_is : q ≡ 4 * d + 3) (y w : ℕ)
    (small : y < p * q) (s : Bool) (w_p : HasSymbol p w s) (w_q : HasSymbol q w (not s)) where
  n_pos : 0 < p * q
  n_pos = omega (arith, small)

  abbrev negated : ℕ
  negated = C.mod_negate y (p * q)

  abbrev multiplied : ℕ
  multiplied = C.mod_multiply (negated ∷ w ∷ []) (p * q)

  abbrev Symbols : ℕ → Bool → Bool → Type 0
  Symbols x t u = HasSymbol p x t × HasSymbol q x u

  Symbols-Cong : (x z : ℕ) (t u : Bool) → Cong (p * q) x z → Symbols x t u → Symbols z t u
  Symbols-Cong x z t u h (at_p, at_q) = (
    HasSymbol-Cong p c p_is x z t (Cong-left p q x z h) at_p,
    HasSymbol-Cong q d q_is x z u (Cong-right p q x z h) at_q,
  )

  Symbols-negate :
      (x : ℕ) (t u : Bool) → Symbols x t u → Symbols (C.mod_negate x (p * q)) (not t) (not u)
  Symbols-negate x t u (at_p, at_q) =
      let z = C.mod_negate x (p * q) in
      let sum : Cong (p * q) (z + x) 0 = negate-zero C x (p * q) n_pos ∙ sym (mod-eq_of_lt n_pos) in
      (
        HasSymbol-opposite p c p_is x z t
            (Cong-left p q (z + x) 0 sum ∙ mod-eq_of_lt (omega (arith, p_is))) at_p,
        HasSymbol-opposite q d q_is x z u
            (Cong-right p q (z + x) 0 sum ∙ mod-eq_of_lt (omega (arith, q_is))) at_q,
      )

  Symbols-multiply :
      (x : ℕ) (t u : Bool)
      → Symbols x t u
      → Symbols (C.mod_multiply (x ∷ w ∷ []) (p * q)) (same t s) (same u (not s))
  Symbols-multiply x t u (at_p, at_q) =
      Symbols-Cong (x * w) (C.mod_multiply (x ∷ w ∷ []) (p * q)) (same t s) (same u (not s))
        (sym (Cong-mod (p * q) (x * w))
          ∙ ap (λ k. k % (p * q)) (sym (multiply_two C x w (p * q) n_pos)))
        (HasSymbol-mul p c p_is x w t s at_p w_p, HasSymbol-mul q d q_is x w u (not s) at_q w_q)

  test : (x : ℕ) (t u : Bool) → Symbols x t u → is_qr_mod_pq C x (p / 2) (q / 2) p q ≡ (t && u)
  unfolding is_qr_mod_pq
  test x t u (at_p, at_q) =
      rw (HasSymbol-test p c p_is C x t at_p, HasSymbol-test q d q_is C x u at_q) refl

  -- The last candidate is y w.
  last : C.mod_negate multiplied (p * q) ≡ C.mod_multiply (y ∷ w ∷ []) (p * q)
  last =
      let n = p * q in
      let u = multiplied in
      let v = C.mod_negate u n in
      let v_lt : v < n = rw (C.mod_negate_lem u n n_pos) (mod-lt (n - u % n) n_pos) in
      let zero_n : 0 % n ≡ 0 = mod-eq_of_lt n_pos in
      let sum : Cong n (u + y * w) 0 =
        Cong-add n u (negated * w) (y * w) (y * w)
          (ap (λ k. k % n) (multiply_two C negated w n n_pos) ∙ Cong-mod n (negated * w)) refl
        ∙ ap (λ k. k % n) (sym (add-mul negated y w))
        ∙ Cong-mul n (negated + y) 0 w w (negate-zero C y n n_pos ∙ sym zero_n) refl
        ∙ ap (λ k. k % n) (zero-mul w) in
      sym (mod-eq_of_lt v_lt)
      ∙ ap (λ k. k % n) (sym (add-zero v))
      ∙ Cong-add n v v 0 (u + y * w) refl (sym sum)
      ∙ ap (λ k. k % n) (sym (add_assoc v u (y * w)))
      ∙ Cong-add n (v + u) 0 (y * w) (y * w) (negate-zero C u n n_pos ∙ sym zero_n) refl
      ∙ ap (λ k. k % n) (zero-add (y * w))
      ∙ sym (multiply_two C y w n n_pos)

  negate-lt : (x : ℕ) → C.mod_negate x (p * q) < p * q
  negate-lt x = rw (C.mod_negate_lem x (p * q) n_pos) (mod-lt (p * q - x % (p * q)) n_pos)

  multiply-lt : (x : ℕ) → C.mod_multiply (x ∷ w ∷ []) (p * q) < p * q
  multiply-lt x = rw (multiply_two C x w (p * q) n_pos) (mod-lt (x * w) n_pos)

  -- The candidate that zkModMakeQuadraticResidue takes is a quadratic residue modulo both primes, and
  -- the one that verifyResponse expects for its bits.
  pub make-expected :
      (t u : Bool)
      → Symbols y t u
      → let made = make_quadratic_residue C y w (p / 2) (q / 2) (p * q) p q in
        Symbols made.out true true
        × ((made.out ≡ expected C made.a made.b y w (p * q)) × (made.out < p * q))
  unfolding make_quadratic_residue
  make-expected t u symbols =
      let n = p * q in
      let second = Symbols-negate y t u symbols in
      let third = Symbols-multiply negated (not t) (not u) second in
      let fourth = Symbols-negate multiplied (same (not t) s) (same (not u) (not s)) third in
      let own : y % n ≡ y = mod-eq_of_lt small in
      rw
        (
          own,
          test y t u symbols,
          test negated (not t) (not u) second,
          test multiplied (same (not t) s) (same (not u) (not s)) third,
        )
        (choose-lem Symbols (λ a b x. (x ≡ expected C a b y w n) × (x < n)) t u s y negated
          multiplied (C.mod_negate multiplied n) symbols second third fourth (refl, small)
          (refl, negate-lt y) (refl, multiply-lt negated) (last, negate-lt multiplied))
