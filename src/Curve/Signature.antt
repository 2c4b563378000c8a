-- ===== src/Curve/Signature.antt =====
-- Which signatures verifySignature of src/mpc/math/curve.ts accepts.
use native.Mathlib.Nat.{mul_comm}
use threshold_sig_multiparty.Prelude.{
  ℕ, ◌+◌, ◌*◌, ◌%◌, ◌<◌, ◌≡◌, sym, ap, ◌∙◌, true, false, List, arith,
}
use threshold_sig_multiparty.Prelude.Eq.{◌==◌, nat_eq}
use threshold_sig_multiparty.Prelude.Result.{ok}
use threshold_sig_multiparty.Crypto.{Crypto, AffinePoint}
use threshold_sig_multiparty.Crypto.Group.{times-add, times-mul, times-mod, times-one}
use threshold_sig_multiparty.Fn
use threshold_sig_multiparty.Fn.Laws.{add_lem, mul_lem}
use threshold_sig_multiparty.Exponent.Horner.{multiply_valid}
use threshold_sig_multiparty.Curve.{scalar_from_hash, verify_signature}

module _ (C : Crypto) where
  open C use {order, base, times, to_affine, from_affine, equals, equals_iff}

  -- An inverse modulo the order undoes a multiple.
  times-inverse : (a b : ℕ) (p : C.Point) → a * b % order ≡ 1 % order → times a (times b p) ≡ p
  times-inverse a b p h =
      sym (times-mul C a b p)
      ∙ sym (times-mod C (a * b) p)
      ∙ ap (λ k. times k p) h
      ∙ times-mod C 1 p
      ∙ times-one C p

  -- The point that the verifier computes is (m + r x) times the base point.
  signed_point :
      (m r x : ℕ)
      → C.add (times m base) (times r (times x base)) ≡ times (Fn.add C m (Fn.mul C r x)) base
  signed_point m r x =
      ap (C.add (times m base)) (
        sym (times-mul C r x base)
        ∙ sym (times-mod C (r * x) base)
        ∙ ap (λ k. times k base) (sym (mul_lem C r x)))
      ∙ sym (times-add C m (Fn.mul C r x) base)
      ∙ sym (times-mod C (m + Fn.mul C r x) base)
      ∙ ap (λ k. times k base) (sym (add_lem C m (Fn.mul C r x)))

  recovered :
      (k k_inv s i w : ℕ)
      → k_inv * k % order ≡ 1 % order
      → s ≡ Fn.mul C k w
      → s * i % order ≡ 1 % order
      → times i (times w base) ≡ times k_inv base
  recovered k k_inv s i w hk hs hi =
      let q = times i (times w base) in
      let by_s : times k q ≡ times s (times i base) =
        ap (times k) (
          sym (times-mul C i w base) ∙ ap (λ j. times j base) (mul_comm i w) ∙ times-mul C w i base)
        ∙ sym (times-mul C k w (times i base))
        ∙ sym (times-mod C (k * w) (times i base))
        ∙ ap (λ j. times j (times i base)) (sym (mul_lem C k w) ∙ sym hs) in
      sym (times-inverse k_inv k q hk) ∙ ap (times k_inv) (by_s ∙ times-inverse s i base hi)

  -- For a secret key x and a nonce k with inverse k_inv, where the scalar m of the hash, the first
  -- coordinate r of the point of k_inv and s = k (m + r x) lie between 1 and order - 1, and `Fn.inv`
  -- returns an inverse of s below the order that is not 0: `verifySignature` accepts that point and
  -- s for the public key of x, without throwing.
  pub verify_signature-signed :
      (x k k_inv i s : ℕ) (hash : List ℕ) (sig_r key : AffinePoint)
      → sig_r ≡ to_affine (times k_inv base)
      → key ≡ to_affine (times x base)
      → s ≡ Fn.mul C k (Fn.add C (scalar_from_hash C hash) (Fn.mul C sig_r.x x))
      → k_inv * k % order ≡ 1 % order
      → 0 < scalar_from_hash C hash
      → scalar_from_hash C hash < order
      → 0 < sig_r.x
      → sig_r.x < order
      → 0 < s
      → Fn.inv C s ≡ ok i
      → 0 < i
      → i < order
      → verify_signature C sig_r s key hash ≡ ok true
  unfolding verify_signature
  verify_signature-signed x k k_inv i s hash sig_r key hr hx hs hk pm lm pr lr ps hi pi li =
      let m = scalar_from_hash C hash in
      let w = Fn.add C m (Fn.mul C sig_r.x x) in
      let inverse : s * i % order ≡ 1 % order = C.mod_inv_lem s order i (unfold Fn.inv in hi) in
      let r_ne : (sig_r.x == 0) ≡ false = ground arith in
      let s_ne : (s == 0) ≡ false = ground arith in
      let public : from_affine key ≡ times x base =
        ap from_affine hx ∙ C.from_to_affine (times x base) in
      let nonce : from_affine sig_r ≡ times k_inv base =
        ap from_affine hr ∙ C.from_to_affine (times k_inv base) in
      rw
        (
          r_ne,
          s_ne,
          hi,
          multiply_valid C base m pm lm,
          public,
          multiply_valid C (times x base) sig_r.x pr lr,
          signed_point m sig_r.x x,
          multiply_valid C (times w base) i pi li,
          nonce,
        )
        (ap ok (
          (equals_iff (times k_inv base) (times i (times w base))).1
            (sym (recovered k k_inv s i w hk hs inverse))))
