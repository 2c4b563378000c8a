-- ===== src/Signing/Combination.antt =====
-- The signature that the last rounds of src/mpc/signing compute.
use native.Mathlib.Nat.{mod-eq_of_lt}
use threshold_sig_multiparty.Prelude.{
  ℕ, ◌+◌, ◌*◌, ◌%◌, ◌<◌, ◌≡◌, refl, sym, ap, ◌∙◌, true, List, [], arith,
}
use threshold_sig_multiparty.Prelude.Eq.{nat_eq, string_eq}
use threshold_sig_multiparty.Prelude.Distinct.{All, IsDistinct}
use threshold_sig_multiparty.Prelude.Modular.{Cong, Cong-mul, Cong-add, Cong-mod}
use threshold_sig_multiparty.Prelude.Result.{ok}
use threshold_sig_multiparty.Crypto.{Crypto}
use threshold_sig_multiparty.Crypto.Group.{times-mul}
use threshold_sig_multiparty.Fn
use threshold_sig_multiparty.Fn.Laws.{add_lem, mul_lem}
use threshold_sig_multiparty.Curve.{scalar_from_hash, verify_signature}
use threshold_sig_multiparty.Curve.Signature.{verify_signature-signed}
use threshold_sig_multiparty.Signing.{SignSession, InputForRound4, InputForRound5}
use threshold_sig_multiparty.Signing.Round4.{SignerRound4}
use threshold_sig_multiparty.Signing.Round5
use threshold_sig_multiparty.Signing.Round5.{total_sigmas, SigmaShares, Signature}
use threshold_sig_multiparty.Signing.Run.{Signer, total, ids, sign}
use threshold_sig_multiparty.Signing.Sums.{StoredDelta, total_sigmas-total, share_of, share-total}
use threshold_sig_multiparty.Signing.Delivery.{
  inv-pos, point_r, output_of, share_all-stored, process-share,
}

module _ (C : Crypto) where
  -- The ECDSA signature of the scalar m under the key x, with a nonce k and its inverse w.
  abbrev pub ecdsa : ℕ → ℕ → ℕ → ℕ → Signature
  ecdsa w k m x =
      let r = C.to_affine (C.times w C.base) in record { r = r; s = k * (m + r.x * x) % C.order }

  open C use {order, times, base, to_affine}

  signed : (k m r x : ℕ) → Fn.mul C k (Fn.add C m (Fn.mul C r x)) ≡ k * (m + r * x) % order
  signed k m r x =
      mul_lem C k (Fn.add C m (Fn.mul C r x))
      ∙ Cong-mul order k k (Fn.add C m (Fn.mul C r x)) (m + r * x) refl (
          ap (λ y. y % order) (add_lem C m (Fn.mul C r x))
          ∙ Cong-mod order _
          ∙ Cong-add order m m (Fn.mul C r x) (r * x) refl
              (ap (λ y. y % order) (mul_lem C r x) ∙ Cong-mod order (r * x)))

  process-verified :
      (session : SignSession) (input : InputForRound5) (shares : SigmaShares) (sigma : ℕ)
      → total_sigmas C shares session.party_ids 0 ≡ ok sigma
      → verify_signature C input.big_r sigma input.input_for_round4.public_key
          input.input_for_round4.message
        ≡ ok true
      → Round5.process C session input shares ≡ ok (record { r = input.big_r; s = sigma })
  unfolding Round5.process
  process-verified session input shares sigma e verified = rw (e, verified) refl

  -- A session whose broadcasts of round 4 have arrived: gamma has the discrete logarithm g, and the
  -- shares of delta add up to k g, for the sum k of the shares of the nonce.
  module _ (session : SignSession) (input : InputForRound4) (s : SignerRound4) (ps : List Signer)
      (g d : ℕ) (parties : session.party_ids ≡ ids ps)
      (gamma : input.gamma ≡ to_affine (times g base))
      (stored : All (StoredDelta C s (times g base)) ps)
      (summed : Cong order (total (λ q. q.delta) ps) (total (λ q. q.k) ps * g))
      (inverse : Fn.inv C (total (λ q. q.k) ps * g % order) ≡ ok d) where
    -- For parties with distinct names whose broadcasts of round 4 are stored, where the shares of
    -- delta add up to k g and those of chi to k x, for the sum k of the shares of the nonce, the
    -- discrete logarithm g of gamma and the key x of the public key; where the hash and the
    -- first coordinate of R are scalars between 1 and order - 1, no share of the signature is 0, and
    -- `Fn.inv` returns for k g and for the second part of the signature: the parties' rounds 4 and
    -- the round 5 of any of them return, without throwing, the ECDSA signature of the hash under the
    -- key x with the nonce whose inverse w is, and `verifySignature` accepts it.
    pub sign-ecdsa :
        (x i : ℕ) (me : Signer)
        → input.public_key ≡ to_affine (times x base)
        → Cong order (total (λ p. p.chi) ps) (total (λ p. p.k) ps * x)
        → 0 < scalar_from_hash C input.message
        → scalar_from_hash C input.message < order
        → 0 < (to_affine (times (d * g) base)).x
        → (to_affine (times (d * g) base)).x < order
        → All
            (λ p.
              0
              < share_of C (to_affine (times (d * g) base)).x (scalar_from_hash C input.message) p)
            ps
        → IsDistinct (ids ps)
        → Fn.inv C (ecdsa (d * g) (total (λ p. p.k) ps) (scalar_from_hash C input.message) x).s
          ≡ ok i
        → (w : ℕ) × (w * total (λ p. p.k) ps % order ≡ 1 % order)
          × (sign C session input s ps me
              ≡ ok (ecdsa w (total (λ p. p.k) ps) (scalar_from_hash C input.message) x))
          × (verify_signature C
                (to_affine (times w base))
                (ecdsa w (total (λ p. p.k) ps) (scalar_from_hash C input.message) x).s
                input.public_key
                input.message
              ≡ ok true)
    unfolding sign
    sign-ecdsa x i me public keyed m_pos m_lt r_pos r_lt positive distinct inverse_s =
        let k = total (λ p. p.k) ps in
        let m = scalar_from_hash C input.message in
        let w = d * g in
        let sig = ecdsa w k m x in
        let r = sig.r.x in
        let shared_by =
          process-share C session input s ps g d parties gamma stored summed inverse in
        let split : point_r C g d ≡ times w base = sym (times-mul C d g base) in
        let (stored_s, shared, all, others) =
          share_all-stored C session input s (share_of C r m)
            (λ p. (output_of C input (k * g % order) g d p, record session { current_round = 5 }))
            (λ p.
              shared_by p
              ∙ ap
                  (λ q. ok (
                    share_of C (to_affine q).x m p,
                    (output_of C input (k * g % order) g d p, record session { current_round = 5 }),
                  ))
                  split)
            ps [] positive distinct in
        let (sigma, summed_s, cong, below) =
          total_sigmas-total C stored_s (share_of C r m) ps 0 all (omega (arith, C.one_lt_order)) in
        let value : sigma ≡ sig.s =
          sym (mod-eq_of_lt below)
          ∙ cong
          ∙ ap (λ y. y % order) (omega arith)
          ∙ share-total C r m x ps keyed in
        let added : total_sigmas C stored_s session.party_ids 0 ≡ ok sig.s =
          ap (λ l. total_sigmas C stored_s l 0) parties ∙ summed_s ∙ ap ok value in
        let inverted : w * k % order ≡ 1 % order =
          let regroup : w * k ≡ k * g * d = omega arith in
          ap (λ y. y % order) regroup
          ∙ Cong-mul order (k * g) (k * g % order) d d (sym (Cong-mod order (k * g))) refl
          ∙ C.mod_inv_lem (k * g % order) order d (unfold Fn.inv in inverse) in
        let product : sig.s ≡ Fn.mul C k (Fn.add C m (Fn.mul C r x)) = sym (signed k m r x) in
        let (s_pos, i_pos, i_lt) = inv-pos C sig.s i inverse_s in
        let accepted : verify_signature C sig.r sig.s input.public_key input.message ≡ ok true =
          verify_signature-signed C x k w i sig.s input.message sig.r input.public_key refl public
            product inverted m_pos m_lt r_pos r_lt s_pos inverse_s i_pos i_lt in
        (
          w,
          inverted,
          rw
              (
                shared,
                shared_by me,
                split,
                process-verified (record session { current_round = 5 })
                    (record (output_of C input (k * g % order) g d me) { big_r = sig.r; r = r })
                    stored_s sig.s added accepted,
              )
              refl,
          accepted,
        )
