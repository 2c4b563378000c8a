-- ===== src/Signing/Delivery.antt =====
-- Rounds 4 and 5 of src/mpc/signing, until all the shares of the signature are stored.
use native.Mathlib.Nat.{mod-lt, mod-eq_of_lt, mul_comm}
use threshold_sig_multiparty.Prelude.{
  ℕ, zero, suc, ◌+◌, ◌*◌, ◌%◌, ◌<◌, ◌≡◌, refl, sym, ap, ◌∙◌, String, false, List, [], ◌∷◌, some,
  any, arith,
}
use threshold_sig_multiparty.Prelude.Eq.{◌==◌, nat_eq, string_eq}
use threshold_sig_multiparty.Prelude.Dict.{lookup, insert, lookup-insert, lookup-insert_self}
use threshold_sig_multiparty.Prelude.Distinct.{All, IsDistinct}
use threshold_sig_multiparty.Prelude.Modular.{Cong}
use threshold_sig_multiparty.Prelude.Result.{ok}
use threshold_sig_multiparty.Crypto.{Crypto}
use threshold_sig_multiparty.Crypto.Group.{times-mul, times-mod}
use threshold_sig_multiparty.Fn
use threshold_sig_multiparty.Exponent.Horner.{multiply_valid}
use threshold_sig_multiparty.Curve.{scalar_from_hash}
use threshold_sig_multiparty.Signing.{SignSession, InputForRound4, InputForRound5}
use threshold_sig_multiparty.Signing.Round4
use threshold_sig_multiparty.Signing.Round4.{SignerRound4, total_deltas}
use threshold_sig_multiparty.Signing.Round5
use threshold_sig_multiparty.Signing.Round5.{total_sigmas, SigmaShares, Signature}
use threshold_sig_multiparty.Signing.Run.{Signer, total, ids, input_of, share_all}
use threshold_sig_multiparty.Signing.Sums.{StoredDelta, total_deltas-total, share_of}

module _ (C : Crypto) where
  open C use {order, times, base, to_affine, from_affine}

  -- What has an inverse is not 0, and neither is the inverse.
  pub inv-pos : (a d : ℕ) → Fn.inv C a ≡ ok d → (0 < a) × (0 < d) × (d < order)
  unfolding Fn.inv
  inv-pos a d h =
      let e : a * d % order ≡ 1 % order = C.mod_inv_lem a order d h in
      let one : 1 % order ≡ 1 = mod-eq_of_lt C.one_lt_order in
      let f : a * d % order ≡ 1 = e ∙ one in
      (
        left a d f,
        left d a (ap (λ k. k % order) (mul_comm d a) ∙ f),
        C.mod_inv_bound a order d (omega (arith, C.one_lt_order)) h,
      )
    where
      left : (a d : ℕ) → a * d % order ≡ 1 → 0 < a
      left zero d f = omega (arith, f, C.one_lt_order)
      left (suc a) d f = omega arith

  -- The point R of a session: gamma times the inverse of delta.
  abbrev pub point_r : ℕ → ℕ → C.Point
  point_r g d = times d (times g base)

  abbrev pub output_of : InputForRound4 → ℕ → ℕ → ℕ → Signer → InputForRound5
  output_of input delta g d p = record {
    delta = delta;
    big_delta = to_affine (times delta base);
    big_r = to_affine (point_r g d);
    r = (to_affine (point_r g d)).x;
    input_for_round4 = input_of input p;
  }

  -- Where each party's round 4 returns the share f p, the handlers of round 5 have stored all of them.
  module _ (session : SignSession) (input : InputForRound4) (s : SignerRound4) (f : Signer → ℕ)
      (out : Signer → InputForRound5 × SignSession)
      (run : (p : Signer) → Round4.process C session (input_of input p) s ≡ ok (f p, out p)) where
    pub share_all-stored :
        (ps : List Signer) (shares : SigmaShares)
        → All (λ p. 0 < f p) ps
        → IsDistinct (ids ps)
        → (stored : SigmaShares) × (share_all C session input s ps shares ≡ ok stored)
          × All (λ p. lookup p.id stored ≡ some (f p)) ps
          × ((j : String) → any (λ y. y == j) (ids ps) ≡ false → lookup j stored ≡ lookup j shares)
    unfolding share_all Round5.handle_broadcast
    share_all-stored [] shares positive distinct = (shares, refl, tt, λ j h. refl)
    share_all-stored (p ∷ ps) shares (pos_p, positive) (fresh, distinct) =
        let next = insert p.id (f p) shares in
        let (stored, e, all, others) = share_all-stored ps next positive distinct in
        let nonzero : (f p == 0) ≡ false = ground (arith, pos_p) in
        (
          stored,
          rw (run p, nonzero) e,
          (others p.id fresh ∙ lookup-insert_self p.id (f p) shares, all),
          λ j absent. ground (arith, others j, lookup-insert p.id j (f p) shares, absent),
        )

  -- A session whose broadcasts of round 4 have arrived: gamma has the discrete logarithm g, and the
  -- shares of delta add up to k g, for the sum k of the shares of the nonce.
  module _ (session : SignSession) (input : InputForRound4) (s : SignerRound4) (ps : List Signer)
      (g d : ℕ) (parties : session.party_ids ≡ ids ps)
      (gamma : input.gamma ≡ to_affine (times g base))
      (stored : All (StoredDelta C s (times g base)) ps)
      (summed : Cong order (total (λ q. q.delta) ps) (total (λ q. q.k) ps * g))
      (inverse : Fn.inv C (total (λ q. q.k) ps * g % order) ≡ ok d) where
    pub process-share :
        (p : Signer)
        → Round4.process C session (input_of input p) s
          ≡ ok (
            share_of C (to_affine (point_r g d)).x (scalar_from_hash C input.message) p,
            (
              output_of input (total (λ q. q.k) ps * g % order) g d p,
              record session { current_round = 5 },
            ),
          )
    unfolding Round4.process
    process-share p =
        let k = total (λ q. q.k) ps in
        let delta = k * g % order in
        let point = times g base in
        let (d', e, cong, below) =
          total_deltas-total C s point ps 0 0 stored (omega (arith, C.one_lt_order)) in
        let (delta_pos, d_pos, d_lt) = inv-pos delta d inverse in
        let delta_lt : delta < order = mod-lt (k * g) (omega (arith, C.one_lt_order)) in
        let same : d' ≡ delta =
          sym (mod-eq_of_lt below) ∙ cong ∙ ap (λ y. y % order) (omega arith) ∙ summed in
        let summed_point : times (0 + k) point ≡ times delta base =
          ap (λ y. times y point) (omega arith)
          ∙ sym (times-mul C k g base)
          ∙ sym (times-mod C (k * g) base) in
        let loop : total_deltas C s session.party_ids 0 C.zero_point
            ≡ ok (delta, times delta base) =
          ap (λ l. total_deltas C s l 0 C.zero_point) parties
          ∙ ap (total_deltas C s (ids ps) 0) (sym (C.times_zero point))
          ∙ e
          ∙ ap (λ y. ok (y, times (0 + k) point)) same
          ∙ ap (λ q. ok (delta, q)) summed_point in
        let equal = (C.equals_iff (times delta base) (times delta base)).1 refl in
        let decoded : from_affine input.gamma ≡ point =
          ap from_affine gamma ∙ C.from_to_affine point in
        rw
          (
            loop,
            multiply_valid C base delta delta_pos delta_lt,
            equal,
            inverse,
            decoded,
            multiply_valid C point d d_pos d_lt,
          )
          refl
