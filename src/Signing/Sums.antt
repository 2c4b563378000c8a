-- ===== src/Signing/Sums.antt =====
-- The sums that process of src/mpc/signing/signRound4.ts and signRound5.ts compute.
use threshold_sig_multiparty.Prelude.{
  ℕ, ◌+◌, ◌*◌, ◌%◌, ◌<◌, ◌≡◌, refl, sym, ap, ◌∙◌, List, [], ◌∷◌, some, arith,
}
use threshold_sig_multiparty.Prelude.Eq.{string_eq}
use threshold_sig_multiparty.Prelude.Dict.{lookup}
use threshold_sig_multiparty.Prelude.Distinct.{All}
use threshold_sig_multiparty.Prelude.Modular.{Cong, Cong-add, Cong-mod, Cong-mul}
use threshold_sig_multiparty.Prelude.Result.{ok}
use threshold_sig_multiparty.Crypto.{Crypto}
use threshold_sig_multiparty.Crypto.Group.{times-add}
use threshold_sig_multiparty.Fn
use threshold_sig_multiparty.Fn.Laws.{add_lem, add-lt, mul_lem}
use threshold_sig_multiparty.Signing.Round4.{SignerRound4, total_deltas}
use threshold_sig_multiparty.Signing.Round5.{SigmaShares, total_sigmas}
use threshold_sig_multiparty.Signing.Run.{Signer, total, ids}

module _ (C : Crypto) where
  open C use {order, times, Point, to_affine}

  step : (a x t d : ℕ) → Cong order d (Fn.add C a x + t) → Cong order d (a + (x + t))
  step a x t d cong =
      let regroup : a + x + t ≡ a + (x + t) = omega arith in
      cong
      ∙ Cong-add order (Fn.add C a x) (a + x) t t
          (ap (λ y. y % order) (add_lem C a x) ∙ Cong-mod order (a + x)) refl
      ∙ ap (λ y. y % order) regroup

  -- What round 4 has stored about the party p, where the points are multiples of gamma.
  abbrev pub StoredDelta : SignerRound4 → Point → Signer → Type 0
  StoredDelta s gamma p =
      (lookup p.id s.delta_shares ≡ some p.delta)
      × (lookup p.id s.big_delta_shares ≡ some (to_affine (times p.k gamma)))

  pub total_deltas-total :
      (s : SignerRound4) (gamma : Point) (ps : List Signer) (a b : ℕ)
      → All (StoredDelta s gamma) ps
      → a < order
      → (d : ℕ) × (total_deltas C s (ids ps) a (times b gamma)
          ≡ ok (d, times (b + total (λ p. p.k) ps) gamma))
        × Cong order d (a + total (λ p. p.delta) ps)
        × (d < order)
  unfolding total_deltas total
  total_deltas-total s gamma [] a b stored lt =
      let none : b + 0 ≡ b = omega arith in
      (a, ap (λ k. ok (a, times k gamma)) (sym none), ap (λ x. x % order) (omega arith), lt)
  total_deltas-total s gamma (p ∷ ps) a b ((sd, sp), stored) lt =
      let (d, e, cong, below) =
        total_deltas-total s gamma ps (Fn.add C a p.delta) (b + p.k) stored (add-lt C a p.delta) in
      let here : C.add (times b gamma) (C.from_affine (to_affine (times p.k gamma)))
          ≡ times (b + p.k) gamma =
        ap (C.add (times b gamma)) (C.from_to_affine (times p.k gamma))
        ∙ sym (times-add C b p.k gamma) in
      let all : b + p.k + total (λ q. q.k) ps ≡ b + (p.k + total (λ q. q.k) ps) = omega arith in
      (
        d,
        rw (sd, sp, here) (e ∙ ap (λ k. ok (d, times k gamma)) all),
        step a p.delta (total (λ q. q.delta) ps) d cong,
        below,
      )

  pub total_sigmas-total :
      (shares : SigmaShares) (f : Signer → ℕ) (ps : List Signer) (a : ℕ)
      → All (λ p. lookup p.id shares ≡ some (f p)) ps
      → a < order
      → (d : ℕ) × (total_sigmas C shares (ids ps) a ≡ ok d)
        × Cong order d (a + total f ps)
        × (d < order)
  unfolding total_sigmas total
  total_sigmas-total shares f [] a stored lt = (a, refl, ap (λ x. x % order) (omega arith), lt)
  total_sigmas-total shares f (p ∷ ps) a (sp, stored) lt =
      let (d, e, cong, below) =
        total_sigmas-total shares f ps (Fn.add C a (f p)) stored (add-lt C a (f p)) in
      (d, rw sp e, step a (f p) (total f ps) d cong, below)

  -- The share of the signature that round 4 computes.
  abbrev pub share_of : ℕ → ℕ → Signer → ℕ
  share_of r m p = Fn.add C (Fn.mul C r p.chi) (Fn.mul C m p.k)

  share_of-Cong : (r m : ℕ) (p : Signer) → Cong order (share_of r m p) (r * p.chi + m * p.k)
  share_of-Cong r m p =
      ap (λ x. x % order) (add_lem C (Fn.mul C r p.chi) (Fn.mul C m p.k))
      ∙ Cong-mod order _
      ∙ Cong-add order (Fn.mul C r p.chi) (r * p.chi) (Fn.mul C m p.k) (m * p.k) (reduced r p.chi)
          (reduced m p.k)
    where
      reduced : (a b : ℕ) → Cong order (Fn.mul C a b) (a * b)
      reduced a b = ap (λ x. x % order) (mul_lem C a b) ∙ Cong-mod order (a * b)

  share_of-total :
      (r m : ℕ) (ps : List Signer)
      → Cong order (total (share_of r m) ps) (r * total (λ p. p.chi) ps + m * total (λ p. p.k) ps)
  unfolding total
  share_of-total r m [] = ap (λ y. y % order) (omega arith)
  share_of-total r m (p ∷ ps) =
      let chi = total (λ q. q.chi) ps in
      let k = total (λ q. q.k) ps in
      let regroup : r * p.chi + m * p.k + (r * chi + m * k) ≡ r * (p.chi + chi) + m * (p.k + k) =
        omega arith in
      Cong-add order (share_of r m p) (r * p.chi + m * p.k) (total (share_of r m) ps)
        (r * chi + m * k) (share_of-Cong r m p) (share_of-total r m ps)
      ∙ ap (λ y. y % order) regroup

  -- Where the shares of k times the key add up to it, those of the signature add up to k (m + r x).
  pub share-total :
      (r m x : ℕ) (ps : List Signer)
      → Cong order (total (λ p. p.chi) ps) (total (λ p. p.k) ps * x)
      → Cong order (total (share_of r m) ps) (total (λ p. p.k) ps * (m + r * x))
  share-total r m x ps keyed =
      let k = total (λ p. p.k) ps in
      let regroup : r * (k * x) + m * k ≡ k * (m + r * x) = omega arith in
      share_of-total r m ps
      ∙ Cong-add order (r * total (λ p. p.chi) ps) (r * (k * x)) (m * k) (m * k)
          (Cong-mul order r r (total (λ p. p.chi) ps) (k * x) refl keyed) refl
      ∙ ap (λ y. y % order) regroup
