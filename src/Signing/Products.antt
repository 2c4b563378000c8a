-- ===== src/Signing/Products.antt =====
-- The sums of round 3 of src/mpc/signing over all parties.
pub mod Matrix
pub mod Rows
use native.Mathlib.Nat.{div-add-mod, mod-lt, suc-mul}
use threshold_sig_multiparty.Prelude.{
  ℕ, zero, suc, ◌+◌, ◌-◌, ◌*◌, ◌/◌, ◌%◌, ◌<◌, ◌≡◌, refl, sym, ap, ◌∙◌, String, Bool, true, false,
  not, List, [], ◌∷◌, some, map, if◌then◌else◌, leb, arith, inl, inr, Bool-cases,
}
use threshold_sig_multiparty.Prelude.Eq.{◌==◌, string_eq}
use threshold_sig_multiparty.Prelude.Dict.{lookup}
use threshold_sig_multiparty.Prelude.Distinct.{All, IsDistinct}
use threshold_sig_multiparty.Prelude.Int.{ℤ, pos, negsuc, sub_ℕ, ◌+ℤ◌}
use threshold_sig_multiparty.Prelude.Modular.{Cong, Cong-add, Cong-mod, Cong-multiple}
use threshold_sig_multiparty.Prelude.Result.{Result, ok}
use threshold_sig_multiparty.Crypto.{Crypto}
use threshold_sig_multiparty.Fn
use threshold_sig_multiparty.Fn.Laws.{residue_lem, residue-negsuc}
use threshold_sig_multiparty.Signing.Round3.{
  InputForRound3, SignerRound3, other_party_ids, add_shares, shares,
}
use threshold_sig_multiparty.Signing.{SignSession}
use threshold_sig_multiparty.Signing.Products.Matrix.{
  Holder, names, cell, off, sum_of, received, drawn, sum_of-received,
}
use threshold_sig_multiparty.Signing.Products.Rows.{Stored, add_shares-off}

All-map {ℓ κ} :
    {A : Type 0} {P : A → Type ℓ} {Q : A → Type κ}
    → ((x : A) → P x → Q x)
    → (xs : List A) → All P xs
    → All Q xs
All-map f [] h = tt
All-map f (x ∷ xs) (here, h) = (f x here, All-map f xs h)

peel : (m n x : ℕ) → 0 < m → x + n + (m - 1) * n ≡ x + m * n
peel zero n x h = absurd (omega (arith, h))
peel (suc k) n x h =
    let less : suc k - 1 ≡ k = omega arith in
    let more = suc-mul k n in ap (λ j. x + n + j * n) less ∙ omega (arith, more)

cancel : (m a b n : ℕ) → 0 < m → Cong m (a + n) (b + n) → Cong m a b
cancel m a b n pos_m h =
    let whole : (x : ℕ) → x + n + (m - 1) * n ≡ x + m * n = λ x. peel m n x pos_m in
    sym (Cong-multiple m a n)
    ∙ ap (λ k. k % m) (sym (whole a))
    ∙ Cong-add m (a + n) (b + n) ((m - 1) * n) ((m - 1) * n) h refl
    ∙ ap (λ k. k % m) (whole b)
    ∙ Cong-multiple m b n

start_at : (a : ℕ) → pos a ≡ sub_ℕ a 0
start_at a = ground arith

module _ (C : Crypto) where
  open C use {order, one_lt_order}

  residue-sub_ℕ : (p n : ℕ) → Cong order (Fn.residue C (sub_ℕ p n) + n) p
  residue-sub_ℕ p n = elim (Bool-cases (leb n p)) [
    | inl e ↦
        let whole : p - n + n ≡ p = ground (arith, e) in
        rw (e, residue_lem C (p - n))
          (Cong-add order ((p - n) % order) (p - n) n n (Cong-mod order (p - n)) refl
            ∙ ap (λ k. k % order) whole)
    | inr e ↦
        let t = n - p - 1 in
        let split : t ≡ order * (t / order) + t % order = sym (div-add-mod t order) in
        let below : t % order < order = mod-lt t (omega (arith, one_lt_order)) in
        let gap : n ≡ p + t + 1 = ground (arith, e) in
        let whole : order - 1 - t % order + n ≡ p + order * (t / order + 1) =
          omega (arith, split, below, gap) in
        rw (e, residue-negsuc C t)
          (ap (λ k. k % order) whole ∙ Cong-multiple order p (t / order + 1))
  ]

  -- The share of a party in round 3, from the sums over the other parties.
  abbrev pub value : (Holder → ℕ) → (Holder → Holder → ℕ) → List Holder → Holder → ℤ
  value f m ps p = sub_ℕ (received f m ps p) (drawn m ps p)

  add_shares-value :
      (alphas betas : List (String × ℤ)) (f : Holder → ℕ) (m : Holder → Holder → ℕ)
      (ps : List Holder) (p : Holder) (listed : List String) (self : String) (own k : ℕ)
      → listed ≡ names ps
      → self ≡ p.id
      → own ≡ f p
      → k ≡ p.k
      → All (Stored C alphas betas p.id (λ j. p.k * f j + m j p) (m p)) ps
      → add_shares C alphas betas (other_party_ids listed self) (pos (own * k))
        ≡ ok (value f m ps p)
  add_shares-value alphas betas f m ps p listed self own k hl hs ho hk stored =
      let start : pos (f p * p.k) ≡ sub_ℕ (f p * p.k) 0 = start_at (f p * p.k) in
      rw (hl, hs, ho, hk, start)
        (add_shares-off C alphas betas p.id (λ j. p.k * f j + m j p) (m p) ps (f p * p.k) 0 stored)

  residues :
      (f : Holder → ℕ) (m : Holder → Holder → ℕ) (ps qs : List Holder)
      → Cong order
          (sum_of (λ p. Fn.residue C (value f m ps p)) qs + sum_of (drawn m ps) qs)
          (sum_of (received f m ps) qs)
  unfolding sum_of
  residues f m ps [] = refl
  residues f m ps (p ∷ qs) =
      let d = Fn.residue C (value f m ps p) in
      let n = drawn m ps p in
      let ds = sum_of (λ q. Fn.residue C (value f m ps q)) qs in
      let ns = sum_of (drawn m ps) qs in
      let regroup : d + ds + (n + ns) ≡ d + n + (ds + ns) = omega arith in
      ap (λ k. k % order) regroup
      ∙ Cong-add order (d + n) (received f m ps p) (ds + ns) (sum_of (received f m ps) qs)
          (residue-sub_ℕ (received f m ps p) n) (residues f m ps qs)

  values-sum :
      (f : Holder → ℕ) (m : Holder → Holder → ℕ) (ps : List Holder)
      → IsDistinct (names ps)
      → Cong order
          (sum_of (λ p. Fn.residue C (value f m ps p)) ps)
          (sum_of (λ p. p.k) ps * sum_of f ps)
  values-sum f m ps distinct =
      cancel order (sum_of (λ p. Fn.residue C (value f m ps p)) ps)
        (sum_of (λ p. p.k) ps * sum_of f ps) (sum_of (drawn m ps) ps) (omega (arith, one_lt_order))
        (residues f m ps ps ∙ ap (λ k. k % order) (sum_of-received f m ps distinct))

module _ (C : Crypto) (ps : List Holder) (session : Holder → SignSession)
    (input : Holder → InputForRound3) (state : Holder → SignerRound3)
    (delta_mask chi_mask : Holder → Holder → ℕ) where
  open C use {order}

  -- What the earlier messages leave with a party: its own shares, for every other party the number
  -- that it has decrypted, a product and that party's mask, and minus the mask that it has drawn.
  pub record Prepared (p : Holder) : Type 0 where
    pub parties : (session p).party_ids ≡ names ps
    pub self : (session p).self_id ≡ p.id
    pub k_share : (input p).k_share ≡ p.k
    pub gamma_share : (input p).gamma_share ≡ p.g
    pub secret : (input p).secret_ecdsa ≡ p.x
    pub delta :
        All
          (Stored C
            (state p).delta_share_alpha
            (input p).delta_share_betas
            p.id
            (λ j. p.k * j.g + delta_mask j p)
            (delta_mask p))
          ps
    pub chi :
        All
          (Stored C
            (state p).chi_share_alpha
            (input p).chi_share_betas
            p.id
            (λ j. p.k * j.x + chi_mask j p)
            (chi_mask p))
          ps

  shares-value :
      (p : Holder)
      → Prepared p
      → shares C (session p) (input p) (state p)
        ≡ ok (value C (λ q. q.g) delta_mask ps p, value C (λ q. q.x) chi_mask ps p)
  unfolding shares
  shares-value p h =
      rw
        (
          add_shares-value C (state p).delta_share_alpha (input p).delta_share_betas (λ q. q.g)
              delta_mask ps p (session p).party_ids (session p).self_id (input p).gamma_share
              (input p).k_share h.parties h.self h.gamma_share h.k_share h.delta,
          add_shares-value C (state p).chi_share_alpha (input p).chi_share_betas (λ q. q.x) chi_mask
              ps p (session p).party_ids (session p).self_id (input p).secret_ecdsa
              (input p).k_share h.parties h.self h.secret h.k_share h.chi,
        )
        refl

  -- Where every party of distinct names holds its own shares k, g and x, for each other party the
  -- number that it has decrypted (k times that party's g or x, plus that party's mask), and minus the
  -- mask that it has drawn for that party: round 3 adds up the shares of delta and chi without
  -- throwing, and modulo the order those of delta add up to the product of the sums of the parties'
  -- k and g, and those of chi to the product of the sums of k and x.
  pub shares-products :
      IsDistinct (names ps)
      → All Prepared ps
      → (delta : Holder → ℤ) × (chi : Holder → ℤ) × All
          (λ p. shares C (session p) (input p) (state p) ≡ ok (delta p, chi p))
          ps
        × Cong order
            (sum_of (λ p. Fn.residue C (delta p)) ps)
            (sum_of (λ p. p.k) ps * sum_of (λ p. p.g) ps)
        × Cong order
            (sum_of (λ p. Fn.residue C (chi p)) ps)
            (sum_of (λ p. p.k) ps * sum_of (λ p. p.x) ps)
  shares-products distinct prepared = (
    value C (λ q. q.g) delta_mask ps,
    value C (λ q. q.x) chi_mask ps,
    All-map shares-value ps prepared,
    values-sum C (λ q. q.g) delta_mask ps distinct,
    values-sum C (λ q. q.x) chi_mask ps distinct,
  )
