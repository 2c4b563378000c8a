-- ===== src/Signing/Products/Rows.antt =====
-- The loop over the other parties in process of src/mpc/signing/signRound3.ts, as a difference of two
-- sums.
use threshold_sig_multiparty.Prelude.{
  ℕ, ◌+◌, ◌≡◌, ap, ◌∙◌, String, false, List, [], ◌∷◌, some, arith, inl, inr, Bool-cases,
}
use threshold_sig_multiparty.Prelude.Eq.{◌==◌, string_eq}
use threshold_sig_multiparty.Prelude.Dict.{lookup}
use threshold_sig_multiparty.Prelude.Distinct.{All}
use threshold_sig_multiparty.Prelude.Int.{ℤ, pos, sub_ℕ, ◌+ℤ◌}
use threshold_sig_multiparty.Prelude.Result.{ok}
use threshold_sig_multiparty.Crypto.{Crypto}
use threshold_sig_multiparty.Signing.Round3.{other_party_ids, add_shares}
use threshold_sig_multiparty.Signing.Products.Matrix.{Holder, names, cell, off}

plus_alpha : (p n a : ℕ) → sub_ℕ p n +ℤ pos a ≡ sub_ℕ (p + a) n
unfolding ◌+ℤ◌
plus_alpha p n a = ground arith

plus_beta : (p n b : ℕ) → sub_ℕ p n +ℤ sub_ℕ 0 b ≡ sub_ℕ p (n + b)
unfolding ◌+ℤ◌
plus_beta p n b = ground arith

module _ (C : Crypto) (alphas betas : List (String × ℤ)) (self : String) (a b : Holder → ℕ) where
  -- What the party has stored about another one: its decrypted number and its own share.
  abbrev pub Stored : Holder → Type 0
  Stored q =
      (q.id == self) ≡ false
      → (lookup q.id alphas ≡ some (pos (a q))) × (lookup q.id betas ≡ some (sub_ℕ 0 (b q)))

  pub add_shares-off :
      (ps : List Holder) (p n : ℕ)
      → All Stored ps
      → add_shares C alphas betas (other_party_ids (names ps) self) (sub_ℕ p n)
        ≡ ok (sub_ℕ (p + off a self ps) (n + off b self ps))
  unfolding add_shares other_party_ids off
  add_shares-off [] p n stored =
      let z : (k : ℕ) → k ≡ k + 0 = λ k. omega arith in
      ap (λ k. ok (sub_ℕ k n)) (z p) ∙ ap (λ k. ok (sub_ℕ (p + 0) k)) (z n)
  add_shares-off (q ∷ ps) p n (here, stored) = elim (Bool-cases (q.id == self)) [
    | inl e ↦
        let z : (k : ℕ) → k ≡ 0 + k = λ k. omega arith in
        rw (e, cell)
          (add_shares-off ps p n stored
            ∙ ap (λ k. ok (sub_ℕ (p + k) (n + off b self ps))) (z (off a self ps))
            ∙ ap (λ k. ok (sub_ℕ (p + (0 + off a self ps)) (n + k))) (z (off b self ps)))
    | inr e ↦
        let (sa, sb) = here e in
        let step : sub_ℕ p n +ℤ pos (a q) +ℤ sub_ℕ 0 (b q) ≡ sub_ℕ (p + a q) (n + b q) =
          ap (λ z. z +ℤ sub_ℕ 0 (b q)) (plus_alpha p n (a q)) ∙ plus_beta (p + a q) n (b q) in
        let assoc : (x y z : ℕ) → x + y + z ≡ x + (y + z) = λ x y z. omega arith in
        rw (e, sa, sb, step, add_shares-off ps (p + a q) (n + b q) stored)
          (ap (λ k. ok (sub_ℕ k (n + b q + off b self ps))) (assoc p (a q) (off a self ps))
            ∙ ap (λ k. ok (sub_ℕ (p + (a q + off a self ps)) k)) (assoc n (b q) (off b self ps)))
  ]
