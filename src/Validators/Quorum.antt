-- ===== src/Validators/Quorum.antt =====
-- The threshold of the three vote counts of the ledger.
use threshold_sig_multiparty.Prelude.{
  ℕ, ◌+◌, ◌*◌, ◌≤◌, ◌<◌, Bool, ◌&&◌, List, [], ◌∷◌, length, count, arith,
}
use threshold_sig_multiparty.Validators.{quorum}

-- The quorum is the least whole number that is at least 67 hundredths of n; it is at most n, and at
-- least 1 for a network that is not empty.
pub quorum_bounds :
    (n : ℕ)
    → (67 * n ≤ 100 * quorum n)
      × (100 * quorum n < 67 * n + 100)
      × (quorum n ≤ n)
      × (0 < n → 0 < quorum n)
unfolding quorum
quorum_bounds n = (omega arith, omega arith, omega arith, omega arith)

module _ {ℓ} {A : Type ℓ} (p q : A → Bool) where
  count-both : (xs : List A) → count p xs + count q xs ≤ length xs + count (λ x. p x && q x) xs
  count-both [] = omega arith
  count-both (x ∷ xs) = ground (arith, count-both xs)

  -- Where there are members at all, two sets of them that both reach the quorum share more than a third
  -- of the members.
  pub quorum_intersection :
      (xs : List A)
      → 0 < length xs
      → quorum (length xs) ≤ count p xs
      → quorum (length xs) ≤ count q xs
      → length xs < 3 * count (λ x. p x && q x) xs
  unfolding quorum
  quorum_intersection xs pos_n hp hq = omega (arith, count-both xs)
