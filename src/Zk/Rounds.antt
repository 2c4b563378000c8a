-- ===== src/Zk/Rounds.antt =====
-- What src/mpc/zk/prm.ts and src/mpc/zk/mod.ts share: proofs in STAT_PARAM rounds, over arrays whose
-- entries past the end are missing.
use threshold_sig_multiparty.Prelude.{
  ℕ, zero, suc, ◌+◌, Bool, false, Option, none, some, List, [], ◌∷◌,
}

-- STAT_PARAM of src/mpc/math/sample.ts.
abbrev pub stat_param : ℕ
stat_param = 80

module _ {ℓ} {A : Type ℓ} where
  abbrev pub head? : List A → Option A
  head? [] = none
  head? (x ∷ xs) = some x

  abbrev pub tail : List A → List A
  tail [] = []
  tail (x ∷ xs) = xs

module _ {ℓ} {A : Type ℓ} where
  abbrev pub drop : ℕ → List A → List A
  drop zero xs = xs
  drop (suc k) [] = []
  drop (suc k) (x ∷ xs) = drop k xs

-- An entry that is missing counts as false.
abbrev pub head_bit : List Bool → Bool
head_bit [] = false
head_bit (e ∷ es) = e

-- What a loop that draws a number in each round collects.
unfoldable pub draw_list : (ℕ → ℕ) → ℕ → ℕ → List ℕ
draw_list draws i zero = []
draw_list draws i (suc left) = draws i ∷ draw_list draws (i + 1) left
