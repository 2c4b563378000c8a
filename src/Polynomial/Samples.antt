-- ===== src/Polynomial/Samples.antt =====
-- The coefficients that the constructor of Polynomial makes.
use mathlib.Core.List.{append_assoc}
use threshold_sig_multiparty.Prelude.{
  ℕ, zero, suc, ◌+◌, ◌<◌, ◌≡◌, refl, ap, ◌∙◌, List, [], ◌∷◌, ◌++◌, length, arith,
}
use threshold_sig_multiparty.Prelude.Int.{pos, ◌-ℤ◌}
use threshold_sig_multiparty.Polynomial.{push_samples, create, degree}

-- Every coefficient is a scalar other than 0.
abbrev pub AreScalars : ℕ → List ℕ → Type 0
AreScalars n [] = Unit
AreScalars n (c ∷ cs) = (0 < c) × (c < n) × AreScalars n cs

-- sample i, …, sample (i + left - 1)
unfoldable pub samples : ℕ → ℕ → (ℕ → ℕ) → List ℕ
samples zero i sample = []
samples (suc left) i sample = sample i ∷ samples left (i + 1) sample

push_samples-append :
    (left i : ℕ) (sample : ℕ → ℕ) (cs : List ℕ)
    → push_samples left i sample cs ≡ cs ++ samples left i sample
unfolding push_samples samples
push_samples-append zero i sample cs = ground (arith, mathlib.Core.List.append-nil cs)
push_samples-append (suc left) i sample cs =
    push_samples-append left (i + 1) sample (cs ++ sample i ∷ [])
    ∙ append_assoc cs (sample i ∷ []) (samples left (i + 1) sample)

pub create-coefficients :
    (d c : ℕ) (sample : ℕ → ℕ) → (create d c sample).coefficients ≡ c ∷ samples d 1 sample
unfolding create
create-coefficients d c sample = push_samples-append d 1 sample (c ∷ [])

pub samples-AreScalars :
    (n left i : ℕ) (sample : ℕ → ℕ)
    → ((j : ℕ) → (0 < sample j) × (sample j < n))
    → AreScalars n (samples left i sample)
unfolding samples
samples-AreScalars n zero i sample h = tt
samples-AreScalars n (suc left) i sample h =
    ((h i).0, (h i).1, samples-AreScalars n left (i + 1) sample h)

pub length-samples : (left i : ℕ) (sample : ℕ → ℕ) → length (samples left i sample) ≡ left
unfolding samples
length-samples zero i sample = refl
length-samples (suc left) i sample = ap suc (length-samples left (i + 1) sample)

-- The constructor makes a polynomial of the degree that it is given.
pub degree-create : (d c : ℕ) (sample : ℕ → ℕ) → degree (create d c sample) ≡ pos d
unfolding degree ◌-ℤ◌
degree-create d c sample =
    ground (arith, ap length (create-coefficients d c sample), length-samples d 1 sample)
