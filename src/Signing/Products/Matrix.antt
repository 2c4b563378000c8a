-- ===== src/Signing/Products/Matrix.antt =====
-- Sums over the pairs of different parties.
use threshold_sig_multiparty.Prelude.{
  ℕ, ◌+◌, ◌*◌, ◌≡◌, refl, ap, ◌∙◌, String, false, List, [], ◌∷◌, map, any, if◌then◌else◌, arith,
  inl, inr, Bool-cases,
}
use threshold_sig_multiparty.Prelude.Eq.{◌==◌, string_eq, ==_refl}
use threshold_sig_multiparty.Prelude.Distinct.{All, IsDistinct}

-- A party with its shares of the nonce, of gamma and of the key.
pub record Holder : Type 0 where
  pub id : String
  pub k : ℕ
  pub g : ℕ
  pub x : ℕ

abbrev pub names : List Holder → List String
names = map (λ p. p.id)

unfoldable pub sum_of : (Holder → ℕ) → List Holder → ℕ
sum_of f [] = 0
sum_of f (p ∷ ps) = f p + sum_of f ps

-- What a party counts for in a sum over the others.
abbrev pub cell : (Holder → ℕ) → String → Holder → ℕ
cell f self p = if p.id == self then 0 else f p

unfoldable pub off : (Holder → ℕ) → String → List Holder → ℕ
off f self [] = 0
off f self (p ∷ ps) = cell f self p + off f self ps

pub sum_of-add :
    (f h : Holder → ℕ) (ps : List Holder) → sum_of (λ p. f p + h p) ps ≡ sum_of f ps + sum_of h ps
unfolding sum_of
sum_of-add f h [] = refl
sum_of-add f h (p ∷ ps) = omega (arith, sum_of-add f h ps)

sum_of-cong :
    (f h : Holder → ℕ) (ps : List Holder) → ((p : Holder) → f p ≡ h p) → sum_of f ps ≡ sum_of h ps
unfolding sum_of
sum_of-cong f h [] same = refl
sum_of-cong f h (p ∷ ps) same = omega (arith, same p, sum_of-cong f h ps same)

pub off-add :
    (f h : Holder → ℕ) (self : String) (ps : List Holder)
    → off (λ p. f p + h p) self ps ≡ off f self ps + off h self ps
unfolding off
off-add f h self [] = refl
off-add f h self (p ∷ ps) = ground (arith, off-add f h self ps)

sum_of-zero : (ps : List Holder) → sum_of (λ p. 0) ps ≡ 0
unfolding sum_of
sum_of-zero [] = refl
sum_of-zero (p ∷ ps) = omega (arith, sum_of-zero ps)

-- The sum over all pairs is the same by rows and by columns.
row :
    (m : Holder → Holder → ℕ) (j : Holder) (qs : List Holder)
    → sum_of (λ p. cell (λ i. m i p) p.id j) qs ≡ off (λ p. m j p) j.id qs
unfolding sum_of off
row m j [] = refl
row m j (p ∷ qs) =
    ground (arith, row m j qs, string_eq.beq_iff p.id j.id, string_eq.beq_iff j.id p.id)

pub off-swap :
    (m : Holder → Holder → ℕ) (qs ps : List Holder)
    → sum_of (λ p. off (λ j. m j p) p.id ps) qs ≡ sum_of (λ j. off (λ p. m j p) j.id qs) ps
unfolding off sum_of
off-swap m qs [] = sum_of-zero qs
off-swap m qs (j ∷ ps) =
    sum_of-add (λ p. cell (λ i. m i p) p.id j) (λ p. off (λ i. m i p) p.id ps) qs
    ∙ ap (λ k. k + sum_of (λ p. off (λ i. m i p) p.id ps) qs) (row m j qs)
    ∙ ap (λ k. off (λ p. m j p) j.id qs + k) (off-swap m qs ps)

absent-off :
    (f : Holder → ℕ) (self : String) (ps : List Holder)
    → any (λ y. y == self) (names ps) ≡ false
    → off f self ps ≡ sum_of f ps
unfolding off sum_of
absent-off f self [] absent = refl
absent-off f self (p ∷ ps) absent = ground (arith, absent, absent-off f self ps)

-- With its own summand a party has the sum over all.
abbrev IsComplete : (Holder → ℕ) → List Holder → Holder → Type 0
IsComplete f ps p = f p + off f p.id ps ≡ sum_of f ps

-- A further party, whose name is another, completes the others' sums.
IsComplete-more :
    (f : Holder → ℕ) (p : Holder) (ps qs : List Holder)
    → any (λ y. y == p.id) (names qs) ≡ false
    → All (IsComplete f ps) qs
    → All (IsComplete f (p ∷ ps)) qs
unfolding off sum_of
IsComplete-more f p ps [] absent h = tt
IsComplete-more f p ps (q ∷ qs) absent (here, h) =
    let other : (p.id == q.id) ≡ false =
      ground (arith, absent, string_eq.beq_iff p.id q.id, string_eq.beq_iff q.id p.id) in
    (rw (other, cell) (omega (arith, here)), IsComplete-more f p ps qs (ground (arith, absent)) h)

complete : (f : Holder → ℕ) (ps : List Holder) → IsDistinct (names ps) → All (IsComplete f ps) ps
unfolding off sum_of
complete f [] distinct = tt
complete f (p ∷ ps) (absent, distinct) = (
  rw (==_refl p.id, cell) (omega (arith, absent-off f p.id ps absent)),
  IsComplete-more f p ps ps absent (complete f ps distinct),
)

off-mul :
    (c : ℕ) (f : Holder → ℕ) (self : String) (ps : List Holder)
    → off (λ p. c * f p) self ps ≡ c * off f self ps
unfolding off
off-mul c f self [] = omega arith
off-mul c f self (p ∷ ps) = elim (Bool-cases (p.id == self)) [
  | inl e ↦ rw (e, cell, off-mul c f self ps) (omega arith)
  | inr e ↦ rw (e, cell, off-mul c f self ps) (omega arith)
]

products :
    (f h : Holder → ℕ) (ps qs : List Holder)
    → All (IsComplete f ps) qs
    → sum_of (λ p. f p * h p + off (λ j. h p * f j) p.id ps) qs ≡ sum_of h qs * sum_of f ps
unfolding sum_of
products f h ps [] all = omega arith
products f h ps (p ∷ qs) (here, all) =
    let o = off f p.id ps in
    let t = sum_of f ps in
    let factored : f p * h p + h p * o ≡ h p * (f p + o) = omega arith in
    let distributed : h p * t + sum_of h qs * t ≡ (h p + sum_of h qs) * t = omega arith in
    ap (λ k. f p * h p + k + sum_of (λ q. f q * h q + off (λ j. h q * f j) q.id ps) qs)
      (off-mul (h p) f p.id ps)
    ∙ ap (λ k. f p * h p + h p * o + k) (products f h ps qs all)
    ∙ ap (λ k. k + sum_of h qs * t) (factored ∙ ap (λ k. h p * k) here)
    ∙ distributed

-- What a party adds up: its own product, and from each other party a masked product.
abbrev pub received : (Holder → ℕ) → (Holder → Holder → ℕ) → List Holder → Holder → ℕ
received f m ps p = f p * p.k + off (λ j. p.k * f j + m j p) p.id ps

-- The masks that it has drawn for the others.
abbrev pub drawn : (Holder → Holder → ℕ) → List Holder → Holder → ℕ
drawn m ps p = 0 + off (λ j. m p j) p.id ps

pub sum_of-received :
    (f : Holder → ℕ) (m : Holder → Holder → ℕ) (ps : List Holder)
    → IsDistinct (names ps)
    → sum_of (received f m ps) ps ≡ sum_of (λ p. p.k) ps * sum_of f ps + sum_of (drawn m ps) ps
sum_of-received f m ps distinct =
    sum_of-cong (received f m ps)
      (λ p. f p * p.k + off (λ j. p.k * f j) p.id ps + off (λ j. m j p) p.id ps) ps
      (λ p. let split = off-add (λ j. p.k * f j) (λ j. m j p) p.id ps in omega (arith, split))
    ∙ sum_of-add (λ p. f p * p.k + off (λ j. p.k * f j) p.id ps) (λ p. off (λ j. m j p) p.id ps) ps
    ∙ ap (λ k. k + sum_of (λ p. off (λ j. m j p) p.id ps) ps)
        (products f (λ p. p.k) ps ps (complete f ps distinct))
    ∙ ap (λ k. sum_of (λ p. p.k) ps * sum_of f ps + k)
        (off-swap m ps ps
          ∙ sum_of-cong (λ j. off (λ p. m j p) j.id ps) (drawn m ps) ps (λ p. omega arith))
