-- ===== src/Prelude/Distinct.antt =====
-- Lists without repetition, and predicates on all entries.
use mathlib.Core.Path.{◌≡◌, refl}
use mathlib.Core.Bool.{false, ◌||◌}
use mathlib.Core.List.{List, [], ◌∷◌, ◌++◌, map}
use mathlib.Core.Option.{none, some}
use native.Mathlib.Omega.{arith}
use threshold_sig_multiparty.Prelude.Lists.{any, find}
use threshold_sig_multiparty.Prelude.Eq.{◌==◌, string_eq}
use threshold_sig_multiparty.Prelude.Dict.{lookup, insert, keys}
use Prim.Native.String.{String}

-- No text stands in the list twice.
abbrev pub IsDistinct : List String → Type 0
IsDistinct [] = Unit
IsDistinct (x ∷ xs) = (any (λ y. y == x) xs ≡ false) × IsDistinct xs

abbrev pub All {ℓ κ} : {A : Type ℓ} → (A → Type κ) → List A → Type κ
All P [] = Unit
All P (x ∷ xs) = P x × All P xs

pub any-append_one :
    (x y : String) (xs : List String)
    → any (λ z. z == x) xs ≡ false
    → (y == x) ≡ false
    → any (λ z. z == x) (xs ++ y ∷ []) ≡ false
any-append_one x y [] h e = ground arith
any-append_one x y (z ∷ xs) h e = ground (arith, any-append_one x y xs)

pub IsDistinct-append_one :
    (x : String) (xs : List String)
    → IsDistinct xs
    → any (λ z. z == x) xs ≡ false
    → IsDistinct (xs ++ x ∷ [])
IsDistinct-append_one x [] d h = (refl, tt)
IsDistinct-append_one x (y ∷ xs) d h = (
  any-append_one y x xs d.0 (ground (arith, string_eq.beq_iff x y, string_eq.beq_iff y x)),
  IsDistinct-append_one x xs d.1 (ground arith),
)

module _ {ℓ κ} {V : Type ℓ} (P : V → Type κ) where
  pub All-insert :
      (k : String) (v : V) (m : List (String × V))
      → All (λ p. P p.1) m
      → P v
      → All (λ p. P p.1) (insert k v m)
  unfolding insert
  All-insert k v [] a h = (h, tt)
  All-insert k v ((j, w) ∷ m) a h = ground (arith, All-insert k v m a.1 h)

  pub All-lookup :
      (k : String) (v : V) (m : List (String × V)) → All (λ p. P p.1) m → lookup k m ≡ some v → P v
  unfolding lookup
  All-lookup k v [] a e = cc
  All-lookup k v ((j, w) ∷ m) a e = ground (arith, All-lookup k v m a.1)

pub find-none-any {ℓ} :
    {A : Type ℓ} (f : A → String) (x : String) (xs : List A)
    → find (λ p. f p == x) xs ≡ none
    → any (λ z. z == x) (map f xs) ≡ false
find-none-any f x [] h = refl
find-none-any f x (y ∷ xs) h = ground (arith, find-none-any f x xs)

module _ {ℓ} {V : Type ℓ} where
  any-keys-insert :
      (x k : String) (v : V) (m : List (String × V))
      → any (λ y. y == x) (keys (insert k v m)) ≡ (any (λ y. y == x) (keys m) || (k == x))
  unfolding insert
  any-keys-insert x k v [] = ground arith
  any-keys-insert x k v ((j, w) ∷ m) =
      ground (arith, any-keys-insert x k v m, string_eq.beq_iff j k)

  pub keys-insert-IsDistinct :
      (k : String) (v : V) (m : List (String × V))
      → IsDistinct (keys m)
      → IsDistinct (keys (insert k v m))
  unfolding insert
  keys-insert-IsDistinct k v [] d = (refl, tt)
  keys-insert-IsDistinct k v ((j, w) ∷ m) d = ground (
    arith,
    keys-insert-IsDistinct k v m d.1,
    any-keys-insert j k v m,
    string_eq.beq_iff j k,
    string_eq.beq_iff k j,
  )

  pub lookup-fresh :
      (k : String) (m : List (String × V)) → any (λ y. y == k) (keys m) ≡ false → lookup k m ≡ none
  unfolding lookup
  lookup-fresh k [] h = refl
  lookup-fresh k ((j, w) ∷ m) h = ground (arith, lookup-fresh k m)
