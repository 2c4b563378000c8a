-- ===== src/Prelude/Result.antt =====
-- A call that returns or throws. The text of an error is kept where the program's callers can see it.
use Prim.Native.String.{String}
use mathlib.Core.Path.{◌≡◌, refl}
use mathlib.Core.Logic.{◌⊎◌, inl, inr}
use mathlib.Core.Bool.{Bool, true, false}

pub data Result {ℓ} (A : Type ℓ) : Type ℓ where
  ok : A → Result A
  err : String → Result A

infixl 5 ◌>>=◌ ◌>>◌
-- A statement that throws ends the function.
abbrev pub ◌>>=◌ {κ ℓ} : {T : Type κ} → {U : Type ℓ} → Result T → (T → Result U) → Result U
(ok value) >>= next = next value
(err text) >>= next = err text

-- `if (test) throw new Error(e)` where `test` fails.
abbrev pub require : Bool → String → Result (Unit {0})
require true e = ok tt
require false e = err e

abbrev pub ◌>>◌ {κ} : {T : Type κ} → Result (Unit {0}) → Result T → Result T
check >> rest = check >>= λ done. rest

-- A statement of a chain that ends well has ended well itself.
pub >>=-eq-ok {κ ℓ} :
    {T : Type κ} {U : Type ℓ} (r : Result T) (next : T → Result U) {u : U}
    → (r >>= next) ≡ ok u
    → (value : T) × (r ≡ ok value) × (next value ≡ ok u)
>>=-eq-ok (ok value) next e = (value, refl, e)
>>=-eq-ok (err text) next e = cc

pub Result-cases {ℓ} :
    {A : Type ℓ} (m : Result A) → ((a : A) × (m ≡ ok a)) ⊎ ((e : String) × (m ≡ err e))
Result-cases (ok a) = inl (a, refl)
Result-cases (err e) = inr (e, refl)

-- The three ways that a chain of guards ends: passed, refused, and an exception.
pub Guard-cases :
    (m : Result Bool) → (m ≡ ok true) ⊎ ((m ≡ ok false) ⊎ ((e : String) × (m ≡ err e)))
Guard-cases (ok true) = inl refl
Guard-cases (ok false) = inr (inl refl)
Guard-cases (err e) = inr (inr (e, refl))
