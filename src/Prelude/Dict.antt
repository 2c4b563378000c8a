-- ===== src/Prelude/Dict.antt =====
-- A JavaScript object used as a map: an association list with each key once, in the order of
-- creation. (The engine enumerates keys that look like integers in ascending order instead; no
-- theorem depends on the order of the keys.)
use threshold_sig_multiparty.Prelude.Tests.{if◌then◌else◌}
use threshold_sig_multiparty.Prelude.Eq.{Eq, ◌==◌, ==_refl}
use mathlib.Core.Path.{◌≡◌, refl}
use mathlib.Core.List.{List, [], ◌∷◌, ◌++◌, map}
use Prim.Native.Nat.{◌+◌}
use threshold_sig_multiparty.Prelude.Lists.{length}
use mathlib.Core.Option.{Option, none, some}
use native.Mathlib.Omega.{arith}

module _ {ℓ} {K : Type 0} ⦃e : Eq K⦄ {V : Type ℓ} where
  -- `obj[k]`, `none` for `undefined`
  unfoldable pub lookup : K → List (K × V) → Option V
  lookup key [] = none
  lookup key ((first, value) ∷ entries) = if first == key then some value else lookup key entries

  -- `obj[k] = v`
  unfoldable pub insert : K → V → List (K × V) → List (K × V)
  insert key value [] = (key, value) ∷ []
  insert key value ((first, old) ∷ entries) =
      if first == key then (first, value) ∷ entries else (first, old) ∷ insert key value entries

  pub lookup-insert :
      (key j : K) (value : V) (entries : List (K × V))
      → lookup j (insert key value entries) ≡ (if key == j then some value else lookup j entries)
  unfolding lookup insert
  lookup-insert key j value [] = refl
  lookup-insert key j value ((i, old) ∷ entries) =
      let inner = lookup-insert key j value entries in
      ground (arith, inner, e.beq_iff i j, e.beq_iff i key, e.beq_iff key j)

  pub lookup-insert_self : (k : K) (v : V) (m : List (K × V)) → lookup k (insert k v m) ≡ some v
  lookup-insert_self k v m = ground (arith, lookup-insert k k v m, ==_refl k)

  -- The keys, as `Object.keys` gives them.
  abbrev pub keys : List (K × V) → List K
  keys = map (λ p. p.0)

  -- Writing a key that is there keeps the keys.
  pub keys-insert :
      (k : K) (v w : V) (m : List (K × V)) → lookup k m ≡ some w → keys (insert k v m) ≡ keys m
  unfolding lookup insert
  keys-insert k v w [] h = cc
  keys-insert k v w ((j, u) ∷ m) h = ground (arith, keys-insert k v w m)

  pub insert_new :
      (k : K) (v : V) (m : List (K × V)) → lookup k m ≡ none → insert k v m ≡ m ++ (k, v) ∷ []
  unfolding lookup insert
  insert_new k v [] h = refl
  insert_new k v ((j, w) ∷ m) h = ground (arith, insert_new k v m)

  pub length-insert_new :
      (k : K) (v : V) (m : List (K × V)) → lookup k m ≡ none → length (insert k v m) ≡ length m + 1
  unfolding lookup insert
  length-insert_new k v [] h = omega arith
  length-insert_new k v ((j, w) ∷ m) h = ground (arith, length-insert_new k v m)

  pub length-insert_old :
      (k : K) (v w : V) (m : List (K × V)) → lookup k m ≡ some w → length (insert k v m) ≡ length m
  unfolding lookup insert
  length-insert_old k v w [] h = cc
  length-insert_old k v w ((j, u) ∷ m) h = ground (arith, length-insert_old k v w m)
