-- ===== src/Pools/Vouching.antt =====
-- No public key is counted twice in a list of a message pool.
use threshold_sig_multiparty.Prelude.{
  ◌≡◌, refl, String, List, [], ◌∷◌, ◌++◌, none, map, inl, inr, Option-cases, arith, find, subst,
  sym,
}
use mathlib.Core.List.{map-append}
use threshold_sig_multiparty.Prelude.Eq.{string_eq, ◌==◌}
use threshold_sig_multiparty.Prelude.Dict.{lookup, insert}
use threshold_sig_multiparty.Prelude.Distinct.{
  IsDistinct, All, All-insert, All-lookup, IsDistinct-append_one, find-none-any,
}
use threshold_sig_multiparty.Prelude.Result.{ok}
use threshold_sig_multiparty.Platform.{Wallet}
use threshold_sig_multiparty.Ledger.{Vouch}
use threshold_sig_multiparty.Pools.{Vouches, own_message, existing_message, add_prepare, add_commit}

abbrev pub Once : List Vouch → Type 0
Once vs = IsDistinct (map (λ v. v.public_key) vs)

-- Every list of the pool counts each public key once.
abbrev pub AllOnce : Vouches → Type 0
AllOnce list = All (λ p. Once p.1) list

Once-append :
    (v : Vouch) (vs : List Vouch)
    → Once vs
    → find (λ p. p.public_key == v.public_key) vs ≡ none
    → Once (vs ++ v ∷ [])
Once-append v vs o new =
    subst IsDistinct (sym (map-append (λ (p : Vouch). p.public_key) vs (v ∷ []))) (
      IsDistinct-append_one v.public_key _ o
        (find-none-any (λ p. p.public_key) v.public_key vs new))

pub own_message-AllOnce :
    (h : String) (w : Wallet) (list : Vouches) → AllOnce list → AllOnce (own_message h w list).0
unfolding own_message
own_message-AllOnce h w list a = All-insert Once h _ list a (refl, tt)

pub add_prepare-AllOnce :
    (v : Vouch) (list : Vouches)
    → AllOnce list
    → existing_message v list ≡ none
    → AllOnce (add_prepare v list)
unfolding add_prepare existing_message
add_prepare-AllOnce v list a new = elim (Option-cases (lookup v.block_hash list)) [
  | inl e ↦ rw (e, add_prepare) a
  | inr (vs, e) ↦
      let n : find (λ p. p.public_key == v.public_key) vs ≡ none = ground (arith, e) in
      rw (e, add_prepare)
        (All-insert Once v.block_hash (vs ++ v ∷ []) list a
          (Once-append v vs (All-lookup Once v.block_hash vs list a e) n))
]

pub add_commit-AllOnce :
    (v : Vouch) (list list' : Vouches)
    → AllOnce list
    → existing_message v list ≡ none
    → add_commit v list ≡ ok list'
    → AllOnce list'
unfolding add_commit existing_message
add_commit-AllOnce v list list' a new h = elim (Option-cases (lookup v.block_hash list)) [
  | inl e ↦ absurd (ground (arith, e))
  | inr (vs, e) ↦
      let n : find (λ p. p.public_key == v.public_key) vs ≡ none = ground (arith, e) in
      let same : insert v.block_hash (vs ++ v ∷ []) list ≡ list' = ground (arith, e) in
      subst AllOnce same (
        All-insert Once v.block_hash (vs ++ v ∷ []) list a
          (Once-append v vs (All-lookup Once v.block_hash vs list a e) n))
]
