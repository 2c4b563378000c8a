-- ===== src/MessageQueue/Log/History.antt =====
-- MessageQueueArray against the history of its `set` calls.
use mathlib.Core.List.{append_assoc, append-nil}
use threshold_sig_multiparty.Prelude.{
  ℕ, zero, suc, ◌+◌, ◌≡◌, ◌∙◌, ap, ◌&&◌, Option, none, some, List, [], ◌∷◌, ◌++◌, if◌then◌else◌,
  leb, arith, inl, inr, Option-cases,
}
use threshold_sig_multiparty.Prelude.Eq.{◌==◌, nat_eq, ==_sound}
use threshold_sig_multiparty.Prelude.Dict.{lookup, insert, lookup-insert}
use threshold_sig_multiparty.MessageQueue.Log.{
  LogMap, fill_rounds, initialize, set, get_round_values, messages_length,
  get_non_null_values_length, set_all,
}

module _ {T : Type 0} where
  -- The values written for a round, oldest first.
  unfoldable pub history : ℕ → List (ℕ × Option T) → List (Option T)
  history r [] = []
  history r ((r', v) ∷ ws) = if r' == r then v ∷ history r ws else history r ws

  lookup-set :
      (r r' : ℕ) (v : Option T) (q : LogMap T) (log : List (Option T))
      → lookup r q ≡ some log
      → lookup r (set r' v q) ≡ some (log ++ (if r' == r then v ∷ [] else []))
  unfolding set
  lookup-set r r' v q log h = elim (Option-cases (lookup r' q)) [
    | inl e ↦ ground (arith, e, append-nil log, ==_sound r' r)
    | inr (log', e) ↦
        ground (arith, e, append-nil log, ==_sound r' r, lookup-insert r' r (log' ++ v ∷ []) q)
  ]

  lookup-set_all :
      (r : ℕ) (ws : List (ℕ × Option T)) (q : LogMap T) (log : List (Option T))
      → lookup r q ≡ some log
      → lookup r (set_all ws q) ≡ some (log ++ history r ws)
  unfolding set_all history
  lookup-set_all r [] q log h = rw append-nil h
  lookup-set_all r ((r', v) ∷ ws) q log h =
      lookup-set_all r ws (set r' v q) _ (lookup-set r r' v q log h)
      ∙ ap some (append_assoc log (if r' == r then v ∷ [] else []) (history r ws) ∙ ground arith)

  lookup-set_missing :
      (r r' : ℕ) (v : Option T) (q : LogMap T) → lookup r q ≡ none → lookup r (set r' v q) ≡ none
  unfolding set
  lookup-set_missing r r' v q h = elim (Option-cases (lookup r' q)) [
    | inl e ↦ ground (arith, e)
    | inr (log', e) ↦ ground (arith, e, ==_sound r' r, lookup-insert r' r (log' ++ v ∷ []) q)
  ]

  lookup-set_all_missing :
      (r : ℕ) (ws : List (ℕ × Option T)) (q : LogMap T)
      → lookup r q ≡ none
      → lookup r (set_all ws q) ≡ none
  unfolding set_all
  lookup-set_all_missing r [] q h = h
  lookup-set_all_missing r ((r', v) ∷ ws) q h =
      lookup-set_all_missing r ws (set r' v q) (lookup-set_missing r r' v q h)

  lookup-fill_rounds :
      (r left i : ℕ) (q : LogMap T)
      → lookup r (fill_rounds left i q)
        ≡ (if leb i r && leb (r + 1) (i + left) then some [] else lookup r q)
  unfolding fill_rounds
  lookup-fill_rounds r zero i q = ground arith
  lookup-fill_rounds r (suc left) i q =
      ground (arith, lookup-fill_rounds r left (i + 1) (insert i [] q), lookup-insert i r [] q)

  pub lookup-initialize :
      (r rounds : ℕ)
      → lookup r (initialize {T = T} rounds) ≡ (if leb r rounds then some [] else none)
  unfolding initialize lookup
  lookup-initialize r rounds = ground (arith, lookup-fill_rounds r (rounds + 1) 0 [])

  -- After any sequence of `set` calls on fresh logs, a round up to `rounds` holds exactly the values
  -- written for it, in their order, and every other round is empty; the count of a round is that of
  -- its values that are not null.
  pub round_values-set_all :
      (r rounds : ℕ) (ws : List (ℕ × Option T))
      → (get_round_values r (set_all ws (initialize rounds))
          ≡ (if leb r rounds then history r ws else []))
        × (get_non_null_values_length r (set_all ws (initialize rounds))
            ≡ (if leb r rounds then messages_length (history r ws) else 0))
  unfolding get_round_values get_non_null_values_length
  round_values-set_all r rounds ws = ground (
    arith,
    lookup-initialize r rounds,
    lookup-set_all r ws (initialize rounds) [],
    lookup-set_all_missing r ws (initialize rounds),
  )
