-- ===== src/MessageQueue/Board/Counts.antt =====
-- The number of messages of a round, which decides when the round is complete.
use threshold_sig_multiparty.Prelude.{
  ℕ, ◌+◌, ◌≤◌, ◌≡◌, ◌↔◌, true, none, some, [], ◌∷◌, arith, inl, inr, Option-cases, length, all,
}
use threshold_sig_multiparty.Prelude.Eq.{nat_eq, string_eq}
use threshold_sig_multiparty.Prelude.Dict.{lookup}
use threshold_sig_multiparty.Prelude.Result.{ok}
use threshold_sig_multiparty.MessageQueue.Board.{
  Queue, QueueMap, is_some, present, get_round_values, count_from, get_round_messages_len,
}

module _ {T : Type 0} where
  count_from-length-present :
      (n : ℕ) (queue : Queue T) → count_from n queue ≡ n + length (present queue)
  unfolding count_from present
  count_from-length-present n [] = omega arith
  count_from-length-present n ((id, none) ∷ queue) = count_from-length-present n queue
  count_from-length-present n ((id, some v) ∷ queue) =
      omega (arith, count_from-length-present (n + 1) queue)

  length-present-le : (queue : Queue T) → length (present queue) ≤ length queue
  unfolding present
  length-present-le [] = omega arith
  length-present-le ((id, none) ∷ queue) = omega (arith, length-present-le queue)
  length-present-le ((id, some v) ∷ queue) = omega (arith, length-present-le queue)

  full_iff :
      (queue : Queue T)
      → (length (present queue) ≡ length queue) ↔ (all (λ p. is_some p.1) queue ≡ true)
  unfolding present
  full_iff [] = ground arith
  full_iff ((id, none) ∷ queue) = ground (arith, length-present-le queue)
  full_iff ((id, some v) ∷ queue) = ground (arith, full_iff queue)

  -- The count of a round is the number of the values that `getRoundValues` returns.
  pub messages_len-round_values :
      (r n : ℕ) (q : QueueMap T)
      → get_round_messages_len r q ≡ ok n
      → n ≡ length (get_round_values r q)
  unfolding get_round_messages_len get_round_values
  messages_len-round_values r n q h = elim (Option-cases (lookup r q)) [
    | inl e ↦ ground (arith, e)
    | inr (queue, e) ↦ ground (arith, e, count_from-length-present 0 queue)
  ]

  -- The count of a round never passes the number of its senders, and it reaches that number exactly
  -- when no sender's entry is `null`.
  pub messages_len_full :
      (r n : ℕ) (q : QueueMap T) (queue : Queue T)
      → lookup r q ≡ some queue
      → get_round_messages_len r q ≡ ok n
      → (n ≤ length queue) × ((n ≡ length queue) ↔ (all (λ p. is_some p.1) queue ≡ true))
  unfolding get_round_messages_len
  messages_len_full r n q queue e h =
      let same : n ≡ length (present queue) =
        ground (arith, e, count_from-length-present 0 queue) in
      rw same (length-present-le queue, full_iff queue)
