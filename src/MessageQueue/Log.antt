-- ===== src/MessageQueue/Log.antt =====
-- The class MessageQueueArray of src/protocol/message/messageQueue.ts: the messages of a round in
-- the order of their arrival. An entry is `none` where the program stores `null` or `undefined`.
pub mod History
use threshold_sig_multiparty.Prelude.{
  ℕ, zero, suc, ◌+◌, ◌-◌, ◌<◌, ◌≤◌, ◌≡◌, refl, ◌∙◌, ap, Bool, true, false, Option, none, some, List,
  [], ◌∷◌, ◌++◌, if◌then◌else◌, length, get_elem?, arith,
}
use threshold_sig_multiparty.Prelude.Eq.{◌==◌, nat_eq, ==_refl}
use threshold_sig_multiparty.Prelude.Dict.{lookup, insert, lookup-insert}

abbrev pub LogMap : Type 0 → Type 0
LogMap T = List (ℕ × List (Option T))

module _ {T : Type 0} where
  unfoldable pub fill_rounds : ℕ → ℕ → LogMap T → LogMap T
  unfolding insert
  fill_rounds zero i q = q
  fill_rounds (suc left) i q = fill_rounds left (i + 1) (insert i [] q)

  unfoldable pub initialize : ℕ → LogMap T
  unfolding fill_rounds
  initialize rounds = fill_rounds (rounds + 1) 0 []

  unfoldable pub set : ℕ → Option T → LogMap T → LogMap T
  unfolding lookup insert
  set round value q = elim (lookup round q) [
    | none ↦ q
    | some log ↦ insert round (log ++ value ∷ []) q
  ]

  unfoldable pub get_round_values : ℕ → LogMap T → List (Option T)
  unfolding lookup
  get_round_values round q = elim (lookup round q) [ none ↦ [] | some log ↦ log ]

  -- An index past the end and an entry without a value are both `none`.
  unfoldable pub get : ℕ → ℕ → LogMap T → Option T
  unfolding get_round_values
  get round index q = elim (get_elem? (get_round_values round q) index) [ none ↦ none | some v ↦ v ]

  unfoldable pub messages_length : List (Option T) → ℕ
  messages_length [] = 0
  messages_length (none ∷ log) = messages_length log
  messages_length (some v ∷ log) = suc (messages_length log)

  unfoldable pub get_non_null_values_length : ℕ → LogMap T → ℕ
  unfolding lookup messages_length
  get_non_null_values_length round q = elim (lookup round q) [
    | none ↦ 0
    | some log ↦ messages_length log
  ]

  unfoldable pub reset : LogMap T → LogMap T
  unfolding initialize
  reset q = initialize (length q - 1)

  -- A sequence of calls of `set`.
  unfoldable pub set_all : List (ℕ × Option T) → LogMap T → LogMap T
  unfolding set
  set_all [] q = q
  set_all ((round, value) ∷ ws) q = set_all ws (set round value q)
