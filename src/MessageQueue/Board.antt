-- ===== src/MessageQueue/Board.antt =====
-- The class MessageQueueMap of src/protocol/message/messageQueue.ts: at most one message for each
-- round and sender. `none` is `null`; `undefined` is a missing key.
pub mod Writes
pub mod Counts
pub mod Reset
use threshold_sig_multiparty.Prelude.{
  ℕ, zero, suc, ◌+◌, ◌-◌, String, ◌&&◌, Bool, true, false, Option, none, some, List, [], ◌∷◌,
  if◌then◌else◌, length,
}
use threshold_sig_multiparty.Prelude.Eq.{◌==◌, nat_eq, string_eq}
use threshold_sig_multiparty.Prelude.Dict.{lookup, insert, keys}
use threshold_sig_multiparty.Prelude.Result.{Result, ok, err}

abbrev pub Queue : Type 0 → Type 0
Queue T = List (String × Option T)

abbrev pub QueueMap : Type 0 → Type 0
QueueMap T = List (ℕ × Queue T)

abbrev pub is_some {ℓ} : {A : Type ℓ} → Option A → Bool
is_some none = false
is_some (some _) = true

module _ {T : Type 0} where
  -- `senders.forEach((id) => { queue[id] = null; })`
  unfoldable pub fill : List String → Queue T → Queue T
  unfolding insert
  fill [] queue = queue
  fill (id ∷ ids) queue = fill ids (insert id none queue)

  -- The loop over the rounds, with the number of rounds left.
  unfoldable pub fill_rounds : ℕ → ℕ → List String → QueueMap T → QueueMap T
  unfolding insert fill
  fill_rounds zero i senders q = q
  fill_rounds (suc left) i senders q =
      fill_rounds left (i + 1) senders (insert i (fill senders []) q)

  unfoldable pub initialize : List String → ℕ → QueueMap T
  unfolding fill_rounds
  initialize senders rounds = fill_rounds (rounds + 1) 0 senders []

  abbrev set_in : String → Option T → Queue T → Queue T
  set_in id value queue = elim (lookup id queue) [ none ↦ queue | some _ ↦ insert id value queue ]

  unfoldable pub set : ℕ → String → Option T → QueueMap T → QueueMap T
  unfolding lookup insert
  set round id value q = elim (lookup round q) [
    | none ↦ q
    | some queue ↦ insert round (set_in id value queue) q
  ]

  unfoldable pub get_in : String → Queue T → Option T
  unfolding lookup
  get_in id queue = elim (lookup id queue) [ none ↦ none | some v ↦ v ]

  unfoldable pub get : ℕ → String → QueueMap T → Option T
  unfolding lookup get_in
  get round id q = elim (lookup round q) [ none ↦ none | some queue ↦ get_in id queue ]

  -- `Object.values(queue).filter((item) => item !== null)`
  unfoldable pub present : Queue T → List T
  present [] = []
  present ((id, none) ∷ queue) = present queue
  present ((id, some v) ∷ queue) = v ∷ present queue

  unfoldable pub get_round_values : ℕ → QueueMap T → List T
  unfolding lookup present
  get_round_values round q = elim (lookup round q) [ none ↦ [] | some queue ↦ present queue ]

  -- `Object.keys(obj).reduce((count, key) => obj[key] !== null ? count + 1 : count, 0)`
  unfoldable pub count_from : ℕ → Queue T → ℕ
  count_from n [] = n
  count_from n ((id, v) ∷ queue) = count_from (if is_some v then n + 1 else n) queue

  -- `Object.keys(undefined)` throws.
  unfoldable pub get_round_messages_len : ℕ → QueueMap T → Result ℕ
  unfolding lookup count_from
  get_round_messages_len round q = elim (lookup round q) [
    | none ↦ err "Cannot convert undefined or null to object"
    | some queue ↦ ok (count_from 0 queue)
  ]

  unfoldable pub reset : QueueMap T → Result (QueueMap T)
  unfolding lookup initialize
  reset q = elim (lookup 0 q) [
    | none ↦ err "Cannot convert undefined or null to object"
    | some queue ↦ ok (initialize (keys queue) (length q - 1))
  ]

  -- A sequence of calls of `set`.
  unfoldable pub set_all : List (ℕ × String × Option T) → QueueMap T → QueueMap T
  unfolding set
  set_all [] q = q
  set_all ((round, id, value) ∷ ws) q = set_all ws (set round id value q)
