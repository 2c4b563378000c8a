-- ===== src/Consensus.antt =====
-- src/consensus/consesnsus.ts: the ledger of one node and its handlers for the messages of a round.
-- A handler returns the node after the call, and the text of the error that it throws, if it does:
-- what was done before the exception stays done.
pub mod Election
pub mod Reach
pub mod Commits
pub mod Counting
pub mod Proposals
use threshold_sig_multiparty.Prelude.{
  ℕ, zero, suc, ◌+◌, ◌-◌, String, Bool, true, false, not, ◌&&◌, ◌||◌, List, [], ◌∷◌, ◌++◌, Option,
  none, some, map, if◌then◌else◌, ltb, leb, length, last_or, get_elem?, select, all,
}
use threshold_sig_multiparty.Prelude.Eq.{◌==◌, nat_eq, string_eq}
use threshold_sig_multiparty.Prelude.Dict.{lookup, insert}
use threshold_sig_multiparty.Prelude.Result.{Result, ok, err, ◌>>=◌}
use threshold_sig_multiparty.Platform.{Platform, Wallet}
use threshold_sig_multiparty.Ledger.{
  Block, Transaction, Vouch, genesis, block_hash, create_block, verify_block, verify_leader,
}
use threshold_sig_multiparty.Validators.{
  Members, includes, get_all_validators, get_all_keys, get_public_key_from_node_id, public_keys,
  is_valid_validator, quorum,
}
use threshold_sig_multiparty.Pools.{
  Vouches, RoundChange, RoundChanges, get_block, existing_block, add_block, own_message,
  existing_message, is_valid_message, add_prepare, add_commit, create_round_change,
  existing_round_change, is_valid_round_change, add_round_change, add_transaction,
  transaction_exists, verifies,
}

pub record Vote : Type 0 where
  pub voter : String
  pub vote : String

-- What `handleStateUpdate` sends: `leader_vote` to one node, the others to all.
pub data Sent : Type 0 where
  transaction : Transaction → Sent
  pre_prepare : Block → Sent
  prepare : Vouch → Sent
  commit : Vouch → Sent
  round_change : RoundChange → Sent
  leader_election : String → Sent
  leader_vote : (vote : String) (validators : List String) (destination : String) → Sent
  set_new_leader : Option String → Sent

-- The fields of `Blockchain`, the shared `ValidatorsGroup.validators`, the two keys of redis, and
-- the messages sent so far.
pub record Node : Type 0 where
  pub wallet : Wallet
  pub members : Members
  pub chain : List Block
  pub leader : Option String
  pub transactions : List Transaction
  pub blocks : List Block
  pub prepares : Vouches
  pub commits : Vouches
  pub round_changes : RoundChanges
  pub votes : List Vote
  pub saved_chain : List Block
  pub saved_leader : Option String
  pub sent : List Sent

abbrev pub Outcome : Type 0
Outcome = Node × Option String

abbrev pub send : Sent → Node → Node
send m n = record n { sent = n.sent ++ m ∷ [] }

-- `Math.ceil(ValidatorsGroup.getAllValidators().length * 0.67)`
abbrev pub threshold : Node → ℕ
threshold n = quorum (length (get_all_validators n.members))

-- `!existing && valid && isValidValidator`, from left to right.
abbrev pub accepts {ℓ} : {A : Type ℓ} → Option A → Result Bool → Result Bool → Result Bool
accepts (some _) valid validator = ok false
accepts none (err e) validator = err e
accepts none (ok false) validator = ok false
accepts none (ok true) validator = validator

-- `this.chain[this.chain.length - 1]`
abbrev pub last_block : List Block → Option Block
last_block [] = none
last_block (b ∷ bs) = some (last_or b bs)

abbrev key_is : Option String → String → Bool
key_is none key = false
key_is (some k) key = k == key

module _ (P : Platform) where
  abbrev leader_key : Node → Result (Option String)
  leader_key n = elim n.leader [
    | none ↦ (get_all_keys P n.members >>= λ _. ok none)
    | some l ↦ get_public_key_from_node_id P n.members l
  ]

  unfoldable pub is_valid_block : Node → Block → Result Bool
  unfolding block_hash verify_block verify_leader get_public_key_from_node_id get_all_keys
  is_valid_block n b = elim (last_block n.chain) [
    | none ↦ err "Cannot read properties of undefined"
    | some last ↦
        if (last.sequence_number + 1 == b.sequence_number)
          && (b.last_hash == last.hash)
          && (b.hash == block_hash P b)
        then (verify_block P b >>= λ signed. elim signed [
          | false ↦ ok false
          | true ↦ (leader_key n >>= λ key. ok (verify_leader b key))
        ])
        else ok false
  ]

  -- handleNewBlockPrePrepare
  unfoldable pub handle_pre_prepare : Node → Block → Outcome
  unfolding is_valid_block existing_block add_block own_message
  handle_pre_prepare n b =
      elim (accepts (existing_block b n.blocks) (is_valid_block n b) (ok true)) [
        | err e ↦ (n, some e)
        | ok false ↦ (n, none)
        | ok true ↦
            let (list, v) = own_message b.hash n.wallet n.prepares in
            (
              record n {
                blocks = add_block b n.blocks;
                prepares = list;
                sent = (n.sent ++ pre_prepare b ∷ []) ++ prepare v ∷ [];
              },
              none,
            )
      ]

  -- handleNewBlockPrepare once its guards hold. (The program tests the guards twice, with nothing
  -- between the two tests.)
  unfoldable pub prepare_accepted : Node → Vouch → Outcome
  unfolding add_prepare lookup own_message quorum get_all_validators
  prepare_accepted n v =
      let n1 : Node = send (prepare v) (record n { prepares = add_prepare v n.prepares }) in
      elim (lookup v.block_hash n1.prepares) [
        | none ↦ (n1, some "error handling new prepareed block")
        | some vs ↦
            if ltb (length vs) (threshold n1)
            then (n1, none)
            else (let (list, c) = own_message v.block_hash n1.wallet n1.commits in
                (send (commit c) (record n1 { commits = list }), none))
      ]

  unfoldable pub handle_prepare : Node → Vouch → Outcome
  unfolding prepare_accepted existing_message is_valid_message is_valid_validator
  handle_prepare n v =
      elim (accepts (existing_message v n.prepares) (is_valid_message P v)
        (is_valid_validator P n.members v.public_key)) [
          | err e ↦ (n, some e)
          | ok false ↦ (n, none)
          | ok true ↦ prepare_accepted n v
        ]

  -- The pool's block is the object that is changed and pushed to the chain.
  unfoldable pub replace_block : Block → List Block → List Block
  replace_block b [] = []
  replace_block b (c ∷ cs) =
      let rest = replace_block b cs in if c.hash == b.hash then b ∷ cs else c ∷ rest

  -- addUpdatedBlock, addBlock and the round change of handleNewBlockCommit.
  unfoldable pub finish_commit : Node → String → Outcome
  unfolding get_block lookup create_round_change replace_block
  finish_commit n hash = elim (get_block hash n.blocks) [
    | none ↦ (n, some "error handling new block commit")
    | some b ↦
        let b' : Block = record b {
          prepare_messages = lookup hash n.prepares;
          commit_messages = lookup hash n.commits;
        } in
        let chain' = n.chain ++ b' ∷ [] in
        let (list, m) = create_round_change P (last_or b' chain').hash n.wallet n.round_changes in
        (
          send (round_change m) (record n {
            blocks = replace_block b' n.blocks;
            chain = chain';
            saved_chain = chain';
            round_changes = list;
          }),
          none,
        )
  ]

  unfoldable pub commit_accepted : Node → Vouch → Outcome
  unfolding add_commit lookup quorum get_all_validators finish_commit
  commit_accepted n v = elim (add_commit v n.commits) [
    | err e ↦ (n, some "error handling new block commit")
    | ok list ↦
        let n1 : Node = send (commit v) (record n { commits = list }) in
        elim (lookup v.block_hash list) [
          | none ↦ (n1, some "error handling new block commit")
          | some vs ↦
              if ltb (length vs) (threshold n1) then (n1, none) else finish_commit n1 v.block_hash
        ]
  ]

  -- handleNewBlockCommit
  unfoldable pub handle_commit : Node → Vouch → Outcome
  unfolding commit_accepted existing_message is_valid_message is_valid_validator
  handle_commit n v =
      elim (accepts (existing_message v n.commits) (is_valid_message P v)
        (is_valid_validator P n.members v.public_key)) [
          | err e ↦ (n, some e)
          | ok false ↦ (n, none)
          | ok true ↦ commit_accepted n v
        ]

  -- handleNewTransaction, at the time `now`.
  unfoldable pub transaction_accepted : ℕ → Node → Transaction → Outcome
  unfolding add_transaction create_block get_public_key_from_node_id get_all_keys
  transaction_accepted now n t =
      let (ts, reached) = add_transaction n.members t n.transactions in
      let n1 : Node = record n { transactions = ts } in
      let n2 : Node = send (transaction t) n1 in
      if not reached then (n1, none) else (elim (leader_key n2) [
        | err e ↦ (n2, some "error handling new transaction")
        | ok key ↦
            if not (key_is key n2.wallet.public_key)
            then (n2, none)
            else (elim (last_block n2.chain) [
              | none ↦ (n2, some "error handling new transaction")
              | some last ↦ elim (create_block P now last n2.transactions n2.wallet) [
                | err e ↦ (n2, some "error handling new transaction")
                | ok b ↦ (send (pre_prepare b) n2, none)
              ]
            ])
      ])

  unfoldable pub handle_transaction : ℕ → Node → Transaction → Outcome
  unfolding transaction_accepted transaction_exists verifies is_valid_validator
  handle_transaction now n t =
      elim (accepts (transaction_exists t n.transactions) (ok (verifies P t))
        (is_valid_validator P n.members t.from)) [
          | err e ↦ (n, some e)
          | ok false ↦ (n, none)
          | ok true ↦ transaction_accepted now n t
        ]
