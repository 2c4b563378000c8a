-- ===== src/Consensus/Election.antt =====
-- src/consensus/consesnsus.ts: the election of a leader, the end of a round and the dispatch of
-- messages. The waits of 500 ms are not modelled: nothing happens between a handler's two halves.
pub mod Tally
pub mod Draw
use threshold_sig_multiparty.Prelude.{
  ℕ, zero, suc, ◌+◌, ◌-◌, String, Bool, true, false, not, ◌&&◌, ◌||◌, List, [], ◌∷◌, ◌++◌, Option,
  none, some, map, if◌then◌else◌, ltb, length, get_elem?, select, all,
}
use threshold_sig_multiparty.Prelude.Eq.{◌==◌, nat_eq, string_eq}
use threshold_sig_multiparty.Prelude.Dict.{lookup, insert}
use threshold_sig_multiparty.Prelude.Result.{Result, ok, err}
use threshold_sig_multiparty.Platform.{Platform}
use threshold_sig_multiparty.Ledger.{Block, Transaction, Vouch, replaces}
use threshold_sig_multiparty.Validators.{includes, get_all_keys, public_keys, is_valid_validator}
use threshold_sig_multiparty.Pools.{
  RoundChange, existing_round_change, is_valid_round_change, add_round_change,
}
use threshold_sig_multiparty.Consensus.{
  Node, Vote, Sent, Outcome, send, threshold, accepts, handle_pre_prepare, handle_prepare,
  handle_commit, handle_transaction,
}

-- `a ?? b`
abbrev or_else : Option String → Option String → Option String
or_else none b = b
or_else (some a) b = some a

-- `!leader || publickKeys.includes(leader)`
unfoldable pub leader_known : Platform → Node → Option String → Result Bool
unfolding get_all_keys
leader_known P n none = ok true
leader_known P n (some l) = if l == "" then ok true else (elim (get_all_keys P n.members) [
  | err e ↦ err e
  | ok is ↦ ok (includes l (public_keys is))
])

-- electNewLeader; `session_active` is the flag of the keygen session.
unfoldable pub elect_new_leader : Platform → Bool → Node → Node
unfolding leader_known
elect_new_leader P session_active n =
    let leader = or_else n.leader n.saved_leader in
    elim (leader_known P n leader) [
      | err e ↦ send (Sent.set_new_leader leader) n
      | ok known ↦
          let chosen = if known then some n.wallet.node_id else leader in
          let n1 : Node = record n { saved_leader = chosen } in
          elim chosen [
            | none ↦ send (Sent.set_new_leader none) n1
            | some l ↦
                if session_active || not (n.wallet.node_id == l)
                then send (Sent.set_new_leader (some l)) n1
                else send (Sent.leader_election l) n1
          ]
    ]

-- `Math.abs(Math.floor(Math.random() * length - 1))`, where k is the floor of the product.
unfoldable pub vote_index : ℕ → ℕ
vote_index zero = 1
vote_index (suc k) = k

-- handleNewElectionRound, for the validators that the server knows and the drawn k.
unfoldable pub handle_election : List String → ℕ → Node → String → Node
unfolding vote_index
handle_election peers k n current_leader =
    let eligible = select (λ v. not (v == current_leader)) peers in
    let index = vote_index k in
    if ltb (length eligible) index
    then send (Sent.set_new_leader (some current_leader)) n
    else (elim (get_elem? eligible index) [
      | none ↦ send (Sent.set_new_leader (some current_leader)) n
      | some v ↦ send (Sent.leader_vote v eligible current_leader) n
    ])

-- `voteCount[v] = voteCount[v] ? voteCount[v] + 1 : 1`
unfoldable pub count_votes : List String → List (String × ℕ) → List (String × ℕ)
unfolding lookup insert
count_votes [] counts = counts
count_votes (v ∷ vs) counts = elim (lookup v counts) [
  | none ↦ count_votes vs (insert v 1 counts)
  | some c ↦ count_votes vs (insert v (c + 1) counts)
]

-- The loop over the candidates: the leader so far, and its votes.
unfoldable pub best : List (String × ℕ) → Option String → ℕ → Option String
best [] leader max_votes = leader
best ((c, k) ∷ rest) leader max_votes =
    best rest (if ltb max_votes k then some c else leader)
      (if ltb max_votes k then k else max_votes)

-- handleNewElectionRoundVote; a missing list of validators is `none`.
unfoldable pub handle_vote : Node → String → Option (List String) → String → Node
unfolding count_votes best
handle_vote n vote none sender = send (Sent.set_new_leader n.leader) n
handle_vote n vote (some validators) sender =
    if vote == ""
    then send (Sent.set_new_leader n.leader) n
    else (let votes = n.votes ++ record { voter = sender; vote = vote } ∷ [] in
        if all (λ a. includes a (map (λ v. v.voter) votes)) validators
        then (let leader = best (count_votes (map (λ v. v.vote) votes) []) n.leader 0 in
            send (Sent.set_new_leader leader)
              (record n { votes = []; leader = leader; saved_leader = leader }))
        else record n { votes = votes })

-- handleNewElectionRoundResult
unfoldable pub handle_new_leader : Platform → Node → String → Outcome
unfolding get_all_keys
handle_new_leader P n new_leader = elim (get_all_keys P n.members) [
  | err e ↦ (n, some "error setting new leader")
  | ok is ↦ (record n { leader = some new_leader; saved_leader = some new_leader }, none)
]

-- `this.validator.nodeId === this.leader`
abbrev leads : Node → Bool
leads n = elim n.leader [ none ↦ false | some l ↦ n.wallet.node_id == l ]

abbrev clear : Node → Node
clear n = record n { transactions = [] }

-- handleNewRoundChange once its guards hold.
unfoldable pub round_change_accepted : Platform → Bool → Node → RoundChange → Outcome
unfolding add_round_change lookup elect_new_leader
round_change_accepted P session_active n m =
    let n1 : Node =
      send (Sent.round_change m)
        (record n { round_changes = add_round_change m n.round_changes }) in
    elim (lookup m.block_hash n1.round_changes) [
      | none ↦ (n1, some "error handling new round change")
      | some ms ↦
          if ltb (length ms) (threshold n1)
          then (n1, none)
          else if leads n1 && ltb 0 (length n1.transactions)
          then (clear (elect_new_leader P session_active n1), none)
          else (clear n1, none)
    ]

unfoldable pub handle_round_change : Platform → Bool → Node → RoundChange → Outcome
unfolding round_change_accepted existing_round_change is_valid_round_change is_valid_validator
handle_round_change P session_active n m =
    elim (accepts (existing_round_change m n.round_changes) (is_valid_round_change P m)
      (is_valid_validator P n.members m.public_key)) [
        | err e ↦ (n, some e)
        | ok false ↦ (n, none)
        | ok true ↦ round_change_accepted P session_active n m
      ]

-- The messages of `handleBlockchainConsensusMessage`. Its case for a chain has no `break`: the chain
-- is then offered as a transaction too, and refused, since its signature does not verify.
pub data Message : Type 0 where
  chain : List Block → Message
  transaction : Transaction → Message
  pre_prepare : Block → Message
  prepare commit : Vouch → Message
  round_change : RoundChange → Message
  leader_vote : (vote : String) (validators : Option (List String)) (sender : String) → Message
  leader_election : String → Message
  set_new_leader : String → Message
  other : Message

-- What a call reads from outside the node: the flag of the keygen session, the server's validators,
-- the random draw and the time.
pub record Surroundings : Type 0 where
  pub session_active : Bool
  pub peers : List String
  pub draw : ℕ
  pub now : ℕ

unfoldable pub adopt_chain : Platform → (Block → String) → Node → List Block → Node
unfolding replaces
adopt_chain P json n new_chain =
    if replaces P json new_chain n.chain
    then record n { chain = new_chain; saved_chain = new_chain }
    else n

unfoldable pub handle : Platform → (Block → String) → Surroundings → Node → Message → Outcome
unfolding adopt_chain handle_transaction handle_pre_prepare handle_prepare handle_commit
    handle_round_change handle_vote handle_election handle_new_leader
handle P json w n (chain c) = (adopt_chain P json n c, none)
handle P json w n (transaction t) = handle_transaction P w.now n t
handle P json w n (pre_prepare b) = handle_pre_prepare P n b
handle P json w n (prepare v) = handle_prepare P n v
handle P json w n (commit v) = handle_commit P n v
handle P json w n (round_change m) = handle_round_change P w.session_active n m
handle P json w n (leader_vote v vs s) = (handle_vote n v vs s, none)
handle P json w n (leader_election l) = (handle_election w.peers w.draw n l, none)
handle P json w n (set_new_leader l) = handle_new_leader P n l
handle P json w n other = (n, none)
