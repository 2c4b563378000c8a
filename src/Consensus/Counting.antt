-- ===== src/Consensus/Counting.antt =====
-- Across every handler, no public key is counted twice for a block in the message pools.
use threshold_sig_multiparty.Prelude.{
  ℕ, ◌≡◌, refl, String, Bool, true, List, Option, none, some, arith, inl, inr,
}
use threshold_sig_multiparty.Prelude.Result.{Result, ok, Result-cases, Guard-cases}
use threshold_sig_multiparty.Platform.{Platform}
use threshold_sig_multiparty.Ledger.{Block, Vouch, Transaction}
use threshold_sig_multiparty.Validators.{is_valid_validator}
use threshold_sig_multiparty.Pools.{
  add_commit, existing_message, is_valid_message, RoundChange, existing_round_change,
  is_valid_round_change, transaction_exists, verifies,
}
use threshold_sig_multiparty.Pools.Vouching.{
  AllOnce, own_message-AllOnce, add_prepare-AllOnce, add_commit-AllOnce,
}
use threshold_sig_multiparty.Consensus.{
  Node, accepts, handle_pre_prepare, finish_commit, commit_accepted, handle_commit,
  prepare_accepted, handle_prepare, transaction_accepted, handle_transaction,
}
use threshold_sig_multiparty.Consensus.Election.{
  Message, Surroundings, adopt_chain, elect_new_leader, round_change_accepted, handle_round_change,
  handle_vote, handle_election, handle_new_leader, handle,
}

-- Each public key stands at most once among the prepares and among the commits of a block.
pub record CountsOnce (n : Node) : Type 0 where
  pub prepares : AllOnce n.prepares
  pub commits : AllOnce n.commits

module _ (P : Platform) where
  accepts-new {ℓ} :
      {A : Type ℓ} (o : Option A) (valid validator : Result Bool)
      → accepts o valid validator ≡ ok true
      → o ≡ none
  accepts-new none valid validator h = refl
  accepts-new (some a) valid validator h = cc

  handle_pre_prepare-CountsOnce :
      (n : Node) (b : Block) → CountsOnce n → CountsOnce (handle_pre_prepare P n b).0
  unfolding handle_pre_prepare
  handle_pre_prepare-CountsOnce n b o =
      ground (arith, own_message-AllOnce b.hash n.wallet n.prepares o.prepares)

  prepare_accepted-CountsOnce :
      (n : Node) (v : Vouch)
      → existing_message v n.prepares ≡ none
      → CountsOnce n
      → CountsOnce (prepare_accepted P n v).0
  unfolding prepare_accepted
  prepare_accepted-CountsOnce n v new o = ground (
    arith,
    add_prepare-AllOnce v n.prepares o.prepares new,
    own_message-AllOnce v.block_hash n.wallet n.commits o.commits,
  )

  handle_prepare-CountsOnce :
      (n : Node) (v : Vouch) → CountsOnce n → CountsOnce (handle_prepare P n v).0
  unfolding handle_prepare
  handle_prepare-CountsOnce n v o =
      elim (Guard-cases (
        accepts (existing_message v n.prepares) (is_valid_message P v)
          (is_valid_validator P n.members v.public_key))) [
            | inl e ↦
                rw (e, handle_prepare) (prepare_accepted-CountsOnce n v (accepts-new _ _ _ e) o)
            | inr (inl e) ↦ rw (e, handle_prepare) o
            | inr (inr (t, e)) ↦ rw (e, handle_prepare) o
          ]

  finish_commit-CountsOnce :
      (n : Node) (h : String) → CountsOnce n → CountsOnce (finish_commit P n h).0
  unfolding finish_commit
  finish_commit-CountsOnce n h o = ground arith

  commit_accepted-CountsOnce :
      (n : Node) (v : Vouch)
      → existing_message v n.commits ≡ none
      → CountsOnce n
      → CountsOnce (commit_accepted P n v).0
  unfolding commit_accepted
  commit_accepted-CountsOnce n v new o = elim (Result-cases (add_commit v n.commits)) [
    | inr (t, e) ↦ rw (e, commit_accepted) o
    | inl (list, e) ↦
        let a = add_commit-AllOnce v n.commits list o.commits new e in ground (arith, a, e)
  ]

  handle_commit-CountsOnce :
      (n : Node) (v : Vouch) → CountsOnce n → CountsOnce (handle_commit P n v).0
  unfolding handle_commit
  handle_commit-CountsOnce n v o =
      elim (Guard-cases (
        accepts (existing_message v n.commits) (is_valid_message P v)
          (is_valid_validator P n.members v.public_key))) [
            | inl e ↦ rw (e, handle_commit) (commit_accepted-CountsOnce n v (accepts-new _ _ _ e) o)
            | inr (inl e) ↦ rw (e, handle_commit) o
            | inr (inr (t, e)) ↦ rw (e, handle_commit) o
          ]

  -- The pools are the same lists.
  abbrev SamePools : Node → Node → Type 0
  SamePools n n' = (n'.prepares ≡ n.prepares) × (n'.commits ≡ n.commits)

  same_CountsOnce : (n n' : Node) → SamePools n n' → CountsOnce n → CountsOnce n'
  same_CountsOnce n n' s o = record { prepares = rw s.0 o.prepares; commits = rw s.1 o.commits }

  transaction_accepted-same :
      (now : ℕ) (n : Node) (t : Transaction) → SamePools n (transaction_accepted P now n t).0
  unfolding transaction_accepted
  transaction_accepted-same now n t = (ground arith, ground arith)

  handle_transaction-same :
      (now : ℕ) (n : Node) (t : Transaction) → SamePools n (handle_transaction P now n t).0
  handle_transaction-same now n t =
      elim (Guard-cases (
        accepts (transaction_exists t n.transactions) (ok (verifies P t))
          (is_valid_validator P n.members t.from))) [
            | inl e ↦
                unfold handle_transaction in
                rw (e, handle_transaction) (transaction_accepted-same now n t)
            | inr (inl e) ↦ unfold handle_transaction in rw (e, handle_transaction) (refl, refl)
            | inr (inr (x, e)) ↦
                unfold handle_transaction in rw (e, handle_transaction) (refl, refl)
          ]

  elect_new_leader-same : (b : Bool) (n : Node) → SamePools n (elect_new_leader P b n)
  unfolding elect_new_leader
  elect_new_leader-same b n = (ground arith, ground arith)

  round_change_accepted-same :
      (b : Bool) (n : Node) (m : RoundChange) → SamePools n (round_change_accepted P b n m).0
  unfolding round_change_accepted
  round_change_accepted-same b n m = (ground arith, ground arith)

  handle_round_change-same :
      (b : Bool) (n : Node) (m : RoundChange) → SamePools n (handle_round_change P b n m).0
  handle_round_change-same b n m =
      elim (Guard-cases (
        accepts (existing_round_change m n.round_changes) (is_valid_round_change P m)
          (is_valid_validator P n.members m.public_key))) [
            | inl e ↦
                unfold handle_round_change in
                rw (e, handle_round_change) (round_change_accepted-same b n m)
            | inr (inl e) ↦ unfold handle_round_change in rw (e, handle_round_change) (refl, refl)
            | inr (inr (x, e)) ↦
                unfold handle_round_change in rw (e, handle_round_change) (refl, refl)
          ]

  handle_vote-same :
      (n : Node) (v : String) (vs : Option (List String)) (s : String)
      → SamePools n (handle_vote n v vs s)
  unfolding handle_vote
  handle_vote-same n v none s = (refl, refl)
  handle_vote-same n v (some vs) s = (ground arith, ground arith)

  handle_election-same :
      (peers : List String) (k : ℕ) (n : Node) (l : String)
      → SamePools n (handle_election peers k n l)
  unfolding handle_election
  handle_election-same peers k n l = (ground arith, ground arith)

  handle_new_leader-same : (n : Node) (l : String) → SamePools n (handle_new_leader P n l).0
  unfolding handle_new_leader
  handle_new_leader-same n l = (ground arith, ground arith)

  adopt_chain-same :
      (json : Block → String) (n : Node) (c : List Block) → SamePools n (adopt_chain P json n c)
  unfolding adopt_chain
  adopt_chain-same json n c = (ground arith, ground arith)

  -- If each public key stands at most once among the prepares and among the commits of each block,
  -- then so it does after every message, whatever its kind and whether or not its handler throws.
  pub handle-CountsOnce :
      (json : Block → String) (w : Surroundings) (n : Node) (m : Message)
      → CountsOnce n
      → CountsOnce (handle P json w n m).0
  unfolding handle
  handle-CountsOnce json w n (Message.chain c) o = same_CountsOnce n _ (adopt_chain-same json n c) o
  handle-CountsOnce json w n (Message.transaction t) o =
      same_CountsOnce n _ (handle_transaction-same w.now n t) o
  handle-CountsOnce json w n (Message.pre_prepare b) o = handle_pre_prepare-CountsOnce n b o
  handle-CountsOnce json w n (Message.prepare v) o = handle_prepare-CountsOnce n v o
  handle-CountsOnce json w n (Message.commit v) o = handle_commit-CountsOnce n v o
  handle-CountsOnce json w n (Message.round_change m) o =
      same_CountsOnce n _ (handle_round_change-same w.session_active n m) o
  handle-CountsOnce json w n (Message.leader_vote v vs s) o =
      same_CountsOnce n _ (handle_vote-same n v vs s) o
  handle-CountsOnce json w n (Message.leader_election l) o =
      same_CountsOnce n _ (handle_election-same w.peers w.draw n l) o
  handle-CountsOnce json w n (Message.set_new_leader l) o =
      same_CountsOnce n _ (handle_new_leader-same n l) o
  handle-CountsOnce json w n Message.other o = o
