-- ===== src/Tests/Nodes.antt =====
-- The consensus of a node at concrete inputs: three validators, "a" leads.
use threshold_sig_multiparty.Prelude.{
  ◌<◌, ◌≤◌, ◌≡◌, ◌⊎◌, refl, String, true, false, List, [], ◌∷◌, ◌++◌, none, some, map, arith,
}
use threshold_sig_multiparty.Prelude.Dict.{lookup}
use threshold_sig_multiparty.Prelude.Eq.{string_eq}
use threshold_sig_multiparty.Prelude.Result.{ok}
use threshold_sig_multiparty.Ledger.{Vouch, genesis, is_valid_chain}
use threshold_sig_multiparty.Validators.{is_valid_validator, quorum, get_all_validators}
use threshold_sig_multiparty.Pools.{
  existing_block, add_block, existing_message, is_valid_message, get_block,
}
use threshold_sig_multiparty.Consensus.{Node, Sent, handle_pre_prepare, handle_commit}
use threshold_sig_multiparty.Consensus.Commits.{
  Completes, vouched, handle_commit_chain, handle_commit_early, handle_commit_late,
}
use threshold_sig_multiparty.Consensus.Counting.{CountsOnce}
use threshold_sig_multiparty.Consensus.Proposals.{Extends, handle_pre_prepare-Extends}
use threshold_sig_multiparty.Consensus.Election.{Message, Surroundings, handle, handle_vote}
use threshold_sig_multiparty.Consensus.Reach.{here, next, receive, Reach-CountsOnce}
use threshold_sig_multiparty.Consensus.Election.Tally.{handle_vote_elects, votes_for, cast}
use threshold_sig_multiparty.Tests.Ledgers.{plain, wallet_of, first_block, json_text}

abbrev fresh : Node
fresh = record {
  wallet = wallet_of "a";
  members = ("a", "a") ∷ ("b", "b") ∷ ("c", "c") ∷ [];
  chain = genesis ∷ [];
  leader = some "a";
  transactions = [];
  blocks = [];
  prepares = [];
  commits = [];
  round_changes = [];
  votes = [];
  saved_chain = [];
  saved_leader = none;
  sent = [];
}

abbrev vouch_of : String → Vouch
vouch_of s = record {
  block_hash = "1genesis-hash[object Object]";
  public_key = s;
  signature = "1genesis-hash[object Object]";
}

abbrev vouches : List String → List (String × List Vouch)
vouches ss = ("1genesis-hash[object Object]", map vouch_of ss) ∷ []

-- The block is in the pool; "a" and "b" have committed it.
abbrev committing : Node
committing = record fresh {
  blocks = first_block ∷ [];
  prepares = vouches ("a" ∷ "b" ∷ "c" ∷ []);
  commits = vouches ("a" ∷ "b" ∷ []);
}

handle_commit_chain_example :
    ((c : Completes plain committing (vouch_of "c")) × ((handle_commit plain committing
          (vouch_of "c")).0.chain
        ≡ committing.chain
          ++ vouched plain committing c.pooled (c.before ++ vouch_of "c" ∷ []) ∷ [])
      × ((handle_commit plain committing (vouch_of "c")).0.saved_chain
          ≡ (handle_commit plain committing (vouch_of "c")).0.chain))
    ⊎ ((Completes plain committing (vouch_of "c") → ⊥)
        × ((handle_commit plain committing (vouch_of "c")).0.chain ≡ committing.chain)
        × ((handle_commit plain committing (vouch_of "c")).0.saved_chain ≡ committing.saved_chain))
handle_commit_chain_example = handle_commit_chain plain committing (vouch_of "c")

handle_commit_early_example :
    ((handle_commit plain fresh (vouch_of "b")).0 ≡ fresh)
    × (is_valid_message plain (vouch_of "b") ≡ ok true
        → is_valid_validator plain fresh.members (vouch_of "b").public_key ≡ ok true
        → (handle_commit plain fresh (vouch_of "b")).1 ≡ some "error handling new block commit")
    × (is_valid_message plain (vouch_of "b") ≡ ok false
        → (handle_commit plain fresh (vouch_of "b")).1 ≡ none)
    × (is_valid_message plain (vouch_of "b") ≡ ok true
        → is_valid_validator plain fresh.members (vouch_of "b").public_key ≡ ok false
        → (handle_commit plain fresh (vouch_of "b")).1 ≡ none)
unfolding lookup
handle_commit_early_example = handle_commit_early plain fresh (vouch_of "b") refl

-- A fourth validator "d" commits when the block is in the chain.
abbrev finished : Node
finished = record committing {
  members = ("a", "a") ∷ ("b", "b") ∷ ("c", "c") ∷ ("d", "d") ∷ [];
  chain = genesis ∷ first_block ∷ [];
  commits = vouches ("a" ∷ "b" ∷ "c" ∷ []);
}

late : Completes plain finished (vouch_of "d")
unfolding get_block lookup quorum get_all_validators existing_message is_valid_message
    is_valid_validator
late = record {
  fresh = refl;
  signed = refl;
  member = refl;
  before = map vouch_of ("a" ∷ "b" ∷ "c" ∷ []);
  listed = refl;
  reached = omega arith;
  pooled = first_block;
  in_pool = refl;
}

handle_commit_late_example :
    ((handle_commit plain finished (vouch_of "d")).0.chain
      ≡ finished.chain
        ++ vouched plain finished first_block
            (map vouch_of ("a" ∷ "b" ∷ "c" ∷ []) ++ vouch_of "d" ∷ [])
          ∷ [])
    × (is_valid_chain plain json_text (handle_commit plain finished (vouch_of "d")).0.chain ≡ false)
unfolding late genesis
handle_commit_late_example =
    handle_commit_late plain json_text finished (vouch_of "d") genesis (first_block ∷ []) late refl
      refl
      (λ e. ground (arith, (string_eq.beq_iff "genesis-hash" "1genesis-hash[object Object]").1 e))

abbrev around : Surroundings
around = record { session_active = false; peers = []; draw = 0; now = 5 }

Reach-CountsOnce_example :
    CountsOnce (handle plain json_text around fresh (Message.commit (vouch_of "c"))).0
Reach-CountsOnce_example =
    Reach-CountsOnce plain json_text fresh refl refl
      (next here (receive around fresh (Message.commit (vouch_of "c"))))

handle_pre_prepare-Extends_example :
    ((handle_pre_prepare plain fresh first_block).0 ≡ fresh)
    ⊎ ((existing_block first_block fresh.blocks ≡ none)
        × Extends plain fresh first_block
        × ((handle_pre_prepare plain fresh first_block).0.blocks
            ≡ add_block first_block fresh.blocks)
        × ((handle_pre_prepare plain fresh first_block).0.chain ≡ fresh.chain))
handle_pre_prepare-Extends_example = handle_pre_prepare-Extends plain fresh first_block

abbrev voting : Node
voting = record fresh { votes = record { voter = "b"; vote = "c" } ∷ [] }

handle_vote_elects_example :
    (w : String) × ((handle_vote voting "c" (some ("a" ∷ "b" ∷ [])) "a").leader ≡ some w)
    × ((handle_vote voting "c" (some ("a" ∷ "b" ∷ [])) "a").saved_leader ≡ some w)
    × ((handle_vote voting "c" (some ("a" ∷ "b" ∷ [])) "a").votes ≡ [])
    × ((handle_vote voting "c" (some ("a" ∷ "b" ∷ [])) "a").sent
        ≡ [] ++ Sent.set_new_leader (some w) ∷ [])
    × (0 < votes_for w (cast voting "c" "a"))
    × ((c : String) → votes_for c (cast voting "c" "a") ≤ votes_for w (cast voting "c" "a"))
handle_vote_elects_example = handle_vote_elects voting "c" "a" ("a" ∷ "b" ∷ []) refl refl
