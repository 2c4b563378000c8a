-- ===== src/Consensus/Commits.antt =====
-- When a commit message makes a node append a block: handleNewBlockCommit and addUpdatedBlock.
use threshold_sig_multiparty.Prelude.{
  Bool, Option, ◌+◌, ◌≤◌, ◌≡◌, ◌≢◌, ◌⊎◌, inl, inr, refl, sym, ◌∙◌, ap, String, true, false, List,
  [], ◌∷◌, ◌++◌, none, some, ltb, length, length-append, last_or, arith, Option-cases, Bool-cases,
}
use threshold_sig_multiparty.Prelude.Eq.{string_eq, ==_sound}
use threshold_sig_multiparty.Prelude.Dict.{lookup, insert, lookup-insert_self}
use threshold_sig_multiparty.Prelude.Result.{Result, ok, err, Guard-cases}
use threshold_sig_multiparty.Platform.{Platform}
use threshold_sig_multiparty.Ledger.{Block, Vouch, is_valid_chain}
use threshold_sig_multiparty.Ledger.Validity.{is_valid_chain_twice}
use threshold_sig_multiparty.Validators.{is_valid_validator}
use threshold_sig_multiparty.Pools.{
  Vouches, get_block, add_commit, existing_message, is_valid_message,
}
use threshold_sig_multiparty.Consensus.{
  Node, send, commit, threshold, accepts, finish_commit, commit_accepted, handle_commit,
}

module _ (P : Platform) where
  get_block-hash : (h : String) (bs : List Block) (b : Block) → get_block h bs ≡ some b → b.hash ≡ h
  unfolding get_block
  get_block-hash h [] b e = cc
  get_block-hash h (c ∷ bs) b e = ground (arith, ==_sound c.hash h, get_block-hash h bs b)

  -- The pooled block with the lists of the node's prepares and of these commits.
  abbrev pub vouched : Node → Block → List Vouch → Block
  vouched n pooled vs = record pooled {
    prepare_messages = lookup pooled.hash n.prepares;
    commit_messages = some vs;
  }

  -- A commit that is new, signed and a validator's, for a block in the pool, where the commits for
  -- the block that came before and this one reach the threshold.
  pub record Completes (n : Node) (v : Vouch) : Type 0 where
    pub fresh : existing_message v n.commits ≡ none
    pub signed : is_valid_message P v ≡ ok true
    pub member : is_valid_validator P n.members v.public_key ≡ ok true
    pub before : List Vouch
    pub listed : lookup v.block_hash n.commits ≡ some before
    pub reached : threshold n ≤ length before + 1
    pub pooled : Block
    pub in_pool : get_block v.block_hash n.blocks ≡ some pooled

  -- The node after `addMessage` and the broadcast.
  abbrev noted : Node → Vouch → Vouches → Node
  noted n v list = send (commit v) (record n { commits = list })

  finish_commit-none :
      (n : Node) (h : String) → get_block h n.blocks ≡ none → (finish_commit P n h).0 ≡ n
  unfolding finish_commit
  finish_commit-none n h e = ground (arith, e)

  finish_commit_pooled :
      (n : Node) (h : String) (b : Block) (vs : List Vouch)
      → get_block h n.blocks ≡ some b
      → lookup h n.commits ≡ some vs
      → ((finish_commit P n h).0.chain ≡ n.chain ++ vouched n b vs ∷ [])
        × ((finish_commit P n h).0.saved_chain ≡ n.chain ++ vouched n b vs ∷ [])
  unfolding finish_commit
  finish_commit_pooled n h b vs e l =
      let same : b.hash ≡ h = get_block-hash h n.blocks b e in
      let block : Block = record b {
        prepare_messages = lookup h n.prepares;
        commit_messages = lookup h n.commits;
      } in
      let is_vouched : block ≡ vouched n b vs =
        ap
          (λ c.
            let d : Block = record b {
              prepare_messages = lookup h n.prepares;
              commit_messages = c;
            } in
            d)
          l
        ∙ ap
            (λ k.
              let d : Block = record b {
                prepare_messages = lookup k n.prepares;
                commit_messages = some vs;
              } in
              d)
            (sym same) in
      (
        rw (e, finish_commit) (ap (λ d. n.chain ++ d ∷ []) is_vouched),
        rw (e, finish_commit) (ap (λ d. n.chain ++ d ∷ []) is_vouched),
      )

  -- The commits for a hash that has a list, after one more.
  module _ (n : Node) (v : Vouch) (vs : List Vouch)
      (listed : lookup v.block_hash n.commits ≡ some vs) where
    list : Vouches
    list = insert v.block_hash (vs ++ v ∷ []) n.commits

    added : add_commit v n.commits ≡ ok list
    unfolding list
    added = unfold add_commit in rw (listed, add_commit) refl

    found_in : lookup v.block_hash list ≡ some (vs ++ v ∷ [])
    unfolding list
    found_in = lookup-insert_self v.block_hash (vs ++ v ∷ []) n.commits

    many : threshold n ≤ length vs + 1 → ltb (length (vs ++ v ∷ [])) (threshold n) ≡ false
    many reached = ground (arith, length-append vs (v ∷ []))

    few : ltb (length (vs ++ v ∷ [])) (threshold n) ≡ false → threshold n ≤ length vs + 1
    few e = ground (arith, length-append vs (v ∷ []))

    commit_accepted-finishes :
        (b : Block)
        → get_block v.block_hash n.blocks ≡ some b
        → threshold n ≤ length vs + 1
        → ((commit_accepted P n v).0.chain ≡ n.chain ++ vouched n b (vs ++ v ∷ []) ∷ [])
          × ((commit_accepted P n v).0.saved_chain ≡ n.chain ++ vouched n b (vs ++ v ∷ []) ∷ [])
    unfolding commit_accepted
    commit_accepted-finishes b e reached =
        rw (added, commit_accepted)
          (rw found_in (
            rw (many reached)
              (finish_commit_pooled (noted n v list) v.block_hash b (vs ++ v ∷ []) e found_in)))

    commit_accepted-waits :
        (threshold n ≤ length vs + 1 → (b : Block) × (get_block v.block_hash n.blocks ≡ some b) → ⊥)
        → ((commit_accepted P n v).0.chain ≡ n.chain)
          × ((commit_accepted P n v).0.saved_chain ≡ n.saved_chain)
    unfolding commit_accepted
    commit_accepted-waits open' =
        rw (added, commit_accepted)
          (rw found_in (elim (Bool-cases (ltb (length (vs ++ v ∷ [])) (threshold n))) [
            | inl e ↦ rw e (refl, refl)
            | inr e ↦ elim (Option-cases (get_block v.block_hash n.blocks)) [
              | inl none_there ↦
                  let same = finish_commit-none (noted n v list) v.block_hash none_there in
                  rw e (ap (λ m. m.chain) same, ap (λ m. m.saved_chain) same)
              | inr there ↦ absurd (open' (few e) there)
            ]
          ]))

  refused :
      (n : Node) (v : Vouch)
      → (accepts
              (existing_message v n.commits)
              (is_valid_message P v)
              (is_valid_validator P n.members v.public_key)
            ≡ ok true
          → ⊥)
      → (handle_commit P n v).0 ≡ n
  unfolding handle_commit
  refused n v blocked =
      elim (Guard-cases (
        accepts (existing_message v n.commits) (is_valid_message P v)
          (is_valid_validator P n.members v.public_key))) [
            | inl e ↦ absurd (blocked e)
            | inr (inl e) ↦ rw (e, handle_commit) refl
            | inr (inr (t, e)) ↦ rw (e, handle_commit) refl
          ]

  complete :
      (n : Node) (v : Vouch) (c : Completes n v)
      → ((handle_commit P n v).0.chain ≡ n.chain ++ vouched n c.pooled (c.before ++ v ∷ []) ∷ [])
        × ((handle_commit P n v).0.saved_chain
            ≡ n.chain ++ vouched n c.pooled (c.before ++ v ∷ []) ∷ [])
  unfolding handle_commit
  complete n v c =
      let passed : accepts (existing_message v n.commits) (is_valid_message P v)
            (is_valid_validator P n.members v.public_key)
          ≡ ok true =
        rw (c.fresh, c.signed, c.member) refl in
      rw (passed, handle_commit)
        (commit_accepted-finishes n v c.before c.listed c.pooled c.in_pool c.reached)

  -- What the guards of the handler say of the commit.
  accepted :
      (n : Node) (v : Vouch)
      → accepts
          (existing_message v n.commits)
          (is_valid_message P v)
          (is_valid_validator P n.members v.public_key)
        ≡ ok true
      → (existing_message v n.commits ≡ none)
        × (is_valid_message P v ≡ ok true)
        × (is_valid_validator P n.members v.public_key ≡ ok true)
  accepted n v e =
      accepts-true (existing_message v n.commits) (is_valid_message P v)
        (is_valid_validator P n.members v.public_key) e
    where
      accepts-true :
          (o : Option Vouch) (a b : Result Bool)
          → accepts o a b ≡ ok true
          → (o ≡ none) × (a ≡ ok true) × (b ≡ ok true)
      accepts-true none (ok true) b e = (refl, refl, e)
      accepts-true none (ok false) b e = cc
      accepts-true none (err t) b e = cc
      accepts-true (some x) a b e = cc

  completes-or : (n : Node) (v : Vouch) → Completes n v ⊎ (Completes n v → ⊥)
  completes-or n v =
      elim (Guard-cases (
        accepts (existing_message v n.commits) (is_valid_message P v)
          (is_valid_validator P n.members v.public_key))) [
            | inr (inl e) ↦ inr (λ c. absurd (ground (arith, e, c.fresh, c.signed, c.member)))
            | inr (inr (t, e)) ↦ inr (λ c. absurd (ground (arith, e, c.fresh, c.signed, c.member)))
            | inl e ↦ elim (Option-cases (lookup v.block_hash n.commits)) [
              | inl l ↦ inr (λ c. absurd (ground (arith, l, c.listed)))
              | inr (vs, l) ↦ elim (Option-cases (get_block v.block_hash n.blocks)) [
                | inl g ↦ inr (λ c. absurd (ground (arith, g, c.in_pool)))
                | inr (b, g) ↦ elim (Bool-cases (ltb (length vs + 1) (threshold n))) [
                  | inl short ↦ inr (λ c.
                      let same : c.before ≡ vs = ground (arith, l, c.listed) in
                      absurd (ground (arith, short, ap length same, c.reached)))
                  | inr long ↦ inl record {
                    fresh = (accepted n v e).0;
                    signed = (accepted n v e).1;
                    member = (accepted n v e).2;
                    before = vs;
                    listed = l;
                    reached = ground (arith, long);
                    pooled = b;
                    in_pool = g;
                  }
                ]
              ]
            ]
          ]

  idle :
      (n : Node) (v : Vouch)
      → (Completes n v → ⊥)
      → ((handle_commit P n v).0.chain ≡ n.chain)
        × ((handle_commit P n v).0.saved_chain ≡ n.saved_chain)
  unfolding handle_commit
  idle n v open' =
      elim (Guard-cases (
        accepts (existing_message v n.commits) (is_valid_message P v)
          (is_valid_validator P n.members v.public_key))) [
            | inr (inl e) ↦ rw (e, handle_commit) (refl, refl)
            | inr (inr (t, e)) ↦ rw (e, handle_commit) (refl, refl)
            | inl e ↦
                rw (e, handle_commit)
                  (elim (Option-cases (lookup v.block_hash n.commits)) [
                    | inl l ↦
                        unfold commit_accepted add_commit in (ground (arith, l), ground (arith, l))
                    | inr (vs, l) ↦ commit_accepted-waits n v vs l (λ reached there. open' (record {
                      fresh = (accepted n v e).0;
                      signed = (accepted n v e).1;
                      member = (accepted n v e).2;
                      before = vs;
                      listed = l;
                      reached = reached;
                      pooled = there.0;
                      in_pool = there.1;
                    }))
                  ])
          ]

  -- A commit message that is new, signed by a listed validator and for a block in the pool, where the
  -- commits for the block that came before and this one reach the threshold, appends that block to
  -- the chain, with the node's prepares and those commits, this one included, as its lists and
  -- otherwise as it is in the pool, and the chain that is stored is the new one. Every other commit
  -- message leaves both chains as they were.
  pub handle_commit_chain :
      (n : Node) (v : Vouch)
      → ((c : Completes n v) × ((handle_commit P n v).0.chain
            ≡ n.chain ++ vouched n c.pooled (c.before ++ v ∷ []) ∷ [])
          × ((handle_commit P n v).0.saved_chain ≡ (handle_commit P n v).0.chain))
        ⊎ ((Completes n v → ⊥)
            × ((handle_commit P n v).0.chain ≡ n.chain)
            × ((handle_commit P n v).0.saved_chain ≡ n.saved_chain))
  handle_commit_chain n v = elim (completes-or n v) [
    | inl c ↦ let (grown, saved) = complete n v c in inl (c, grown, saved ∙ sym grown)
    | inr open' ↦ let (same, saved) = idle n v open' in inr (open', same, saved)
  ]

  -- A commit for a hash that the node has no list of commits for changes nothing. Where it is signed
  -- and by a listed validator, the handler throws; where its signature does not verify, or it is
  -- signed and by no listed validator, the handler returns without an exception.
  pub handle_commit_early :
      (n : Node) (v : Vouch)
      → lookup v.block_hash n.commits ≡ none
      → ((handle_commit P n v).0 ≡ n)
        × (is_valid_message P v ≡ ok true
            → is_valid_validator P n.members v.public_key ≡ ok true
            → (handle_commit P n v).1 ≡ some "error handling new block commit")
        × (is_valid_message P v ≡ ok false → (handle_commit P n v).1 ≡ none)
        × (is_valid_message P v ≡ ok true
            → is_valid_validator P n.members v.public_key ≡ ok false
            → (handle_commit P n v).1 ≡ none)
  unfolding handle_commit commit_accepted add_commit existing_message
  handle_commit_early n v e =
      (ground (arith, e), ground (arith, e), ground (arith, e), ground (arith, e))

  -- Where the block of the pool that a commit is for already is the last block of the chain and does
  -- not link to itself, a commit that is new, signed and a validator's and makes the commits for the
  -- block reach the threshold appends that block a second time, with one more commit in its list and
  -- its prepares of now, and otherwise as it is in the chain; the chain is then not valid.
  pub handle_commit_late :
      (json : Block → String) (n : Node) (v : Vouch) (b : Block) (bs : List Block)
      (c : Completes n v)
      → n.chain ≡ b ∷ bs
      → last_or b bs ≡ c.pooled
      → c.pooled.last_hash ≢ c.pooled.hash
      → ((handle_commit P n v).0.chain ≡ n.chain ++ vouched n c.pooled (c.before ++ v ∷ []) ∷ [])
        × (is_valid_chain P json (handle_commit P n v).0.chain ≡ false)
  handle_commit_late json n v b bs c e_chain e_last ne =
      let grown = (complete n v c).0 in
      let d = vouched n c.pooled (c.before ++ v ∷ []) in
      (
        grown,
        rw (grown ∙ ap (λ l. l ++ d ∷ []) e_chain)
            (is_valid_chain_twice P json b d bs ne (ap (λ x. x.hash) e_last)),
      )
