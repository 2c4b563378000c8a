-- ===== src/Consensus/Proposals.antt =====
-- What a proposed block and a prepare message do: handleNewBlockPrePrepare, handleNewBlockPrepare.
use threshold_sig_multiparty.Prelude.{
  ◌+◌, ◌≤◌, ◌≡◌, refl, sym, ◌∙◌, ap, ◌≢◌, ◌⊎◌, String, true, List, [], ◌∷◌, ◌++◌, Option, none,
  some, length, length-append, arith, inl, inr, Option-cases,
}
use threshold_sig_multiparty.Prelude.Eq.{string_eq, nat_eq, ==_sound, ==_refl}
use threshold_sig_multiparty.Prelude.Dict.{lookup, lookup-insert_self}
use threshold_sig_multiparty.Prelude.Result.{ok, Guard-cases, Result-cases}
use threshold_sig_multiparty.Platform.{Platform}
use threshold_sig_multiparty.Ledger.{Block, Vouch, block_hash, verify_block, verify_leader}
use threshold_sig_multiparty.Validators.{is_valid_validator}
use threshold_sig_multiparty.Pools.{
  existing_block, add_block, existing_message, is_valid_message, own_message, create_vouch,
  add_prepare,
}
use threshold_sig_multiparty.Consensus.{
  Node, threshold, last_block, leader_key, is_valid_block, handle_pre_prepare, prepare_accepted,
  handle_prepare,
}

module _ (P : Platform) where
  -- What `isValidBlock` asks of a block, after the last block of the chain.
  pub record Extends (n : Node) (b : Block) : Type 0 where
    pub last : Block
    pub last_is : last_block n.chain ≡ some last
    pub numbered : last.sequence_number + 1 ≡ b.sequence_number
    pub linked : b.last_hash ≡ last.hash
    pub hashed : b.hash ≡ block_hash P b
    pub signed : verify_block P b ≡ ok true
    pub led : leader_key P n ≡ ok (some b.validator)

  leader_signed :
      (b : Block) (key : Option String) → verify_leader b key ≡ true → key ≡ some b.validator
  unfolding verify_leader
  leader_signed b none h = cc
  leader_signed b (some l) h = ground (arith, ==_sound b.validator l)

  is_valid_block-Extends : (n : Node) (b : Block) → is_valid_block P n b ≡ ok true → Extends n b
  unfolding is_valid_block
  is_valid_block-Extends n b h = elim (Option-cases (last_block n.chain)) [
    | inl e ↦ absurd (ground (arith, e))
    | inr (last, e) ↦ record {
      last = last;
      last_is = e;
      numbered = ground (arith, e);
      linked = ground (arith, e, ==_sound b.last_hash last.hash);
      hashed = ground (arith, e, ==_sound b.hash (block_hash P b));
      signed = ground (arith, e);
      led = elim (Result-cases (leader_key P n)) [
        | inr (t, k) ↦ absurd (ground (arith, e, k))
        | inl (key, k) ↦ rw k (ap ok (leader_signed b key (ground (arith, e, k))))
      ];
    }
  ]

  existing_block-add : (b : Block) (bs : List Block) → existing_block b (add_block b bs) ≢ none
  unfolding existing_block add_block
  existing_block-add b [] = ground (arith, ==_refl b.hash)
  existing_block-add b (c ∷ bs) = ground (arith, existing_block-add b bs)

  -- A proposed block enters the block pool only if it is new there and extends the chain: it has
  -- the next sequence number, the hash of the last block as its link, its own hash, the signature
  -- of its validator on that hash, and the leader's key for its validator. In every other case the
  -- pools and the chain stay as they were and nothing is sent.
  pub handle_pre_prepare-Extends :
      (n : Node) (b : Block)
      → ((handle_pre_prepare P n b).0 ≡ n)
        ⊎ ((existing_block b n.blocks ≡ none)
            × Extends n b
            × ((handle_pre_prepare P n b).0.blocks ≡ add_block b n.blocks)
            × ((handle_pre_prepare P n b).0.chain ≡ n.chain))
  handle_pre_prepare-Extends n b = elim (Option-cases (existing_block b n.blocks)) [
    | inr (c, e) ↦ inl (unfold handle_pre_prepare in ground (arith, e))
    | inl e ↦ elim (Guard-cases (is_valid_block P n b)) [
      | inl v ↦ inr (
        e,
        is_valid_block-Extends n b v,
        unfold handle_pre_prepare in ground (arith, e, v),
        unfold handle_pre_prepare in ground (arith, e, v),
      )
      | inr (inl v) ↦ inl (unfold handle_pre_prepare in ground (arith, e, v))
      | inr (inr (t, v)) ↦ inl (unfold handle_pre_prepare in ground (arith, e, v))
    ]
  ]

  known_block :
      (n : Node) (b c : Block)
      → existing_block b n.blocks ≡ some c
      → (handle_pre_prepare P n b).0 ≡ n
  unfolding handle_pre_prepare
  known_block n b c e = rw (e, handle_pre_prepare) refl

  -- The same block proposed again changes nothing.
  pub handle_pre_prepare_twice :
      (n : Node) (b : Block)
      → (handle_pre_prepare P (handle_pre_prepare P n b).0 b).0 ≡ (handle_pre_prepare P n b).0
  handle_pre_prepare_twice n b = elim (handle_pre_prepare-Extends n b) [
    | inl same ↦ ap (λ m. (handle_pre_prepare P m b).0) same
    | inr (new, x, pooled, kept) ↦
        elim (Option-cases (existing_block b (handle_pre_prepare P n b).0.blocks)) [
          | inl e ↦ absurd (existing_block-add b n.blocks (ap (existing_block b) (sym pooled) ∙ e))
          | inr (c, e) ↦ known_block (handle_pre_prepare P n b).0 b c e
        ]
  ]

  -- A new, valid prepare for a hash that the node has prepared itself, when the prepares reach the
  -- threshold with it, starts the node's list of commits for that hash again with its own commit:
  -- every commit that it had collected for the hash is dropped.
  pub handle_prepare_resets_commits :
      (n : Node) (v : Vouch) (vs : List Vouch)
      → lookup v.block_hash n.prepares ≡ some vs
      → threshold n ≤ length vs + 1
      → existing_message v n.prepares ≡ none
      → is_valid_message P v ≡ ok true
      → is_valid_validator P n.members v.public_key ≡ ok true
      → lookup v.block_hash (handle_prepare P n v).0.commits
        ≡ some (create_vouch v.block_hash n.wallet ∷ [])
  unfolding handle_prepare prepare_accepted own_message add_prepare
  handle_prepare_resets_commits n v vs e reached new valid member = ground (
    arith,
    e,
    lookup-insert_self v.block_hash (vs ++ v ∷ []) n.prepares,
    lookup-insert_self v.block_hash (create_vouch v.block_hash n.wallet ∷ []) n.commits,
    length-append vs (v ∷ []),
  )
