-- ===== src/Ledger/Validity.antt =====
-- Valid chains: how `isValidChain`, `replaceChain` and `createBlock` fit together.
use threshold_sig_multiparty.Prelude.{
  ℕ, ◌≤◌, ◌<◌, ◌≡◌, ◌≢◌, ◌↔◌, ◌⊎◌, refl, String, true, false, ◌&&◌, List, [], ◌∷◌, ◌++◌, length,
  last_or, arith,
}
use threshold_sig_multiparty.Prelude.Eq.{◌==◌, string_eq, ==_sound}
use threshold_sig_multiparty.Prelude.Result.{ok}
use threshold_sig_multiparty.Platform.{Platform, Wallet}
use threshold_sig_multiparty.Ledger.{
  Block, Transaction, block_hash, create_block, links, is_valid_chain, replace_chain, genesis,
}

module _ (P : Platform) where
  -- `b` may follow `a`: it names the hash of `a`, and carries its own hash.
  abbrev pub Follows : Block → Block → Type 0
  Follows a b = (b.last_hash ≡ a.hash) × (b.hash ≡ block_hash P b)

  -- Every block follows the one before it.
  pub data Linked : Block → List Block → Type 0 where
    end : (a : Block) → Linked a []
    next : (a b : Block) (bs : List Block) → Follows a b → Linked b bs → Linked a (b ∷ bs)

  links-Linked : (a : Block) (bs : List Block) → links P a bs ≡ true → Linked a bs
  unfolding links
  links-Linked a [] h = end a
  links-Linked a (b ∷ bs) h =
      next a b bs
        (
          ground (arith, ==_sound b.last_hash a.hash),
          ground (arith, ==_sound b.hash (block_hash P b)),
        )
        (links-Linked b bs (ground arith))

  Linked-links : (a : Block) (bs : List Block) → Linked a bs → links P a bs ≡ true
  unfolding links
  Linked-links a bs (end _) = refl
  Linked-links a bs' (next _ b bs f l) = ground (
    arith,
    f.0,
    f.1,
    string_eq.beq_iff b.last_hash a.hash,
    string_eq.beq_iff b.hash (block_hash P b),
    Linked-links b bs l,
  )

  -- `isValidChain` accepts a chain exactly when its first block has the text of the genesis block
  -- and every later block names the hash of the block before it and carries its own hash.
  pub is_valid_chain_iff :
      (json : Block → String) (b : Block) (bs : List Block)
      → (is_valid_chain P json (b ∷ bs) ≡ true) ↔ ((json b ≡ json genesis) × Linked b bs)
  unfolding is_valid_chain
  is_valid_chain_iff json b bs = (
    (λ h. (ground (arith, ==_sound (json b) (json genesis)), links-Linked b bs (ground arith))),
    (λ v. ground (arith, v.0, string_eq.beq_iff (json b) (json genesis), Linked-links b bs v.1)),
  )

  links-append :
      (a c : Block) (bs : List Block)
      → links P a (bs ++ c ∷ [])
        ≡ (links P a bs && (c.last_hash == (last_or a bs).hash) && (c.hash == block_hash P c))
  unfolding links
  links-append a c [] = ground arith
  links-append a c (b ∷ bs) = ground (arith, links-append b c bs)

  -- The chain that `replaceChain` leaves is the old one, or the new one if that is longer and valid;
  -- so it is never shorter than the old one, and it is valid if the old one was.
  pub replace_chain_lem :
      (json : Block → String) (new_chain chain : List Block)
      → ((replace_chain P json new_chain chain ≡ chain)
          ⊎ ((replace_chain P json new_chain chain ≡ new_chain)
              × (length chain < length new_chain)
              × (is_valid_chain P json new_chain ≡ true)))
        × (length chain ≤ length (replace_chain P json new_chain chain))
        × (is_valid_chain P json chain ≡ true
            → is_valid_chain P json (replace_chain P json new_chain chain) ≡ true)
  unfolding replace_chain
  replace_chain_lem json new_chain chain = (ground arith, ground arith, ground arith)

  -- A valid chain to which the block is appended that `createBlock` makes from its last block is
  -- again valid.
  pub is_valid_chain-create_block :
      (json : Block → String) (now : ℕ) (b c : Block) (bs : List Block) (ts : List Transaction)
      (w : Wallet)
      → is_valid_chain P json (b ∷ bs) ≡ true
      → create_block P now (last_or b bs) ts w ≡ ok c
      → is_valid_chain P json ((b ∷ bs) ++ c ∷ []) ≡ true
  unfolding is_valid_chain create_block block_hash
  is_valid_chain-create_block json now b c bs ts w v e = ground (
    arith,
    links-append b c bs,
    string_eq.beq_iff c.last_hash (last_or b bs).hash,
    string_eq.beq_iff c.hash (block_hash P c),
  )

  -- A chain to which a block is appended with the hash of its last block is not valid, unless the
  -- block names its own hash as the one before it.
  pub is_valid_chain_twice :
      (json : Block → String) (b c : Block) (bs : List Block)
      → c.last_hash ≢ c.hash
      → (last_or b bs).hash ≡ c.hash
      → is_valid_chain P json ((b ∷ bs) ++ c ∷ []) ≡ false
  unfolding is_valid_chain
  is_valid_chain_twice json b c bs ne e =
      ground (arith, links-append b c bs, ==_sound c.last_hash (last_or b bs).hash)
