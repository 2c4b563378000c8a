-- ===== src/Tests/Ledgers.antt =====
-- The ledger and the validators at concrete inputs.
use threshold_sig_multiparty.Prelude.{
  ℕ, ◌*◌, ◌<◌, ◌≤◌, ◌≡◌, ◌⊎◌, refl, String, true, ◌&&◌, List, [], ◌∷◌, ◌++◌, none, some, length,
  count, ltb, arith,
}
use threshold_sig_multiparty.Prelude.Result.{ok}
use threshold_sig_multiparty.Platform.{Platform, Wallet}
use threshold_sig_multiparty.Ledger.{
  Block, Transaction, Stamp, genesis, create_block, is_valid_chain, replace_chain,
}
use threshold_sig_multiparty.Ledger.Validity.{replace_chain_lem, is_valid_chain-create_block}
use threshold_sig_multiparty.Validators.{quorum}
use threshold_sig_multiparty.Validators.Quorum.{quorum_intersection}

-- A platform whose hash is the text itself and whose signatures are the signed texts.
abbrev pub plain : Platform
plain = record {
  sha256_json = λ s. s;
  verify = λ k s h. ok true;
  number_text = λ n. "1";
  match_wallet_info = λ s. some (s, s, s);
}

abbrev pub wallet_of : String → Wallet
wallet_of s = record { node_id = s; public_key = s; sign = λ h. h }

abbrev pub payment : Transaction
payment = record {
  id = "t";
  from = "a";
  input_hash = "i";
  hash = "i";
  signature = "i";
  override = none;
}

-- The block that "a" makes from the genesis block.
abbrev pub first_block : Block
first_block = record {
  timestamp = Stamp.number 5;
  last_hash = "genesis-hash";
  hash = "1genesis-hash[object Object]";
  contents = (payment ∷ []) ∷ [];
  validator = "a";
  signature = "1genesis-hash[object Object]";
  sequence_number = 1;
  prepare_messages = none;
  commit_messages = none;
}

abbrev pub json_text : Block → String
json_text b = b.hash

replace_chain_lem_example :
    ((replace_chain plain json_text (genesis ∷ first_block ∷ []) (genesis ∷ []) ≡ genesis ∷ [])
      ⊎ ((replace_chain plain json_text (genesis ∷ first_block ∷ []) (genesis ∷ [])
            ≡ genesis ∷ first_block ∷ [])
          × (length (genesis ∷ []) < length (genesis ∷ first_block ∷ []))
          × (is_valid_chain plain json_text (genesis ∷ first_block ∷ []) ≡ true)))
    × (length (genesis ∷ [])
        ≤ length (replace_chain plain json_text (genesis ∷ first_block ∷ []) (genesis ∷ [])))
    × (is_valid_chain plain json_text (genesis ∷ []) ≡ true
        → is_valid_chain plain json_text
            (replace_chain plain json_text (genesis ∷ first_block ∷ []) (genesis ∷ []))
          ≡ true)
replace_chain_lem_example =
    replace_chain_lem plain json_text (genesis ∷ first_block ∷ []) (genesis ∷ [])

is_valid_chain-create_block_example :
    is_valid_chain plain json_text ((genesis ∷ []) ++ first_block ∷ []) ≡ true
unfolding is_valid_chain create_block genesis
is_valid_chain-create_block_example =
    is_valid_chain-create_block plain json_text 5 genesis first_block [] (payment ∷ [])
      (wallet_of "a") refl refl

abbrev four : List ℕ
four = 0 ∷ 1 ∷ 2 ∷ 3 ∷ []

quorum_intersection_example : length four < 3 * count (λ x. (ltb x 3) && (ltb 0 x)) four
unfolding quorum
quorum_intersection_example =
    quorum_intersection (λ x. ltb x 3) (λ x. ltb 0 x) four (omega arith) (omega arith) (omega arith)
