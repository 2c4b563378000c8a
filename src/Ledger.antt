-- ===== src/Ledger.antt =====
-- src/consensus/block.ts, src/wallet/transaction.ts and the chain of src/consensus/consesnsus.ts
-- (isValidChain, replaceChain): blocks, their hashes, and valid chains.
pub mod Validity
pub mod Hashes
use Prim.Native.String.{◌++◌ as str_append}
use threshold_sig_multiparty.Prelude.{
  ℕ, suc, ◌+◌, String, Bool, true, false, not, ◌&&◌, ◌||◌, List, [], ◌∷◌, Option, none, some, map,
  if◌then◌else◌, leb, length, last_or,
}
use threshold_sig_multiparty.Prelude.Eq.{◌==◌, nat_eq, string_eq}
use threshold_sig_multiparty.Prelude.Result.{Result, ok, err, ◌>>=◌}
use threshold_sig_multiparty.Platform.{Platform, Wallet}

-- A transaction; `input_hash` is `ChainUtil.hash(transaction.input)`.
pub record Transaction : Type 0 where
  pub id : String
  pub from : String
  pub input_hash : String
  pub hash : String
  pub signature : String
  pub override : Option Bool

-- CommitMessage and PrepareMessage of src/consensus/types.ts.
pub record Vouch : Type 0 where
  pub block_hash : String
  pub public_key : String
  pub signature : String

-- `string | number`
pub data Stamp : Type 0 where
  text : String → Stamp
  number : ℕ → Stamp

pub record Block : Type 0 where
  pub timestamp : Stamp
  pub last_hash : String
  pub hash : String
  pub contents : List (List Transaction)
  pub validator : String
  pub signature : String
  pub sequence_number : ℕ
  pub prepare_messages : Option (List Vouch)
  pub commit_messages : Option (List Vouch)

unfoldable pub genesis : Block
genesis = record {
  timestamp = text "genesis time";
  last_hash = "----";
  hash = "genesis-hash";
  contents = [];
  validator = "-------";
  signature = "------";
  sequence_number = 0;
  prepare_messages = none;
  commit_messages = none;
}

-- An array in a template literal: its entries joined by ",".
unfoldable pub join : List String → String
join [] = ""
join (s ∷ []) = s
join (s ∷ t ∷ ts) = str_append s (str_append "," (join (t ∷ ts)))

-- `${data}`: an array of arrays of objects, and each object prints as "[object Object]".
unfoldable pub contents_text : List (List Transaction) → String
unfolding join
contents_text contents = join (map (λ ts. join (map (λ t. "[object Object]") ts)) contents)

-- `Transaction.verifyTransaction`
unfoldable pub verify_transaction : Platform → Transaction → Result Bool
verify_transaction P t = P.verify t.from t.signature t.input_hash

unfoldable pub stamp_text : Platform → Stamp → String
stamp_text P (text s) = s
stamp_text P (number n) = P.number_text n

-- `Block.hash`
unfoldable pub hash_of : Platform → Stamp → String → List (List Transaction) → String
unfolding stamp_text contents_text
hash_of P timestamp last_hash contents =
    P.sha256_json
      (str_append (stamp_text P timestamp) (str_append last_hash (contents_text contents)))

unfoldable pub block_hash : Platform → Block → String
unfolding hash_of
block_hash P b = hash_of P b.timestamp b.last_hash b.contents

-- `Block.createBlock`, at the time `now`. An empty signature makes it throw.
unfoldable pub create_block : Platform → ℕ → Block → List Transaction → Wallet → Result Block
unfolding hash_of
create_block P now last_block transactions wallet =
    let contents = transactions ∷ [] in
    let h = hash_of P (number now) last_block.hash contents in
    let signature = wallet.sign h in
    if signature == ""
    then err "Errored interbnally: Failed to generate block signature"
    else (ok record {
      timestamp = number now;
      last_hash = last_block.hash;
      hash = h;
      contents = contents;
      validator = wallet.public_key;
      signature = signature;
      sequence_number = 1 + last_block.sequence_number;
      prepare_messages = none;
      commit_messages = none;
    })

unfoldable pub verify_block : Platform → Block → Result Bool
unfolding hash_of
verify_block P b = P.verify b.validator b.signature (hash_of P b.timestamp b.last_hash b.contents)

unfoldable pub verify_leader : Block → Option String → Bool
verify_leader b none = false
verify_leader b (some leader) = b.validator == leader

-- The loop of `isValidChain` from the block after `last_block`.
unfoldable pub links : Platform → Block → List Block → Bool
unfolding block_hash
links P last_block [] = true
links P last_block (b ∷ bs) =
    let rest = links P b bs in
    if not (b.last_hash == last_block.hash) || not (b.hash == block_hash P b) then false else rest

-- `isValidChain`, with `json` for `JSON.stringify` on blocks. On the empty chain
-- `JSON.stringify(undefined)` is `undefined`, which is not the text of the genesis block.
unfoldable pub is_valid_chain : Platform → (Block → String) → List Block → Bool
unfolding links genesis
is_valid_chain P json [] = false
is_valid_chain P json (b ∷ bs) = if json b == json genesis then links P b bs else false

-- The two guards of `replaceChain`.
unfoldable pub replaces : Platform → (Block → String) → List Block → List Block → Bool
unfolding is_valid_chain
replaces P json new_chain chain =
    if leb (length new_chain) (length chain) then false else is_valid_chain P json new_chain

-- The chain after `replaceChain`.
unfoldable pub replace_chain : Platform → (Block → String) → List Block → List Block → List Block
unfolding replaces
replace_chain P json new_chain chain = if replaces P json new_chain chain then new_chain else chain
