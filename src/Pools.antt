-- ===== src/Pools.antt =====
-- src/consensus/pBft (BlockPool, PreparePool, CommitPool, MessagePool) and
-- src/wallet/transactionPool.ts: what a node has seen of the current round.
pub mod Vouching
use Prim.Native.String.{◌++◌ as str_append}
use threshold_sig_multiparty.Prelude.{
  ℕ, String, Bool, true, false, List, [], ◌∷◌, ◌++◌, Option, none, some, if◌then◌else◌, leb, length,
  find,
}
use threshold_sig_multiparty.Prelude.Eq.{◌==◌, string_eq}
use threshold_sig_multiparty.Prelude.Dict.{lookup, insert}
use threshold_sig_multiparty.Prelude.Result.{Result, ok, err, ◌>>=◌}
use threshold_sig_multiparty.Platform.{Platform, Wallet}
use threshold_sig_multiparty.Ledger.{Block, Transaction, Vouch, verify_transaction}
use threshold_sig_multiparty.Validators.{Members, get_all_validators, quorum}

-- BlockPool: `existingBlock`, `getBlock` and `addBlock`.
unfoldable pub get_block : String → List Block → Option Block
get_block hash blocks = find (λ b. b.hash == hash) blocks

unfoldable pub existing_block : Block → List Block → Option Block
existing_block block blocks = find (λ b. b.hash == block.hash) blocks

unfoldable pub add_block : Block → List Block → List Block
add_block block blocks = blocks ++ block ∷ []

-- The lists of PreparePool and CommitPool, by block hash.
abbrev pub Vouches : Type 0
Vouches = List (String × List Vouch)

-- `createPrepare` and `createCommit`
unfoldable pub create_vouch : String → Wallet → Vouch
create_vouch hash wallet = record {
  block_hash = hash;
  public_key = wallet.public_key;
  signature = wallet.sign hash;
}

-- `message` of both pools: the list of the hash starts again with the node's own message.
unfoldable pub own_message : String → Wallet → Vouches → Vouches × Vouch
unfolding create_vouch insert
own_message hash wallet list = let v = create_vouch hash wallet in (insert hash (v ∷ []) list, v)

unfoldable pub existing_message : Vouch → Vouches → Option Vouch
unfolding lookup
existing_message v list = elim (lookup v.block_hash list) [
  | none ↦ none
  | some vs ↦ find (λ p. p.public_key == v.public_key) vs
]

unfoldable pub is_valid_message : Platform → Vouch → Result Bool
is_valid_message P v = P.verify v.public_key v.signature v.block_hash

-- PreparePool: `this.list[hash]?.push(prepare)`
unfoldable pub add_prepare : Vouch → Vouches → Vouches
unfolding lookup insert
add_prepare v list = elim (lookup v.block_hash list) [
  | none ↦ list
  | some vs ↦ insert v.block_hash (vs ++ v ∷ []) list
]

-- CommitPool: `this.list[hash].push(commit)`, which throws on a missing list.
unfoldable pub add_commit : Vouch → Vouches → Result Vouches
unfolding lookup insert
add_commit v list = elim (lookup v.block_hash list) [
  | none ↦ err "Cannot read properties of undefined"
  | some vs ↦ ok (insert v.block_hash (vs ++ v ∷ []) list)
]

-- RoundChangeMessage and MessagePool.
pub record RoundChange : Type 0 where
  pub public_key : String
  pub message : String
  pub signature : String
  pub block_hash : String

abbrev pub RoundChanges : Type 0
RoundChanges = List (String × List RoundChange)

abbrev pub initiate_new_round : String
initiate_new_round = "INITIATE NEW ROUND"

unfoldable pub create_round_change :
    Platform → String → Wallet → RoundChanges → RoundChanges × RoundChange
unfolding insert
create_round_change P hash wallet list =
    let m : RoundChange = record {
      public_key = wallet.public_key;
      message = initiate_new_round;
      signature = wallet.sign (P.sha256_json (str_append initiate_new_round hash));
      block_hash = hash;
    } in
    (insert hash (m ∷ []) list, m)

unfoldable pub existing_round_change : RoundChange → RoundChanges → Option RoundChange
unfolding lookup
existing_round_change m list = elim (lookup m.block_hash list) [
  | none ↦ none
  | some ms ↦ find (λ p. p.public_key == m.public_key) ms
]

unfoldable pub is_valid_round_change : Platform → RoundChange → Result Bool
is_valid_round_change P m =
    P.verify m.public_key m.signature (P.sha256_json (str_append m.message m.block_hash))

unfoldable pub add_round_change : RoundChange → RoundChanges → RoundChanges
unfolding lookup insert
add_round_change m list = elim (lookup m.block_hash list) [
  | none ↦ list
  | some ms ↦ insert m.block_hash (ms ++ m ∷ []) list
]

-- TransactionPool.
unfoldable pub threshold_reached : Members → List Transaction → Bool
unfolding get_all_validators quorum
threshold_reached m ts = leb (quorum (length (get_all_validators m))) (length ts)

abbrev overrides : Option Bool → Bool
overrides none = false
overrides (some b) = b

unfoldable pub add_transaction : Members → Transaction → List Transaction → List Transaction × Bool
unfolding threshold_reached
add_transaction m t ts =
    let ts' = ts ++ t ∷ [] in (ts', if overrides t.override then true else threshold_reached m ts')

unfoldable pub transaction_exists : Transaction → List Transaction → Option Transaction
transaction_exists t ts = find (λ u. u.id == t.id) ts

-- `verifyTransaction` of the pool: an exception is `false`.
unfoldable pub verifies : Platform → Transaction → Bool
unfolding verify_transaction
verifies P t = elim (verify_transaction P t) [ ok b ↦ b | err e ↦ false ]

-- `validTransactions`: the loop of the filter; an exception stops it.
unfoldable pub valid_transactions : Platform → List Transaction → Result (List Transaction)
unfolding verify_transaction
valid_transactions P [] = ok []
valid_transactions P (t ∷ ts) = do
  b ← verify_transaction P t
  rest ← valid_transactions P ts
  ok (if b then t ∷ rest else rest)
