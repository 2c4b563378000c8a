-- ===== src/Platform.antt =====
-- What the ledger takes from elliptic, crypto-js and the JavaScript runtime: operations that are not
-- under src/. None of them is assumed to have a law beyond its type.
use threshold_sig_multiparty.Prelude.{ℕ, String, Bool, Option}
use threshold_sig_multiparty.Prelude.Result.{Result}

pub record Platform : Type 0 where
  -- `SHA256(JSON.stringify(text)).toString()`
  pub sha256_json : String → String
  -- `eddsa.keyFromPublic(publicKey).verify(dataHash, signature)`, which throws on a malformed key
  pub verify : String → String → String → Result Bool
  -- The text of a number in a template literal.
  pub number_text : ℕ → String
  -- `templateString.match(/publicKey: (.+?) -\s+validatorId: (.+?) -\s+port: (.+?)$/)`: the three
  -- captures, `none` for `null`
  pub match_wallet_info : String → Option (String × String × String)

-- The key pair of a node (`Wallet.getPublicKey` and `Wallet.sign` of src/wallet/wallet.ts) with its
-- port, `Validator.nodeId`.
pub record Wallet : Type 0 where
  pub node_id : String
  pub public_key : String
  pub sign : String → String
