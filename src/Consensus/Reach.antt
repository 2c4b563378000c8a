-- ===== src/Consensus/Reach.antt =====
-- The states of a node of src/p2p and src/consensus that messages lead to.
use threshold_sig_multiparty.Prelude.{◌≡◌, String, []}
use threshold_sig_multiparty.Platform.{Platform}
use threshold_sig_multiparty.Ledger.{Block}
use threshold_sig_multiparty.Consensus.{Node}
use threshold_sig_multiparty.Consensus.Election.{Message, Surroundings, handle}
use threshold_sig_multiparty.Consensus.Counting.{CountsOnce, handle-CountsOnce}

-- A step handles one message, in surroundings that the network and the clock choose.
pub data Step (P : Platform) (json : Block → String) : Node → Node → Type 0 where
  receive : (w : Surroundings) (n : Node) (m : Message) → Step P json n (handle P json w n m).0

pub data Reach (P : Platform) (json : Block → String) (start : Node) : Node → Type 0 where
  here : Reach P json start start
  next : {n n' : Node} → Reach P json start n → Step P json n n' → Reach P json start n'

module _ (P : Platform) (json : Block → String) where
  -- In every state that a node without prepares and commits reaches, whatever messages arrive in
  -- whatever order, each public key stands at most once among the prepares and among the commits of
  -- a block.
  pub Reach-CountsOnce :
      (start : Node) {n : Node}
      → start.prepares ≡ []
      → start.commits ≡ []
      → Reach P json start n
      → CountsOnce n
  Reach-CountsOnce start p c here = record { prepares = rw p tt; commits = rw c tt }
  Reach-CountsOnce start p c (next r (receive w n m)) =
      handle-CountsOnce P json w n m (Reach-CountsOnce start p c r)
