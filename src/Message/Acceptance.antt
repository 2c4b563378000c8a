-- ===== src/Message/Acceptance.antt =====
-- What an accepted message is.
use threshold_sig_multiparty.Prelude.{◌≤◌, ◌≡◌, ◌≢◌, ◌⊎◌, ◌↔◌, String, true, none, arith}
use threshold_sig_multiparty.Prelude.Eq.{string_eq}
use threshold_sig_multiparty.Validators.{includes}
use threshold_sig_multiparty.Message.{Message, Session, can_accept}

module _ {T : Type 0} where
  -- A node accepts a message exactly when it comes from another party of the session, is addressed
  -- to all or to this node, belongs to the session's protocol, carries data, and names a round that
  -- is not after the final one.
  pub can_accept_iff :
      (msg : Message T) (session : Session) (node_id : String)
      → (can_accept msg session node_id ≡ true) ↔ (
          (msg.from ≢ node_id)
          × ((msg.to ≡ "") ⊎ (msg.to ≡ node_id))
          × (session.protocol_id ≡ msg.protocol)
          × (includes msg.from session.party_ids ≡ true)
          × (msg.content ≢ none)
          × (msg.round_number ≤ session.final_round))
  unfolding can_accept
  can_accept_iff msg session node_id = ground (
    arith,
    string_eq.beq_iff msg.from node_id,
    string_eq.beq_iff msg.to "",
    string_eq.beq_iff msg.to node_id,
    string_eq.beq_iff session.protocol_id msg.protocol,
  )
