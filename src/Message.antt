-- ===== src/Message.antt =====
-- src/protocol/message/message.ts (Message.isFor) and canAccept of src/p2p/validators/validator.ts:
-- which messages a node takes.
pub mod Acceptance
use threshold_sig_multiparty.Prelude.{
  ℕ, ◌<◌, String, Bool, true, false, not, ◌||◌, Option, none, some, List, if◌then◌else◌, ltb,
}
use threshold_sig_multiparty.Prelude.Eq.{◌==◌, string_eq}
use threshold_sig_multiparty.Validators.{includes}

-- `none` is data that is missing.
pub record Message (T : Type 0) : Type 0 where
  pub from : String
  pub to : String
  pub protocol : String
  pub round_number : ℕ
  pub content : Option T
  pub broadcast : Bool

-- The fields of KeygenSession and SignSession that `canAccept` reads.
pub record Session : Type 0 where
  pub protocol_id : String
  pub party_ids : List String
  pub final_round : ℕ

module _ {T : Type 0} where
  unfoldable pub is_for : String → Message T → Bool
  is_for id msg = if msg.from == id then false else (msg.to == "") || (msg.to == id)

  unfoldable pub has_content : Option T → Bool
  has_content none = false
  has_content (some _) = true

  unfoldable pub can_accept : Message T → Session → String → Bool
  unfolding is_for has_content
  can_accept msg session node_id =
      if not (is_for node_id msg)
      then false
      else if not (session.protocol_id == msg.protocol)
      then false
      else if not (includes msg.from session.party_ids)
      then false
      else if not (has_content msg.content)
      then false
      else if ltb session.final_round msg.round_number
      then false
      else true
