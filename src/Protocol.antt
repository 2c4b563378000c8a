-- ===== src/Protocol.antt =====
-- src/protocol/abstractProtocolHnadler.ts and src/protocol/keygenProtocol.ts: the session manager of
-- a key generation. What a round computes is not part of it: a round is known here by its kind.
pub mod Processor
pub mod Proofs
pub mod Progress
use Prim.Native.String.{◌++◌ as str_append}
use threshold_sig_multiparty.Prelude.{
  ℕ, zero, suc, ◌+◌, ◌-◌, String, Bool, true, false, not, ◌&&◌, ◌||◌, List, [], ◌∷◌, ◌++◌, Option,
  none, some, if◌then◌else◌, ltb, leb, length, get_elem?, set,
}
use threshold_sig_multiparty.Prelude.Eq.{◌==◌, nat_eq, string_eq}
use threshold_sig_multiparty.Prelude.Dict.{lookup, insert}
use threshold_sig_multiparty.Prelude.Result.{Result, ok, err, ◌>>=◌}
use threshold_sig_multiparty.MessageQueue.Board
use threshold_sig_multiparty.MessageQueue.Board.{QueueMap}
use threshold_sig_multiparty.MessageQueue.Log
use threshold_sig_multiparty.MessageQueue.Log.{LogMap}
use threshold_sig_multiparty.Message.{Message, Session, can_accept}

-- The flags that the constructor of each round class passes to its parent.
pub record Kind : Type 0 where
  pub is_broadcast_round : Bool
  pub is_direct_message_round : Bool

-- `Round` of src/protocol/types.ts.
pub record Round : Type 0 where
  pub kind : Kind
  pub initialized : Bool
  pub finished : Bool

abbrev silent : Kind
silent = record { is_broadcast_round = false; is_direct_message_round = false }

abbrev broadcasting : Kind
broadcasting = record { is_broadcast_round = true; is_direct_message_round = false }

abbrev both : Kind
both = record { is_broadcast_round = true; is_direct_message_round = true }

-- AllKeyGenRounds: the session and the rounds 1 to 5.
unfoldable pub keygen_kinds : List Kind
keygen_kinds = silent ∷ broadcasting ∷ broadcasting ∷ both ∷ broadcasting ∷ silent ∷ []

abbrev pub final_round : ℕ
final_round = 5

-- The transaction KEYGEN_PROOF that verifyAndEndSession posts.
pub record KeygenProof : Type 0 where
  pub from : String
  pub proof : List ℕ

-- The fields of AbstractProcolManager and KeygenSessionManager, the transactions posted so far, and
-- the number of the calls of electNewLeader.
pub record Manager (T : Type 0) : Type 0 where
  pub self_id : String
  pub threshold : ℕ
  pub validators : List String
  pub session_initialized : Bool
  pub current_round : ℕ
  pub rounds : List Round
  pub session : Session
  pub messages : QueueMap T
  pub direct_messages : LogMap T
  pub proofs : List ℕ
  pub broadcast_round_hashes : List (ℕ × String)
  pub direct_message_round_hashes : List (ℕ × String)
  pub posted : List KeygenProof
  pub elections : ℕ

-- `hashMessageData`: SHA-256 of the JSON text, of a text and of the data of a message.
pub record Digest (T : Type 0) : Type 0 where
  pub of_text : String → String
  pub of_message : T → String

-- `dataForRound.join("")`
unfoldable pub join : List String → String
join [] = ""
join (s ∷ ss) = str_append s (join ss)

-- The rounds of a new session; only the session itself, at index 0, is done.
unfoldable pub start_rounds : ℕ → List Kind → List Round
start_rounds i [] = []
start_rounds i (k ∷ ks) =
    record { kind = k; initialized = i == 0; finished = i == 0 } ∷ start_rounds (i + 1) ks

module _ {T : Type 0} where
  -- startNewSession
  unfoldable pub start_new_session : Digest T → List String → Manager T → Result (Manager T)
  unfolding start_rounds keygen_kinds insert
  start_new_session D party_ids m =
      if m.session_initialized || ltb 0 m.current_round
      then err "there is already a keygen session n progress"
      else (ok record m {
        direct_messages = Log.initialize (final_round + 1);
        messages = Board.initialize m.validators (final_round + 1);
        broadcast_round_hashes = insert 0 (D.of_text "0x0") m.broadcast_round_hashes;
        direct_message_round_hashes = insert 2 (D.of_text "0x0") m.direct_message_round_hashes;
        rounds = start_rounds 0 keygen_kinds;
        session = record {
          protocol_id = "cmp/sign";
          party_ids = party_ids;
          final_round = final_round;
        };
        session_initialized = true;
      })

  -- startNewRound: the round counter is raised before the guard. Past the last round
  -- `this.rounds[newRound].round` throws.
  unfoldable pub start_new_round : Manager T → Result (Manager T)
  start_new_round m = elim (get_elem? m.rounds m.current_round) [
    | none ↦ err "Cannot read properties of undefined"
    | some last ↦
        let new_round = m.current_round + 1 in
        let m1 : Manager T = record m { current_round = new_round } in
        if not last.finished || not m.session_initialized
        then ok m1
        else (elim (get_elem? m.rounds new_round) [
          | none ↦ err "Cannot read properties of undefined"
          | some r ↦ ok (record m1 {
            rounds =
                set m.rounds new_round
                  (record { kind = r.kind; initialized = false; finished = false });
          })
        ])
  ]

  -- storePeerBroadcastResponse: the message goes to the entry of the sender that the envelope names.
  unfoldable pub store_peer_broadcast_response :
      Option (Message T) → Kind → String → Manager T → Manager T
  unfolding can_accept
  store_peer_broadcast_response none kind sender m = m
  store_peer_broadcast_response (some msg) kind sender m =
      if kind.is_broadcast_round && can_accept msg m.session m.self_id
      then record m { messages = Board.set m.current_round sender msg.content m.messages }
      else m

  -- storePeerDirectMessageResponse
  unfoldable pub store_peer_direct_message_response : Message T → Kind → Manager T → Manager T
  unfolding can_accept
  store_peer_direct_message_response msg kind m =
      if kind.is_direct_message_round && can_accept msg m.session m.self_id
      then record m { direct_messages = Log.set m.current_round msg.content m.direct_messages }
      else m

  -- receivedAll
  unfoldable pub received_all : Kind → Manager T → Result Bool
  received_all kind m = do
    broadcasts ← Board.get_round_messages_len m.current_round m.messages
    let direct = Log.get_non_null_values_length m.current_round m.direct_messages
    let parties = length m.validators
    ok (
        if kind.is_broadcast_round && kind.is_direct_message_round
        then (broadcasts == parties) && (direct + 1 == parties)
        else if kind.is_broadcast_round && not kind.is_direct_message_round
        then broadcasts == parties
        else if not kind.is_broadcast_round && kind.is_direct_message_round
        then direct + 1 == parties
        else true)

  -- isFinalRound, where a round of 0 stands for a missing argument too.
  unfoldable pub is_final_round : ℕ → Manager T → Bool
  is_final_round round m =
      if not (round == 0) then round == final_round else m.current_round == final_round

  -- storePeerProofs
  unfoldable pub store_peer_proofs : Option ℕ → Manager T → Manager T
  unfolding is_final_round
  store_peer_proofs none m = m
  store_peer_proofs (some proof) m =
      if is_final_round m.current_round m then record m { proofs = m.proofs ++ proof ∷ [] } else m

  -- resetSessionState, with `this.proofs = []` of verifyAndEndSession.
  unfoldable pub end_session : Manager T → Manager T
  end_session m = record m {
    current_round = 0;
    session_initialized = false;
    rounds = [];
    messages = [];
    direct_messages = [];
    proofs = [];
  }

  -- `this.rounds[currentRound].finished = true` and startNewRound, of finalizeCurrentRound.
  unfoldable pub finalize_current_round : Manager T → Result (Manager T)
  unfolding start_new_round
  finalize_current_round m = elim (get_elem? m.rounds m.current_round) [
    | none ↦ err "Cannot read properties of undefined"
    | some r ↦
        start_new_round
          (record m { rounds = set m.rounds m.current_round (record r { finished = true }) })
  ]
