-- ===== src/Tests/Sessions.antt =====
-- The message stores and a key generation session of three parties at concrete inputs; "a" is the
-- node itself.
use threshold_sig_multiparty.Prelude.{
  ℕ, ◌+◌, ◌≤◌, ◌≡◌, ◌⊎◌, ◌↔◌, refl, String, Bool, true, false, ◌&&◌, List, [], ◌∷◌, Option, none,
  some, if◌then◌else◌, leb, any, all, length,
}
use threshold_sig_multiparty.Prelude.Eq.{◌==◌, nat_eq, string_eq}
use threshold_sig_multiparty.Prelude.Dict.{lookup}
use threshold_sig_multiparty.Prelude.Result.{ok}
use threshold_sig_multiparty.MessageQueue.Board
use threshold_sig_multiparty.MessageQueue.Board.{Queue, QueueMap, is_some}
use threshold_sig_multiparty.MessageQueue.Board.Writes.{last_write, get-set_all-initialize}
use threshold_sig_multiparty.MessageQueue.Board.Counts.{messages_len_full}
use threshold_sig_multiparty.MessageQueue.Board.Reset.{reset-set_all-initialize}
use threshold_sig_multiparty.MessageQueue.Log
use threshold_sig_multiparty.MessageQueue.Log.{messages_length, get_non_null_values_length}
use threshold_sig_multiparty.MessageQueue.Log.History.{history, round_values-set_all}
use threshold_sig_multiparty.Message.{Message, Session}
use threshold_sig_multiparty.Protocol.{
  Manager, Kind, Round, Digest, store_peer_broadcast_response, store_peer_proofs,
}
use threshold_sig_multiparty.Protocol.Processor.{
  Ending, check_proofs, advance, session_round_processor,
}
use threshold_sig_multiparty.Protocol.Progress.{
  Complete, Ended, stored, session_round_processor_progress,
}

abbrev parties : List String
parties = "a" ∷ "b" ∷ "c" ∷ []

abbrev writes : List (ℕ × String × Option ℕ)
writes = (1, "a", some 5) ∷ (1, "x", some 6) ∷ (1, "b", some 7) ∷ (1, "a", some 8) ∷ []

get-set_all-initialize_example :
    Board.get 1 "a" (Board.set_all writes (Board.initialize parties 2))
    ≡ (if leb 1 2 && any (λ id. id == "a") parties then last_write 1 "a" writes none else none)
get-set_all-initialize_example = get-set_all-initialize 1 "a" parties 2 writes

reset-set_all-initialize_example :
    Board.reset (Board.set_all writes (Board.initialize parties 2))
    ≡ ok (Board.initialize parties 2)
reset-set_all-initialize_example =
    reset-set_all-initialize parties 2 writes (refl, (refl, (refl, tt)))

abbrev queue_a : Queue ℕ
queue_a = ("a", some 8) ∷ ("b", none) ∷ ("c", none) ∷ []

messages_len_full_example :
    (1 ≤ length queue_a) × ((1 ≡ length queue_a) ↔ (all (λ p. is_some p.1) queue_a ≡ true))
unfolding lookup Board.get_round_messages_len
messages_len_full_example = messages_len_full 1 1 ((1, queue_a) ∷ []) queue_a refl refl

abbrev arrivals : List (ℕ × Option ℕ)
arrivals = (3, some 5) ∷ (2, some 6) ∷ (3, none) ∷ []

round_values-set_all_example :
    (Log.get_round_values 3 (Log.set_all arrivals (Log.initialize 4))
      ≡ (if leb 3 4 then history 3 arrivals else []))
    × (get_non_null_values_length 3 (Log.set_all arrivals (Log.initialize 4))
        ≡ (if leb 3 4 then messages_length (history 3 arrivals) else 0))
round_values-set_all_example = round_values-set_all 3 4 arrivals

abbrev session_of : Session
session_of = record { protocol_id = "cmp/sign"; party_ids = parties; final_round = 5 }

abbrev message_from : String → ℕ → Message ℕ
message_from s d = record {
  from = s;
  to = "";
  protocol = "cmp/sign";
  round_number = 1;
  content = some d;
  broadcast = true;
}

abbrev broadcast_kind : Kind
broadcast_kind = record { is_broadcast_round = true; is_direct_message_round = false }

abbrev round_of : Bool → Round
round_of done = record { kind = broadcast_kind; initialized = true; finished = done }

abbrev plain_digest : Digest ℕ
plain_digest = record { of_text = λ s. s; of_message = λ d. "m" }

-- Round 1, with the messages of "a" and "b".
abbrev waiting : Manager ℕ
waiting = record {
  self_id = "a";
  threshold = 3;
  validators = parties;
  session_initialized = true;
  current_round = 1;
  rounds = round_of true ∷ round_of false ∷ round_of false ∷ [];
  session = session_of;
  messages = (1, ("a", some 5) ∷ ("b", some 6) ∷ ("c", none) ∷ []) ∷ [];
  direct_messages = [];
  proofs = [];
  broadcast_round_hashes = (0, "0x0") ∷ [];
  direct_message_round_hashes = [];
  posted = [];
  elections = 0;
}

abbrev quiet : Ending
quiet = record { address = ok tt; leader = some "a"; response = ok tt }

-- The manager in round 2, once the message of "c" is there.
abbrev in_round_two : Manager ℕ
in_round_two = record waiting {
  current_round = 2;
  rounds =
      round_of true
      ∷ round_of true
      ∷ record { kind = broadcast_kind; initialized = false; finished = false }
      ∷ [];
  messages = (1, ("a", some 5) ∷ ("b", some 6) ∷ ("c", some 7) ∷ []) ∷ [];
  broadcast_round_hashes = (0, "0x0") ∷ (1, "0x0") ∷ [];
}

session_round_processor_progress_example :
    ((in_round_two.current_round ≡ waiting.current_round)
      × (in_round_two.session_initialized ≡ waiting.session_initialized))
    ⊎ (Ended (stored (some (message_from "c" 7)) none "c" broadcast_kind waiting) in_round_two
        ⊎ (Complete broadcast_kind
              (stored (some (message_from "c" 7)) none "c" broadcast_kind waiting)
            × (in_round_two.current_round ≡ waiting.current_round + 1)))
unfolding session_round_processor Board.get_round_messages_len store_peer_broadcast_response
    Board.set check_proofs store_peer_proofs advance
session_round_processor_progress_example =
    session_round_processor_progress quiet plain_digest (some (message_from "c" 7)) none "c" waiting
      in_round_two (round_of false) refl refl

-- The last of three proofs differs from the others.
abbrev ending : Manager ℕ
ending = record waiting { proofs = 4 ∷ 4 ∷ 9 ∷ [] }
