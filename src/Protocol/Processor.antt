-- ===== src/Protocol/Processor.antt =====
-- sessionRoundProcessor of src/protocol/keygenProtocol.ts, with generateBroadcastHashes of
-- src/protocol/abstractProtocolHnadler.ts and verifyAndEndSession: what a node does
-- with a broadcast of a peer, up to the start of the next round.
use threshold_sig_multiparty.Prelude.{
  ℕ, zero, suc, ◌+◌, ◌-◌, String, Bool, true, false, not, ◌&&◌, List, [], ◌∷◌, ◌++◌, Option, none,
  some, map, if◌then◌else◌, ltb, length, get_elem?, all, take,
}
use threshold_sig_multiparty.Prelude.Eq.{◌==◌, nat_eq, string_eq}
use threshold_sig_multiparty.Prelude.Dict.{lookup, insert}
use threshold_sig_multiparty.Prelude.Result.{Result, ok, err, ◌>>=◌, ◌>>◌, require}
use threshold_sig_multiparty.MessageQueue.Board
use threshold_sig_multiparty.MessageQueue.Log
use threshold_sig_multiparty.Message.{Message}
use threshold_sig_multiparty.Protocol.{
  Manager, Kind, Round, Digest, KeygenProof, join, store_peer_broadcast_response, store_peer_proofs,
  received_all, end_session, finalize_current_round,
}

abbrev pub found_is : Option String → String → Bool
found_is none s = false
found_is (some t) s = s == t

-- The loop of generateBroadcastHashes over the rounds, with the number of rounds left.
unfoldable pub round_data :
    {T : Type 0}
    → Digest T
    → List Round
    → (ℕ → List T)
    → List (ℕ × String)
    → ℕ
    → ℕ
    → List String
    → Result (List String)
unfolding join lookup
round_data D rounds values hashes zero round acc = ok acc
round_data D rounds values hashes (suc left) round acc =
    let skipped = round_data D rounds values hashes left (round + 1) acc in
    let added =
      round_data D rounds values hashes left (round + 1) (acc ++ map D.of_message (values round)) in
    elim (get_elem? rounds round) [
      | none ↦ err "Cannot read properties of undefined"
      | some r ↦
          if not r.kind.is_direct_message_round && not (round == 3)
          then skipped
          else if found_is (lookup (round - 1) hashes) (D.of_text (join acc))
          then added
          else err "Inconsistent hash detected for the last round"
    ]

-- generateBroadcastHashes: the hashes with that of the round added.
unfoldable pub generate_broadcast_hashes :
    {T : Type 0}
    → Digest T
    → List Round
    → (ℕ → List T)
    → ℕ
    → List (ℕ × String)
    → Result (List (ℕ × String))
unfolding round_data join insert
generate_broadcast_hashes D rounds values round hashes = do
  texts ← round_data D rounds values hashes round 1 ("0x0" ∷ [])
  ok (insert round (D.of_text (join texts)) hashes)

-- The two loops of verifyAndEndSession: each proof against the later ones.
unfoldable pub pairs_equal : List ℕ → Bool
pairs_equal [] = true
pairs_equal (p ∷ ps) = all (λ q. p == q) ps && pairs_equal ps

-- What verifyAndEndSession takes from elsewhere: the outcome of deriving the address, the leader that
-- is stored, and the outcome of posting the transaction, after its tries.
pub record Ending : Type 0 where
  pub address : Result (Unit {0})
  pub leader : Option String
  pub response : Result (Unit {0})

module _ {T : Type 0} where
  -- What follows when the round's broadcasts are complete.
  unfoldable pub complete_round : Digest T → Manager T → Result (Manager T)
  unfolding generate_broadcast_hashes finalize_current_round
  complete_round D m = do
    hashes ←
        generate_broadcast_hashes D m.rounds (λ r. Board.get_round_values r m.messages)
          m.current_round m.broadcast_round_hashes
    finalize_current_round (record m { broadcast_round_hashes = hashes })

  -- The last test of sessionRoundProcessor, for the count of broadcasts that it has read.
  unfoldable pub advance : Digest T → Kind → ℕ → Manager T → Result (Manager T)
  unfolding received_all complete_round
  advance D kind len m =
      if kind.is_broadcast_round && (len == m.threshold)
      then (received_all kind m >>= λ all_there. if all_there then complete_round D m else ok m)
      else ok m

module _ {T : Type 0} (W : Ending) where
  -- `if (this.selfId === this.validators[0])`: the transactions with that of the proofs.
  unfoldable pub post_proofs : Manager T → Result (List KeygenProof)
  post_proofs m =
      if found_is (get_elem? m.validators 0) m.self_id
      then (W.response >>= λ _. ok (m.posted ++ record { from = m.self_id; proof = m.proofs } ∷ []))
      else ok m.posted

  -- verifyAndEndSession. Both loops stop before `threshold - 1`. (The waits are not modelled.)
  unfoldable pub verify_and_end_session : Manager T → Result (Manager T)
  unfolding pairs_equal post_proofs end_session
  verify_and_end_session m = do
    require (pairs_equal (take (m.threshold - 1) m.proofs))
        "Expected values to be strictly deep-equal"
    W.address
    posted ← post_proofs m
    ok (record (end_session m) {
      posted = posted;
      elections = if found_is W.leader m.self_id then m.elections + 1 else m.elections;
    })

  -- `proofsLen === this.threshold`
  unfoldable pub check_proofs : Manager T → Result (Manager T)
  unfolding verify_and_end_session
  check_proofs m = if length m.proofs == m.threshold then verify_and_end_session m else ok m

  -- sessionRoundProcessor. On a round with direct messages that are not all there it waits and
  -- starts again: `none`.
  unfoldable pub session_round_processor :
      Digest T → Option (Message T) → Option ℕ → String → Manager T → Result (Option (Manager T))
  session_round_processor D broadcast proof sender m =
      if not m.session_initialized
      then ok (some m)
      else (elim (get_elem? m.rounds m.current_round) [
        | none ↦ err "Cannot read properties of undefined"
        | some r ↦
            if r.kind.is_direct_message_round
              && ltb (Log.get_non_null_values_length m.current_round m.direct_messages + 1)
                  m.threshold
            then ok none
            else (let m1 = store_peer_broadcast_response broadcast r.kind sender m in
                do
                  len ← Board.get_round_messages_len m1.current_round m1.messages
                  m2 ← check_proofs (store_peer_proofs proof m1)
                  m3 ← advance D r.kind len m2
                  ok (some m3))
      ])
