-- ===== src/Protocol/Proofs.antt =====
-- What the end of a session checks, and where a broadcast is stored.
use threshold_sig_multiparty.Prelude.{
  ℕ, ◌+◌, ◌-◌, ◌≡◌, String, true, ◌&&◌, List, [], ◌∷◌, some, if◌then◌else◌, all, take, arith,
}
use threshold_sig_multiparty.Prelude.Eq.{◌==◌, nat_eq, string_eq}
use threshold_sig_multiparty.Prelude.Result.{ok, ◌>>=◌, require, >>=-eq-ok}
use threshold_sig_multiparty.MessageQueue.Board
use threshold_sig_multiparty.MessageQueue.Board.Writes.{known, get-set}
use threshold_sig_multiparty.Message.{Message, can_accept}
use threshold_sig_multiparty.Protocol.{
  Manager, Kind, KeygenProof, end_session, store_peer_broadcast_response,
}
use threshold_sig_multiparty.Protocol.Processor.{
  Ending, found_is, pairs_equal, post_proofs, verify_and_end_session,
}

-- Every entry is the first one.
abbrev AllEqual : ℕ → List ℕ → Type 0
AllEqual p [] = Unit
AllEqual p (q ∷ qs) = (q ≡ p) × AllEqual p qs

all-AllEqual : (p : ℕ) (ps : List ℕ) → all (λ q. p == q) ps ≡ true → AllEqual p ps
all-AllEqual p [] h = tt
all-AllEqual p (q ∷ qs) h = (ground arith, all-AllEqual p qs (ground arith))

-- All entries of a list are one number.
abbrev pub AreEqual : List ℕ → Type 0
AreEqual [] = Unit
AreEqual (p ∷ ps) = AllEqual p ps

pairs_equal-AreEqual : (ps : List ℕ) → pairs_equal ps ≡ true → AreEqual ps
unfolding pairs_equal
pairs_equal-AreEqual [] h = tt
pairs_equal-AreEqual (p ∷ ps) h = all-AllEqual p ps (ground arith)

module _ {T : Type 0} (W : Ending) where
  -- The manager of a session that has ended, with the transactions and the count of elections.
  abbrev pub over : Manager T → List KeygenProof → ℕ → Manager T
  over m posted elections = record (end_session m) { posted = posted; elections = elections }

  -- What the end of a session has found equal.
  pub verify_and_end_session-AreEqual :
      (m m' : Manager T)
      → verify_and_end_session W m ≡ ok m'
      → AreEqual (take (m.threshold - 1) m.proofs)
        × ((posted : List KeygenProof) × (elections : ℕ) × (m' ≡ over m posted elections))
  unfolding verify_and_end_session
  verify_and_end_session-AreEqual m m' h =
      let rest = λ (_ : Unit {0}). post_proofs W m >>= λ posted.
      ok (over m posted (if found_is W.leader m.self_id then m.elections + 1 else m.elections)) in
      let (u, e, f) =
        >>=-eq-ok
          (require (pairs_equal (take (m.threshold - 1) m.proofs))
            "Expected values to be strictly deep-equal")
          (λ _. W.address >>= rest) h in
      let (v, e', f') = >>=-eq-ok W.address rest f in
      let (posted, e2, f2) =
        >>=-eq-ok (post_proofs W m)
          (λ posted.
            ok (
              over m posted (if found_is W.leader m.self_id then m.elections + 1 else m.elections)))
          f' in
      (
        pairs_equal-AreEqual (take (m.threshold - 1) m.proofs) (ground (arith, e)),
        (
          posted,
          (if found_is W.leader m.self_id then m.elections + 1 else m.elections),
          ground (arith, f2),
        ),
      )

module _ {T : Type 0} where
  -- An accepted broadcast of a broadcast round is stored for the sender that the envelope names,
  -- whoever the message says it is from, and no other entry changes.
  pub store_peer_broadcast_sender :
      (msg : Message T) (kind : Kind) (sender j : String) (r : ℕ) (m : Manager T)
      → kind.is_broadcast_round ≡ true
      → can_accept msg m.session m.self_id ≡ true
      → known m.current_round sender m.messages ≡ true
      → Board.get r j (store_peer_broadcast_response (some msg) kind sender m).messages ≡ (
          if (m.current_round == r) && (sender == j) then msg.content else Board.get r j m.messages)
  unfolding store_peer_broadcast_response
  store_peer_broadcast_sender msg kind sender j r m b a k =
      ground (arith, b, a, k, get-set r m.current_round j sender msg.content m.messages)
