-- ===== src/Protocol/Progress.antt =====
-- When a session goes on to its next round.
use threshold_sig_multiparty.Prelude.{
  subst, ℕ, ◌+◌, ◌≡◌, ◌⊎◌, inl, inr, ap, ◌∙◌, String, List, [], ◌-◌, take, Bool, true, false, ◌&&◌,
  Option, some, if◌then◌else◌, length, get_elem?, set, ltb, arith, Option-cases, Bool-cases,
}
use threshold_sig_multiparty.Prelude.Eq.{◌==◌, nat_eq, string_eq, ==_sound}
use threshold_sig_multiparty.Prelude.Result.{Result, ok, ◌>>=◌, >>=-eq-ok}
use threshold_sig_multiparty.MessageQueue.Board
use threshold_sig_multiparty.MessageQueue.Board.{Queue, is_some}
use threshold_sig_multiparty.MessageQueue.Log
use threshold_sig_multiparty.Message.{Message}
use threshold_sig_multiparty.Protocol.{
  Manager, Kind, Round, Digest, KeygenProof, store_peer_broadcast_response, store_peer_proofs,
  received_all, end_session, finalize_current_round, start_new_round,
}
use threshold_sig_multiparty.Protocol.Proofs.{AreEqual, over, verify_and_end_session-AreEqual}
use threshold_sig_multiparty.Protocol.Processor.{
  Ending, verify_and_end_session, check_proofs, generate_broadcast_hashes, complete_round, advance,
  session_round_processor,
}

module _ {T : Type 0} where
  start_new_round-next :
      (m m' : Manager T) → start_new_round m ≡ ok m' → m'.current_round ≡ m.current_round + 1
  unfolding start_new_round
  start_new_round-next m m' h = ground arith

  finalize_current_round-next :
      (m m' : Manager T) → finalize_current_round m ≡ ok m' → m'.current_round ≡ m.current_round + 1
  finalize_current_round-next m m' h = elim (Option-cases (get_elem? m.rounds m.current_round)) [
    | inl e ↦ absurd (unfold finalize_current_round in ground (arith, e))
    | inr (r, e) ↦
        start_new_round-next
          (record m { rounds = set m.rounds m.current_round (record r { finished = true }) }) m'
          (unfold finalize_current_round in rw (e, finalize_current_round) at h)
  ]

  complete_round-next :
      (D : Digest T) (m m' : Manager T)
      → complete_round D m ≡ ok m'
      → m'.current_round ≡ m.current_round + 1
  unfolding complete_round
  complete_round-next D m m' h =
      let (hashes, e, f) =
        >>=-eq-ok
          (generate_broadcast_hashes D m.rounds (λ r. Board.get_round_values r m.messages)
            m.current_round m.broadcast_round_hashes)
          (λ x. finalize_current_round (record m { broadcast_round_hashes = x })) h in
      finalize_current_round-next (record m { broadcast_round_hashes = hashes }) m' f

  -- All that a round waits for: as many broadcasts as validators, and on a round with direct messages
  -- as many of these as other validators.
  pub record Complete (kind : Kind) (m : Manager T) : Type 0 where
    pub is_broadcast_round : kind.is_broadcast_round ≡ true
    pub broadcasts :
        Board.get_round_messages_len m.current_round m.messages ≡ ok (length m.validators)
    pub direct :
        kind.is_direct_message_round ≡ true
        → Log.get_non_null_values_length m.current_round m.direct_messages + 1 ≡ length m.validators

  received_all-Complete :
      (kind : Kind) (m : Manager T)
      → kind.is_broadcast_round ≡ true
      → received_all kind m ≡ ok true
      → Complete kind m
  unfolding received_all
  received_all-Complete kind m b h =
      let (len, e, f) = >>=-eq-ok (Board.get_round_messages_len m.current_round m.messages) _ h in
      record {
        is_broadcast_round = b;
        broadcasts = rw e (ground (arith, b, f));
        direct = λ d. ground (arith, b, d, f);
      }

  advance_taken :
      (D : Digest T) (kind : Kind) (len : ℕ) (m m' : Manager T) (all_there : Bool)
      → kind.is_broadcast_round ≡ true
      → len ≡ m.threshold
      → received_all kind m ≡ ok all_there
      → (if all_there then complete_round D m else ok m) ≡ ok m'
      → (m' ≡ m)
        ⊎ (Complete kind m × (len ≡ m.threshold) × (m'.current_round ≡ m.current_round + 1))
  advance_taken D kind len m m' false b t r g = inl (ground arith)
  advance_taken D kind len m m' true b t r g =
      inr (received_all-Complete kind m b r, t, complete_round-next D m m' g)

  advance-Complete :
      (D : Digest T) (kind : Kind) (len : ℕ) (m m' : Manager T)
      → advance D kind len m ≡ ok m'
      → (m' ≡ m)
        ⊎ (Complete kind m × (len ≡ m.threshold) × (m'.current_round ≡ m.current_round + 1))
  advance-Complete D kind len m m' h =
      elim (Bool-cases (kind.is_broadcast_round && (len == m.threshold))) [
        | inr e ↦ inl (unfold advance in ground (arith, e))
        | inl e ↦
            let both : (kind.is_broadcast_round ≡ true) × (len ≡ m.threshold) =
              (ground arith, ground arith) in
            let f : (received_all kind m >>= λ a. if a then complete_round D m else ok m) ≡ ok m' =
              unfold advance in rw (advance, e) at h in
            let (all_there, r, g) =
              >>=-eq-ok (received_all kind m) (λ a. if a then complete_round D m else ok m) f in
            advance_taken D kind len m m' all_there both.0 both.1 r g
      ]

  -- The manager after the broadcast and the proof of a message are stored.
  abbrev pub stored : Option (Message T) → Option ℕ → String → Kind → Manager T → Manager T
  stored broadcast proof sender kind m =
      store_peer_proofs proof (store_peer_broadcast_response broadcast kind sender m)

  stored-kept :
      (broadcast : Option (Message T)) (proof : Option ℕ) (sender : String) (kind : Kind)
      (m : Manager T)
      → ((stored broadcast proof sender kind m).current_round ≡ m.current_round)
        × ((stored broadcast proof sender kind m).session_initialized ≡ m.session_initialized)
  unfolding store_peer_proofs store_peer_broadcast_response
  stored-kept broadcast proof sender kind m = (ground arith, ground arith)

  -- What a session that ends had, and what it has then: as many proofs as the threshold, and all of
  -- them but the last equal; a manager as before a session.
  pub record Ended (m m' : Manager T) : Type 0 where
    pub proofs : length m.proofs ≡ m.threshold
    pub equal : AreEqual (take (m.threshold - 1) m.proofs)
    pub closed : m'.session_initialized ≡ false
    pub first_round : m'.current_round ≡ 0
    pub cleared : m'.proofs ≡ []

module _ {T : Type 0} (W : Ending) where
  check_proofs_cases :
      (m m' : Manager T)
      → check_proofs W m ≡ ok m'
      → (m' ≡ m)
        ⊎ ((length m.proofs ≡ m.threshold)
            × AreEqual (take (m.threshold - 1) m.proofs)
            × ((posted : List KeygenProof) × (elections : ℕ) × (m' ≡ over W m posted elections)))
  check_proofs_cases m m' h = elim (Bool-cases (length m.proofs == m.threshold)) [
    | inr few ↦ inl (unfold check_proofs in ground (arith, few))
    | inl all_there ↦
        let e : verify_and_end_session W m ≡ ok m' =
          unfold check_proofs in rw (check_proofs, all_there) at h in
        let (equal, same) = verify_and_end_session-AreEqual W m m' e in
        inr (==_sound (length m.proofs) m.threshold all_there, equal, same)
  ]

  -- What the processor did: nothing, or the proofs were checked and then the round was advanced.
  abbrev Ran : Digest T → Kind → Manager T → Manager T → Type 0
  Ran D kind m1 m' =
      (len : ℕ) × (m2 : Manager T) × (check_proofs W m1 ≡ ok m2) × (advance D kind len m2 ≡ ok m')

  session_round_processor-Ran :
      (D : Digest T) (broadcast : Option (Message T)) (proof : Option ℕ) (sender : String)
      (m m' : Manager T) (r : Round)
      → get_elem? m.rounds m.current_round ≡ some r
      → session_round_processor W D broadcast proof sender m ≡ ok (some m')
      → (m' ≡ m) ⊎ Ran D r.kind (stored broadcast proof sender r.kind m) m'
  unfolding session_round_processor
  session_round_processor-Ran D broadcast proof sender m m' r e h =
      elim (Bool-cases m.session_initialized) [
        | inr off ↦ inl (ground (arith, off))
        | inl on ↦ elim (Bool-cases waits) [
          | inl w ↦ absurd (ground (arith, on, e, w))
          | inr go ↦
              let body : run ≡ ok (some m') = ground (arith, on, e, go) in
              let (len, e1, f1) =
                >>=-eq-ok (Board.get_round_messages_len m1.current_round m1.messages)
                  (λ len. check_proofs W (store_peer_proofs proof m1) >>= λ m2.
                    advance D r.kind len m2 >>= λ m3. ok (some m3))
                  body in
              let (m2, e2, f2) =
                >>=-eq-ok (check_proofs W (store_peer_proofs proof m1))
                  (λ m2. advance D r.kind len m2 >>= λ m3. ok (some m3)) f1 in
              let (m3, e3, f3) = >>=-eq-ok (advance D r.kind len m2) (λ m3. ok (some m3)) f2 in
              let same : m3 ≡ m' = ground arith in inr (len, m2, e2, e3 ∙ ap ok same)
        ]
      ]
    where
      waits : Bool
      waits =
          r.kind.is_direct_message_round
          && ltb (Log.get_non_null_values_length m.current_round m.direct_messages + 1) m.threshold

      m1 : Manager T
      m1 = store_peer_broadcast_response broadcast r.kind sender m

      run : Result (Option (Manager T))
      run = Board.get_round_messages_len m1.current_round m1.messages >>= λ len.
          check_proofs W (store_peer_proofs proof m1) >>= λ m2.
          advance D r.kind len m2 >>= λ m3. ok (some m3)

  over-Complete :
      (kind : Kind) (m : Manager T) (posted : List KeygenProof) (elections : ℕ)
      → Complete kind (over W m posted elections)
      → ⊥
  unfolding end_session Board.get_round_messages_len
  over-Complete kind m posted elections c = ground (arith, c.broadcasts)

  over-Ended :
      (m m' : Manager T) (posted : List KeygenProof) (elections : ℕ)
      → length m.proofs ≡ m.threshold
      → AreEqual (take (m.threshold - 1) m.proofs)
      → m' ≡ over W m posted elections
      → Ended m m'
  unfolding end_session
  over-Ended m m' posted elections there equal same = record {
    proofs = there;
    equal = equal;
    closed = ap (λ x. x.session_initialized) same;
    first_round = ap (λ x. x.current_round) same;
    cleared = ap (λ x. x.proofs) same;
  }

  -- The three outcomes: the session stays in its round, it ends, or it goes on.
  abbrev IsStep : Kind → Manager T → Manager T → Manager T → Type 0
  IsStep kind m m1 m' =
      ((m'.current_round ≡ m.current_round) × (m'.session_initialized ≡ m.session_initialized))
      ⊎ (Ended m1 m' ⊎ (Complete kind m1 × (m'.current_round ≡ m.current_round + 1)))

  Ran-progress :
      (D : Digest T) (broadcast : Option (Message T)) (proof : Option ℕ) (sender : String)
      (m m' : Manager T) (r : Round)
      → Ran D r.kind (stored broadcast proof sender r.kind m) m'
      → IsStep r.kind m (stored broadcast proof sender r.kind m) m'
  Ran-progress D broadcast proof sender m m' r (len, m2, e2, e3) =
      let m1 = stored broadcast proof sender r.kind m in
      let (same, open') = stored-kept broadcast proof sender r.kind m in
      elim (check_proofs_cases m1 m2 e2) [
        | inl kept ↦
            let e4 : advance D r.kind len m1 ≡ ok m' =
              subst (λ x. advance D r.kind len x ≡ ok m') kept e3 in
            elim (advance-Complete D r.kind len m1 m' e4) [
              | inl stays ↦ inl (
                ap (λ x. x.current_round) stays ∙ same,
                ap (λ x. x.session_initialized) stays ∙ open',
              )
              | inr (c, t, n) ↦ inr (inr (c, n ∙ ap (λ k. k + 1) same))
            ]
        | inr (there, equal, (posted, elections, ended)) ↦
            let e4 : advance D r.kind len (over W m1 posted elections) ≡ ok m' =
              subst (λ x. advance D r.kind len x ≡ ok m') ended e3 in
            elim (advance-Complete D r.kind len (over W m1 posted elections) m' e4) [
              | inl stays ↦ inr (inl (over-Ended m1 m' posted elections there equal stays))
              | inr (c, t, n) ↦ absurd (over-Complete r.kind m1 posted elections c)
            ]
      ]

  -- After a broadcast that a node does not have to wait for, one of three things holds. The session
  -- is in the round where it was, and is open if it was. Or it has ended, and there were as many proofs
  -- as the threshold, with the one stored now, and all of them but the last were equal. Or it is at the
  -- next round, the round is one with broadcasts, and there are, with the message stored now, as many
  -- broadcasts as validators and, on a round with direct messages, as many direct messages as other
  -- validators.
  pub session_round_processor_progress :
      (D : Digest T) (broadcast : Option (Message T)) (proof : Option ℕ) (sender : String)
      (m m' : Manager T) (r : Round)
      → get_elem? m.rounds m.current_round ≡ some r
      → session_round_processor W D broadcast proof sender m ≡ ok (some m')
      → ((m'.current_round ≡ m.current_round) × (m'.session_initialized ≡ m.session_initialized))
        ⊎ (Ended (stored broadcast proof sender r.kind m) m'
            ⊎ (Complete r.kind (stored broadcast proof sender r.kind m)
                × (m'.current_round ≡ m.current_round + 1)))
  session_round_processor_progress D broadcast proof sender m m' r e h =
      elim (session_round_processor-Ran D broadcast proof sender m m' r e h) [
        | inl same ↦ inl (ap (λ x. x.current_round) same, ap (λ x. x.session_initialized) same)
        | inr ran ↦ Ran-progress D broadcast proof sender m m' r ran
      ]
