-- ===== src/Consensus/Election/Draw.antt =====
-- The random vote of handleNewElectionRound.
use threshold_sig_multiparty.Prelude.{
  ℕ, zero, suc, ◌+◌, ◌<◌, ◌≡◌, ◌≢◌, refl, String, false, not, List, [], ◌∷◌, some, ltb, length,
  select, get_elem?, arith,
}
use threshold_sig_multiparty.Prelude.Eq.{◌==◌, string_eq}
use threshold_sig_multiparty.Consensus.{Node, Sent, send}
use threshold_sig_multiparty.Consensus.Election.{vote_index, handle_election}

-- The validators that a vote may name.
abbrev pub eligible : List String → String → List String
eligible peers l = select (λ v. not (v == l)) peers

get_elem?-lt {ℓ} :
    {A : Type ℓ} (xs : List A) (i : ℕ) → i < length xs → (a : A) × (get_elem? xs i ≡ some a)
get_elem?-lt [] i h = absurd (omega arith)
get_elem?-lt (x ∷ xs) zero h = (x, refl)
get_elem?-lt (x ∷ xs) (suc i) h = get_elem?-lt xs i (omega arith)

get_elem?-select :
    (l v : String) (peers : List String) (i : ℕ) → get_elem? (eligible peers l) i ≡ some v → v ≢ l
get_elem?-select l v [] i h e = cc
get_elem?-select l v (p ∷ ps) zero h e =
    ground (arith, get_elem?-select l v ps 0, string_eq.beq_iff p l)
get_elem?-select l v (p ∷ ps) (suc i) h e =
    ground (arith, get_elem?-select l v ps i, get_elem?-select l v ps (suc i))

-- With at least two eligible validators and a draw below their number, the handler sends the leader
-- a vote for an eligible validator other than the leader, and changes nothing else. With three or
-- more, the voted position is never the last one.
pub handle_election_vote :
    (peers : List String) (k : ℕ) (n : Node) (l : String)
    → 1 < length (eligible peers l)
    → k < length (eligible peers l)
    → (v : String) × (handle_election peers k n l
        ≡ send (Sent.leader_vote v (eligible peers l) l) n)
      × (get_elem? (eligible peers l) (vote_index k) ≡ some v)
      × (v ≢ l)
      × (2 < length (eligible peers l) → vote_index k + 1 < length (eligible peers l))
unfolding handle_election
handle_election_vote peers k n l two lt =
    let small : vote_index k < length (eligible peers l) = in_range k lt in
    let (v, e) = get_elem?-lt (eligible peers l) (vote_index k) small in
    let ok : ltb (length (eligible peers l)) (vote_index k) ≡ false = ground arith in
    (v, rw ok (rw e refl), e, get_elem?-select l v peers (vote_index k) e, never_last k lt)
  where
    in_range : (k : ℕ) → k < length (eligible peers l) → vote_index k < length (eligible peers l)
    in_range zero h = omega arith
    in_range (suc k) h = omega arith

    never_last :
        (k : ℕ)
        → k < length (eligible peers l)
        → 2 < length (eligible peers l)
        → vote_index k + 1 < length (eligible peers l)
    never_last zero h t = omega arith
    never_last (suc k) h t = omega arith
