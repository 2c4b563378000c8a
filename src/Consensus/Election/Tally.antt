-- ===== src/Consensus/Election/Tally.antt =====
-- The count of the votes of handleNewElectionRoundVote.
use threshold_sig_multiparty.Prelude.{
  ℕ, ◌+◌, ◌<◌, ◌≤◌, ◌≡◌, refl, ap, ◌∙◌, String, true, false, List, [], ◌∷◌, ◌++◌, Option, none,
  some, ltb, count, all, map, arith, inl, inr, Option-cases, Bool-cases, ◌⊎◌,
}
use threshold_sig_multiparty.Prelude.Eq.{◌==◌, string_eq, ==_refl}
use threshold_sig_multiparty.Prelude.Dict.{lookup, insert, lookup-insert, keys}
use threshold_sig_multiparty.Prelude.Distinct.{IsDistinct, keys-insert-IsDistinct, lookup-fresh}
use threshold_sig_multiparty.Validators.{includes}
use threshold_sig_multiparty.Consensus.{Node, Vote, Sent}
use threshold_sig_multiparty.Consensus.Election.{count_votes, best, handle_vote}

-- The number of votes for a candidate.
abbrev pub votes_for : String → List String → ℕ
votes_for c vs = count (λ v. v == c) vs

-- The votes of the election, the one that arrives included.
abbrev pub cast : Node → String → String → List String
cast n vote sender = map (λ v. v.vote) (n.votes ++ record { voter = sender; vote = vote } ∷ [])

abbrev or_zero : Option ℕ → ℕ
or_zero none = 0
or_zero (some k) = k

lookup-count_votes :
    (c : String) (vs : List String) (counts : List (String × ℕ))
    → or_zero (lookup c (count_votes vs counts)) ≡ or_zero (lookup c counts) + votes_for c vs
unfolding count_votes
lookup-count_votes c [] counts = omega arith
lookup-count_votes c (v ∷ vs) counts = elim (Option-cases (lookup v counts)) [
  | inl e ↦ ground (
    arith,
    e,
    lookup-count_votes c vs (insert v 1 counts),
    lookup-insert v c 1 counts,
    string_eq.beq_iff v c,
  )
  | inr (k, e) ↦ ground (
    arith,
    e,
    lookup-count_votes c vs (insert v (k + 1) counts),
    lookup-insert v c (k + 1) counts,
    string_eq.beq_iff v c,
  )
]

-- The candidate that the loop ends with, and the votes for it.
abbrev IsBest : List (String × ℕ) → Option String → ℕ → Option String → Type 0
IsBest counts leader m r =
    ((r ≡ leader) × ((c : String) → or_zero (lookup c counts) ≤ m))
    ⊎ ((w : String) × (r ≡ some w)
        × (m < or_zero (lookup w counts))
        × ((c : String) → or_zero (lookup c counts) ≤ or_zero (lookup w counts)))

best-IsBest :
    (counts : List (String × ℕ)) (leader : Option String) (m : ℕ)
    → IsDistinct (keys counts)
    → IsBest counts leader m (best counts leader m)
unfolding best lookup
best-IsBest [] leader m d = inl (refl, λ c. omega arith)
best-IsBest ((c, k) ∷ rest) leader m d = elim (Bool-cases (ltb m k)) [
  | inl more ↦ rw more (elim (best-IsBest rest (some c) k d.1) [
    | inl (r, most) ↦ inr (c, r, ground (arith, ==_refl c), λ x. ground (arith, ==_refl c, most x))
    | inr (w, r, over, most) ↦ inr (
      w,
      r,
      ground (arith, lookup-fresh c rest d.0, string_eq.beq_iff c w),
      λ x. ground (arith, most x, lookup-fresh c rest d.0, string_eq.beq_iff c w),
    )
  ])
  | inr less ↦ rw less (elim (best-IsBest rest leader m d.1) [
    | inl (r, most) ↦ inl (r, λ x. ground (arith, most x))
    | inr (w, r, over, most) ↦ inr (
      w,
      r,
      ground (arith, lookup-fresh c rest d.0, string_eq.beq_iff c w),
      λ x. ground (arith, most x, lookup-fresh c rest d.0, string_eq.beq_iff c w),
    )
  ])
]

keys-count_votes-IsDistinct :
    (vs : List String) (counts : List (String × ℕ))
    → IsDistinct (keys counts)
    → IsDistinct (keys (count_votes vs counts))
unfolding count_votes
keys-count_votes-IsDistinct [] counts d = d
keys-count_votes-IsDistinct (v ∷ vs) counts d = elim (Option-cases (lookup v counts)) [
  | inl e ↦
      rw (e, count_votes) (keys-count_votes-IsDistinct vs _ (keys-insert-IsDistinct v 1 counts d))
  | inr (k, e) ↦
      rw (e, count_votes)
        (keys-count_votes-IsDistinct vs _ (keys-insert-IsDistinct v (k + 1) counts d))
]

votes_for-cast :
    (xs : List Vote) (x : Vote) → 0 < votes_for x.vote (map (λ v. v.vote) (xs ++ x ∷ []))
votes_for-cast [] x = ground (arith, ==_refl x.vote)
votes_for-cast (y ∷ xs) x = ground (arith, votes_for-cast xs x)

-- When the vote that arrives completes the votes of all listed validators, the node's leader becomes
-- a candidate with at least one vote, for whom no fewer votes were cast than for any other; the
-- leader is stored, the node sends the message that announces it and no other, and the votes are
-- forgotten.
pub handle_vote_elects :
    (n : Node) (vote sender : String) (validators : List String)
    → (vote == "") ≡ false
    → all
        (λ a.
          includes a (map (λ v. v.voter) (n.votes ++ record { voter = sender; vote = vote } ∷ [])))
        validators
      ≡ true
    → (w : String) × ((handle_vote n vote (some validators) sender).leader ≡ some w)
      × ((handle_vote n vote (some validators) sender).saved_leader ≡ some w)
      × ((handle_vote n vote (some validators) sender).votes ≡ [])
      × ((handle_vote n vote (some validators) sender).sent
          ≡ n.sent ++ Sent.set_new_leader (some w) ∷ [])
      × (0 < votes_for w (cast n vote sender))
      × ((c : String) → votes_for c (cast n vote sender) ≤ votes_for w (cast n vote sender))
unfolding handle_vote
handle_vote_elects n vote sender validators given complete =
    let counts = count_votes (cast n vote sender) [] in
    let total : (c : String) → or_zero (lookup c counts) ≡ votes_for c (cast n vote sender) =
      λ c. lookup-count_votes c (cast n vote sender) [] ∙ omega arith in
    elim (best-IsBest counts n.leader 0 (keys-count_votes-IsDistinct (cast n vote sender) [] tt)) [
      | inl (r, most) ↦ absurd (
          omega (
            arith,
            total vote,
            most vote,
            votes_for-cast n.votes (record { voter = sender; vote = vote }),
          ))
      | inr (w, r, over, most) ↦ (
        w,
        rw (given, complete) r,
        rw (given, complete) r,
        rw (given, complete) refl,
        rw (given, complete) (ap (λ l. n.sent ++ Sent.set_new_leader l ∷ []) r),
        rw (← total w) over,
        λ c. rw (← total w, ← total c) (most c),
      )
    ]
