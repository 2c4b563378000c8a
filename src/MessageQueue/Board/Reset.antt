-- ===== src/MessageQueue/Board/Reset.antt =====
-- `reset` of MessageQueueMap rebuilds the board from its own keys.
use mathlib.Core.List.{append-nil, append_assoc}
use threshold_sig_multiparty.Prelude.{
  ℕ, zero, suc, ◌+◌, ◌-◌, ◌≤◌, ◌≡◌, refl, ◌∙◌, ap, String, Bool, true, false, Option, none, some,
  List, [], ◌∷◌, ◌++◌, map, if◌then◌else◌, arith, inl, inr, Option-cases, length, all, any, not,
}
use threshold_sig_multiparty.Prelude.Eq.{◌==◌, nat_eq, string_eq, ==_sound}
use threshold_sig_multiparty.Prelude.Dict.{
  lookup, insert, keys, lookup-insert, keys-insert, insert_new, length-insert_new,
  length-insert_old,
}
use threshold_sig_multiparty.Prelude.Distinct.{IsDistinct}
use threshold_sig_multiparty.Prelude.Result.{ok}
use threshold_sig_multiparty.MessageQueue.Board.{
  Queue, QueueMap, is_some, fill, fill_rounds, initialize, set_in, set, reset, set_all,
}
use threshold_sig_multiparty.MessageQueue.Board.Writes.{lookup-set, set_missing, lookup-initialize}

module _ {T : Type 0} where
  abbrev blank : List String → Queue T
  blank = map (λ id. (id, none))

  abbrev fresh : List String → Queue T → Bool
  fresh ids queue = all (λ id. not (is_some (lookup id queue))) ids

  fresh-insert :
      (id : String) (ids : List String) (queue : Queue T)
      → any (λ y. y == id) ids ≡ false
      → fresh ids queue ≡ true
      → fresh ids (insert id none queue) ≡ true
  fresh-insert id [] queue d f = refl
  fresh-insert id (j ∷ ids) queue d f = ground (
    arith,
    fresh-insert id ids queue,
    lookup-insert id j none queue,
    string_eq.beq_iff j id,
    string_eq.beq_iff id j,
  )

  fill-blank :
      (ids : List String) (queue : Queue T)
      → IsDistinct ids
      → fresh ids queue ≡ true
      → fill ids queue ≡ queue ++ blank ids
  unfolding fill
  fill-blank [] queue d f = rw append-nil
  fill-blank (id ∷ ids) queue d f =
      let new : lookup id queue ≡ none = ground arith in
      fill-blank ids (insert id none queue) d.1 (fresh-insert id ids queue d.0 (ground arith))
      ∙ ap (λ m. m ++ blank ids) (insert_new id none queue new)
      ∙ append_assoc queue ((id, none) ∷ []) (blank ids)

module _ (T : Type 0) where
  fresh_empty : (ids : List String) → fresh {T = T} ids [] ≡ true
  unfolding lookup
  fresh_empty [] = refl
  fresh_empty (id ∷ ids) = fresh_empty ids

  keys-blank : (ids : List String) → keys (blank {T = T} ids) ≡ ids
  keys-blank [] = refl
  keys-blank (id ∷ ids) = ap (◌∷◌ id) (keys-blank ids)

  keys-fill : (ids : List String) → IsDistinct ids → keys (fill {T = T} ids []) ≡ ids
  keys-fill ids d = ap keys (fill-blank ids [] d (fresh_empty ids)) ∙ keys-blank ids

module _ {T : Type 0} where
  length-fill_rounds :
      (left i : ℕ) (senders : List String) (q : QueueMap T)
      → ((r : ℕ) → i ≤ r → lookup r q ≡ none)
      → length (fill_rounds left i senders q) ≡ length q + left
  unfolding fill_rounds
  length-fill_rounds zero i senders q h = omega arith
  length-fill_rounds (suc left) i senders q h =
      let q' : QueueMap T = insert i (fill senders []) q in
      let later : (r : ℕ) → i + 1 ≤ r → lookup r q' ≡ none =
        λ r le. ground (arith, lookup-insert i r (fill senders []) q, h r) in
      omega (
        arith,
        length-fill_rounds left (i + 1) senders q' later,
        length-insert_new i (fill senders []) q (h i (omega arith)),
      )

length-initialize :
    (T : Type 0) (senders : List String) (rounds : ℕ)
    → length (initialize {T = T} senders rounds) ≡ rounds + 1
unfolding initialize lookup
length-initialize T senders rounds =
    omega (arith, length-fill_rounds {T = T} (rounds + 1) 0 senders [] (λ r _. refl))

-- The keys of round 0 and the number of rounds, from which `reset` rebuilds a board.
record HasShape {T : Type 0} (ids : List String) (n : ℕ) (q : QueueMap T) : Type 0 where
  first : Queue T
  at_zero : lookup 0 q ≡ some first
  senders : keys first ≡ ids
  size : length q ≡ n

module _ {T : Type 0} where
  keys-set_in :
      (id : String) (v : Option T) (queue : Queue T) → keys (set_in id v queue) ≡ keys queue
  keys-set_in id v queue = elim (Option-cases (lookup id queue)) [
    | inl e ↦ rw (e, set_in)
    | inr (w, e) ↦ rw (e, set_in) (keys-insert id v w queue e)
  ]

  set-HasShape :
      (ids : List String) (n r : ℕ) (id : String) (v : Option T) (q : QueueMap T)
      → HasShape ids n q
      → HasShape ids n (set r id v q)
  unfolding set
  set-HasShape ids n r id v q s = elim (Option-cases (lookup r q)) [
    | inl e ↦ rw (set_missing r id v q e) s
    | inr (queue, e) ↦ record {
      first = if r == 0 then set_in id v queue else s.first;
      at_zero = ground (arith, lookup-set 0 r id v q queue e, s.at_zero);
      senders = ground (arith, e, s.at_zero, s.senders, keys-set_in id v queue, ==_sound r 0);
      size = rw (e, set) (length-insert_old r (set_in id v queue) queue q e ∙ s.size);
    }
  ]

  set_all-HasShape :
      (ids : List String) (n : ℕ) (ws : List (ℕ × String × Option T)) (q : QueueMap T)
      → HasShape ids n q
      → HasShape ids n (set_all ws q)
  unfolding set_all
  set_all-HasShape ids n [] q s = s
  set_all-HasShape ids n ((r, id, v) ∷ ws) q s =
      set_all-HasShape ids n ws (set r id v q) (set-HasShape ids n r id v q s)

  -- For distinct senders `reset` succeeds after any sequence of `set` calls on a fresh board, and
  -- gives back the fresh board.
  pub reset-set_all-initialize :
      (senders : List String) (rounds : ℕ) (ws : List (ℕ × String × Option T))
      → IsDistinct senders
      → reset (set_all ws (initialize senders rounds)) ≡ ok (initialize senders rounds)
  unfolding reset
  reset-set_all-initialize senders rounds ws d =
      rw (s.at_zero, reset) (rw (s.senders, s.size) (ap (λ n. ok (initialize senders n)) same))
    where
      s : HasShape senders (rounds + 1) (set_all ws (initialize senders rounds))
      s = set_all-HasShape senders (rounds + 1) ws (initialize senders rounds) (record {
        first = fill senders [];
        at_zero = lookup-initialize 0 senders rounds ∙ ground arith;
        senders = keys-fill T senders d;
        size = length-initialize T senders rounds;
      })

      same : rounds + 1 - 1 ≡ rounds
      same = omega arith
