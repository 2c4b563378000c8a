-- ===== src/MessageQueue/Board/Writes.antt =====
-- Reading a board after writes: MessageQueueMap against the history of its `set` calls.
use threshold_sig_multiparty.Prelude.{
  ℕ, zero, suc, ◌+◌, ◌≡◌, refl, ◌∙◌, String, Bool, true, false, ◌&&◌, Option, none, some, List, [],
  ◌∷◌, if◌then◌else◌, arith, inl, inr, Option-cases, Bool-cases, leb, any,
}
use threshold_sig_multiparty.Prelude.Eq.{◌==◌, nat_eq, string_eq, ==_sound}
use threshold_sig_multiparty.Prelude.Dict.{lookup, insert, lookup-insert}
use threshold_sig_multiparty.MessageQueue.Board.{
  Queue, QueueMap, is_some, fill, fill_rounds, initialize, set_in, set, get_in, get, set_all,
}

module _ {T : Type 0} where
  -- Whether `queueMap[round][id]` is there: the board has the round, and the round the sender.
  unfoldable pub known : ℕ → String → QueueMap T → Bool
  unfolding lookup
  known round id q = elim (lookup round q) [ none ↦ false | some queue ↦ is_some (lookup id queue) ]

  pub lookup-set :
      (r r' : ℕ) (id : String) (v : Option T) (q : QueueMap T) (queue : Queue T)
      → lookup r' q ≡ some queue
      → lookup r (set r' id v q) ≡ (if r' == r then some (set_in id v queue) else lookup r q)
  unfolding set
  lookup-set r r' id v q queue h = rw (h, set) (lookup-insert r' r (set_in id v queue) q)

  pub set_missing :
      (r' : ℕ) (id : String) (v : Option T) (q : QueueMap T)
      → lookup r' q ≡ none
      → set r' id v q ≡ q
  unfolding set
  set_missing r' id v q h = rw (h, set)

  get_in-set_in :
      (j id : String) (v : Option T) (queue : Queue T)
      → get_in j (set_in id v queue)
        ≡ (if (id == j) && is_some (lookup id queue) then v else get_in j queue)
  unfolding get_in
  get_in-set_in j id v queue = elim (Option-cases (lookup id queue)) [
    | inl e ↦ ground (arith, e)
    | inr (w, e) ↦ ground (arith, e, lookup-insert id j v queue)
  ]

  is_some-set_in :
      (j id : String) (v : Option T) (queue : Queue T)
      → is_some (lookup j (set_in id v queue)) ≡ is_some (lookup j queue)
  is_some-set_in j id v queue = elim (Option-cases (lookup id queue)) [
    | inl e ↦ ground (arith, e)
    | inr (w, e) ↦ ground (arith, e, lookup-insert id j v queue, ==_sound id j)
  ]

  -- A write changes the one entry that it names, and only where the board has it.
  pub get-set :
      (r r' : ℕ) (j id : String) (v : Option T) (q : QueueMap T)
      → get r j (set r' id v q) ≡ (if (r' == r) && (id == j) && known r' id q then v else get r j q)
  unfolding get known
  get-set r r' j id v q = elim (Option-cases (lookup r' q)) [
    | inl e ↦ ground (arith, e, set_missing r' id v q e)
    | inr (queue, e) ↦
        ground (arith, e, lookup-set r r' id v q queue e, get_in-set_in j id v queue, ==_sound r' r)
  ]

  pub known-set :
      (r r' : ℕ) (j id : String) (v : Option T) (q : QueueMap T)
      → known r j (set r' id v q) ≡ known r j q
  unfolding known
  known-set r r' j id v q = elim (Option-cases (lookup r' q)) [
    | inl e ↦ rw (set_missing r' id v q e)
    | inr (queue, e) ↦
        ground
          (arith, e, lookup-set r r' id v q queue e, is_some-set_in j id v queue, ==_sound r' r)
  ]

  pub get_unknown : (r : ℕ) (j : String) (q : QueueMap T) → known r j q ≡ false → get r j q ≡ none
  unfolding get known get_in
  get_unknown r j q h = ground arith

  -- The value of the last write to an entry, `d` if there is none.
  unfoldable pub last_write : ℕ → String → List (ℕ × String × Option T) → Option T → Option T
  last_write r j [] d = d
  last_write r j ((r', id, v) ∷ ws) d = last_write r j ws (if (r' == r) && (id == j) then v else d)

  get-set_all :
      (r : ℕ) (j : String) (ws : List (ℕ × String × Option T)) (q : QueueMap T)
      → known r j q ≡ true
      → get r j (set_all ws q) ≡ last_write r j ws (get r j q)
  unfolding set_all last_write
  get-set_all r j [] q h = refl
  get-set_all r j ((r', id, v) ∷ ws) q h =
      get-set_all r j ws (set r' id v q) (known-set r r' j id v q ∙ h) ∙ ap_last
    where
      same : get r j (set r' id v q) ≡ (if (r' == r) && (id == j) then v else get r j q)
      same = ground (arith, get-set r r' j id v q, ==_sound r' r, ==_sound id j)

      ap_last :
          last_write r j ws (get r j (set r' id v q))
          ≡ last_write r j ws (if (r' == r) && (id == j) then v else get r j q)
      ap_last = rw same

  known-set_all :
      (r : ℕ) (j : String) (ws : List (ℕ × String × Option T)) (q : QueueMap T)
      → known r j (set_all ws q) ≡ known r j q
  unfolding set_all
  known-set_all r j [] q = refl
  known-set_all r j ((r', id, v) ∷ ws) q =
      known-set_all r j ws (set r' id v q) ∙ known-set r r' j id v q

  -- The fresh board.
  lookup-fill :
      (j : String) (ids : List String) (queue : Queue T)
      → lookup j (fill ids queue) ≡ (if any (λ id. id == j) ids then some none else lookup j queue)
  unfolding fill
  lookup-fill j [] queue = refl
  lookup-fill j (id ∷ ids) queue =
      ground (arith, lookup-fill j ids (insert id none queue), lookup-insert id j none queue)

  lookup-fill_rounds :
      (r left i : ℕ) (senders : List String) (q : QueueMap T)
      → lookup r (fill_rounds left i senders q)
        ≡ (if leb i r && leb (r + 1) (i + left) then some (fill senders []) else lookup r q)
  unfolding fill_rounds
  lookup-fill_rounds r zero i senders q = ground arith
  lookup-fill_rounds r (suc left) i senders q = ground (
    arith,
    lookup-fill_rounds r left (i + 1) senders (insert i (fill senders []) q),
    lookup-insert i r (fill senders []) q,
  )

  pub lookup-initialize :
      (r : ℕ) (senders : List String) (rounds : ℕ)
      → lookup r (initialize {T = T} senders rounds)
        ≡ (if leb r rounds then some (fill senders []) else none)
  unfolding initialize lookup
  lookup-initialize r senders rounds =
      ground (arith, lookup-fill_rounds r (rounds + 1) 0 senders [])

pub known-initialize :
    (T : Type 0) (r : ℕ) (j : String) (senders : List String) (rounds : ℕ)
    → known r j (initialize {T = T} senders rounds) ≡ (leb r rounds && any (λ id. id == j) senders)
unfolding known lookup
known-initialize T r j senders rounds =
    ground (arith, lookup-initialize {T = T} r senders rounds, lookup-fill {T = T} j senders [])

module _ {T : Type 0} where
  pub get-initialize :
      (r : ℕ) (j : String) (senders : List String) (rounds : ℕ)
      → get r j (initialize {T = T} senders rounds) ≡ none
  unfolding get get_in lookup
  get-initialize r j senders rounds =
      ground (arith, lookup-initialize {T = T} r senders rounds, lookup-fill {T = T} j senders [])

  -- After any sequence of `set` calls on a fresh board, `get` returns the value last written for
  -- the round and the sender if the round is at most `rounds` and the sender was registered, and
  -- `null` in every other case.
  pub get-set_all-initialize :
      (r : ℕ) (j : String) (senders : List String) (rounds : ℕ) (ws : List (ℕ × String × Option T))
      → get r j (set_all ws (initialize senders rounds))
        ≡ (if leb r rounds && any (λ id. id == j) senders then last_write r j ws none else none)
  get-set_all-initialize r j senders rounds ws =
      elim (Bool-cases (leb r rounds && any (λ id. id == j) senders)) [
        | inl there ↦ rw there (
            rw (← get-initialize r j senders rounds)
              (get-set_all r j ws _ (known-initialize T r j senders rounds ∙ there)))
        | inr missing ↦ rw missing (
            get_unknown r j _
              (known-set_all r j ws _ ∙ known-initialize T r j senders rounds ∙ missing))
      ]
