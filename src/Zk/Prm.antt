-- ===== src/Zk/Prm.antt =====
-- src/mpc/zk/prm.ts: the proof that the Pedersen parameters s and t of a modulus belong together, in
-- 80 rounds with a challenge of one bit each.
pub mod Completeness
use threshold_sig_multiparty.Prelude.{
  ℕ, zero, suc, ◌+◌, ◌*◌, ◌%◌, Bool, true, false, not, ◌&&◌, Option, none, some, List, [], ◌∷◌, map,
  if◌then◌else◌,
}
use threshold_sig_multiparty.Prelude.Eq.{◌==◌, nat_eq}
use threshold_sig_multiparty.Prelude.Int.{pos}
use threshold_sig_multiparty.Prelude.Result.{Result, ok, err, ◌>>=◌}
use threshold_sig_multiparty.Crypto.{Crypto}
use threshold_sig_multiparty.Hasher.{
  Hashing, Hasher, Basic, Ingestable, basic, hashable, update, digest_bytes_into,
}
use threshold_sig_multiparty.Arith.{is_valid_mod_n}
use threshold_sig_multiparty.Pedersen
use threshold_sig_multiparty.Pedersen.{PedersenParams}
use threshold_sig_multiparty.Zk.Rounds.{stat_param, head?, tail, head_bit, draw_list}

-- ZkPrmPrivate
pub record PrmPrivate : Type 0 where
  pub lambda : ℕ
  pub phi : ℕ
  pub p : ℕ
  pub q : ℕ

-- ZkPrmProof
pub record PrmProof : Type 0 where
  pub big_as : List ℕ
  pub zs : List ℕ

-- `(tmpBytes[i] & 1) === 1` for so many entries of the buffer.
unfoldable pub bits : ℕ → List ℕ → List Bool
bits zero bytes = []
bits (suc left) [] = false ∷ bits left []
bits (suc left) (b ∷ bytes) = (b % 2 == 1) ∷ bits left bytes

module _ (C : Crypto) where
  -- zkPrmIsProofValid: the loop over the entries of As, with the entries of Zs beside them.
  unfoldable pub is_proof_valid : ℕ → List ℕ → List ℕ → Bool
  unfolding is_valid_mod_n
  is_proof_valid n [] zs = true
  is_proof_valid n (a ∷ big_as) [] = false
  is_proof_valid n (a ∷ big_as) (z ∷ zs) =
      if not (is_valid_mod_n C n a)
      then false
      else if not (is_valid_mod_n C n z)
      then false
      else is_proof_valid n big_as zs

  -- The loop that computes Zs.
  unfoldable pub responses : ℕ → ℕ → List ℕ → List Bool → List ℕ
  responses lambda phi [] es = []
  responses lambda phi (a ∷ as') es =
      (if head_bit es then C.mod_add (pos a ∷ pos lambda ∷ []) phi else a)
      ∷ responses lambda phi as' (tail es)

  -- One iteration of zkPrmVerifyProof; an entry that is missing is no number modulo n.
  unfoldable pub verify_round : PedersenParams → Bool → Option ℕ → Option ℕ → Bool
  unfolding is_valid_mod_n
  verify_round aux e none z = false
  verify_round aux e (some a) none = false
  verify_round aux e (some a) (some z) =
      if not (is_valid_mod_n C aux.n a)
      then false
      else if not (is_valid_mod_n C aux.n z)
      then false
      else if a == 1
      then false
      else (let lhs = C.mod_pow aux.t z aux.n in
          let rhs = if e then C.mod_multiply (a ∷ aux.s ∷ []) aux.n else a in
          if not (lhs == rhs) then false else true)

  -- The loop of zkPrmVerifyProof, with so many iterations left.
  unfoldable pub verify_rounds : PedersenParams → ℕ → List Bool → List ℕ → List ℕ → Bool
  unfolding verify_round
  verify_rounds aux zero es big_as zs = true
  verify_rounds aux (suc left) es big_as zs =
      verify_round aux (head_bit es) (head? big_as) (head? zs)
      && verify_rounds aux left (tail es) (tail big_as) (tail zs)

module _ {P : Type 0} (H : Hashing P) where
  -- The loop of challenge that hashes the commitments.
  unfoldable pub update_numbers : Hasher → List ℕ → Result Hasher
  unfolding update
  update_numbers h [] = ok h
  update_numbers h (a ∷ as') = do
    next ← update H h (basic (Basic.number a))
    update_numbers next as'

  unfoldable pub challenge : PedersenParams → List ℕ → Hasher → Result (List Bool)
  unfolding update update_numbers digest_bytes_into bits Pedersen.hashable
  challenge aux big_as hasher = do
    h1 ← update H hasher (hashable (Pedersen.hashable aux))
    h2 ← update_numbers h1 big_as
    (tmp_bytes, _) ← digest_bytes_into H h2 stat_param
    ok (bits stat_param tmp_bytes)

module _ (C : Crypto) (H : Hashing C.Point) where
  -- zkPrmCreateProof, where the i-th call of sampleModN returns `draws i`.
  unfoldable pub create_proof : PrmPrivate → PedersenParams → (ℕ → ℕ) → Hasher → Result PrmProof
  unfolding challenge responses draw_list
  create_proof priv aux draws hasher =
      let n = priv.p * priv.q in
      let as' = draw_list draws 0 stat_param in
      let big_as = map (λ a. C.mod_pow aux.t a n) as' in
      do
        es ← challenge H aux big_as hasher
        ok (record { big_as = big_as; zs = responses C priv.lambda priv.phi as' es })

  -- zkPrmVerifyProof; the exception of validate is caught.
  unfoldable pub verify_proof : PrmProof → PedersenParams → Hasher → Result Bool
  unfolding Pedersen.validate challenge verify_rounds
  verify_proof proof aux hasher = elim (Pedersen.validate C aux) [
    | err text ↦ ok false
    | ok _ ↦ do
      es ← challenge H aux proof.big_as hasher
      ok (verify_rounds C aux stat_param es proof.big_as proof.zs)
  ]
