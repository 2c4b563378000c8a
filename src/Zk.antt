-- ===== src/Zk.antt =====
-- src/mpc/zk: the zero-knowledge proofs about Paillier ciphertexts. Here is what they share: the
-- challenge that is drawn from the transcript, and its bounds.
pub mod Enc
pub mod Logstar
pub mod Affg
pub mod Prm
pub mod Fac
pub mod Mod
pub mod Rounds
use native.Mathlib.Nat.{mul-le-mul}
use threshold_sig_multiparty.Prelude.{
  ℕ, ◌+◌, ◌-◌, ◌*◌, ◌/◌, ◌^◌, ◌<◌, ◌≤◌, ◌≡◌, refl, sym, ap, ◌∙◌, Bool, true, false, not, List, [],
  ◌∷◌, ◌++◌, leb, if◌then◌else◌, arith,
}
use threshold_sig_multiparty.Prelude.Distinct.{All}
use threshold_sig_multiparty.Prelude.Result.{Result, ok, err, ◌>>=◌, ◌>>◌, require, >>=-eq-ok}
use threshold_sig_multiparty.Crypto.{Crypto}
use threshold_sig_multiparty.Fn
use threshold_sig_multiparty.Fn.Laws.{sub-lt}
use threshold_sig_multiparty.Arith.{is_in_interval_leps, is_in_interval_lprime_eps}
use threshold_sig_multiparty.Hasher.{
  Hashing, Hasher, Basic, Ingestable, basic, hashable, projective, affine, update, update_basic,
  update_basics, update_all, update_multi, digest_bigint, digest_bytes, captured, basic_bytes,
}

-- The three statements that the functions `challenge` of the proofs have in common, for the data
-- that a proof hands to `updateMulti`.
unfoldable pub digest_challenge :
    (C : Crypto) → Hashing C.Point → Hasher → List (Ingestable C.Point) → Result ℕ
unfolding update_multi digest_bigint Fn.sub
digest_challenge C H hasher data' = do
  h ← update_multi H hasher data'
  (big_hash, _) ← digest_bigint H h
  ok (Fn.sub C big_hash (2 ^ 255))

-- Data that is no point in projective form; its bytes are there without an exception.
abbrev pub IsPlain : {P : Type 0} → Ingestable P → Type 0
IsPlain (basic b) = Unit
IsPlain (hashable bs) = Unit
IsPlain (projective p) = true ≡ false
IsPlain (affine a) = Unit

module _ {P : Type 0} (H : Hashing P) where
  update_basics-ok :
      (h : Hasher) (bs : List Basic)
      → h.used ≡ false
      → (h' : Hasher) × (update_basics H h bs ≡ ok h') × (h'.used ≡ false)
  unfolding update_basics update_basic
  update_basics-ok h [] fresh = (h, refl, fresh)
  update_basics-ok h (b ∷ bs) fresh =
      let next : Hasher = record h { absorbed = h.absorbed ++ basic_bytes H b } in
      let (h', e, f) = update_basics-ok next bs fresh in (h', ground (arith, fresh, e), f)

  pub update-ok :
      (h : Hasher) (d : Ingestable P)
      → h.used ≡ false
      → IsPlain d
      → (h' : Hasher) × (update H h d ≡ ok h') × (h'.used ≡ false)
  unfolding update captured
  update-ok h (basic b) fresh plain =
      let (h', e, f) = update_basics-ok h (b ∷ []) fresh in (h', ground (arith, fresh, e), f)
  update-ok h (hashable bs) fresh plain =
      let (h', e, f) = update_basics-ok h bs fresh in (h', ground (arith, fresh, e), f)
  update-ok h (projective p) fresh plain = cc
  update-ok h (affine a) fresh plain =
      let (h', e, f) = update_basics-ok h (Basic.number a.x ∷ Basic.number a.y ∷ []) fresh in
      (h', ground (arith, fresh, e), f)

  pub update_all-ok :
      (h : Hasher) (ds : List (Ingestable P))
      → h.used ≡ false
      → All IsPlain ds
      → (h' : Hasher) × (update_all H h ds ≡ ok h') × (h'.used ≡ false)
  unfolding update_all
  update_all-ok h [] fresh plain = (h, refl, fresh)
  update_all-ok h (d ∷ ds) fresh plain =
      let (h1, e1, f1) = update-ok h d fresh plain.0 in
      let (h2, e2, f2) = update_all-ok h1 ds f1 plain.1 in (h2, rw e1 e2, f2)

module _ (C : Crypto) (H : Hashing C.Point) where
  -- The challenge is drawn from an unused hasher, and lies below the order.
  pub digest_challenge-ok :
      (h : Hasher) (ds : List (Ingestable C.Point))
      → h.used ≡ false
      → All IsPlain ds
      → (e : ℕ) × (digest_challenge C H h ds ≡ ok e) × (e < C.order)
  unfolding digest_challenge update_multi digest_bigint digest_bytes
  digest_challenge-ok h ds fresh plain =
      let (h', e, f) = update_all-ok H h ds fresh plain in
      let n = H.number_be (H.blake3 h'.absorbed) in
      (Fn.sub C n (2 ^ 255), ground (arith, fresh, e, f), sub-lt C n (2 ^ 255))

pub square-le : (o : ℕ) → o ≤ o * o
square-le o = grind arith

-- The bound of a response to a challenge.
pub response-lt : (k e a o : ℕ) → k < o → e < o → a < o → k * e + a < o * o
response-lt k e a o hk he ha = grind arith

-- A response is below the square of the order, and so in the intervals ±2^768 and ±2^1792.
response-bits :
    (C : Crypto) (k e a : ℕ)
    → k < C.order
    → e < C.order
    → a < C.order
    → C.bit_length (k * e + a) ≤ 512
response-bits C k e a hk he ha =
    let square : C.order * C.order ≤ 2 ^ 256 * 2 ^ 256 = mul-le-mul C.order_bound C.order_bound in
    let bound : k * e + a < 2 ^ 512 = omega (arith, square, response-lt k e a C.order hk he ha) in
    (C.bit_length_iff (k * e + a) 512 (omega arith)).1 bound

pub response-interval :
    (C : Crypto) (k e a : ℕ)
    → k < C.order
    → e < C.order
    → a < C.order
    → is_in_interval_leps C (k * e + a) ≡ true
unfolding is_in_interval_leps
response-interval C k e a hk he ha = ground (arith, response-bits C k e a hk he ha)

pub response-interval_lprime :
    (C : Crypto) (k e a : ℕ)
    → k < C.order
    → e < C.order
    → a < C.order
    → is_in_interval_lprime_eps C (k * e + a) ≡ true
unfolding is_in_interval_lprime_eps
response-interval_lprime C k e a hk he ha = ground (arith, response-bits C k e a hk he ha)
