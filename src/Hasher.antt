-- ===== src/Hasher.antt =====
-- src/mpc/utils/hasher.ts: the transcript hash. The state of blake3 is the bytes that it has
-- absorbed; each operation returns the changed hasher.
pub mod Commitment
use threshold_sig_multiparty.Prelude.{
  ℕ, ◌+◌, ◌%◌, ◌≡◌, String, Bool, true, false, not, List, [], ◌∷◌, ◌++◌, if◌then◌else◌, length,
}
use threshold_sig_multiparty.Prelude.Eq.{◌==◌, nat_eq}
use threshold_sig_multiparty.Prelude.Result.{Result, ok, err, ◌>>=◌, ◌>>◌, require}
use threshold_sig_multiparty.Crypto.{AffinePoint}

-- What the class takes from @noble/hashes, @noble/curves and the JavaScript runtime, for points P.
pub record Hashing (P : Type 0) : Type 1 where
  pub blake3 : List ℕ → List ℕ
  -- `digestInto` a buffer of that length
  pub blake3_into : List ℕ → ℕ → List ℕ
  pub text_bytes : String → List ℕ
  -- `data.toString(16)`, as its digits
  pub hex_digits : ℕ → List ℕ
  pub hex_to_bytes : List ℕ → List ℕ
  pub number_be : List ℕ → ℕ
  -- `toRawBytes` throws on the point at infinity
  pub to_raw_bytes : P → Result (List ℕ)
  pub equal_bytes : List ℕ → List ℕ → Bool
  pub equal_bytes_refl : (bs : List ℕ) → equal_bytes bs bs ≡ true

-- IngestableBasic
pub data Basic : Type 0 where
  bytes : List ℕ → Basic
  text : String → Basic
  number : ℕ → Basic

-- Ingestable
pub data Ingestable (P : Type 0) : Type 0 where
  basic : Basic → Ingestable P
  hashable : List Basic → Ingestable P
  projective : P → Ingestable P
  affine : AffinePoint → Ingestable P

pub record Hasher : Type 0 where
  pub absorbed : List ℕ
  pub used : Bool

-- `Hasher.create()`
abbrev pub new_hasher : Hasher
new_hasher = record { absorbed = []; used = false }

abbrev pub already_used : String
already_used = "Hasher already used"

-- `clone`
unfoldable pub clone : Hasher → Hasher
clone h = record { absorbed = h.absorbed; used = false }

-- `validateCommitment`: 32 bytes, not all of them 0.
unfoldable pub has_nonzero : List ℕ → Result (Unit {0})
has_nonzero [] = err "commitment is 0"
has_nonzero (b ∷ bs) = if not (b == 0) then ok tt else has_nonzero bs

unfoldable pub validate_commitment : List ℕ → Result (Unit {0})
unfolding has_nonzero
validate_commitment commitment = do
  require (length commitment == 32) "Bad commitment length"
  has_nonzero commitment

module _ {P : Type 0} (H : Hashing P) where
  -- The bytes of updateBasic: a number has an even number of hexadecimal digits.
  unfoldable pub basic_bytes : Basic → List ℕ
  basic_bytes (bytes bs) = bs
  basic_bytes (text s) = H.text_bytes s
  basic_bytes (number n) =
      let hex = H.hex_digits n in H.hex_to_bytes (if length hex % 2 == 1 then 0 ∷ hex else hex)

  unfoldable pub update_basic : Hasher → Basic → Result Hasher
  unfolding basic_bytes
  update_basic h data' = do
    require (not h.used) already_used
    ok (record h { absorbed = h.absorbed ++ basic_bytes data' })

  unfoldable pub update_basics : Hasher → List Basic → Result Hasher
  unfolding update_basic
  update_basics h [] = ok h
  update_basics h (d ∷ ds) = do next ← update_basic h d; update_basics next ds

  -- The array `buf` of update, with pointToHashable.
  unfoldable pub captured : Ingestable P → Result (List Basic)
  captured (basic b) = ok (b ∷ [])
  captured (hashable bs) = ok bs
  captured (projective p) = do raw ← H.to_raw_bytes p; ok (bytes raw ∷ [])
  captured (affine a) = ok (number a.x ∷ number a.y ∷ [])

  unfoldable pub update : Hasher → Ingestable P → Result Hasher
  unfolding captured update_basics
  update h data' = do require (not h.used) already_used; buf ← captured data'; update_basics h buf

  -- The loop of updateMulti.
  unfoldable pub update_all : Hasher → List (Ingestable P) → Result Hasher
  unfolding update
  update_all h [] = ok h
  update_all h (d ∷ ds) = do next ← update h d; update_all next ds

  unfoldable pub update_multi : Hasher → List (Ingestable P) → Result Hasher
  unfolding update_all
  update_multi h data' = do require (not h.used) already_used; update_all h data'

  -- digestBytes, with the hasher after the call.
  unfoldable pub digest_bytes : Hasher → Result (List ℕ × Hasher)
  digest_bytes h = do
    require (not h.used) already_used
    ok (H.blake3 h.absorbed, record h { used = true })

  -- digestBytesInto a buffer of that length.
  unfoldable pub digest_bytes_into : Hasher → ℕ → Result (List ℕ × Hasher)
  digest_bytes_into h len = do
    require (not h.used) already_used
    ok (H.blake3_into h.absorbed len, record h { used = true })

  unfoldable pub digest_bigint : Hasher → Result (ℕ × Hasher)
  unfolding digest_bytes
  digest_bigint h = do (bs, h') ← digest_bytes h; ok (H.number_be bs, h')

  -- The digest that commit and decommit compute, on a clone.
  unfoldable pub commitment_of : Hasher → List (Ingestable P) → List ℕ → Result (List ℕ)
  unfolding update_multi update digest_bytes clone
  commitment_of h data' decommitment = do
    h1 ← update_multi (clone h) data'
    h2 ← update h1 (basic (bytes decommitment))
    (commitment, _) ← digest_bytes h2
    ok commitment

  -- commit, for the 32 bytes that `randBytesSync` returns.
  unfoldable pub commit : Hasher → List (Ingestable P) → List ℕ → Result (List ℕ × List ℕ)
  unfolding commitment_of
  commit h data' decommitment = do
    commitment ← commitment_of h data' decommitment
    ok (commitment, decommitment)

  unfoldable pub decommit : Hasher → List ℕ → List ℕ → List (Ingestable P) → Result Bool
  unfolding validate_commitment commitment_of
  decommit h commitment decommitment data' = do
    validate_commitment commitment
    validate_commitment decommitment
    computed ← commitment_of h data' decommitment
    ok (H.equal_bytes commitment computed)
