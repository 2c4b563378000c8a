-- ===== src/Keygen.antt =====
-- src/mpc/keygen/round4.ts: the secret shares of the parties. Modelled are what handleDirectMessage
-- does with a share that it has decrypted, and the secret and public shares that process computes.
pub mod Shares
pub mod Session
pub mod Round1
pub mod Round3
pub mod Round4
pub mod Acceptance
pub mod Opening
pub mod Broadcast
pub mod Response
use threshold_sig_multiparty.Prelude.{ℕ, String, List, [], ◌∷◌, Option, none, some, if◌then◌else◌}
use threshold_sig_multiparty.Prelude.Eq.{◌==◌, nat_eq, string_eq}
use threshold_sig_multiparty.Prelude.Dict.{lookup, insert}
use threshold_sig_multiparty.Prelude.Int.{pos}
use threshold_sig_multiparty.Prelude.Result.{Result, ok, err, ◌>>=◌, ◌>>◌, require}
use threshold_sig_multiparty.Crypto.{Crypto, AffinePoint}
use threshold_sig_multiparty.Fn
use threshold_sig_multiparty.Polynomial.{party_id_to_scalar}
use threshold_sig_multiparty.Exponent
use threshold_sig_multiparty.Exponent.{Exponent}

module _ (C : Crypto) where
  -- The fields ShareReceived and vssPolynomials.
  abbrev pub Shares : Type 0
  Shares = List (String × ℕ)

  abbrev pub Commitments : Type 0
  Commitments = List (String × Exponent C)

  -- A missing entry is `undefined`, and the calls on it throw.
  abbrev pub found {ℓ} : {A : Type ℓ} → Option A → Result A
  found none = err "Cannot read properties of undefined"
  found (some a) = ok a

  -- The checks of handleDirectMessage on a decrypted share.
  unfoldable pub check_share : Commitments → String → String → ℕ → Result ℕ
  unfolding lookup Fn.residue Exponent.evaluate party_id_to_scalar
  check_share vss self_id from decrypted =
      let share = Fn.residue C (pos decrypted) in
      do
        require (share == decrypted) "decrypted share is not in correct range"
        poly ← found (lookup from vss)
        expected ← Exponent.evaluate C poly (party_id_to_scalar C self_id)
        public ← C.multiply C.base share
        require (C.equals (C.from_affine expected) public) "failed to validate VSS share"
        ok share

  -- An exception is caught, and the share is not stored.
  unfoldable pub store_share : Commitments → String → String → ℕ → Shares → Shares
  unfolding check_share insert
  store_share vss self_id from decrypted shares = elim (check_share vss self_id from decrypted) [
    | err e ↦ shares
    | ok share ↦ insert from share shares
  ]

  -- The loop that computes UpdatedSecretECDSA.
  unfoldable pub update_secret : Shares → ℕ → List String → Result ℕ
  unfolding lookup Fn.add
  update_secret shares secret [] = ok secret
  update_secret shares secret (j ∷ js) = do
    share ← found (lookup j shares)
    update_secret shares (Fn.add C secret share) js

  -- The loop that collects ShamirPublicPolynomials.
  unfoldable pub collect : Commitments → List String → Result (List (Exponent C))
  unfolding lookup
  collect vss [] = ok []
  collect vss (j ∷ js) = do poly ← found (lookup j vss); polys ← collect vss js; ok (poly ∷ polys)

  -- The loop that computes PublicData, for the ECDSA shares.
  unfoldable pub public_data :
      Exponent C → List (String × AffinePoint) → List String → Result (List (String × AffinePoint))
  unfolding Exponent.evaluate party_id_to_scalar insert
  public_data poly acc [] = ok acc
  public_data poly acc (j ∷ js) = do
    share ← Exponent.evaluate C poly (party_id_to_scalar C j)
    public_data poly (insert j share acc) js

  -- The keys that process computes: the secret share of the party, and the public shares.
  unfoldable pub process :
      Commitments → String → List String → ℕ → Shares → Result (ℕ × List (String × AffinePoint))
  unfolding insert update_secret collect public_data Exponent.sum
  process vss self_id party_ids self_share shares = do
    secret ← update_secret (insert self_id self_share shares) 0 party_ids
    polys ← collect vss party_ids
    poly ← Exponent.sum C polys
    publics ← public_data poly [] party_ids
    ok (secret, publics)
