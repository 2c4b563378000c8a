-- ===== src/Pedersen.antt =====
-- src/mpc/paillierKeyPair/Pedersen/pendersen.ts: Pedersen parameters and commitments. The numbers
-- that the program passes are not negative.
pub mod Opening
use threshold_sig_multiparty.Prelude.{
  ℕ, Bool, true, false, not, List, [], ◌∷◌, if◌then◌else◌, ltb, leb,
}
use threshold_sig_multiparty.Prelude.Eq.{◌==◌, nat_eq}
use threshold_sig_multiparty.Prelude.Result.{Result, ok, err, ◌>>=◌, ◌>>◌, require}
use threshold_sig_multiparty.Crypto.{Crypto}
use threshold_sig_multiparty.Hasher.{Basic}

-- PedersenParams
pub record PedersenParams : Type 0 where
  pub n : ℕ
  pub s : ℕ
  pub t : ℕ

-- `hashable`
unfoldable pub hashable : PedersenParams → List Basic
hashable p = Basic.number p.n ∷ Basic.number p.s ∷ Basic.number p.t ∷ []

module _ (C : Crypto) where
  unfoldable pub validate_params : ℕ → ℕ → ℕ → Result (Unit {0})
  validate_params n s t = do
    require (ltb 0 n) "INVALID_PEDERSEN_PARAMETERS: n must be positive"
    require (ltb 0 s) "INVALID_PEDERSEN_PARAMETERS: s must be positive"
    require (ltb 0 t) "INVALID_PEDERSEN_PARAMETERS: t must be positive"
    require (ltb s n) "INVALID_PEDERSEN_PARAMETERS: s must be less than n"
    require (ltb t n) "INVALID_PEDERSEN_PARAMETERS: t must be less than n"
    require (not (s == t)) "INVALID_PEDERSEN_PARAMETERS: s and t must be different"
    require (C.gcd s n == 1) "INVALID_PEDERSEN_PARAMETERS: s must be coprime to n"
    require (C.gcd t n == 1) "INVALID_PEDERSEN_PARAMETERS: t must be coprime to n"

  unfoldable pub validate : PedersenParams → Result (Unit {0})
  unfolding validate_params
  validate p = validate_params p.n p.s p.t

  unfoldable pub commit : PedersenParams → ℕ → ℕ → ℕ
  commit p x y = C.mod_multiply (C.mod_pow p.s x p.n ∷ C.mod_pow p.t y p.n ∷ []) p.n

  -- The exception of validateParams is caught.
  unfoldable pub verify : PedersenParams → ℕ → ℕ → ℕ → ℕ → ℕ → Bool
  unfolding validate_params
  verify p a b e big_s big_t = elim (validate_params p.n big_s big_t) [
    | err text ↦ false
    | ok _ ↦
        C.mod_multiply (C.mod_pow p.s a p.n ∷ C.mod_pow p.t b p.n ∷ []) p.n
        == C.mod_multiply (C.mod_pow big_t e p.n ∷ big_s ∷ []) p.n
  ]
