-- ===== src/Curve.antt =====
-- src/mpc/math/curve.ts (isIdentity, scalarFromHash, verifySignature).
pub mod Signature
use threshold_sig_multiparty.Prelude.{
  ℕ, ◌+◌, ◌-◌, ◌*◌, ◌/◌, ◌^◌, Bool, false, ◌&&◌, ◌||◌, List, if◌then◌else◌, ltb, length, take,
}
use threshold_sig_multiparty.Prelude.Eq.{◌==◌, nat_eq}
use threshold_sig_multiparty.Prelude.Result.{Result, ok, ◌>>=◌}
use threshold_sig_multiparty.Crypto.{Crypto, AffinePoint}
use threshold_sig_multiparty.Fn

-- `bitLength(order)` of secp256k1.
abbrev pub order_bits : ℕ
order_bits = 256

module _ (C : Crypto) where
  unfoldable pub is_identity : C.Point → Bool
  is_identity p = ((C.px p == 0) && (C.py p == 0)) || (C.pz p == 0)

  unfoldable pub scalar_from_hash : List ℕ → ℕ
  scalar_from_hash hash_in =
      let order_bytes = (order_bits + 7) / 8 in
      let hash = if ltb order_bytes (length hash_in) then take order_bytes hash_in else hash_in in
      let scalar = C.bytes_to_number_be hash in
      let excess = length hash * 8 - order_bits in
      if ltb 0 excess then scalar / 2 ^ excess else scalar

  unfoldable pub verify_signature : AffinePoint → ℕ → AffinePoint → List ℕ → Result Bool
  unfolding scalar_from_hash Fn.inv
  verify_signature sig_r sig_s key hash = if (sig_r.x == 0) || (sig_s == 0) then ok false else (do
    s_inv ← Fn.inv C sig_s
    m_g ← C.multiply C.base (scalar_from_hash hash)
    r_x ← C.multiply (C.from_affine key) sig_r.x
    r2 ← C.multiply (C.add m_g r_x) s_inv
    ok (C.equals (C.from_affine sig_r) r2))
