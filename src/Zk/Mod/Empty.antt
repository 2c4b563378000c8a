-- ===== src/Zk/Mod/Empty.antt =====
-- What zkModVerifyProof of src/mpc/zk/mod.ts makes of proofs with too few responses.
use threshold_sig_multiparty.Prelude.{
  ℕ, ◌+◌, ◌*◌, ◌/◌, ◌%◌, ◌≡◌, ◌≢◌, refl, Bool, true, false, List, [], ◌∷◌, Option, arith,
}
use threshold_sig_multiparty.Prelude.Eq.{◌==◌, nat_eq}
use threshold_sig_multiparty.Prelude.Result.{ok}
use threshold_sig_multiparty.Crypto.{Crypto}
use threshold_sig_multiparty.Hasher.{Hashing, Hasher, Basic, basic, update_multi, digest_bytes_into}
use threshold_sig_multiparty.Arith.{Sign, is_valid_mod_n, jacobi}
use threshold_sig_multiparty.Sample.{is_minus}
use threshold_sig_multiparty.Zk.{update_all-ok}
use threshold_sig_multiparty.Zk.Rounds.{stat_param}
use threshold_sig_multiparty.Zk.Mod.{samples, challenge, verify_proof}

module _ (C : Crypto) (H : Hashing C.Point) where
  -- The challenge is drawn from an unused hasher.
  pub challenge-ok :
      (h : Hasher) (n w : ℕ) → h.used ≡ false → (ys : List ℕ) × (challenge C H h n w ≡ ok ys)
  unfolding challenge update_multi digest_bytes_into
  challenge-ok h n w fresh =
      let (h', e, f) =
        update_all-ok H h (basic (Basic.number n) ∷ basic (Basic.number w) ∷ []) fresh
          (tt, (tt, tt)) in
      let k = C.bit_length n / 8 + 2 in
      (
        samples C n k stat_param (H.blake3_into h'.absorbed (k * stat_param)),
        ground (arith, fresh, e, f),
      )

  -- A proof without responses is accepted for every odd number that `isProbablyPrime` does not take
  -- for a prime, whatever its factors are, where w is a number modulo it whose Jacobi symbol is -1.
  pub verify_proof-empty :
      (prime : ℕ → Bool) (n w : ℕ) (h : Hasher) (sign : Option Sign)
      → n % 2 ≢ 0
      → prime n ≡ false
      → jacobi w n ≡ ok sign
      → is_minus sign ≡ true
      → is_valid_mod_n C n w ≡ true
      → h.used ≡ false
      → verify_proof C H prime (record { w = w; responses = [] }) n h ≡ ok true
  unfolding verify_proof
  verify_proof-empty prime n w h sign odd composite symbol minus valid fresh =
      let even : (n % 2 == 0) ≡ false = ground (arith, odd) in
      let (ys, drawn) = challenge-ok h n w fresh in
      rw (even, composite, symbol, minus, valid, drawn) refl
