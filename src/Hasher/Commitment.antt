-- ===== src/Hasher/Commitment.antt =====
-- Commitments of src/mpc/utils/hasher.ts that are opened again.
use threshold_sig_multiparty.Prelude.{ℕ, true, ◌≡◌, List, arith}
use threshold_sig_multiparty.Prelude.Result.{ok, >>=-eq-ok}
use threshold_sig_multiparty.Hasher.{
  Hashing, Hasher, Ingestable, commit, decommit, commitment_of, validate_commitment,
}

module _ {P : Type 0} (H : Hashing P) where
  -- `decommit` accepts a commitment of `commit` with the same data, when neither the commitment nor
  -- the random bytes are refused by `validateCommitment`.
  pub decommit-commit :
      (h : Hasher) (data' : List (Ingestable P)) (r c d : List ℕ)
      → commit H h data' r ≡ ok (c, d)
      → validate_commitment c ≡ ok tt
      → validate_commitment d ≡ ok tt
      → decommit H h c d data' ≡ ok true
  unfolding commit decommit
  decommit-commit h data' r c d e vc vd =
      let (x, f, g) = >>=-eq-ok (commitment_of H h data' r) (λ k. ok (k, r)) e in
      ground (arith, vc, vd, f, g, H.equal_bytes_refl c)
