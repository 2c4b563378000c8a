-- ===== src/Tests/Points.antt =====
-- Polynomials in the exponent and Schnorr's proof in the group of residues modulo 11.
use threshold_sig_multiparty.Prelude.{
  ℕ, ◌≡◌, ◌≢◌, String, refl, true, false, List, [], ◌∷◌, Option, none, some, if◌then◌else◌, arith,
}
use threshold_sig_multiparty.Prelude.Eq.{◌==◌, nat_eq, string_eq}
use threshold_sig_multiparty.Prelude.Result.{ok, ◌>>=◌}
use threshold_sig_multiparty.Crypto.{AffinePoint, sum_ℤ, product}
use threshold_sig_multiparty.Prelude.Int.{◌%ℤ◌}
use threshold_sig_multiparty.Polynomial
use threshold_sig_multiparty.Exponent
use threshold_sig_multiparty.Exponent.{Exponent}
use threshold_sig_multiparty.Exponent.Horner.{evaluate-from_poly}
use threshold_sig_multiparty.Exponent.Classic.{evaluate_classic-eq-evaluate, value_at}
use threshold_sig_multiparty.Hasher.{new_hasher}
use threshold_sig_multiparty.Curve.{is_identity, scalar_from_hash, verify_signature}
use threshold_sig_multiparty.Curve.Signature.{verify_signature-signed}
use threshold_sig_multiparty.Fn
use threshold_sig_multiparty.Schnorr.{
  SchResponse, SchRandomness, generator, create_randomness, challenge, prove, verify_response,
}
use threshold_sig_multiparty.Schnorr.Completeness.{verify_response-prove}
use threshold_sig_multiparty.Prelude.Dict.{lookup, insert}
use threshold_sig_multiparty.Keygen.{Commitments, store_share, collect, process}
use threshold_sig_multiparty.Keygen.Shares.{
  Matches, insert-Matches, store_share-Matches, process-public_share,
}
use threshold_sig_multiparty.Polynomial.{party_id_to_scalar}
use threshold_sig_multiparty.Tests.Residues.{Residue-path, eleven, plain_hashing, residue_of}

evaluate-from_poly_example :
    (Exponent.from_poly eleven (Polynomial.create 2 4 (λ i. 7)) >>= λ e.
    Exponent.evaluate eleven e 3)
    ≡ (Polynomial.evaluate eleven (Polynomial.create 2 4 (λ i. 7)) 3 >>= λ y.
        ok (eleven.to_affine (eleven.times y eleven.base)))
evaluate-from_poly_example =
    evaluate-from_poly eleven 2 4 3 (λ i. 7) (omega arith) (λ i. (omega arith, omega arith))
      (omega arith) (omega arith)

abbrev exponent_of : ℕ → ℕ → Exponent eleven
exponent_of a b = record { is_constant = false; coefficients = residue_of a ∷ residue_of b ∷ [] }

evaluate_classic-eq-evaluate_example :
    (a : AffinePoint) × (Exponent.evaluate eleven (exponent_of 4 7) 3 ≡ ok a)
    × (Exponent.evaluate_classic eleven (exponent_of 4 7) 3 ≡ ok a)
evaluate_classic-eq-evaluate_example =
    evaluate_classic-eq-evaluate eleven (exponent_of 4 7) 3 (omega arith) (omega arith)

abbrev point_of : ℕ → AffinePoint
point_of k = record { x = k; y = k }

abbrev randomness : SchRandomness
randomness = record { a = 5; commitment = record { c = point_of 5 } }

verify_response-prove_example :
    (z : SchResponse) × (prove eleven plain_hashing randomness new_hasher (point_of 3) 3 none
      ≡ ok (some z))
    × (verify_response eleven plain_hashing
          (some z)
          new_hasher
          (point_of 3)
          randomness.commitment
          none
        ≡ ok (if z.z == 0 then false else true))
unfolding generator is_identity create_randomness challenge ◌%ℤ◌ sum_ℤ
verify_response-prove_example =
    verify_response-prove eleven plain_hashing new_hasher none 5 3 7 randomness (point_of 3) refl
      refl (omega arith) refl refl (omega arith)

-- The polynomials of "a" and "b" at 1, the identifier of "a", give 4 + 7 and 2 + 3.
abbrev commitments : Commitments eleven
commitments = ("a", exponent_of 4 6) ∷ ("b", exponent_of 2 3) ∷ []

store_share-Matches_example :
    Matches eleven
      (party_id_to_scalar eleven "a")
      commitments
      (store_share eleven commitments "a" "b" 5 [])
unfolding lookup party_id_to_scalar
store_share-Matches_example =
    store_share-Matches eleven commitments "a" "b" 5 [] (omega arith) (omega arith) (λ j s h. cc)

none_or_some : (o : Option ℕ) (s : ℕ) → o ≡ some s → o ≢ none
none_or_some o s h e = cc

own_and_received : Matches eleven 1 commitments (insert "a" 10 (("b", 5) ∷ []))
unfolding lookup insert value_at
own_and_received =
    let one = exponent_of 4 6 in
    let two = exponent_of 2 3 in
    insert-Matches eleven 1 commitments "a" 10 (("b", 5) ∷ []) one refl
      (Residue-path (value_at eleven 1 one) (eleven.times 10 eleven.base) refl)
      (insert-Matches eleven 1 commitments "b" 5 [] two refl
        (Residue-path (value_at eleven 1 two) (eleven.times 5 eleven.base) refl) (λ j s h. cc))

process-public_share_example :
    (secret : ℕ) × (publics : List (String × AffinePoint)) × (process eleven commitments "a"
        ("a" ∷ "b" ∷ [])
        10
        (("b", 5) ∷ [])
      ≡ ok (secret, publics))
    × (lookup "a" publics ≡ some (eleven.to_affine (eleven.times secret eleven.base)))
unfolding lookup insert collect party_id_to_scalar
process-public_share_example =
    process-public_share eleven commitments "a" ("a" ∷ "b" ∷ []) 10 (("b", 5) ∷ []) false 2
      (exponent_of 4 6) (exponent_of 2 3 ∷ []) (omega arith, omega arith)
      ((omega arith, omega arith), ((omega arith, omega arith), tt)) refl
      (none_or_some (some 10) 10 refl, (none_or_some (some 5) 5 refl, tt)) own_and_received refl
      ((refl, refl), ((refl, refl), tt))

-- The key 3, the nonce 3 with inverse 4, a hash with the scalar 7: s is 2, with inverse 6.
verify_signature-signed_example :
    verify_signature eleven (point_of 4) 2 (point_of 3) (1 ∷ 2 ∷ 3 ∷ 4 ∷ 5 ∷ 6 ∷ 7 ∷ []) ≡ ok true
unfolding scalar_from_hash Fn.mul Fn.add Fn.inv product sum_ℤ ◌%ℤ◌
verify_signature-signed_example =
    verify_signature-signed eleven 3 3 4 6 2 (1 ∷ 2 ∷ 3 ∷ 4 ∷ 5 ∷ 6 ∷ 7 ∷ []) (point_of 4)
      (point_of 3) refl refl refl refl (omega arith) (omega arith) (omega arith) (omega arith)
      (omega arith) refl (omega arith) (omega arith)
