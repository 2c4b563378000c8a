-- ===== src/Tests/Signatures.antt =====
-- A signing session of two parties in the group of residues modulo 11: the nonce is 2 + 1, gamma has
-- the logarithm 5, and the key is 7.
use threshold_sig_multiparty.Prelude.{
  if◌then◌else◌, String, ℕ, ◌*◌, ◌%◌, ◌≡◌, refl, true, List, [], ◌∷◌, arith,
}
use threshold_sig_multiparty.Prelude.Dict.{lookup}
use threshold_sig_multiparty.Prelude.Distinct.{All}
use threshold_sig_multiparty.Prelude.Modular.{Cong}
use threshold_sig_multiparty.Prelude.Eq.{◌==◌, string_eq}
use threshold_sig_multiparty.Prelude.Int.{ℤ, pos, sub_ℕ, ◌%ℤ◌}
use threshold_sig_multiparty.Prelude.Result.{ok}
use threshold_sig_multiparty.Crypto.{AffinePoint, product, sum_ℤ}
use threshold_sig_multiparty.Fn
use threshold_sig_multiparty.Hasher.{new_hasher}
use threshold_sig_multiparty.Curve.{scalar_from_hash, verify_signature}
use threshold_sig_multiparty.Signing.{SignSession, InputForRound4}
use threshold_sig_multiparty.Signing.Round4.{SignerRound4}
use threshold_sig_multiparty.Signing.Run.{Signer, total, sign}
use threshold_sig_multiparty.Signing.Combination.{ecdsa, sign-ecdsa}
use threshold_sig_multiparty.Paillier.Decryption.{key}
use threshold_sig_multiparty.Signing.Round3.{InputForRound3, SignerRound3, shares}
use threshold_sig_multiparty.Signing.Products.Matrix.{Holder, sum_of}
use threshold_sig_multiparty.Signing.Products.{Prepared, shares-products}
use threshold_sig_multiparty.Tests.Residues.{eleven}

abbrev at : ℕ → AffinePoint
at k = record { x = k; y = k }

-- The shares of delta add up to 3 * 5 = 4 modulo 11, those of chi to 3 * 7 = 10.
abbrev first_signer : Signer
first_signer = record { id = "a"; k = 2; chi = 6; delta = 1 }

abbrev second_signer : Signer
second_signer = record { id = "b"; k = 1; chi = 4; delta = 3 }

abbrev signers : List Signer
signers = first_signer ∷ second_signer ∷ []

abbrev session : SignSession
session = record {
  current_round = 4;
  party_ids = "a" ∷ "b" ∷ [];
  self_id = "a";
  hasher = new_hasher;
}

abbrev input : InputForRound4
input = record {
  gamma = at 5;
  chi_share = 6;
  k_share = 2;
  k = [];
  parties_public = [];
  message = 9 ∷ 9 ∷ [];
  public_key = at 7;
}

abbrev stored : SignerRound4
stored = record {
  delta_shares = ("a", 1) ∷ ("b", 3) ∷ [];
  big_delta_shares = ("a", at 10) ∷ ("b", at 5) ∷ [];
}

-- The inverse of the nonce is 3 * 5 = 4 modulo 11, and the scalar of the hash is 2.
sign-ecdsa_example :
    (w : ℕ) × (w * total (λ p. p.k) signers % 11 ≡ 1 % 11)
    × (sign eleven session input stored signers first_signer
        ≡ ok (ecdsa eleven w (total (λ p. p.k) signers) (scalar_from_hash eleven input.message) 7))
    × (verify_signature eleven
          (eleven.to_affine (eleven.times w eleven.base))
          (ecdsa eleven w (total (λ p. p.k) signers) (scalar_from_hash eleven input.message) 7).s
          input.public_key
          input.message
        ≡ ok true)
unfolding total scalar_from_hash Fn.inv product sum_ℤ ◌%ℤ◌ Fn.mul Fn.add lookup
sign-ecdsa_example =
    sign-ecdsa eleven session input stored signers 5 3 refl refl ((refl, refl), ((refl, refl), tt))
      refl refl 7 6 first_signer refl refl (omega arith) (omega arith) (omega arith) (omega arith)
      (omega arith, (omega arith, tt)) (refl, (refl, tt)) refl

abbrev alice : Holder
alice = record { id = "a"; k = 2; g = 3; x = 4 }

abbrev bob : Holder
bob = record { id = "b"; k = 1; g = 2; x = 3 }

-- "a" masks with 1, and "b" with 2.
abbrev mask : Holder → Holder → ℕ
mask p q = if p.id == "a" then 1 else 2

abbrev session_of : Holder → SignSession
session_of p = record session { current_round = 3; self_id = p.id }

abbrev betas_of : Holder → List (String × ℤ)
betas_of p = if p.id == "a" then ("b", sub_ℕ 0 1) ∷ [] else ("a", sub_ℕ 0 2) ∷ []

abbrev input_at : Holder → InputForRound3
input_at p = record {
  delta_share_betas = betas_of p;
  chi_share_betas = betas_of p;
  k = [];
  g = [];
  gamma_share = p.g;
  k_share = p.k;
  k_nonce = 1;
  secret_ecdsa = p.x;
  secret_paillier = key eleven 3 5 2;
  parties_public = [];
}

abbrev state_of : Holder → SignerRound3
state_of p = record {
  big_gamma_share = [];
  delta_share_alpha = if p.id == "a" then ("b", pos 6) ∷ [] else ("a", pos 4) ∷ [];
  chi_share_alpha = if p.id == "a" then ("b", pos 8) ∷ [] else ("a", pos 5) ∷ [];
}

alice-Prepared : Prepared eleven (alice ∷ bob ∷ []) session_of input_at state_of mask mask alice
unfolding lookup
alice-Prepared = record {
  parties = refl;
  self = refl;
  k_share = refl;
  gamma_share = refl;
  secret = refl;
  delta = ((λ e. absurd (ground (arith, e))), ((λ e. (refl, refl)), tt));
  chi = ((λ e. absurd (ground (arith, e))), ((λ e. (refl, refl)), tt));
}

bob-Prepared : Prepared eleven (alice ∷ bob ∷ []) session_of input_at state_of mask mask bob
unfolding lookup
bob-Prepared = record {
  parties = refl;
  self = refl;
  k_share = refl;
  gamma_share = refl;
  secret = refl;
  delta = ((λ e. (refl, refl)), ((λ e. absurd (ground (arith, e))), tt));
  chi = ((λ e. (refl, refl)), ((λ e. absurd (ground (arith, e))), tt));
}

shares-products_example :
    (delta : Holder → ℤ) × (chi : Holder → ℤ) × All
      (λ p. shares eleven (session_of p) (input_at p) (state_of p) ≡ ok (delta p, chi p))
      (alice ∷ bob ∷ [])
    × Cong 11
        (sum_of (λ p. Fn.residue eleven (delta p)) (alice ∷ bob ∷ []))
        (sum_of (λ p. p.k) (alice ∷ bob ∷ []) * sum_of (λ p. p.g) (alice ∷ bob ∷ []))
    × Cong 11
        (sum_of (λ p. Fn.residue eleven (chi p)) (alice ∷ bob ∷ []))
        (sum_of (λ p. p.k) (alice ∷ bob ∷ []) * sum_of (λ p. p.x) (alice ∷ bob ∷ []))
shares-products_example =
    shares-products eleven (alice ∷ bob ∷ []) session_of input_at state_of mask mask
      (refl, (refl, tt)) (alice-Prepared, (bob-Prepared, tt))
