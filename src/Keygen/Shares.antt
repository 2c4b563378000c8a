-- ===== src/Keygen/Shares.antt =====
-- The shares of src/mpc/keygen/round4.ts against the public polynomials of their senders.
use threshold_sig_multiparty.Prelude.{
  subst, ℕ, ◌+◌, ◌<◌, ◌≡◌, ◌≢◌, ◌⊎◌, inl, inr, refl, sym, ap, ◌∙◌, String, Bool, true, List, [],
  ◌∷◌, none, some, any, arith, Bool-cases, Option-cases,
}
use threshold_sig_multiparty.Prelude.Eq.{◌==◌, nat_eq, string_eq, ==_sound}
use threshold_sig_multiparty.Prelude.Dict.{lookup, insert, lookup-insert}
use threshold_sig_multiparty.Prelude.Distinct.{All}
use threshold_sig_multiparty.Prelude.Result.{ok, >>=-eq-ok, Result-cases}
use threshold_sig_multiparty.Crypto.{Crypto, AffinePoint}
use threshold_sig_multiparty.Crypto.Group.{times-add, times-mod, add_zero}
use threshold_sig_multiparty.Fn
use threshold_sig_multiparty.Fn.Laws.{add_lem}
use threshold_sig_multiparty.Polynomial.{party_id_to_scalar}
use threshold_sig_multiparty.Exponent
use threshold_sig_multiparty.Exponent.{Exponent}
use threshold_sig_multiparty.Exponent.Classic.{value_at, evaluate-value_at}
use threshold_sig_multiparty.Exponent.Sum.{AllShape, sum_at, sum-sum_at}
use threshold_sig_multiparty.Keygen.{
  Shares, Commitments, check_share, store_share, update_secret, collect, public_data, process,
}

module _ (C : Crypto) where
  open C use {
    order, base, times, multiply, multiply_lem, to_affine, from_affine, equals, equals_iff,
  }

  -- Every share is the discrete logarithm of what its sender's polynomial gives at x.
  abbrev pub Matches : ℕ → Commitments C → Shares C → Type 0
  Matches x vss shares =
      (j : String) (s : ℕ)
      → lookup j shares ≡ some s
      → (e : Exponent C) × (lookup j vss ≡ some e) × (value_at C x e ≡ times s base)

  check_share-value_at :
      (vss : Commitments C) (self_id from : String) (decrypted s : ℕ)
      → 0 < party_id_to_scalar C self_id
      → party_id_to_scalar C self_id < order
      → check_share C vss self_id from decrypted ≡ ok s
      → (e : Exponent C) × (lookup from vss ≡ some e)
        × (value_at C (party_id_to_scalar C self_id) e ≡ times s base)
  unfolding check_share
  check_share-value_at vss self_id from decrypted s px lx h =
      let x = party_id_to_scalar C self_id in
      elim (Option-cases (lookup from vss)) [
        | inl missing ↦ absurd (ground (arith, missing))
        | inr (e, known) ↦
            let p = value_at C x e in
            (
              e,
              known,
              ground (
                arith,
                known,
                evaluate-value_at C e x px lx,
                C.from_to_affine p,
                multiply_lem base s,
                equals_iff p (times s base),
              ),
            )
      ]

  pub insert-Matches :
      (x : ℕ) (vss : Commitments C) (from : String) (share : ℕ) (shares : Shares C) (e : Exponent C)
      → lookup from vss ≡ some e
      → value_at C x e ≡ times share base
      → Matches x vss shares
      → Matches x vss (insert from share shares)
  insert-Matches x vss from share shares e known value old j s h = elim (Bool-cases (from == j)) [
    | inl same ↦
        let is_from : from ≡ j = ==_sound from j same in
        let is_share : share ≡ s = ground (arith, lookup-insert from j share shares, same, h) in
        (e, ap (λ k. lookup k vss) (sym is_from) ∙ known, value ∙ ap (λ k. times k base) is_share)
    | inr other ↦ old j s (ground (arith, lookup-insert from j share shares, other, h))
  ]

  -- For an identifier of the party between 1 and order - 1, a message with a share keeps the shares
  -- that are stored in agreement with the polynomials of their senders, whatever the message says.
  pub store_share-Matches :
      (vss : Commitments C) (self_id from : String) (decrypted : ℕ) (shares : Shares C)
      → 0 < party_id_to_scalar C self_id
      → party_id_to_scalar C self_id < order
      → Matches (party_id_to_scalar C self_id) vss shares
      → Matches (party_id_to_scalar C self_id) vss (store_share C vss self_id from decrypted shares)
  store_share-Matches vss self_id from decrypted shares px lx old =
      let x = party_id_to_scalar C self_id in
      elim (Result-cases (check_share C vss self_id from decrypted)) [
        | inr (t, e) ↦
            let same : shares ≡ store_share C vss self_id from decrypted shares =
              unfold store_share in ground (arith, e) in
            subst (Matches x vss) same old
        | inl (s, e) ↦
            let (poly, known, value) = check_share-value_at vss self_id from decrypted s px lx e in
            let same : insert from s shares ≡ store_share C vss self_id from decrypted shares =
              unfold store_share in ground (arith, e) in
            subst (Matches x vss) same (insert-Matches x vss from s shares poly known value old)
      ]

  -- The collected secret and the collected polynomials go together.
  update_secret-sum_at :
      (x acc secret : ℕ) (vss : Commitments C) (shares : Shares C) (js : List String)
      (es : List (Exponent C))
      → Matches x vss shares
      → update_secret C shares acc js ≡ ok secret
      → collect C vss js ≡ ok es
      → times secret base ≡ C.add (times acc base) (sum_at C x es)
  unfolding update_secret collect sum_at
  update_secret-sum_at x acc secret vss shares [] es match u c =
      ground (arith, add_zero C (times acc base))
  update_secret-sum_at x acc secret vss shares (j ∷ js) es match u c =
      elim (Option-cases (lookup j shares)) [
        | inl missing ↦ absurd (ground (arith, missing))
        | inr (s, there) ↦
            let (e, known, value) = match j s there in
            let (polys, c1, c2) =
              >>=-eq-ok (collect C vss js) (λ polys. ok (e ∷ polys)) {u = es}
                (ground (arith, known)) in
            let rest =
              update_secret-sum_at x (Fn.add C acc s) secret vss shares js polys match
                (ground (arith, there)) c1 in
            let step : times (Fn.add C acc s) base ≡ C.add (times acc base) (times s base) =
              ap (λ k. times k base) (add_lem C acc s)
              ∙ times-mod C (acc + s) base
              ∙ times-add C acc s base in
            ground (
              arith,
              c2,
              rest,
              step,
              value,
              C.add_assoc (times acc base) (times s base) (sum_at C x polys),
            )
      ]

  public_data-lookup :
      (poly : Exponent C) (acc publics : List (String × AffinePoint)) (js : List String)
      (j : String) (a : AffinePoint)
      → Exponent.evaluate C poly (party_id_to_scalar C j) ≡ ok a
      → public_data C poly acc js ≡ ok publics
      → (any (λ i. i == j) js ≡ true) ⊎ (lookup j acc ≡ some a)
      → lookup j publics ≡ some a
  unfolding public_data
  public_data-lookup poly acc publics [] j a ev h k = ground arith
  public_data-lookup poly acc publics (i ∷ is) j a ev h k =
      let (share, e, rest) =
        >>=-eq-ok (Exponent.evaluate C poly (party_id_to_scalar C i))
          (λ share. public_data C poly (insert i share acc) is) h in
      public_data-lookup poly (insert i share acc) publics is j a ev rest
        (elim (Bool-cases (i == j)) [
          | inl same ↦
              let is_j : i ≡ j = ==_sound i j same in
              let value : ok share ≡ ok a =
                sym e ∙ ap (λ k. Exponent.evaluate C poly (party_id_to_scalar C k)) is_j ∙ ev in
              inr (ground (arith, lookup-insert i j share acc, same, value))
          | inr other ↦ elim k [
            | inl m ↦ inl (ground (arith, other, m))
            | inr old ↦ inr (ground (arith, lookup-insert i j share acc, other, old))
          ]
        ])

  -- An identifier at which a polynomial in the exponent can be evaluated.
  abbrev pub IsScalarId : String → Type 0
  IsScalarId j = (0 < party_id_to_scalar C j) × (party_id_to_scalar C j < order)

  update_secret-ok :
      (shares : Shares C) (acc : ℕ) (js : List String)
      → All (λ j. lookup j shares ≢ none) js
      → (secret : ℕ) × (update_secret C shares acc js ≡ ok secret)
  unfolding update_secret
  update_secret-ok shares acc [] h = (acc, refl)
  update_secret-ok shares acc (j ∷ js) h = elim (Option-cases (lookup j shares)) [
    | inl missing ↦ absurd (h.0 missing)
    | inr (s, there) ↦
        let (r, e) = update_secret-ok shares (Fn.add C acc s) js h.1 in
        (r, ground (arith, there, e))
  ]

  public_data-ok :
      (poly : Exponent C) (acc : List (String × AffinePoint)) (js : List String)
      → All IsScalarId js
      → (publics : List (String × AffinePoint)) × (public_data C poly acc js ≡ ok publics)
  unfolding public_data
  public_data-ok poly acc [] h = (acc, refl)
  public_data-ok poly acc (j ∷ js) h =
      let point = to_affine (value_at C (party_id_to_scalar C j) poly) in
      let (r, e) = public_data-ok poly (insert j point acc) js h.1 in
      (r, rw (evaluate-value_at C poly (party_id_to_scalar C j) h.0.0 h.0.1) e)

  -- When the identifiers of all parties lie between 1 and order - 1, a share and a polynomial of
  -- every party is there, all polynomials have one kind and length, and the shares agree with the
  -- polynomials of their senders, `process` returns a secret share and public shares, and the public
  -- share for the party itself is the point of the secret share.
  pub process-public_share :
      (vss : Commitments C) (self_id : String) (party_ids : List String) (self_share : ℕ)
      (shares : Shares C) (k : Bool) (n : ℕ) (e : Exponent C) (es : List (Exponent C))
      → IsScalarId self_id
      → All IsScalarId party_ids
      → any (λ i. i == self_id) party_ids ≡ true
      → All (λ j. lookup j (insert self_id self_share shares) ≢ none) party_ids
      → Matches (party_id_to_scalar C self_id) vss (insert self_id self_share shares)
      → collect C vss party_ids ≡ ok (e ∷ es)
      → AllShape C k n (e ∷ es)
      → (secret : ℕ) × (publics : List (String × AffinePoint)) × (process C vss self_id party_ids
            self_share shares
          ≡ ok (secret, publics))
        × (lookup self_id publics ≡ some (to_affine (times secret base)))
  process-public_share vss self_id party_ids self_share shares k n e es id ids member there match
        col shape =
      let x = party_id_to_scalar C self_id in
      let all_shares = insert self_id self_share shares in
      let (poly, summed, _, value) = sum-sum_at C k n x e es shape in
      let (secret, u) = update_secret-ok all_shares 0 party_ids there in
      let (publics, d) = public_data-ok poly [] party_ids ids in
      let point : value_at C x poly ≡ times secret base =
        value
        ∙ sym (
            update_secret-sum_at x 0 secret vss all_shares party_ids (e ∷ es) match u col
            ∙ ap (λ p. C.add p (sum_at C x (e ∷ es))) (C.times_zero base)
            ∙ C.zero_add (sum_at C x (e ∷ es))) in
      (
        secret,
        publics,
        unfold process in rw (u, col, summed, d) refl,
        public_data-lookup poly [] publics party_ids self_id (to_affine (times secret base))
            (evaluate-value_at C poly x id.0 id.1 ∙ ap (λ p. ok (to_affine p)) point) d
            (inl member),
      )
