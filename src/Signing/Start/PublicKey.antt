-- ===== src/Signing/Start/PublicKey.antt =====
-- The public key of a signing session that src/mpc/signing/signSession.ts starts, and the parties'
-- shares of its secret key.
use threshold_sig_multiparty.Prelude.{
  ℕ, ◌+◌, ◌*◌, ◌<◌, ◌≡◌, refl, sym, ap, ◌∙◌, subst, String, true, List, [], ◌∷◌, any, ◌⊎◌, inl, inr,
  some, Bool-cases, arith,
}
use threshold_sig_multiparty.Prelude.Dict.{lookup, insert, lookup-insert, lookup-insert_self, keys}
use threshold_sig_multiparty.Prelude.Distinct.{All}
use threshold_sig_multiparty.Prelude.Eq.{◌==◌, string_eq, ==_sound}
use threshold_sig_multiparty.Prelude.Result.{Result, ok}
use threshold_sig_multiparty.Crypto.{Crypto}
use threshold_sig_multiparty.Crypto.Group.{times-mod, times-mul, times-add, add_zero}
use threshold_sig_multiparty.Fn
use threshold_sig_multiparty.Fn.Laws.{mul_lem}
use threshold_sig_multiparty.Hasher.{Hashing, Basic, basic, hashable, new_hasher}
use threshold_sig_multiparty.Zk.{update-ok}
use threshold_sig_multiparty.Lagrange.{lagrange}
use threshold_sig_multiparty.Keygen.Round4.{PartyPublicConfig, PartySecretConfig, config_hashable}
use threshold_sig_multiparty.Signing.{PartyPublic, SignSession}
use threshold_sig_multiparty.Signing.Round1.{InputForRound1}
use threshold_sig_multiparty.Signing.Start.{
  SignRequest, weigh_parties, add_scaled, public_point, start_session,
}

module _ (C : Crypto) where
  -- The sum of the weighted shares of the signers.
  abbrev pub weighted_sum : (String → ℕ) → (String → ℕ) → List String → ℕ
  weighted_sum l x [] = 0
  weighted_sum l x (j ∷ js) = Fn.mul C (l j) (x j) + weighted_sum l x js

  -- A signer whose public share is the point of its secret share x j, and whose coefficient is l j.
  abbrev pub HasShare :
      List (String × PartyPublicConfig)
      → List (String × ℕ)
      → (String → ℕ)
      → (String → ℕ)
      → (String → PartyPublicConfig)
      → String
      → Type 0
  HasShare publics lag l x data_of j =
      (lookup j publics ≡ some (data_of j))
      × (lookup j lag ≡ some (l j))
      × (0 < l j)
      × (l j < C.order)
      × ((data_of j).ecdsa ≡ C.to_affine (C.times (x j) C.base))

  module _ (publics : List (String × PartyPublicConfig)) (lag : List (String × ℕ))
      (l x : String → ℕ) (data_of : String → PartyPublicConfig) where
    scaled : String → C.Point
    scaled j = C.times (Fn.mul C (l j) (x j)) C.base

    scaled_lem :
        (j : String)
        → HasShare publics lag l x data_of j
        → C.multiply (C.from_affine (data_of j).ecdsa) (l j) ≡ ok (scaled j)
    unfolding scaled
    scaled_lem j (known, coefficient, l_pos, l_lt, point) =
        let p = C.times (x j) C.base in
        let same : C.times (l j) p ≡ C.times (Fn.mul C (l j) (x j)) C.base =
          sym (times-mul C (l j) (x j) C.base)
          ∙ sym (times-mod C (l j * x j) C.base)
          ∙ ap (λ k. C.times k C.base) (sym (mul_lem C (l j) (x j))) in
        ap (λ a. C.multiply (C.from_affine a) (l j)) point
        ∙ ap (λ q. C.multiply q (l j)) (C.from_to_affine p)
        ∙ ground (arith, C.multiply_lem p (l j), l_pos, l_lt)
        ∙ ap (λ q. let r : Result C.Point = ok q in r) same

    party : String → PartyPublic
    party j = record {
      ecdsa = C.to_affine (scaled j);
      paillier = (data_of j).paillier;
      pedersen = (data_of j).pedersen;
    }

    weigh_parties-sum :
        (acc : C.Point) (parties : List (String × PartyPublic)) (js : List String)
        → All (HasShare publics lag l x data_of) js
        → (result : List (String × PartyPublic)) × (weigh_parties C publics lag acc parties js
            ≡ ok (C.add acc (C.times (weighted_sum l x js) C.base), result))
          × ((j : String)
              → (any (λ i. i == j) js ≡ true) ⊎ (lookup j parties ≡ some (party j))
              → lookup j result ≡ some (party j))
    unfolding weigh_parties party scaled
    weigh_parties-sum acc parties [] h = (
      parties,
      ap (λ p. let r : Result (C.Point × List (String × PartyPublic)) = ok (p, parties) in r)
          (sym (ap (C.add acc) (C.times_zero C.base) ∙ add_zero C acc)),
      λ j k. elim k [ inl m ↦ cc | inr old ↦ old ],
    )
    weigh_parties-sum acc parties (j ∷ js) h =
        let m = Fn.mul C (l j) (x j) in
        let rest = weighted_sum l x js in
        let next = C.add acc (scaled j) in
        let (result, e, found_in) = weigh_parties-sum next (insert j (party j) parties) js h.1 in
        let total : C.add next (C.times rest C.base) ≡ C.add acc (C.times (m + rest) C.base) =
          C.add_assoc acc (C.times m C.base) (C.times rest C.base)
          ∙ ap (C.add acc) (sym (times-add C m rest C.base)) in
        (
          result,
          rw (h.0.0, h.0.1, scaled_lem j h.0) e
              ∙ ap
                  (λ p.
                    let r : Result (C.Point × List (String × PartyPublic)) = ok (p, result) in r)
                  total,
          λ i k. found_in i (elim (Bool-cases (j == i)) [
            | inl same ↦
                let is_i : j ≡ i = ==_sound j i same in
                inr (
                  subst (λ y. lookup y (insert j (party j) parties) ≡ some (party y)) is_i
                    (lookup-insert_self j (party j) parties))
            | inr other ↦ elim k [
              | inl m' ↦ inl (ground (arith, other, m'))
              | inr old ↦ inr (ground (arith, lookup-insert j i (party j) parties, other, old))
            ]
          ]),
        )

    -- publicPoint adds up the same points.
    add_scaled-sum :
        (acc : C.Point) (js : List String)
        → All (HasShare publics lag l x data_of) js
        → add_scaled C publics lag acc js ≡ ok (C.add acc (C.times (weighted_sum l x js) C.base))
    unfolding add_scaled scaled
    add_scaled-sum acc [] h =
        ap (λ p. let r : Result C.Point = ok p in r)
          (sym (ap (C.add acc) (C.times_zero C.base) ∙ add_zero C acc))
    add_scaled-sum acc (j ∷ js) h =
        let m = Fn.mul C (l j) (x j) in
        let rest = weighted_sum l x js in
        rw (h.0.0, h.0.1, scaled_lem j h.0) (add_scaled-sum (C.add acc (scaled j)) js h.1)
        ∙ ap (λ p. let r : Result C.Point = ok p in r)
            (C.add_assoc acc (C.times m C.base) (C.times rest C.base)
              ∙ ap (C.add acc) (sym (times-add C m rest C.base)))

  module _ (H : Hashing C.Point) (sort : List String → List String) where
    start_session-made :
        (request : SignRequest) (config : PartySecretConfig) (lag : List (String × ℕ)) (own : ℕ)
        (public_key : C.Point) (parties : List (String × PartyPublic))
        → lagrange C request.signer_ids ≡ ok lag
        → weigh_parties C config.public_party_data lag C.zero_point [] request.signer_ids
          ≡ ok (public_key, parties)
        → lookup config.party_id lag ≡ some own
        → (session : SignSession) × (start_session C H sort request config
            ≡ ok (
              session,
              record {
                message = request.message;
                secret_ecdsa = Fn.mul C own config.ecdsa;
                secret_paillier = config.paillier;
                public_key = C.to_affine public_key;
                parties_public = parties;
              },
            ))
    unfolding start_session
    start_session-made request config lag own public_key parties made weighed known =
        let (h1, e1, f1) = update-ok H new_hasher (basic (Basic.text "CMP-BLAKE")) refl tt in
        let (h2, e2, f2) = update-ok H h1 (basic (Basic.text "cmp/sign")) f1 tt in
        let (h3, e3, f3) = update-ok H h2 (hashable (config_hashable sort config)) f2 tt in
        let (h4, e4, f4) = update-ok H h3 (basic (Basic.bytes request.message)) f3 tt in
        (
          record {
            current_round = 0;
            party_ids = request.signer_ids;
            self_id = config.party_id;
            hasher = h4;
          },
          rw (made, weighed, e1, e2, e3, e4, known) refl,
        )

    -- Where the Lagrange coefficients of the signers are there and lie between 1 and order - 1, and
    -- the public share of each signer j is the point of its secret share x j, a party among the
    -- signers whose own secret share is that of its name starts a session: the public key is the point of the sum of the signers' weighted
    -- shares, the secret of the party is its own weighted share, and its entry in `partiesPublic` has
    -- the point of that. If the signers are all parties of the configuration, in the order of their
    -- names, that public key is `publicPoint` of the configuration.
    pub start_session-public_key :
        (request : SignRequest) (config : PartySecretConfig) (lag : List (String × ℕ))
        (l x : String → ℕ) (data_of : String → PartyPublicConfig)
        → lagrange C request.signer_ids ≡ ok lag
        → All (HasShare config.public_party_data lag l x data_of) request.signer_ids
        → any (λ i. i == config.party_id) request.signer_ids ≡ true
        → lookup config.party_id lag ≡ some (l config.party_id)
        → config.ecdsa ≡ x config.party_id
        → let key = C.to_affine (C.times (weighted_sum l x request.signer_ids) C.base) in
          (session : SignSession) × (input : InputForRound1) × (start_session C H sort request
              config
            ≡ ok (session, input))
          × (input.public_key ≡ key)
          × (input.secret_ecdsa ≡ Fn.mul C (l config.party_id) (x config.party_id))
          × (lookup config.party_id input.parties_public
              ≡ some (record {
                ecdsa = C.to_affine (C.times input.secret_ecdsa C.base);
                paillier = (data_of config.party_id).paillier;
                pedersen = (data_of config.party_id).pedersen;
              }))
          × (sort (keys config.public_party_data) ≡ request.signer_ids
              → public_point C sort config ≡ ok key)
    unfolding public_point party scaled
    start_session-public_key request config lag l x data_of made shares member own secret =
        let total = C.times (weighted_sum l x request.signer_ids) C.base in
        let publics = config.public_party_data in
        let (parties, weighed, entry) =
          weigh_parties-sum publics lag l x data_of C.zero_point [] request.signer_ids shares in
        let (session, started) =
          start_session-made request config lag (l config.party_id) (C.add C.zero_point total)
            parties made weighed own in
        let self = config.party_id in
        let weighted : Fn.mul C (l self) config.ecdsa ≡ Fn.mul C (l self) (x self) =
          ap (Fn.mul C (l self)) secret in
        (
          session,
          record {
            message = request.message;
            secret_ecdsa = Fn.mul C (l self) config.ecdsa;
            secret_paillier = config.paillier;
            public_key = C.to_affine (C.add C.zero_point total);
            parties_public = parties;
          },
          started,
          ap C.to_affine (C.zero_add total),
          weighted,
          subst
              (λ k.
                lookup self parties
                ≡ some (record {
                  ecdsa = C.to_affine (C.times k C.base);
                  paillier = (data_of self).paillier;
                  pedersen = (data_of self).pedersen;
                }))
              (sym weighted) (entry self (inl member)),
          λ order.
              rw
                (
                  order,
                  made,
                  add_scaled-sum publics lag l x data_of C.zero_point request.signer_ids shares,
                  C.zero_add total,
                )
                refl,
        )
