-- ===== src/Signing/Opening.antt =====
-- The first messages of a session of src/mpc/signing: what round 1 sends and round 2 accepts.
use threshold_sig_multiparty.Prelude.{
  ℕ, ◌*◌, ◌/◌, ◌<◌, ◌≤◌, ◌≡◌, refl, ap, ◌∙◌, String, true, false, [], ◌∷◌, ◌++◌, some, arith,
}
use threshold_sig_multiparty.Prelude.Eq.{◌==◌, string_eq, ==_refl}
use threshold_sig_multiparty.Prelude.Dict.{lookup}
use threshold_sig_multiparty.Prelude.Result.{ok}
use threshold_sig_multiparty.Crypto.{Crypto}
use threshold_sig_multiparty.Hasher.{Hashing, Hasher}
use threshold_sig_multiparty.Pedersen
use threshold_sig_multiparty.Pedersen.{PedersenParams, validate_params}
use threshold_sig_multiparty.Paillier.{PublicKey, from_n}
use threshold_sig_multiparty.Paillier.Ciphertexts.{cipher}
use threshold_sig_multiparty.Zk.Enc
use threshold_sig_multiparty.Zk.Enc.{EncProof, EncPublic, EncPrivate, EncSampled}
use threshold_sig_multiparty.Zk.Enc.Completeness.{verify_proof-create_proof}
use threshold_sig_multiparty.Signing.{PartyPublic, SignSession}
use threshold_sig_multiparty.Signing.Round1.{InputForRound2, Message2, prove_each}
use threshold_sig_multiparty.Signing.Round2.{SignerRound2, handle_direct}

module _ (C : Crypto) (H : Hashing C.Point) where
  -- The hasher of a proof.
  abbrev named : Hasher → String → Hasher
  named h id = record { absorbed = h.absorbed ++ H.text_bytes id; used = false }

  prove_each-one :
      (from : SignSession) (own party : PartyPublic) (k : ℕ) (priv : EncPrivate)
      (draw : String → EncSampled) (to : String) (proof : EncProof)
      → (to == from.self_id) ≡ false
      → Enc.create_proof C H
          (record { big_k = k; prover = own.paillier; aux = party.pedersen })
          priv
          (draw to)
          (named from.hasher from.self_id)
        ≡ ok proof
      → prove_each C H from own k priv draw ((to, party) ∷ [])
        ≡ ok (record { from = from.self_id; to = to; proof_enc = proof } ∷ [])
  unfolding prove_each
  prove_each-one from own party k priv draw to proof different created =
      rw (different, created) refl

  handle_direct-verified :
      (to : SignSession) (own party : PartyPublic) (k : ℕ) (input : InputForRound2)
      (s : SignerRound2) (message : Message2)
      → message.to ≡ to.self_id
      → (message.from == to.self_id) ≡ false
      → lookup message.from s.k ≡ some k
      → lookup message.from input.input_for_round1.parties_public ≡ some own
      → lookup message.to input.input_for_round1.parties_public ≡ some party
      → Enc.verify_proof C H message.proof_enc
          (record { big_k = k; prover = own.paillier; aux = party.pedersen })
          (named to.hasher message.from)
        ≡ ok true
      → handle_direct C H to input s message ≡ ok tt
  unfolding handle_direct
  handle_direct-verified to own party k input s message mine different stored known_from known_to
        verified =
      let addressed : (message.to == to.self_id) ≡ true =
        ap (λ y. y == to.self_id) mine ∙ ==_refl to.self_id in
      rw (addressed, different, stored, known_from, known_to, verified) refl

  -- For a sender and a receiver of one session with the same transcript and different names, whose
  -- public data the receiver knows, where the receiver has stored the ciphertext of the sender's k
  -- under its modulus n > 1, half of n is at least the square of the order, k and the sampled alpha are
  -- below the order, the two nonces have no factor in common with n and the two Pedersen
  -- commitments pass `validateParams`: round 1 of the sender makes a message for the receiver, and
  -- the handler of the receiver's round 2 accepts it.
  pub handle_direct-prove_each :
      (from to : SignSession) (n : ℕ) (own party : PartyPublic) (priv : EncPrivate)
      (draw : String → EncSampled) (input : InputForRound2) (s : SignerRound2)
      → to.hasher ≡ from.hasher
      → (to.self_id == from.self_id) ≡ false
      → own.paillier ≡ from_n n
      → lookup from.self_id input.input_for_round1.parties_public ≡ some own
      → lookup to.self_id input.input_for_round1.parties_public ≡ some party
      → lookup from.self_id s.k ≡ some (cipher n priv.k priv.rho)
      → 1 < n
      → C.order * C.order ≤ n / 2
      → 0 < party.pedersen.n
      → priv.k < C.order
      → (draw to.self_id).alpha < C.order
      → C.gcd priv.rho n ≡ 1
      → C.gcd (draw to.self_id).r n ≡ 1
      → validate_params C party.pedersen.n
          (Pedersen.commit C party.pedersen (draw to.self_id).alpha (draw to.self_id).gamma)
          (Pedersen.commit C party.pedersen priv.k (draw to.self_id).mu)
        ≡ ok tt
      → (message : Message2) × (prove_each C H from own
            (cipher n priv.k priv.rho)
            priv
            draw
            ((to.self_id, party) ∷ [])
          ≡ ok (message ∷ []))
        × (handle_direct C H to input s message ≡ ok tt)
  handle_direct-prove_each from to n own party priv draw input s shared different paillier
        known_from known_to stored lt half aux_pos k_lt a_lt rho_unit r_unit valid =
      let h = named from.hasher from.self_id in
      let k = cipher n priv.k priv.rho in
      let (proof, created, verified) =
        verify_proof-create_proof C H n party.pedersen priv (draw to.self_id) h lt half aux_pos k_lt
          a_lt rho_unit r_unit valid refl in
      let data_of : PublicKey → EncPublic =
        λ key. record { big_k = k; prover = key; aux = party.pedersen } in
      let message : Message2 = record { from = from.self_id; to = to.self_id; proof_enc = proof } in
      (
        message,
        prove_each-one from own party k priv draw to.self_id proof different (
            ap (λ key. Enc.create_proof C H (data_of key) priv (draw to.self_id) h) paillier
            ∙ created),
        handle_direct-verified to own party k input s message refl
            (ground (
              arith,
              different,
              string_eq.beq_iff from.self_id to.self_id,
              string_eq.beq_iff to.self_id from.self_id,
            ))
            stored known_from known_to
            (ap (λ t. Enc.verify_proof C H proof (data_of own.paillier) (named t from.self_id))
                shared
              ∙ ap (λ key. Enc.verify_proof C H proof (data_of key) h) paillier
              ∙ verified),
      )
