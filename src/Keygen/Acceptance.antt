-- ===== src/Keygen/Acceptance.antt =====
-- How round 4 of a key generation receives what round 3 of another party sends: the handlers of
-- src/mpc/keygen/round3.ts and round4.ts together.
use native.Mathlib.Nat.{le-div_iff_mul-le}
use threshold_sig_multiparty.Prelude.{
  ℕ, ◌-◌, ◌*◌, ◌%◌, ◌^◌, ◌<◌, ◌≤◌, ◌≡◌, refl, sym, ap, ◌∙◌, String, true, false, ◌++◌, some, arith,
}
use threshold_sig_multiparty.Prelude.Dict.{lookup, insert}
use threshold_sig_multiparty.Prelude.Eq.{◌==◌, nat_eq, string_eq, ==_refl}
use threshold_sig_multiparty.Prelude.Int.{pos}
use threshold_sig_multiparty.Prelude.Result.{Result, ok, ◌>>=◌}
use threshold_sig_multiparty.Crypto.{Crypto}
use threshold_sig_multiparty.Fn.Laws.{residue-small}
use threshold_sig_multiparty.Hasher.{
  Hashing, Hasher, Basic, basic, basic_bytes, clone, update, update_multi,
}
use threshold_sig_multiparty.Pedersen
use threshold_sig_multiparty.Pedersen.{PedersenParams, validate_params}
use threshold_sig_multiparty.Paillier.{from_n, encrypt, decrypt, validate_ciphertext}
use threshold_sig_multiparty.Paillier.Ciphertexts.{
  cipher, encrypt_with_nonce-cipher, validate-cipher,
}
use threshold_sig_multiparty.Paillier.Decryption.{key, IsEuler, decrypt-cipher}
use threshold_sig_multiparty.Polynomial
use threshold_sig_multiparty.Polynomial.{party_id_to_scalar}
use threshold_sig_multiparty.Exponent
use threshold_sig_multiparty.Exponent.{Exponent}
use threshold_sig_multiparty.Exponent.Horner.{evaluate-from_poly}
use threshold_sig_multiparty.Zk.Fac
use threshold_sig_multiparty.Zk.Fac.{FacPrivate, FacPublic, FacProof}
use threshold_sig_multiparty.Zk.Fac.Completeness.{verify_fac-create_proof}
use threshold_sig_multiparty.Keygen.{Commitments, Shares, check_share}
use threshold_sig_multiparty.Keygen.Session.{KeygenSession, KeygenInput3, KeygenInput4, clone_hash}
use threshold_sig_multiparty.Keygen.Round3.{
  KeygenRound3, KeygenMessage4, Drawn3, hash_with_rid, send_share,
}
use threshold_sig_multiparty.Keygen.Round4.{check_decrypted, check_message, handle_message}

module _ (C : Crypto) (H : Hashing C.Point) where
  -- The transcript of the sender's proofs, and the one that the receiver takes after it has hashed the
  -- same rid.
  pub transcripts :
      (from to : KeygenSession) (rid : ℕ)
      → from.hasher.used ≡ false
      → update H from.hasher (basic (Basic.number rid)) ≡ ok to.hasher
      → (hash : Hasher) × (hash_with_rid C H from rid ≡ ok hash)
        × (clone_hash H to from.self_id ≡ ok (clone hash))
  unfolding hash_with_rid clone_hash update_multi update clone
  transcripts from to rid fresh hashed =
      let with_rid = from.hasher.absorbed ++ basic_bytes H (Basic.number rid) in
      let hash : Hasher = record {
        absorbed = with_rid ++ basic_bytes H (Basic.text from.self_id);
        used = false;
      } in
      let absorbed : with_rid ≡ to.hasher.absorbed = ground (arith, fresh, hashed) in
      (
        hash,
        refl,
        ap
            (λ bs.
              let made : Result Hasher = ok (record {
                absorbed = bs ++ basic_bytes H (Basic.text from.self_id);
                used = false;
              }) in
              made)
            (sym absorbed),
      )

  -- A share between 1 and order - 1 at which the sender's polynomial in the exponent has its point.
  check_share-honest :
      (vss : Commitments C) (self_id from : String) (e : Exponent C) (v : ℕ)
      → lookup from vss ≡ some e
      → Exponent.evaluate C e (party_id_to_scalar C self_id) ≡ ok (C.to_affine (C.times v C.base))
      → 0 < v
      → v < C.order
      → check_share C vss self_id from v ≡ ok v
  unfolding check_share
  check_share-honest vss self_id from e v known value v_pos v_lt =
      let p = C.times v C.base in
      let multiplied : C.multiply C.base v ≡ ok p = ground (arith, C.multiply_lem C.base v) in
      let same : C.equals (C.from_affine (C.to_affine p)) p ≡ true =
        (C.equals_iff (C.from_affine (C.to_affine p)) p).1 (C.from_to_affine p) in
      rw (residue-small C v v_lt, ==_refl v, known, value, multiplied, same) refl

  -- What round 4 makes of a message that passes each of its tests.
  check_message-honest :
      (to : KeygenSession) (input : KeygenInput4 C) (msg : KeygenMessage4) (n n1 v : ℕ)
      (aux : PedersenParams) (hash : Hasher)
      → msg.to ≡ to.self_id
      → lookup to.self_id input.paillier_public ≡ some (from_n n1)
      → validate_ciphertext C (from_n n1) msg.share ≡ true
      → lookup msg.from input.paillier_public ≡ some (from_n n)
      → lookup to.self_id input.pedersen_public ≡ some aux
      → clone_hash H to msg.from ≡ ok hash
      → Fac.verify_proof C H msg.fac_proof (record { n = n; aux = aux }) hash ≡ ok true
      → decrypt C input.input_for_round3.input_for_round2.paillier_secret msg.share ≡ ok (pos v)
      → check_share C input.vss_polynomials to.self_id msg.from v ≡ ok v
      → check_message C H to input msg ≡ ok v
  unfolding check_message check_decrypted from_n lookup
  check_message-honest to input msg n n1 v aux hash mine own valid theirs known named verified
        decrypted checked =
      let addressed : (msg.to == to.self_id) ≡ true =
        ap (λ y. y == to.self_id) mine ∙ ==_refl to.self_id in
      rw (addressed, mine, own, valid, theirs, known, named, verified, decrypted, checked) refl

  send_share-made :
      (from : KeygenSession) (input : KeygenInput3 C) (s : KeygenRound3 C) (drawn : Drawn3)
      (hash : Hasher) (n n1 v c r : ℕ) (j : String) (aux : PedersenParams) (proof : FacProof)
      → lookup j s.pedersen ≡ some aux
      → lookup j s.paillier_public ≡ some (from_n n1)
      → Fac.create_proof C H
          (record {
            p = input.input_for_round2.paillier_secret.p;
            q = input.input_for_round2.paillier_secret.q;
          })
          (record { n = n; aux = aux })
          (drawn.fac j)
          (clone hash)
        ≡ ok proof
      → Polynomial.evaluate C input.input_for_round2.input_round1.vss_secret
          (party_id_to_scalar C j)
        ≡ ok v
      → encrypt C (from_n n1) v (drawn.nonce j) ≡ ok (c, r)
      → send_share C H from input s drawn hash n j
        ≡ ok (record { from = from.self_id; to = j; share = c; fac_proof = proof })
  unfolding send_share
  send_share-made from input s drawn hash n n1 v c r j aux proof params own made value encrypted =
      rw (params, made, value, own, encrypted) refl

  handle_message-checked :
      (to : KeygenSession) (input : KeygenInput4 C) (shares : Shares C) (msg : KeygenMessage4)
      (v : ℕ)
      → check_message C H to input msg ≡ ok v
      → handle_message C H to input shares msg ≡ insert msg.from v shares
  unfolding handle_message
  handle_message-checked to input shares msg v checked = ground (arith, checked)

  -- For a sender and a receiver with the keys that `fromPrimes` makes of p and q and of p1 and q1,
  -- where the sender's hasher is unused and the receiver's hasher is the sender's after the rid; where
  -- the receiver's product n1 is more than 1, its phi has an inverse modulo n1, its primes satisfy
  -- Euler's theorem, the nonce has no factor in common with n1, both know the receiver's key and
  -- parameters, and the receiver knows the sender's key and its polynomial in the exponent; where the
  -- sender's polynomial has a constant below the order and samples between 1 and order - 1, the
  -- receiver's identifier lies between 1 and order - 1, and the value v of the polynomial at it lies
  -- between 1 and order - 1 and below half of n1; where p and q are at most 2^1024, the sampled alpha
  -- and beta of the proof are below the order, t of the parameters has no factor in common with their
  -- modulus, which is more than 1, and the commitments of the proof pass `validateParams`: round 3 of
  -- the sender makes a message for the receiver, and the handler of the receiver's round 4 stores the
  -- share v for the sender.
  pub handle_message-send_share :
      (from to : KeygenSession) (input3 : KeygenInput3 C) (s : KeygenRound3 C) (drawn : Drawn3)
      (input4 : KeygenInput4 C) (shares : Shares C) (p q inv p1 q1 inv1 rid d c v : ℕ)
      (sample : ℕ → ℕ) (aux : PedersenParams) (e : Exponent C)
      → input3.input_for_round2.paillier_secret ≡ key C p q inv
      → input4.input_for_round3.input_for_round2.paillier_secret ≡ key C p1 q1 inv1
      → from.hasher.used ≡ false
      → update H from.hasher (basic (Basic.number rid)) ≡ ok to.hasher
      → lookup to.self_id s.pedersen ≡ some aux
      → lookup to.self_id s.paillier_public ≡ some (from_n (p1 * q1))
      → lookup to.self_id input4.paillier_public ≡ some (from_n (p1 * q1))
      → lookup to.self_id input4.pedersen_public ≡ some aux
      → lookup from.self_id input4.paillier_public ≡ some (from_n (p * q))
      → lookup from.self_id input4.vss_polynomials ≡ some e
      → input3.input_for_round2.input_round1.vss_secret ≡ Polynomial.create d c sample
      → Exponent.from_poly C (Polynomial.create d c sample) ≡ ok e
      → c < C.order
      → ((i : ℕ) → (0 < sample i) × (sample i < C.order))
      → 0 < party_id_to_scalar C to.self_id
      → party_id_to_scalar C to.self_id < C.order
      → Polynomial.evaluate C (Polynomial.create d c sample) (party_id_to_scalar C to.self_id)
        ≡ ok v
      → 0 < v
      → v < C.order
      → 1 < p1 * q1
      → (p1 - 1) * (q1 - 1) * inv1 % (p1 * q1) ≡ 1
      → IsEuler C p1 q1
      → C.gcd (drawn.nonce to.self_id) (p1 * q1) ≡ 1
      → 2 * v < p1 * q1
      → 1 < aux.n
      → C.gcd aux.t aux.n ≡ 1
      → p ≤ 2 ^ 1024
      → q ≤ 2 ^ 1024
      → (drawn.fac to.self_id).alpha < C.order
      → (drawn.fac to.self_id).beta < C.order
      → validate_params C aux.n
          (Pedersen.commit C aux (drawn.fac to.self_id).alpha (drawn.fac to.self_id).x)
          (Pedersen.commit C aux p (drawn.fac to.self_id).mu)
        ≡ ok tt
      → validate_params C aux.n
          (Pedersen.commit C aux (drawn.fac to.self_id).beta (drawn.fac to.self_id).y)
          (Pedersen.commit C aux q (drawn.fac to.self_id).nu)
        ≡ ok tt
      → (hash : Hasher) × (message : KeygenMessage4) × (hash_with_rid C H from rid ≡ ok hash)
        × (send_share C H from input3 s drawn hash (p * q) to.self_id ≡ ok message)
        × (handle_message C H to input4 shares message ≡ insert from.self_id v shares)
  handle_message-send_share from to input3 s drawn input4 shares p q inv p1 q1 inv1 rid d c v sample
        aux e own_key their_key fresh hashed s_aux s_key r_key r_aux r_theirs r_vss poly expo c_lt
        sample_ok x_pos x_lt value v_pos v_lt n1_lt inverse euler unit small aux_lt t_unit p_le q_le
        a_lt b_lt valid_p valid_q =
      let x = party_id_to_scalar C to.self_id in
      let n1 = p1 * q1 in
      let nonce = drawn.nonce to.self_id in
      let c1 = cipher n1 v nonce in
      let (hash, made_hash, named) = transcripts from to rid fresh hashed in
      let (proof, created, verified) =
        verify_fac-create_proof C H (record { p = p; q = q }) aux (drawn.fac to.self_id)
          (clone hash) aux_lt t_unit p_le q_le a_lt b_lt valid_p valid_q (unfold clone in refl) in
      let encrypted : encrypt C (from_n n1) v nonce ≡ ok (c1, nonce) =
        unfold encrypt in
        rw
          (encrypt_with_nonce-cipher C n1 v nonce (omega (arith, n1_lt))
            ((le-div_iff_mul-le {k = 2} {x = v} {y = n1} (omega arith)).1 (omega (arith, small))))
          refl in
      let at_x : Exponent.evaluate C e x ≡ ok (C.to_affine (C.times v C.base)) =
        ap (λ m. m >>= λ f. Exponent.evaluate C f x) (sym expo)
        ∙ evaluate-from_poly C d c x sample c_lt sample_ok x_pos x_lt
        ∙ ap (λ m. m >>= λ y. ok (C.to_affine (C.times y C.base))) value in
      let message : KeygenMessage4 = record {
        from = from.self_id;
        to = to.self_id;
        share = c1;
        fac_proof = proof;
      } in
      let key_is = ap (λ k. k.p) own_key in
      (
        hash,
        message,
        made_hash,
        send_share-made from input3 s drawn hash (p * q) n1 v c1 nonce to.self_id aux proof s_aux
            s_key
            (ap
                (λ k.
                  Fac.create_proof C H (record { p = k.p; q = k.q })
                    (record { n = p * q; aux = aux }) (drawn.fac to.self_id) (clone hash))
                own_key
              ∙ created)
            (ap (λ f. Polynomial.evaluate C f x) poly ∙ value) encrypted,
        handle_message-checked to input4 shares message v (
            check_message-honest to input4 message (p * q) n1 v aux (clone hash) refl r_key
              (validate-cipher C n1 v nonce n1_lt ((C.gcd_iff nonce n1 n1_lt).0 unit)) r_theirs
              r_aux named verified
              (ap (λ k. decrypt C k c1) their_key
                ∙ decrypt-cipher C p1 q1 inv1 v nonce n1_lt inverse euler unit small)
              (check_share-honest input4.vss_polynomials to.self_id from.self_id e v r_vss at_x
                v_pos v_lt)),
      )
