-- ===== src/Pairing/Hkp/Handshake.antt =====
-- The whole exchange with a client that holds its keys.
use gwl_airplay.Base.{
  ℕ, ◌<◌, ◌≡◌, ◌∙◌, refl, sym, ap, true, false, List, [], ◌∷◌, ◌++◌, append-nil, some, arith, ◌==◌,
  if◌then◌else◌, length, length-append, take, drop, take-append_of_eq, drop-append_of_eq,
}
use gwl_airplay.Pairing.Hkp.{
  Openssl, Env, HkpPairing, Reply, new_pairing, aes128_ctr_at_offset, stream_key, stream_iv,
  handle_pair_setup, signed, agree, check, decrypted, second_phase, handle_pair_verify,
}

-- What counter mode promises: the calls succeed, the output is as long as the input, the context moves on by
-- as much as it was given, and encrypting the output from the same place on gives the input back.
pub record IsStream {ℓ κ} {K : Type ℓ} {C : Type κ} (ssl : Openssl K C) : Type (ℓ ⊔ κ) where
  pub start : List ℕ → List ℕ → C
  pub out : C → List ℕ → List ℕ
  pub after : C → ℕ → C
  pub init_lem : (key iv : List ℕ) → ssl.encrypt_init key iv ≡ some (start key iv)
  pub update_lem :
      (c : C) (xs : List ℕ) → ssl.encrypt_update c xs ≡ some (out c xs, after c (length xs))
  pub final_lem : (c : C) → ssl.encrypt_final c ≡ some []
  pub length-out : (c : C) (xs : List ℕ) → length (out c xs) ≡ length xs
  pub out-out : (c : C) (xs : List ℕ) → out c (out c xs) ≡ xs

module _ {ℓ κ} {K : Type ℓ} {C : Type κ} (ssl : Openssl K C) (w : IsStream ssl) where
  -- What is encrypted from `offset` on.
  abbrev pub at_offset : List ℕ → List ℕ → List ℕ → ℕ → List ℕ
  at_offset xs key iv offset =
      w.out (if offset == 0 then w.start key iv else w.after (w.start key iv) offset) xs

  aes_at_0 :
      (env : Env K) (xs key iv : List ℕ)
      → env.cipher_context ≡ true
      → aes128_ctr_at_offset ssl env xs key iv 0 ≡ some (at_offset xs key iv 0)
  unfolding aes128_ctr_at_offset
  aes_at_0 env xs key iv e = simp (e, w.init_lem, w.update_lem, w.final_lem, append-nil)

  aes_at_64 :
      (env : Env K) (xs key iv : List ℕ)
      → env.cipher_context ≡ true
      → aes128_ctr_at_offset ssl env xs key iv 64 ≡ some (at_offset xs key iv 64)
  unfolding aes128_ctr_at_offset
  aes_at_64 env xs key iv e = simp (e, w.init_lem, w.update_lem, w.final_lem, append-nil)

-- The keys of an exchange: the receiver's identity and curve key, the client's, the secret that they agree
-- on, the receiver's signature and the client's.
pub record Exchange {ℓ κ} {K : Type ℓ} {C : Type κ} (ssl : Openssl K C) : Type (ℓ ⊔ κ) where
  pub ed : K
  pub server : K
  pub client : K
  pub peer : K
  pub ed_bytes : List ℕ
  pub curve : List ℕ
  pub client_curve : List ℕ
  pub client_ed : List ℕ
  pub seed : List ℕ
  pub secret : List ℕ
  pub signature : List ℕ
  pub answer : List ℕ
  pub ed_raw : ssl.get_raw_public_key ed ≡ some ed_bytes
  pub length-ed : length ed_bytes ≡ 32
  pub server_key : ssl.x25519_private_key seed ≡ some server
  pub curve_raw : ssl.get_raw_public_key server ≡ some curve
  pub length-curve : length curve ≡ 32
  pub peer_key : ssl.x25519_public_key client_curve ≡ some peer
  pub length-client_curve : length client_curve ≡ 32
  pub agreed : ssl.derive server peer ≡ some secret
  pub secret_there : 0 < length secret
  pub signs : ssl.digest_sign ed (curve ++ client_curve) ≡ some signature
  pub length-signature : length signature ≡ 64
  pub client_key : ssl.ed25519_public_key client_ed ≡ some client
  pub length-client_ed : length client_ed ≡ 32
  pub verifies : ssl.digest_verify client (client_curve ++ curve) answer ≡ true
  pub length-answer : length answer ≡ 64

-- A call in which OpenSSL gives all that it is asked for.
pub record IsAble {ℓ} {K : Type ℓ} (env : Env K) (ed : K) (seed : List ℕ) : Type ℓ where
  pub keygen : env.keygen ≡ some ed
  pub drawn : env.seed ≡ some seed
  pub sign_context : env.sign_context ≡ true
  pub verify_context : env.verify_context ≡ true
  pub derive_context : env.derive_context ≡ true
  pub cipher_context : env.cipher_context ≡ true

module _ {ℓ κ} {K : Type ℓ} {C : Type κ} (ssl : Openssl K C) (w : IsStream ssl)
    (x : Exchange ssl) where
  abbrev pub paired : HkpPairing K
  paired = record new_pairing { ed25519 = some x.ed; ed_public = x.ed_bytes }

  abbrev pub agreed_pairing : HkpPairing K
  agreed_pairing = record paired {
    x25519 = some x.server;
    client_curve_public = x.client_curve;
    client_ed_public = x.client_ed;
    shared = x.secret;
  }

  -- The stream of the exchange from `offset` on.
  abbrev pub crypt : List ℕ → ℕ → List ℕ
  crypt xs offset = at_offset ssl w xs (stream_key ssl x.secret) (stream_iv ssl x.secret) offset

  setup_paired :
      (env : Env K) (hello : List ℕ)
      → IsAble env x.ed x.seed
      → length hello ≡ 32
      → handle_pair_setup ssl env new_pairing hello
        ≡ record { handled = true; response = x.ed_bytes; error = ""; state = paired }
  unfolding handle_pair_setup
  setup_paired env hello a h = simp (a.keygen, x.ed_raw, h, x.length-ed)

  abbrev pub first_message : ℕ → ℕ → ℕ → List ℕ
  first_message a b c = 1 ∷ a ∷ b ∷ c ∷ (x.client_curve ++ x.client_ed)

  abbrev pub second_message : ℕ → ℕ → ℕ → List ℕ
  second_message a b c = 0 ∷ a ∷ b ∷ c ∷ crypt x.answer 64

  curve_taken : take 32 (x.client_curve ++ x.client_ed) ≡ x.client_curve
  curve_taken = take-append_of_eq 32 x.client_curve x.client_ed (sym x.length-client_curve)

  ed_left : drop 32 (x.client_curve ++ x.client_ed) ≡ x.client_ed
  ed_left = drop-append_of_eq 32 x.client_curve x.client_ed (sym x.length-client_curve)

  first_size : (a b c : ℕ) → length (first_message a b c) ≡ 68
  first_size a b c =
      omega
        (arith, length-append x.client_curve x.client_ed, x.length-client_curve, x.length-client_ed)

  second_size : (a b c : ℕ) → length (second_message a b c) ≡ 68
  second_size a b c = omega (
    arith,
    w.length-out (w.after (w.start (stream_key ssl x.secret) (stream_iv ssl x.secret)) 64) x.answer,
    x.length-answer,
  )

  answered_size : length (x.curve ++ crypt x.signature 0) ≡ 96
  answered_size =
      let place = w.start (stream_key ssl x.secret) (stream_iv ssl x.secret) in
      omega (
        arith,
        length-append x.curve (crypt x.signature 0),
        w.length-out place x.signature,
        x.length-curve,
        x.length-signature,
      )

  -- The answers to the two messages.
  abbrev pub agreed_reply : Reply K
  agreed_reply = record {
    handled = true;
    response = x.curve ++ crypt x.signature 0;
    error = "";
    state = agreed_pairing;
  }

  abbrev pub verified_reply : Reply K
  verified_reply = record {
    handled = true;
    response = [];
    error = "";
    state = record agreed_pairing { verified = true };
  }

  verify_agreed :
      (env : Env K) (a b c : ℕ)
      → IsAble env x.ed x.seed
      → handle_pair_verify ssl env paired (first_message a b c) ≡ some agreed_reply
  unfolding handle_pair_verify agree signed
  verify_agreed env a b c able =
      simp
        (
          first_size a b c,
          curve_taken,
          ed_left,
          able.drawn,
          x.server_key,
          x.curve_raw,
          x.peer_key,
          x.agreed,
          able.derive_context,
          able.sign_context,
          x.signs,
          aes_at_0 ssl w env x.signature (stream_key ssl x.secret) (stream_iv ssl x.secret)
              able.cipher_context,
        )
        (rw answered_size refl)

  verify_verified :
      (env : Env K) (a b c : ℕ)
      → IsAble env x.ed x.seed
      → handle_pair_verify ssl env agreed_pairing (second_message a b c) ≡ some verified_reply
  unfolding handle_pair_verify second_phase decrypted check
  verify_verified env a b c able =
      let opened =
        aes_at_64 ssl w env (crypt x.answer 64) (stream_key ssl x.secret) (stream_iv ssl x.secret)
          able.cipher_context in
      let there : (length x.secret == 0) ≡ false = ground (arith, x.secret_there) in
      simp
        (
          second_size a b c,
          there,
          x.length-client_ed,
          opened,
          w.out-out,
          x.length-answer,
          x.curve_raw,
          x.client_key,
          able.verify_context,
          x.verifies,
        )
        refl

  -- A client that holds its keys completes the exchange with a new pairing, whatever the bytes that are not
  -- read: pair-setup gives it the receiver's identity, the first pair-verify the receiver's curve key with a
  -- signature that the stream opens, and after the second one the pairing is verified.
  pub exchange_verifies :
      (env : Env K) (hello : List ℕ) (a b c d e f : ℕ)
      → IsAble env x.ed x.seed
      → length hello ≡ 32
      → let greeting = handle_pair_setup ssl env new_pairing hello in
        (greeting.response ≡ x.ed_bytes)
        × (handle_pair_verify ssl env greeting.state (first_message a b c) ≡ some agreed_reply)
        × (aes128_ctr_at_offset ssl env
              (drop 32 agreed_reply.response)
              (stream_key ssl x.secret)
              (stream_iv ssl x.secret)
              0
            ≡ some x.signature)
        × (handle_pair_verify ssl env agreed_reply.state (second_message d e f)
            ≡ some verified_reply)
  exchange_verifies env hello a b c d e f able h =
      let s = setup_paired env hello able h in
      let opened =
        aes_at_0 ssl w env (crypt x.signature 0) (stream_key ssl x.secret) (stream_iv ssl x.secret)
          able.cipher_context in
      let cipher : drop 32 (x.curve ++ crypt x.signature 0) ≡ crypt x.signature 0 =
        drop-append_of_eq 32 x.curve (crypt x.signature 0) (sym x.length-curve) in
      (
        ap (λ r. r.response) s,
        rw s (verify_agreed env a b c able),
        rw cipher (
            opened
            ∙ ap some (
                w.out-out (w.start (stream_key ssl x.secret) (stream_iv ssl x.secret))
                  x.signature)),
        verify_verified env d e f able,
      )
