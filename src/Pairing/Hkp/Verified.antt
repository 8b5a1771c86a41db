-- ===== src/Pairing/Hkp/Verified.antt =====
-- What a pairing that counts as verified has checked.
use gwl_airplay.Base.{
  ℕ, ◌≡◌, ◌⊎◌, ◌∙◌, refl, sym, inl, inr, Bool, true, false, not, ◌||◌, List, ◌++◌, Option, none,
  some, arith, ◌==◌, if◌then◌else◌, Bool-cases, true-ne-false, length, drop, get_or,
}
use gwl_airplay.Pairing.Hkp.{
  Openssl, Env, HkpPairing, Reply, fail, raw_public, aes128_ctr_at_offset, verify_ed25519,
  stream_key, stream_iv, generated, handle_pair_setup, signed, agree, draw, x25519_shared,
  sign_ed25519, with_client, first_phase, encrypted, checked, check, decrypted, second_phase,
  handle_pair_verify,
}

module _ {ℓ κ} {K : Type ℓ} {C : Type κ} (ssl : Openssl K C) where
  open ssl use {ed25519_public_key, digest_verify}

  -- A request of state 0 whose signature, decrypted from byte 64 of the stream on, is that of the client's
  -- key on the client's and the receiver's curve keys.
  pub record Proved (env : Env K) (p : HkpPairing K) (request : List ℕ) : Type ℓ where
    pub size : length request ≡ 68
    pub phase : get_or request 0 0 ≡ 0
    pub server : K
    pub has_server : p.x25519 ≡ some server
    pub client : K
    pub has_client : ed25519_public_key p.client_ed_public ≡ some client
    pub signature : List ℕ
    pub whole : length signature ≡ 64
    pub stream :
        aes128_ctr_at_offset ssl env
          (drop 4 request)
          (stream_key ssl p.shared)
          (stream_iv ssl p.shared)
          64
        ≡ some signature
    pub verifies :
        digest_verify client (p.client_curve_public ++ (raw_public ssl server).1) signature ≡ true

  -- The pairing after a call, where there is one.
  abbrev pub state_of : HkpPairing K → Option (Reply K) → HkpPairing K
  state_of p none = p
  state_of p (some r) = r.state

  -- A call either leaves `verified` as it is, or it has the evidence `P`.
  abbrev Kept : HkpPairing K → Type ℓ → Option (Reply K) → Type ℓ
  Kept p P r = ((state_of p r).verified ≡ p.verified) ⊎ P

  if-Kept :
      (p : HkpPairing K) (P : Type ℓ) (b : Bool) (x y : Option (Reply K))
      → (b ≡ true → Kept p P x)
      → (b ≡ false → Kept p P y)
      → Kept p P (if b then x else y)
  if-Kept p P true x y f g = f refl
  if-Kept p P false x y f g = g refl

  encrypted_keeps :
      (p : HkpPairing K) (curve : List ℕ) (o : Option (List ℕ))
      → (encrypted ssl p curve o).state.verified ≡ p.verified
  encrypted_keeps p curve none = refl
  encrypted_keeps p curve (some cipher) = refl

  signed_keeps :
      (env : Env K) (p : HkpPairing K) (curve : List ℕ) (o : Option (List ℕ))
      → (signed ssl env p curve o).state.verified ≡ p.verified
  unfolding signed
  signed_keeps env p curve none = refl
  signed_keeps env p curve (some signature) =
      encrypted_keeps p curve (
        aes128_ctr_at_offset ssl env signature (stream_key ssl p.shared) (stream_iv ssl p.shared) 0)

  agree_keeps :
      (env : Env K) (ed : K) (p : HkpPairing K) (o : Option K)
      → (agree ssl env ed p o).state.verified ≡ p.verified
  unfolding agree
  agree_keeps env ed p none = refl
  agree_keeps env ed p (some x) =
      let (ok, curve) = raw_public ssl x in
      let (agreed, shared) = x25519_shared ssl env x p.client_curve_public p.shared in
      let r = record p { x25519 = some x; shared = shared } in
      ground
        (arith, signed_keeps env r curve (sign_ed25519 ssl env ed (curve ++ r.client_curve_public)))

  draw_keeps :
      (env : Env K) (ed : K) (p : HkpPairing K) (o : Option (List ℕ))
      → (draw ssl env ed p o).state.verified ≡ p.verified
  draw_keeps env ed p none = refl
  draw_keeps env ed p (some seed) = agree_keeps env ed p (ssl.x25519_private_key seed)

  first_phase_keeps :
      (env : Env K) (p : HkpPairing K) (o : Option K)
      → (first_phase ssl env p o).state.verified ≡ p.verified
  first_phase_keeps env p none = refl
  first_phase_keeps env p (some ed) = draw_keeps env ed (record p { x25519 = none }) env.seed

  module _ (env : Env K) (p : HkpPairing K) (request : List ℕ) where
    checked-Kept :
        (message signature : List ℕ) (o : Option K)
        → ((client : K)
            → o ≡ some client
            → digest_verify client message signature ≡ true
            → Proved env p request)
        → Kept p (Proved env p request) (some (checked ssl env p message signature o))
    checked-Kept message signature none f = inl refl
    checked-Kept message signature (some client) f =
        elim (Bool-cases (verify_ed25519 ssl env client message signature)) [
          | inl e ↦ inr (f client refl (ground (arith, e)))
          | inr e ↦ inl (rw e refl)
        ]

    -- `second_phase` on what it decrypts, from the receiver's key on.
    check-Kept :
        (signature : List ℕ) (o : Option K)
        → ((server client : K)
            → o ≡ some server
            → ed25519_public_key p.client_ed_public ≡ some client
            → digest_verify client (p.client_curve_public ++ (raw_public ssl server).1) signature
              ≡ true
            → Proved env p request)
        → Kept p (Proved env p request) (check ssl env p signature o)
    unfolding check
    check-Kept signature none f = inl refl
    check-Kept signature (some server) f =
        let (ok, curve) = raw_public ssl server in
        let message = p.client_curve_public ++ curve in
        let unavailable = some (fail ssl p "server Curve25519 key unavailable") in
        if-Kept p (Proved env p request) (not ok) unavailable
          (some (checked ssl env p message signature (ed25519_public_key p.client_ed_public)))
          (λ e. inl refl)
          (λ e.
            checked-Kept message signature (ed25519_public_key p.client_ed_public)
              (λ client. f server client refl))

    decrypted-Kept :
        (o : Option (List ℕ))
        → length request ≡ 68
        → get_or request 0 0 ≡ 0
        → aes128_ctr_at_offset ssl env
            (drop 4 request)
            (stream_key ssl p.shared)
            (stream_iv ssl p.shared)
            64
          ≡ o
        → Kept p (Proved env p request) (decrypted ssl env p o)
    unfolding decrypted
    decrypted-Kept none l z e = inl refl
    decrypted-Kept (some signature) l z e =
        if-Kept p (Proved env p request) (not (length signature == 64))
          (some (fail ssl p "AES-CTR decryption failed")) (check ssl env p signature p.x25519)
          (λ h. inl refl)
          (λ h. check-Kept signature p.x25519 λ server client a b c. record {
            size = l;
            phase = z;
            server = server;
            has_server = a;
            client = client;
            has_client = b;
            signature = signature;
            whole = ground arith;
            stream = e;
            verifies = c;
          })

    -- A call of `handle_pair_verify` leaves `verified` as it is, or the request has proved the client's key.
    pub verify-Kept : Kept p (Proved env p request) (handle_pair_verify ssl env p request)
    unfolding handle_pair_verify second_phase
    verify-Kept =
        let P = Proved env p request in
        let q = with_client ssl p request in
        let first = first_phase ssl env q q.ed25519 in
        let second = second_phase ssl env p request in
        let unsupported = some (fail ssl p "unsupported HKP pair-verify state") in
        let rest = if get_or request 0 0 == 0 then second else unsupported in
        let phases = if get_or request 0 0 == 1 then some first else rest in
        let stream =
          aes128_ctr_at_offset ssl env (drop 4 request) (stream_key ssl p.shared)
            (stream_iv ssl p.shared) 64 in
        if-Kept p P (not (length request == 68))
          (some (fail ssl p "expected 68-byte HKP pair-verify request")) phases (λ a. inl refl)
          λ a.
            if-Kept p P (get_or request 0 0 == 1) (some first) rest
              (λ b. inl (first_phase_keeps env q q.ed25519))
              λ b.
                if-Kept p P (get_or request 0 0 == 0) second unsupported
                  (λ c.
                    if-Kept p P ((length p.shared == 0) || not (length p.client_ed_public == 32))
                      (some (fail ssl p "pair-verify state is not established"))
                      (decrypted ssl env p stream) (λ d. inl refl)
                      (λ d. decrypted-Kept stream (ground arith) (ground arith) refl))
                  (λ c. inl refl)

  -- The calls on one pairing, with what each of them finds.
  pub data Step : HkpPairing K → HkpPairing K → Type ℓ where
    setup :
        (env : Env K) (p : HkpPairing K) (request : List ℕ)
        → Step p (handle_pair_setup ssl env p request).state
    verify :
        (env : Env K) (p : HkpPairing K) (request : List ℕ)
        → Step p (state_of p (handle_pair_verify ssl env p request))

  pub data Reach (p : HkpPairing K) : HkpPairing K → Type ℓ where
    here : Reach p p
    next : {q r : HkpPairing K} → Reach p q → Step q r → Reach p r

  generated_keeps : (p : HkpPairing K) (o : Option K) → (generated ssl p o).1.verified ≡ p.verified
  generated_keeps p none = refl
  generated_keeps p (some key) = refl

  setup_keeps :
      (env : Env K) (p : HkpPairing K) (request : List ℕ)
      → (handle_pair_setup ssl env p request).state.verified ≡ p.verified
  unfolding handle_pair_setup
  setup_keeps env p request = ground (arith, generated_keeps p env.keygen)

  -- A call on the way from `p` to `q` whose request has proved the client's key.
  pub record Moment (p q : HkpPairing K) : Type ℓ where
    pub env : Env K
    pub before : HkpPairing K
    pub request : List ℕ
    pub reached : Reach p before
    pub proved : Proved env before request
    pub since : Reach (state_of before (handle_pair_verify ssl env before request)) q

  later : {p q r : HkpPairing K} → Moment p q → Step q r → Moment p r
  later m s = record {
    env = m.env;
    before = m.before;
    request = m.request;
    reached = m.reached;
    proved = m.proved;
    since = Reach.next m.since s;
  }

  -- Where any calls, whatever they found, lead from a pairing that does not count as verified to one that
  -- does, one of these calls is a pair-verify with a request whose signature, by the keys that the pairing held
  -- then, verifies under the client's key.
  pub Reach-Moment :
      {p q : HkpPairing K} → p.verified ≡ false → Reach p q → q.verified ≡ true → Moment p q
  Reach-Moment e here v = absurd (true-ne-false (sym v ∙ e))
  Reach-Moment e (next r (setup env q request)) v =
      later (Reach-Moment e r (sym (setup_keeps env q request) ∙ v)) (Step.setup env q request)
  Reach-Moment e (next r (verify env q request)) v = elim (verify-Kept env q request) [
    | inl k ↦ later (Reach-Moment e r (sym k ∙ v)) (Step.verify env q request)
    | inr proved ↦ record {
      env = env;
      before = q;
      request = request;
      reached = r;
      proved = proved;
      since = Reach.here;
    }
  ]
