-- ===== src/Pairing/Hkp.antt =====
-- src/airplay_hkp_pairing.cpp, AirPlayHkpPairing with the OpenSSL backend: pair-setup hands out the
-- receiver's Ed25519 key, pair-verify agrees on a Curve25519 secret and checks the client's signature.
pub mod Verified
pub mod Handshake
mod Tests
use Prim.Native.String.{String}
use gwl_airplay.Base.{
  ℕ, Bool, true, false, not, ◌||◌, List, [], ◌++◌, Option, none, some, ◌>>=◌, ◌==◌, if◌then◌else◌,
  length, take, drop, replicate, get_or, codes, is_some,
}

-- OpenSSL's calls, on keys (EVP_PKEY) and cipher contexts: EVP_PKEY_get_raw_public_key, the keys that are
-- made of raw bytes, EVP_PKEY_derive from a private key and a peer's, EVP_DigestSign, EVP_DigestVerify,
-- SHA512, and the calls of AES-128 in counter mode, of which EVP_EncryptUpdate gives its output and
-- EVP_EncryptFinal_ex what is left.
pub record Openssl {ℓ κ} (K : Type ℓ) (C : Type κ) : Type (ℓ ⊔ κ) where
  pub get_raw_public_key : K → Option (List ℕ)
  pub x25519_private_key : List ℕ → Option K
  pub x25519_public_key : List ℕ → Option K
  pub ed25519_public_key : List ℕ → Option K
  pub derive : K → K → Option (List ℕ)
  pub digest_sign : K → List ℕ → Option (List ℕ)
  pub digest_verify : K → List ℕ → List ℕ → Bool
  pub sha512 : List ℕ → List ℕ
  pub encrypt_init : List ℕ → List ℕ → Option C
  pub encrypt_update : C → List ℕ → Option (List ℕ × C)
  pub encrypt_final : C → Option (List ℕ)

-- What one call finds: the key of EVP_PKEY_Q_keygen, the bytes of RAND_bytes, and whether the contexts for
-- signing, verifying, agreeing and encrypting can be had.
pub record Env {ℓ} (K : Type ℓ) : Type ℓ where
  pub keygen : Option K
  pub seed : Option (List ℕ)
  pub sign_context : Bool
  pub verify_context : Bool
  pub derive_context : Bool
  pub cipher_context : Bool

-- The object with its `Impl`; a null EVP_PKEY is none.
pub record HkpPairing {ℓ} (K : Type ℓ) : Type ℓ where
  pub ed25519 : Option K
  pub x25519 : Option K
  pub ed_public : List ℕ
  pub client_curve_public : List ℕ
  pub client_ed_public : List ℕ
  pub shared : List ℕ
  pub verified : Bool

-- What a call gives back: its value, `response`, `error`, and the object.
pub record Reply {ℓ} (K : Type ℓ) : Type ℓ where
  pub handled : Bool
  pub response : List ℕ
  pub error : String
  pub state : HkpPairing K

abbrev pub new_pairing {ℓ} : {K : Type ℓ} → HkpPairing K
new_pairing = record {
  ed25519 = none;
  x25519 = none;
  ed_public = [];
  client_curve_public = [];
  client_ed_public = [];
  shared = [];
  verified = false;
}

module _ {ℓ κ} {K : Type ℓ} {C : Type κ} (ssl : Openssl K C) where
  open ssl use {
    get_raw_public_key, x25519_private_key, x25519_public_key, ed25519_public_key, derive,
    digest_sign, digest_verify, sha512, encrypt_init, encrypt_update, encrypt_final,
  }

  abbrev pub fail : HkpPairing K → String → Reply K
  fail p e = record { handled = false; response = []; error = e; state = p }

  -- `raw_public`: whether the key has 32 bytes to give, and the vector, which has 32 zeros otherwise.
  abbrev raw_bytes : Option (List ℕ) → Bool × List ℕ
  raw_bytes none = (false, replicate 32 0)
  raw_bytes (some bytes) = (true, bytes)

  abbrev pub raw_public : K → Bool × List ℕ
  raw_public key = raw_bytes (get_raw_public_key key)

  abbrev skipped : C → ℕ → Option C
  skipped c offset =
      if offset == 0
      then some c
      else elim (encrypt_update c (replicate offset 0)) [ none ↦ none | some (out, c') ↦ some c' ]

  -- `aes128_ctr_at_offset`: `offset` zeros are encrypted first, and what comes of them is written over.
  pub aes128_ctr_at_offset : Env K → List ℕ → List ℕ → List ℕ → ℕ → Option (List ℕ)
  aes128_ctr_at_offset env input key iv offset = if not env.cipher_context then none else do
    c ← encrypt_init key iv
    c' ← skipped c offset
    (out, c'') ← encrypt_update c' input
    rest ← encrypt_final c''
    some (out ++ rest)

  abbrev pub sign_ed25519 : Env K → K → List ℕ → Option (List ℕ)
  sign_ed25519 env key message = if not env.sign_context then none else digest_sign key message

  abbrev pub verify_ed25519 : Env K → K → List ℕ → List ℕ → Bool
  verify_ed25519 env key message signature =
      if not env.verify_context then false else digest_verify key message signature

  -- `x25519_shared`: a peer key that is no key leaves `shared` as it is, and any other failure clears it.
  abbrev derived : Option (List ℕ) → Bool × List ℕ
  derived none = (false, [])
  derived (some secret) = (true, secret)

  abbrev agreed_with : Env K → K → Option K → List ℕ → Bool × List ℕ
  agreed_with env key none shared = (false, shared)
  agreed_with env key (some peer) shared =
      if not env.derive_context then (false, []) else derived (derive key peer)

  abbrev pub x25519_shared : Env K → K → List ℕ → List ℕ → Bool × List ℕ
  x25519_shared env key peer shared = agreed_with env key (x25519_public_key peer) shared

  -- The key and the initial counter of a session's stream.
  abbrev pub stream_key : List ℕ → List ℕ
  stream_key shared = take 16 (sha512 (codes "Pair-Verify-AES-Key" ++ shared))

  abbrev pub stream_iv : List ℕ → List ℕ
  stream_iv shared = take 16 (sha512 (codes "Pair-Verify-AES-IV" ++ shared))

  -- `handle_pair_setup`: the identity key is made once.
  abbrev pub generated : HkpPairing K → Option K → Bool × HkpPairing K
  generated p none = (false, p)
  generated p (some key) =
      ((raw_public key).0, record p { ed25519 = some key; ed_public = (raw_public key).1 })

  abbrev pub identity : Env K → HkpPairing K → Bool × HkpPairing K
  identity env p = if is_some p.ed25519 then (true, p) else generated p env.keygen

  pub handle_pair_setup : Env K → HkpPairing K → List ℕ → Reply K
  handle_pair_setup env p request =
      let (ok, q) = identity env p in
      if not (length request == 32)
      then fail p "expected 32-byte HKP pair-setup request"
      else if not ok
      then fail q "failed to generate Ed25519 identity key"
      else record {
        handled = length q.ed_public == 32;
        response = q.ed_public;
        error = "";
        state = q;
      }

  -- State 1 from the encryption on, from the signature on, and from the new key on.
  abbrev encrypted : HkpPairing K → List ℕ → Option (List ℕ) → Reply K
  encrypted p curve none = fail p "AES-CTR encryption failed"
  encrypted p curve (some cipher) = record {
    handled = length (curve ++ cipher) == 96;
    response = curve ++ cipher;
    error = "";
    state = p;
  }

  pub signed : Env K → HkpPairing K → List ℕ → Option (List ℕ) → Reply K
  signed env p curve none = fail p "Ed25519 signing failed"
  signed env p curve (some signature) =
      encrypted p curve
        (aes128_ctr_at_offset env signature (stream_key p.shared) (stream_iv p.shared) 0)

  pub agree : Env K → K → HkpPairing K → Option K → Reply K
  unfolding signed
  agree env ed p none = fail p "failed to create Curve25519 key"
  agree env ed p (some x) =
      let (ok, curve) = raw_public x in
      let (agreed, shared) = x25519_shared env x p.client_curve_public p.shared in
      let q = record p { x25519 = some x } in
      let r = record q { shared = shared } in
      if not ok
      then fail q "Curve25519 key agreement failed"
      else if not agreed
      then fail r "Curve25519 key agreement failed"
      else signed env r curve (sign_ed25519 env ed (curve ++ r.client_curve_public))

  abbrev draw : Env K → K → HkpPairing K → Option (List ℕ) → Reply K
  draw env ed p none = fail p "failed to generate Curve25519 key"
  draw env ed p (some seed) = agree env ed p (x25519_private_key seed)

  -- The client's two keys, which state 1 takes over before it looks at anything else.
  abbrev pub with_client : HkpPairing K → List ℕ → HkpPairing K
  with_client p request = record p {
    client_curve_public = take 32 (drop 4 request);
    client_ed_public = drop 36 request;
  }

  abbrev first_phase : Env K → HkpPairing K → Option K → Reply K
  first_phase env p none = fail p "pair-setup identity is not established"
  first_phase env p (some ed) = draw env ed (record p { x25519 = none }) env.seed

  -- State 0 from the client's key on, from the server's on, and from the decryption on. A key that is null
  -- is read by OpenSSL, so that there is no reply.
  abbrev checked : Env K → HkpPairing K → List ℕ → List ℕ → Option K → Reply K
  checked env p message signature none = fail p "invalid client Ed25519 key"
  checked env p message signature (some key) =
      if not (verify_ed25519 env key message signature)
      then fail p "client Ed25519 signature verification failed"
      else record {
        handled = true;
        response = [];
        error = "";
        state = record p { verified = true };
      }

  pub check : Env K → HkpPairing K → List ℕ → Option K → Option (Reply K)
  check env p signature none = none
  check env p signature (some x) =
      let (ok, curve) = raw_public x in
      if not ok
      then some (fail p "server Curve25519 key unavailable")
      else some (
          checked env p (p.client_curve_public ++ curve) signature
            (ed25519_public_key p.client_ed_public))

  pub decrypted : Env K → HkpPairing K → Option (List ℕ) → Option (Reply K)
  unfolding check
  decrypted env p none = some (fail p "AES-CTR decryption failed")
  decrypted env p (some signature) =
      if not (length signature == 64)
      then some (fail p "AES-CTR decryption failed")
      else check env p signature p.x25519

  pub second_phase : Env K → HkpPairing K → List ℕ → Option (Reply K)
  unfolding decrypted
  second_phase env p request =
      if (length p.shared == 0) || not (length p.client_ed_public == 32)
      then some (fail p "pair-verify state is not established")
      else decrypted env p
          (aes128_ctr_at_offset env (drop 4 request) (stream_key p.shared) (stream_iv p.shared) 64)

  -- `handle_pair_verify`; none where a null key is read.
  pub handle_pair_verify : Env K → HkpPairing K → List ℕ → Option (Reply K)
  unfolding second_phase agree
  handle_pair_verify env p request =
      let q = with_client p request in
      if not (length request == 68)
      then some (fail p "expected 68-byte HKP pair-verify request")
      else if get_or request 0 0 == 1
      then some (first_phase env q q.ed25519)
      else if get_or request 0 0 == 0
      then second_phase env p request
      else some (fail p "unsupported HKP pair-verify state")
