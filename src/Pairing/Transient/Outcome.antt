-- ===== src/Pairing/Transient/Outcome.antt =====
-- How far the exchange can get.
use gwl_airplay.Base.{
  ℕ, ◌≤◌, ◌<◌, ◌≡◌, refl, true, false, List, [], ◌∷◌, Option, none, some, arith, length, All,
  IsByte, ◌==◌, is_some,
}
use gwl_airplay.Pairing.Tlv.{Tlv, decode_tlv, find_tlv}
use gwl_airplay.Pairing.Tlv.Decode.{decode_tlv-IsShort, find_tlv-short}
use gwl_airplay.Pairing.Transient.{
  Openssl, Env, TransientPairing, m1, m3, dispatch, handle, fail, session_key, client_proof,
  bn_or_zero, m3_verify, m3_prove, is_transient,
}

find_tlv-nil :
    (ts : List Tlv) (type : ℕ) {v : List ℕ} → find_tlv ts type ≡ some v → (length ts == 0) ≡ false
unfolding find_tlv
find_tlv-nil [] type e = absurd (ground arith)
find_tlv-nil (t ∷ ts) type e = ground arith

module _ (ssl : Openssl) (env : Env) (p : TransientPairing) where
  -- A client key of TLV8 is too short for the size that M3 wants.
  m3_short :
      (client_key proof : Option (List ℕ))
      → ((k : List ℕ) → client_key ≡ some k → length k ≤ 255)
      → m3 ssl env p client_key proof ≡ fail p "invalid SRP M3"
  unfolding m3
  m3_short none proof h = refl
  m3_short (some k) none h = refl
  m3_short (some k) (some proof) h = ground (arith, h k refl)

  m1-complete : (tlvs : List Tlv) → p.complete ≡ false → (m1 ssl env p tlvs).state.complete ≡ false
  unfolding m1
  m1-complete tlvs h = ground arith

  -- Whatever bytes a client sends, the exchange is not completed by them: `complete` stays false.
  pub handle-complete :
      (request : List ℕ)
      → All IsByte request
      → p.complete ≡ false
      → (handle ssl env p request).state.complete ≡ false
  unfolding handle dispatch
  handle-complete request b h =
      let tlvs = decode_tlv request in
      let short : (k : List ℕ) → find_tlv tlvs 3 ≡ some k → length k ≤ 255 =
        λ k e. find_tlv-short tlvs 3 k (decode_tlv-IsShort request b) e in
      ground (arith, m1-complete tlvs h, m3_short (find_tlv tlvs 3) (find_tlv tlvs 4) short)

  -- An M3 message, in whatever frames it comes, is refused as invalid and changes nothing.
  pub handle_m3 :
      (request : List ℕ)
      → All IsByte request
      → env.context ≡ true
      → find_tlv (decode_tlv request) 0x06 ≡ some (3 ∷ [])
      → is_some p.impl.B ≡ true
      → is_some p.impl.v ≡ true
      → handle ssl env p request ≡ fail p "invalid SRP M3"
  unfolding handle dispatch
  handle_m3 request b c s hB hv =
      let tlvs = decode_tlv request in
      let short : (k : List ℕ) → find_tlv tlvs 3 ≡ some k → length k ≤ 255 =
        λ k e. find_tlv-short tlvs 3 k (decode_tlv-IsShort request b) e in
      ground (arith, s, find_tlv-nil tlvs 6 s, m3_short (find_tlv tlvs 3) (find_tlv tlvs 4) short)

  -- Were the client's key handed over whole, M3 would do its work: with a key of the right size and range
  -- and the proof that the session key gives, the exchange is complete, the session key is kept, and the
  -- client is answered.
  pub m3_completes :
      (client_key : List ℕ)
      → let A = ssl.bin2bn client_key in
        let i = record (p.impl) { A = client_key } in
        let K = session_key ssl i A in
        length client_key ≡ 384
        → length (client_proof ssl i A K) ≡ 64
        → ssl.memcmp_equal (client_proof ssl i A K) (client_proof ssl i A K) ≡ true
        → env.temporaries ≡ true
        → 0 < A
        → A < bn_or_zero p.impl.N
        → let r = m3 ssl env p (some client_key) (some (client_proof ssl i A K)) in
          (r.handled ≡ true) × (r.state.complete ≡ true) × (r.state.shared_secret ≡ K)
  unfolding m3 m3_verify m3_prove
  m3_completes client_key l l' e t lo hi = ground arith

  -- An M1 message for transient pairing, where all allocations and draws succeed, is answered; it starts
  -- the exchange afresh, with nothing complete, no session key, and B and v in place for M3.
  pub m1_starts :
      (tlvs : List Tlv) (salt raw : List ℕ)
      → find_tlv tlvs 0x00 ≡ some (0 ∷ [])
      → is_transient (find_tlv tlvs 0x13) ≡ true
      → env.new_modulus ≡ true
      → env.new_generator ≡ true
      → env.new_secret ≡ true
      → env.new_verifier ≡ true
      → env.new_public ≡ true
      → env.temporaries ≡ true
      → env.salt ≡ some salt
      → env.raw ≡ some raw
      → let r = m1 ssl env p tlvs in
        (r.handled ≡ true)
        × (r.state.complete ≡ false)
        × (r.state.shared_secret ≡ [])
        × (is_some r.state.impl.B ≡ true)
        × (is_some r.state.impl.v ≡ true)
        × (r.state.impl.salt ≡ salt)
  unfolding m1
  m1_starts tlvs salt raw hm ht h0 h1 h2 h3 h4 h5 hs hr = ground arith
