-- ===== src/Pairing/Transient.antt =====
-- src/airplay_pairing.cpp, AirPlayTransientPairing: the SRP exchange M1 to M4 of pair-setup, with the
-- OpenSSL backend. A BIGNUM is the number that it holds; a null pointer is `none`. What OpenSSL
-- computes is the parameter `Openssl`; which allocations and random draws succeed is the `Env` of a call.
pub mod Outcome
mod Tests
use Prim.Native.Nat.{bit_xor, bit_or}
use Prim.Native.String.{String}
use gwl_airplay.Base.{
  ℕ, zero, suc, ◌+◌, ◌-◌, ◌*◌, ◌/◌, ◌%◌, Bool, true, false, not, ◌&&◌, ◌||◌, List, [], ◌∷◌, ◌++◌,
  Option, none, some, ltb, leb, ◌==◌, if◌then◌else◌, length, codes, replicate, is_some, get_or,
}
use gwl_airplay.Pairing.Tlv.{Tlv, decode_tlv, find_tlv, add_tlv}

-- SHA512, BN_bin2bn, BN_bn2binpad (number, width), BN_mod_exp (base, exponent, modulus), BN_mod_mul,
-- BN_mod_add, and whether CRYPTO_memcmp of two buffers of the same size is 0. `rodata` is what the
-- program's memory holds behind the string literal of kN, which its initialiser reads.
pub record Openssl : Type 0 where
  pub sha512 : List ℕ → List ℕ
  pub bin2bn : List ℕ → ℕ
  pub bn2binpad : ℕ → ℕ → List ℕ
  pub mod_exp : ℕ → ℕ → ℕ → ℕ
  pub mod_mul : ℕ → ℕ → ℕ → ℕ
  pub mod_add : ℕ → ℕ → ℕ → ℕ
  pub memcmp_equal : List ℕ → List ℕ → Bool
  pub rodata : List ℕ

-- What succeeds during one call: BN_CTX_new, the five BN_new of M1, the temporaries, and the two
-- RAND_bytes with what they draw.
pub record Env : Type 0 where
  pub context : Bool
  pub new_modulus : Bool
  pub new_generator : Bool
  pub new_secret : Bool
  pub new_verifier : Bool
  pub new_public : Bool
  pub temporaries : Bool
  pub salt : Option (List ℕ)
  pub raw : Option (List ℕ)

-- `struct AirPlayTransientPairing::Impl`
pub record Impl : Type 0 where
  pub N : Option ℕ
  pub g : Option ℕ
  pub b : Option ℕ
  pub v : Option ℕ
  pub B : Option ℕ
  pub salt : List ℕ
  pub A : List ℕ
  pub B_bytes : List ℕ

pub record TransientPairing : Type 0 where
  pub impl : Impl
  pub complete : Bool
  pub shared_secret : List ℕ

-- What a call gives back: its value, `response`, `error`, and the object.
pub record Reply : Type 0 where
  pub handled : Bool
  pub response : List ℕ
  pub error : String
  pub state : TransientPairing

abbrev pub fresh_impl : Impl
fresh_impl = record {
  N = none;
  g = none;
  b = none;
  v = none;
  B = none;
  salt = [];
  A = [];
  B_bytes = [];
}

pub reset : TransientPairing → TransientPairing
reset p = record { impl = fresh_impl; complete = false; shared_secret = [] }

-- `n(char)` in the initialiser of kN, with the wrap-around of unsigned char.
abbrev pub hex_digit : ℕ → ℕ
hex_digit c =
    if leb b'0' c && leb c b'9'
    then c - b'0'
    else if leb b'A' c && leb c b'F'
    then c - b'A' + 10
    else (c + 256 - b'a' + 10) % 256

-- The string literal `h` with its terminator.
pub modulus_digits : List ℕ
modulus_digits =
    codes
      "FFFFFFFFFFFFFFFFC90FDAA22168C234C4C6628B80DC1CD129024E08A67CC74020BBEA63B139B22514A08798E3404DDEF9519B3CD3A431B302B0A6DF25F14374FE1356D6D51C245E485B576625E7EC6F44C42E9A637ED6B0BFF5CB6F406B7EDEE386BFB5A899FA5AE9F24117C4B1FE649286651ECE45B3DC2007CB8A163BF0598DA48361C55D39A69163FA8FD24CF5F83655D23DCA3AD961C62F356208552BB9ED529077096966D670C354E4ABC9804F1746C08CA18217C32905E462E36CE3BE39E772C180E86039B2783A2EC07A28FB5C55DF06F4C52C9DE2BCBF6955817183995497CEA956AE515D2261898FA3A8A0AACAA68FFFFFFFFFFFFFFFF"
    ++ (0 ∷ [])

-- The loop `for i < b.size()` of the initialiser: `i` is what is done, `n` what is left.
pub modulus_loop : List ℕ → ℕ → ℕ → List ℕ
modulus_loop memory i zero = []
modulus_loop memory i (suc n) =
    (bit_or (hex_digit (get_or memory (i * 2) 0) * 16) (hex_digit (get_or memory (i * 2 + 1) 0))
      % 256)
    ∷ modulus_loop memory (i + 1) n

-- The array of 384 bytes. The literal has fewer than 768 digits, so that the loop reads on behind it.
pub kN : List ℕ → List ℕ
kN rodata = modulus_loop (modulus_digits ++ rodata) 0 384

abbrev pub fail : TransientPairing → String → Reply
fail p e = record { handled = false; response = []; error = e; state = p }

abbrev pub present : Option (List ℕ) → Bool
present none = false
present (some []) = false
present (some (x ∷ xs)) = true

abbrev pub first : Option (List ℕ) → ℕ
first none = 0
first (some xs) = get_or xs 0 0

-- `f && !f->empty() && ((f->at(0) & 0x10) != 0)`
abbrev pub is_transient : Option (List ℕ) → Bool
is_transient f = present f && (first f / 16 % 2 == 1)

new_number : Bool → ℕ → Option ℕ
new_number ok n = if ok then some n else none

abbrev generator_bytes : List ℕ
generator_bytes = replicate 383 0 ++ (5 ∷ [])

abbrev pub bn_or_zero : Option ℕ → ℕ
bn_or_zero none = 0
bn_or_zero (some n) = n

-- `xng[i]=hn[i]^hg[i]`
abbrev xor_hash : List ℕ → List ℕ → List ℕ
xor_hash [] ys = []
xor_hash (x ∷ xs) [] = x ∷ xs
xor_hash (x ∷ xs) (y ∷ ys) = bit_xor x y ∷ xor_hash xs ys

m1_response : List ℕ → List ℕ → List ℕ
m1_response salt B_bytes =
    add_tlv (add_tlv (add_tlv (add_tlv [] 6 (2 ∷ [])) 2 salt) 3 B_bytes) 0x13 (0x10 ∷ [])

abbrev rejected : List ℕ
rejected = 6 ∷ 1 ∷ 4 ∷ 7 ∷ 1 ∷ 2 ∷ []

module _ (ssl : Openssl) where
  open ssl use {sha512, bin2bn, bn2binpad, mod_exp, mod_mul, mod_add, memcmp_equal, rodata}

  modulus : ℕ
  modulus = bin2bn (kN rodata)

  bn_pad : ℕ → List ℕ
  bn_pad n = bn2binpad n 384

  -- The object after the five BN_new of M1 (a new BIGNUM is 0).
  allocated : Env → TransientPairing → TransientPairing
  unfolding new_number
  allocated env p = record p {
    impl = record fresh_impl {
      N = new_number env.new_modulus modulus;
      g = new_number env.new_generator 0;
      b = new_number env.new_secret 0;
      v = new_number env.new_verifier 0;
      B = new_number env.new_public 0;
    };
  }

  -- v of SRP, from the salt and the fixed setup code.
  verifier : List ℕ → ℕ
  verifier salt = mod_exp 5 (bin2bn (sha512 (salt ++ sha512 (codes "Pair-Setup:3939")))) modulus

  -- B of SRP: k * v + g ^ b.
  public_key : ℕ → ℕ → ℕ
  public_key v b =
      mod_add (mod_mul (bin2bn (sha512 (kN rodata ++ generator_bytes))) v modulus)
        (mod_exp 5 b modulus) modulus

  -- M1 from the second random draw on.
  draw_secret : TransientPairing → List ℕ → Option (List ℕ) → Reply
  draw_secret p salt none = fail p "secure random generation failed"
  draw_secret p salt (some raw) =
      let B = public_key (verifier salt) (bin2bn raw) in
      record {
        handled = true;
        response = m1_response salt (bn_pad B);
        error = "";
        state = record p {
          impl = record (p.impl) { b = some (bin2bn raw); B = some B; B_bytes = bn_pad B };
        };
      }

  -- M1 from the first random draw on; `p` has its numbers.
  draw_salt : Env → TransientPairing → Option (List ℕ) → Reply
  unfolding draw_secret
  draw_salt env p none =
      fail (record p { impl = record (p.impl) { g = some 5; salt = replicate 16 0 } })
        "secure random generation failed"
  draw_salt env p (some salt) =
      let q = record p { impl = record (p.impl) { g = some 5; salt = salt } } in
      if not env.temporaries
      then fail q "SRP temporary allocation failed"
      else draw_secret (record q { impl = record (q.impl) { v = some (verifier salt) } }) salt
          env.raw

  -- `state->at(0)==1`
  pub m1 : Env → TransientPairing → List Tlv → Reply
  unfolding allocated draw_salt reset
  m1 env p tlvs =
      let method = find_tlv tlvs 0x00 in
      if not (present method)
        || (not (first method == 0) || not (is_transient (find_tlv tlvs 0x13)))
      then record {
        handled = true;
        response = 0x06 ∷ 1 ∷ 2 ∷ 0x07 ∷ 1 ∷ 6 ∷ [];
        error = "only transient pair-setup is supported";
        state = p;
      }
      else let q = allocated env (reset p) in
        if not (
          env.new_modulus
          && (env.new_generator && (env.new_secret && (env.new_verifier && env.new_public))))
        then fail q "SRP allocation failed"
        else draw_salt env q env.salt

  -- K and M1 of SRP, from the client's key.
  pub session_key : Impl → ℕ → List ℕ
  session_key i A =
      let N = bn_or_zero i.N in
      let u = bin2bn (sha512 (bn_pad A ++ i.B_bytes)) in
      let base = mod_mul A (mod_exp (bn_or_zero i.v) u N) N in
      sha512 (bn_pad (mod_exp base (bn_or_zero i.b) N))

  pub client_proof : Impl → ℕ → List ℕ → List ℕ
  client_proof i A K = sha512 (
      xor_hash (sha512 (kN rodata)) (sha512 generator_bytes)
      ++ (sha512 (codes "Pair-Setup") ++ (i.salt ++ (bn_pad A ++ (i.B_bytes ++ K)))))

  -- M3 from `auto K=` on: the proof of the client is compared, and M4 answers it.
  m3_prove : TransientPairing → ℕ → List ℕ → Reply
  m3_prove p A proof =
      let K = session_key p.impl A in
      let M1 = client_proof p.impl A K in
      let keyed = record p { shared_secret = K } in
      if not ((length M1 == length proof) && memcmp_equal M1 proof)
      then record {
        handled = true;
        response = rejected;
        error = "SRP client proof verification failed";
        state = keyed;
      }
      else record {
        handled = true;
        response = add_tlv (add_tlv [] 6 (4 ∷ [])) 4 (sha512 (bn_pad A ++ (M1 ++ K)));
        error = "";
        state = record keyed { complete = true };
      }

  -- M3 from `impl_->A=*pub` on.
  m3_verify : Env → TransientPairing → List ℕ → List ℕ → Reply
  unfolding m3_prove
  m3_verify env p client_key proof =
      let q = record p { impl = record (p.impl) { A = client_key } } in
      let A = bin2bn client_key in
      if not env.temporaries
      then fail q "SRP temporary allocation failed"
      else if (A == 0) || leb (bn_or_zero p.impl.N) A
      then record {
        handled = true;
        response = rejected;
        error = "invalid SRP public key";
        state = q;
      }
      else m3_prove q A proof

  -- `state->at(0)==3`, with B and v in place. kN.size() is 384 and SHA512_DIGEST_LENGTH is 64.
  pub m3 : Env → TransientPairing → Option (List ℕ) → Option (List ℕ) → Reply
  m3 env p none proof = fail p "invalid SRP M3"
  m3 env p (some client_key) none = fail p "invalid SRP M3"
  m3 env p (some client_key) (some proof) =
      if not (length client_key == 384) || not (length proof == 64)
      then fail p "invalid SRP M3"
      else m3_verify env p client_key proof

  dispatch : Env → TransientPairing → List Tlv → ℕ → Reply
  unfolding m1 m3
  dispatch env p tlvs state =
      if state == 1
      then m1 env p tlvs
      else if (state == 3) && (is_some p.impl.B && is_some p.impl.v)
      then m3 env p (find_tlv tlvs 3) (find_tlv tlvs 4)
      else fail p "unexpected pair-setup state"

  pub handle : Env → TransientPairing → List ℕ → Reply
  unfolding dispatch
  handle env p request =
      let tlvs = decode_tlv request in
      if length tlvs == 0
      then fail p "invalid TLV8"
      else if not (present (find_tlv tlvs 0x06))
      then fail p "missing pairing state"
      else if not env.context
      then fail p "BN context allocation failed"
      else dispatch env p tlvs (first (find_tlv tlvs 0x06))
