-- ===== src/Pairing/Hkp/Tests.antt =====
-- A toy cryptography that keeps the promises of the real one, and the theorems at concrete inputs.
use gwl_airplay.Base.{
  ℕ, suc, ◌≡◌, refl, ap, true, List, [], ◌∷◌, ◌++◌, none, some, arith, ◌==◌, if◌then◌else◌, length,
  replicate, bytes_eq, drop,
}
use gwl_airplay.Pairing.Hkp.{
  Openssl, Env, HkpPairing, new_pairing, aes128_ctr_at_offset, stream_key, stream_iv,
  handle_pair_setup, handle_pair_verify,
}
use gwl_airplay.Pairing.Hkp.Verified.{Step, Reach, Moment, state_of, Reach-Moment}
use gwl_airplay.Pairing.Hkp.Handshake.{
  IsStream, Exchange, IsAble, first_message, second_message, agreed_reply, verified_reply,
  exchange_verifies,
}

-- A cipher that exchanges 0 and 1.
abbrev swapped : ℕ → ℕ
swapped x = if x == 0 then 1 else if x == 1 then 0 else x

abbrev swap_all : List ℕ → List ℕ
swap_all [] = []
swap_all (x ∷ xs) = swapped x ∷ swap_all xs

length-swap_all : (xs : List ℕ) → length (swap_all xs) ≡ length xs
length-swap_all [] = refl
length-swap_all (x ∷ xs) = ap suc (length-swap_all xs)

swapped_twice : (x : ℕ) → swapped (swapped x) ≡ x
swapped_twice x = ground arith

swap_all-swap_all : (xs : List ℕ) → swap_all (swap_all xs) ≡ xs
swap_all-swap_all [] = refl
swap_all-swap_all (x ∷ xs) = rw (swapped_twice x, swap_all-swap_all xs) refl

-- A key is its bytes, and its signature on any message is its bytes twice.
abbrev toy : Openssl (List ℕ) (Unit {0})
toy = record {
  get_raw_public_key = λ k. some k;
  x25519_private_key = λ k. some k;
  x25519_public_key = λ k. some k;
  ed25519_public_key = λ k. some k;
  derive = λ k peer. some (k ++ peer);
  digest_sign = λ k m. some (k ++ k);
  digest_verify = λ k m s. bytes_eq s (k ++ k);
  sha512 = λ xs. replicate 64 (length xs);
  encrypt_init = λ key iv. some tt;
  encrypt_update = λ c xs. some (swap_all xs, tt);
  encrypt_final = λ c. some [];
}

toy-IsStream : IsStream toy
toy-IsStream = record {
  start = λ key iv. tt;
  out = λ c xs. swap_all xs;
  after = λ c n. tt;
  init_lem = λ key iv. refl;
  update_lem = λ c xs. refl;
  final_lem = λ c. refl;
  length-out = λ c xs. length-swap_all xs;
  out-out = λ c xs. swap_all-swap_all xs;
}

abbrev key : ℕ → List ℕ
key n = replicate 32 n

abbrev exchange : Exchange toy
exchange = record {
  ed = key 1;
  server = key 2;
  client = key 4;
  peer = key 3;
  ed_bytes = key 1;
  curve = key 2;
  client_curve = key 3;
  client_ed = key 4;
  seed = key 2;
  secret = key 2 ++ key 3;
  signature = key 1 ++ key 1;
  answer = key 4 ++ key 4;
  ed_raw = refl;
  length-ed = refl;
  server_key = refl;
  curve_raw = refl;
  length-curve = refl;
  peer_key = refl;
  length-client_curve = refl;
  agreed = refl;
  secret_there = omega arith;
  signs = refl;
  length-signature = refl;
  client_key = refl;
  length-client_ed = refl;
  verifies = refl;
  length-answer = refl;
}

abbrev able : Env (List ℕ)
able = record {
  keygen = some (key 1);
  seed = some (key 2);
  sign_context = true;
  verify_context = true;
  derive_context = true;
  cipher_context = true;
}

able-IsAble : IsAble able exchange.ed exchange.seed
able-IsAble = record {
  keygen = refl;
  drawn = refl;
  sign_context = refl;
  verify_context = refl;
  derive_context = refl;
  cipher_context = refl;
}

abbrev greeted : HkpPairing (List ℕ)
greeted = (handle_pair_setup toy able new_pairing (key 0)).state

exchange_verifies_example :
    let greeting = handle_pair_setup toy able new_pairing (key 0) in
    (greeting.response ≡ key 1)
    × (handle_pair_verify toy able greeting.state (first_message toy toy-IsStream exchange 0 0 0)
        ≡ some (agreed_reply toy toy-IsStream exchange))
    × (aes128_ctr_at_offset toy able
          (drop 32 (agreed_reply toy toy-IsStream exchange).response)
          (stream_key toy exchange.secret)
          (stream_iv toy exchange.secret)
          0
        ≡ some (key 1 ++ key 1))
    × (handle_pair_verify toy able
          (agreed_reply toy toy-IsStream exchange).state
          (second_message toy toy-IsStream exchange 0 0 0)
        ≡ some (verified_reply toy toy-IsStream exchange))
exchange_verifies_example =
    exchange_verifies toy toy-IsStream exchange able (key 0) 0 0 0 0 0 0 able-IsAble refl

abbrev agreed : HkpPairing (List ℕ)
agreed =
    state_of toy greeted
      (handle_pair_verify toy able greeted (first_message toy toy-IsStream exchange 0 0 0))

abbrev verified : HkpPairing (List ℕ)
verified =
    state_of toy agreed
      (handle_pair_verify toy able agreed (second_message toy toy-IsStream exchange 0 0 0))

calls : Reach toy new_pairing verified
calls =
    Reach.next
      (Reach.next (Reach.next Reach.here (Step.setup able new_pairing (key 0)))
        (Step.verify able greeted (first_message toy toy-IsStream exchange 0 0 0)))
      (Step.verify able agreed (second_message toy toy-IsStream exchange 0 0 0))

is_verified : verified.verified ≡ true
unfolding handle_pair_setup handle_pair_verify aes128_ctr_at_offset toy-IsStream
is_verified = refl

Reach-Moment_example : Moment toy new_pairing verified
Reach-Moment_example = Reach-Moment toy refl calls is_verified

-- A second exchange whose random draw fails leaves no curve key and the old secret, and the next message of
-- state 0 has OpenSSL read the null key.
abbrev drawless : Env (List ℕ)
drawless = record able { seed = none }

abbrev broken : HkpPairing (List ℕ)
broken =
    state_of toy agreed
      (handle_pair_verify toy drawless agreed (first_message toy toy-IsStream exchange 0 0 0))

null_key_read :
    handle_pair_verify toy able broken (second_message toy toy-IsStream exchange 0 0 0) ≡ none
unfolding handle_pair_setup handle_pair_verify aes128_ctr_at_offset toy-IsStream
null_key_read = refl
