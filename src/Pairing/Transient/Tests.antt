-- ===== src/Pairing/Transient/Tests.antt =====
-- The exchange with a toy arithmetic in place of OpenSSL's, and the theorems at concrete inputs.
use gwl_airplay.Base.{
  ℕ, ◌≡◌, refl, true, false, List, [], ◌∷◌, some, arith, length, replicate, bytes_eq,
}
use gwl_airplay.Pairing.Transient.{
  Openssl, Env, TransientPairing, fresh_impl, modulus_digits, handle,
}
use gwl_airplay.Pairing.Transient.Outcome.{handle-complete}

-- Every hash is 64 zeros and every number is 1.
abbrev toy : Openssl
toy = record {
  sha512 = λ x. replicate 64 0;
  bin2bn = λ x. 1;
  bn2binpad = λ n w. [];
  mod_exp = λ a b c. 1;
  mod_mul = λ a b c. 1;
  mod_add = λ a b c. 1;
  memcmp_equal = bytes_eq;
  rodata = [];
}

abbrev all_well : Env
all_well = record {
  context = true;
  new_modulus = true;
  new_generator = true;
  new_secret = true;
  new_verifier = true;
  new_public = true;
  temporaries = true;
  salt = some (1 ∷ 2 ∷ []);
  raw = some (3 ∷ []);
}

abbrev started : TransientPairing
started = record {
  impl = record fresh_impl { N = some 9; g = some 5; b = some 1; v = some 1; B = some 1 };
  complete = false;
  shared_secret = [];
}

abbrev m3_request : List ℕ
m3_request = 6 ∷ 1 ∷ 3 ∷ 3 ∷ 2 ∷ 1 ∷ 1 ∷ 4 ∷ 1 ∷ 0 ∷ []

-- 384 bytes want 768 digits.
modulus_is_cut : length modulus_digits ≡ 504
unfolding modulus_digits
modulus_is_cut = refl

handle-complete_example : (handle toy all_well started m3_request).state.complete ≡ false
handle-complete_example = handle-complete toy all_well started m3_request (omega arith) refl
