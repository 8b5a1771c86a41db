-- ===== src/Crypto/Tests.antt =====
-- A key in hexadecimal, and the theorems at concrete inputs.
use gwl_airplay.Base.{◌≡◌, refl, true, [], ◌∷◌, some, arith, codes, is_some}
use gwl_airplay.Crypto.{base64_loop, decode_base64}
use gwl_airplay.Crypto.Decode.{key_of-hex}

key_of-hex_example : is_some (decode_base64 (codes "0aff")) ≡ true
key_of-hex_example = (key_of-hex (codes "0aff") (omega arith) (refl, (refl, (refl, (refl, tt))))).1

base64_abc : decode_base64 (codes "YWJj") ≡ some (97 ∷ 98 ∷ 99 ∷ [])
unfolding decode_base64 base64_loop
base64_abc = refl
