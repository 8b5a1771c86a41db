-- ===== src/Pairing/Tlv/Tests.antt =====
-- Frames written and read, and the theorems at concrete inputs.
use gwl_airplay.Base.{◌≡◌, refl, [], ◌∷◌, some, arith, replicate}
use gwl_airplay.Pairing.Tlv.{decode_loop, decode_tlv, find_tlv, chunks, add_tlv}
use gwl_airplay.Pairing.Tlv.RoundTrip.{write_all, decode-write_all}

cut_frame : decode_tlv (6 ∷ 1 ∷ 1 ∷ 3 ∷ 9 ∷ []) ≡ []
unfolding decode_tlv decode_loop
cut_frame = refl

-- A public key of 384 bytes takes two frames, and the first is what `find_tlv` finds.
long_value : find_tlv (decode_tlv (add_tlv [] 3 (replicate 384 7))) 3 ≡ some (replicate 255 7)
unfolding find_tlv decode_tlv decode_loop add_tlv chunks
long_value = refl

decode-write_all_example :
    decode_tlv
      (write_all [] (record { type = 6; value = 1 ∷ [] } ∷ record { type = 0; value = [] } ∷ []))
    ≡ record { type = 6; value = 1 ∷ [] } ∷ record { type = 0; value = [] } ∷ []
decode-write_all_example =
    decode-write_all (record { type = 6; value = 1 ∷ [] } ∷ record { type = 0; value = [] } ∷ [])
      (omega arith)
