-- ===== src/Audio/Software.antt =====
-- SoftwareAlacDecoder and NullAlacDecoder of src/alac_decoder.cpp. Apple's ALACDecoder, which is not under
-- src/, is a parameter.
pub mod Frames
use gwl_airplay.Base.{
  ℕ, ◌+◌, ◌-◌, ◌*◌, ◌/◌, ◌%◌, ◌^◌, Bool, true, false, not, ◌&&◌, ◌||◌, List, [], ◌∷◌, ◌++◌, ltb,
  leb, ◌==◌, if◌then◌else◌, length, take, replicate,
}
use gwl_airplay.Audio.{AlacConfig, no_config, valid, PcmAudioFrame, no_frame}
use gwl_airplay.Audio.Cookie.{make_cookie}
use gwl_airplay.Audio.Pipeline.{AlacDecoder}

-- `ALACDecoder`: `Init`, given the cookie, and `Decode`, given the packet, the buffer's frames and the
-- channels, whose results are the status, the buffer and the frames decoded.
pub record AppleDecoder {ℓ} (A : Type ℓ) : Type ℓ where
  pub fresh : A
  pub init : A → List ℕ → ℕ × A
  pub decode : A → List ℕ → ℕ → ℕ → ℕ × List ℕ × ℕ × A

-- `SoftwareAlacDecoder::Impl`
pub record SoftwareAlacDecoder {ℓ} (A : Type ℓ) : Type ℓ where
  pub decoder : A
  pub config : AlacConfig
  pub configured : Bool

-- `std::vector::resize`
abbrev pub resize : ℕ → List ℕ → List ℕ
resize n xs = take n xs ++ replicate (n - length xs) 0

-- The configurations that the decoder takes.
abbrev pub decodable : AlacConfig → Bool
decodable c =
    valid c
    && ((c.bit_depth == 16)
        && (not (c.num_channels == 0)
            && (leb c.num_channels 8
                && (not (c.frame_length == 0) && leb c.frame_length (2 ^ 20)))))

module _ {ℓ} {A : Type ℓ} (alac : AppleDecoder A) where
  pub configure : SoftwareAlacDecoder A → AlacConfig → Bool × SoftwareAlacDecoder A
  configure s c =
      let cookie = make_cookie c in
      if not (decodable c) || ltb (length cookie) 24
      then (false, s)
      else let (status, decoder) = alac.init s.decoder cookie in
        if not (status == 0)
        then (false, record s { decoder = decoder })
        else (true, record { decoder = decoder; config = c; configured = true })

  unfoldable pub decode :
      SoftwareAlacDecoder A → List ℕ → Bool × PcmAudioFrame × SoftwareAlacDecoder A
  decode s packet =
      let capacity = s.config.frame_length * s.config.num_channels % 2 ^ 64 in
      if (not s.configured || (length packet == 0))
        || (ltb (2 ^ 32 - 1) (length packet) || ltb ((2 ^ 64 - 1) / 2) capacity)
      then (false, no_frame, s)
      else let (status, buffer, decoded, decoder) =
          alac.decode s.decoder packet s.config.frame_length s.config.num_channels in
        if not (status == 0) || (decoded == 0)
        then (false, no_frame, record s { decoder = decoder })
        else (
          true,
          record {
            sample_rate = s.config.sample_rate;
            channels = s.config.num_channels;
            bits_per_sample = 16;
            frames = decoded;
            samples = resize (decoded * s.config.num_channels % 2 ^ 64) buffer;
          },
          record s { decoder = decoder },
        )

  pub reset : SoftwareAlacDecoder A → SoftwareAlacDecoder A
  reset s = record { decoder = alac.fresh; config = no_config; configured = false }

  -- `create_software_alac_decoder`
  pub new : SoftwareAlacDecoder A
  new = record { decoder = alac.fresh; config = no_config; configured = false }

  abbrev pub software_decoder : AlacDecoder (SoftwareAlacDecoder A)
  software_decoder = record { configure = configure; decode = decode; reset = reset }

-- `NullAlacDecoder`
pub record NullAlacDecoder : Type 0 where
  pub config : AlacConfig
  pub configured : Bool

pub null_configure : NullAlacDecoder → AlacConfig → Bool × NullAlacDecoder
null_configure s c =
    if not (valid c) then (false, s) else (true, record { config = c; configured = true })

pub null_decode : NullAlacDecoder → List ℕ → Bool × PcmAudioFrame × NullAlacDecoder
null_decode s packet = (false, no_frame, s)

pub null_reset : NullAlacDecoder → NullAlacDecoder
null_reset s = record { config = no_config; configured = false }

abbrev pub null_decoder : AlacDecoder NullAlacDecoder
null_decoder = record { configure = null_configure; decode = null_decode; reset = null_reset }
