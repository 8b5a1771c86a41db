-- ===== src/Audio/Software/Frames.antt =====
-- What the software decoder keeps, and the frames that it hands out.
use gwl_airplay.Base.{
  ℕ, zero, ◌-◌, ◌*◌, ◌/◌, ◌%◌, ◌^◌, ◌≤◌, ◌<◌, ◌≡◌, ◌∙◌, ap, true, false, not, ◌||◌, List, arith,
  ltb, ◌==◌, length, take, replicate, length-append, length-take, length-replicate, Bool-cases, inl,
  inr,
}
use gwl_airplay.Audio.{AlacConfig}
use gwl_airplay.Audio.Pipeline.{format_of, matches}
use gwl_airplay.Audio.Software.{AppleDecoder, SoftwareAlacDecoder, resize, configure, decode}

length-resize : (n : ℕ) (xs : List ℕ) → length (resize n xs) ≡ n
length-resize n xs = omega (
  arith,
  length-append (take n xs) (replicate (n - length xs) 0),
  length-take n xs,
  length-replicate (n - length xs) zero,
)

-- Frames of at most eight channels are counted without wrap-around.
count_small : (frames channels : ℕ) → frames < 2 ^ 32 → channels ≤ 8 → frames * channels < 2 ^ 64
count_small frames channels f c = grind arith

module _ {ℓ} {A : Type ℓ} (alac : AppleDecoder A) where
  -- A decoder that was configured, for 16-bit samples of at most eight channels.
  pub record IsReady (s : SoftwareAlacDecoder A) : Type ℓ where
    pub configured : s.configured ≡ true
    pub depth : s.config.bit_depth ≡ 16
    pub channels : s.config.num_channels ≤ 8

  pub configure_success :
      (s : SoftwareAlacDecoder A) (c : AlacConfig)
      → (configure alac s c).0 ≡ true
      → IsReady (configure alac s c).1 × ((configure alac s c).1.config ≡ c)
  unfolding configure
  configure_success s c h = (
    record { configured = ground arith; depth = ground arith; channels = ground arith },
    ground arith,
  )

  pub decode_keeps :
      (s : SoftwareAlacDecoder A) (packet : List ℕ)
      → ((decode alac s packet).2.config ≡ s.config)
        × ((decode alac s packet).2.configured ≡ s.configured)
  unfolding decode
  decode_keeps s packet = (ground arith, ground arith)

  -- The frame that a ready decoder hands out has the format of its configuration, at least one frame, and
  -- samples for each frame and channel, where the decoder's count of frames is a 32-bit number.
  pub decode_matches :
      (s : SoftwareAlacDecoder A) (packet : List ℕ)
      → ((a : A) (p : List ℕ) (n c : ℕ) → (alac.decode a p n c).2 < 2 ^ 32)
      → IsReady s
      → (decode alac s packet).0 ≡ true
      → matches (format_of s.config) (decode alac s packet).1 ≡ true
  unfolding decode
  decode_matches s packet small w h =
      let n = s.config.num_channels in
      let r = alac.decode s.decoder packet s.config.frame_length n in
      let b = count_small r.2 n (small s.decoder packet s.config.frame_length n) w.channels in
      let whole : r.2 * n % 2 ^ 64 ≡ r.2 * n = ground (arith, b) in
      let l = length-resize (r.2 * n) r.1 in
      let capacity = s.config.frame_length * n % 2 ^ 64 in
      elim (Bool-cases (
        (not s.configured || (length packet == 0))
        || (ltb (2 ^ 32 - 1) (length packet) || ltb ((2 ^ 64 - 1) / 2) capacity))) [
          | inl e ↦ absurd (ground arith)
          | inr e ↦ elim (Bool-cases (not (r.0 == 0) || (r.2 == 0))) [
            | inl f ↦ absurd (ground arith)
            | inr f ↦ rw (e, f, whole) (ground (arith, l, w.depth))
          ]
        ]

  pub decode_some :
      (s : SoftwareAlacDecoder A) (packet : List ℕ)
      → (decode alac s packet).0 ≡ true
      → (length packet == 0) ≡ false
  unfolding decode
  decode_some s packet h = ground arith

  -- Decoding leaves a ready decoder ready.
  pub decode-IsReady :
      (s : SoftwareAlacDecoder A) (packet : List ℕ)
      → IsReady s
      → IsReady (decode alac s packet).2 × ((decode alac s packet).2.config ≡ s.config)
  decode-IsReady s packet w =
      let (e, f) = decode_keeps s packet in
      (
        record {
          configured = f ∙ w.configured;
          depth = ap (λ c. c.bit_depth) e ∙ w.depth;
          channels = rw e w.channels;
        },
        e,
      )
