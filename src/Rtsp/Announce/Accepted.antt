-- ===== src/Rtsp/Announce/Accepted.antt =====
-- What an ANNOUNCE changes.
use gwl_airplay.Base.{◌≡◌, ◌⊎◌, inl, inr, refl, true, ◌||◌, arith, Bool-cases, Option}
use gwl_airplay.Sdp.{has_audio, has_video, parse_sdp}
use gwl_airplay.Audio.Pipeline.{AlacDecoder, AudioSink, AudioPipeline}
use gwl_airplay.Rtsp.{RtspRequest}
use gwl_airplay.Rtsp.State.{RtspSession}
use gwl_airplay.Rtsp.Announce.{announce, set_alac_audio_pipeline}

module _ {ℓ κ} {D : Type ℓ} {S : Type κ} (dec : AlacDecoder D) (out : AudioSink S) where
  -- The description that the session takes over.
  pub record Accepted (r : RtspRequest) (s t : RtspSession D S) : Type (ℓ ⊔ κ) where
    pub parsed : (parse_sdp r.body).0 ≡ true
    pub has_media : (has_audio (parse_sdp r.body).1 || has_video (parse_sdp r.body).1) ≡ true
    pub sdp : t.sdp ≡ (parse_sdp r.body).1
    pub configured : t.configured ≡ true
    pub recording : t.recording ≡ s.recording
    pub media : t.media_receiver ≡ s.media_receiver

  -- An ANNOUNCE is refused with 400 or 415 and changes nothing, or the session has taken over a description
  -- with audio or video and is configured; also the second may be answered 400 or 415, where the audio
  -- pipeline does not take the format.
  pub announce-Accepted :
      (r : RtspRequest) (s : RtspSession D S)
      → let (response, t) = announce dec out r s in
        (((response.status ≡ 400) ⊎ (response.status ≡ 415)) × (t ≡ s)) ⊎ Accepted r s t
  unfolding announce
  announce-Accepted r s = elim (Bool-cases (parse_sdp r.body).0) [
    | inr e ↦ rw (e, announce) (inl (inl refl, refl))
    | inl e ↦ elim (Bool-cases (has_audio (parse_sdp r.body).1 || has_video (parse_sdp r.body).1)) [
      | inr f ↦ rw (e, f, announce) (inl (inr refl, refl))
      | inl f ↦ inr (record {
        parsed = e;
        has_media = f;
        sdp = ground arith;
        configured = ground arith;
        recording = ground arith;
        media = ground arith;
      })
    ]
  ]

  pub set_alac_audio_pipeline_keeps :
      (p : Option (AudioPipeline D S)) (s : RtspSession D S)
      → let t = set_alac_audio_pipeline dec out p s in
        (t.recording ≡ s.recording)
        × (t.configured ≡ s.configured)
        × (t.media_receiver ≡ s.media_receiver)
  unfolding set_alac_audio_pipeline
  set_alac_audio_pipeline_keeps p s = (refl, refl, refl)
