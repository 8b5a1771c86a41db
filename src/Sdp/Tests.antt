-- ===== src/Sdp/Tests.antt =====
-- A description of an ALAC stream, and the theorems at concrete inputs.
use gwl_airplay.Base.{ℕ, ◌≡◌, refl, true, List, [], ◌∷◌, arith, codes, map}
use gwl_airplay.Text.{pos}
use gwl_airplay.Text.Lines.{lines_text}
use gwl_airplay.Sdp.{
  no_media, no_sdp, store_attribute, rtpmap, media_attribute, update_last, parse_attribute,
  media_line, parse_line, parse_lines, parse_sdp,
}
use gwl_airplay.Sdp.Lines.{BeginsWith, parse_sdp-crlf, rtpmap_payload_first, parse_lines-BeginsWith}

abbrev alac_stream : List (List ℕ)
alac_stream =
    codes "v=0"
    ∷ codes "s=Music"
    ∷ codes "m=audio 0 RTP/AVP 96"
    ∷ codes "a=rtpmap:96 AppleLossless/44100/2"
    ∷ []

alac_stream_read :
    let (accepted, sdp) = parse_sdp (lines_text 10 [] alac_stream) in
    (accepted ≡ true)
    × (sdp.session_name ≡ codes "Music")
    × (map (λ m. m.payload_type) sdp.media ≡ pos 96 ∷ [])
unfolding parse_sdp parse_lines parse_line parse_attribute store_attribute media_attribute
    update_last media_line rtpmap
alac_stream_read = (refl, refl, refl)

codec_first : (rtpmap (codes "ALAC/48000/2") no_media).clock_rate ≡ pos 48000
unfolding rtpmap
codec_first = refl

parse_sdp-crlf_example :
    parse_sdp (lines_text 10 (13 ∷ []) (codes "v=0" ∷ codes "m=audio" ∷ []))
    ≡ parse_sdp (lines_text 10 [] (codes "v=0" ∷ codes "m=audio" ∷ []))
parse_sdp-crlf_example = parse_sdp-crlf (codes "v=0" ∷ codes "m=audio" ∷ []) (ground arith)

rtpmap_payload_first_example : rtpmap (codes "96 AppleLossless/44100/2") no_media ≡ no_media
rtpmap_payload_first_example = rtpmap_payload_first (codes "96 AppleLossless/44100/2") no_media refl

parse_lines-BeginsWith_example :
    BeginsWith
      (no_media ∷ [])
      (parse_lines
        (codes "a=fmtp:96" ∷ [])
        (true, record no_sdp { media = no_media ∷ no_media ∷ [] })).1
parse_lines-BeginsWith_example =
    parse_lines-BeginsWith (codes "a=fmtp:96" ∷ []) (no_media ∷ []) true
      (record no_sdp { media = no_media ∷ no_media ∷ [] }) (no_media, [], refl)
