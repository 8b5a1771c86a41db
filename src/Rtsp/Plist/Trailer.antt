-- ===== src/Rtsp/Plist/Trailer.antt =====
-- The property lists that are literals.
use gwl_airplay.Base.{ℕ, ◌≡◌, refl, false}
use gwl_airplay.Rtsp.Plist.{setup_event_response_plist, setup_stream_response_plist}
use gwl_airplay.Rtsp.Plist.Offsets.{is_consistent}

-- In none of the responses that are literals, whatever the ports, does the trailer stand in the last 32
-- bytes: read from there, the table of offsets does not end where the trailer begins.
pub literals_inconsistent :
    (event_port timing_port data_port control_port : ℕ)
    → (is_consistent (setup_event_response_plist event_port timing_port) ≡ false)
      × (is_consistent (setup_stream_response_plist data_port control_port 96) ≡ false)
      × (is_consistent (setup_stream_response_plist data_port control_port 110) ≡ false)
unfolding setup_event_response_plist setup_stream_response_plist
literals_inconsistent e t d c = (refl, refl, refl)
