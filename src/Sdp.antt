-- ===== src/Sdp.antt =====
-- src/sdp.cpp and include/airplay2/sdp.h: the session description of ANNOUNCE.
pub mod Lines
mod Tests
use gwl_airplay.Base.{
  ℕ, zero, suc, ◌+◌, ◌-◌, Bool, true, false, not, ◌&&◌, ◌||◌, List, [], ◌∷◌, ◌++◌, Option, none,
  some, ◌>>=◌, ltb, ◌==◌, if◌then◌else◌, length, take, drop, codes, bytes_eq, min, is_some,
}
use gwl_airplay.Base.Map.{insert, bytes_ord}
use gwl_airplay.Text.{
  ℤ, pos, negsuc, trim, trim_back, find, starts_with, getlines, stoi, word, next_word, trim_front,
}

-- `struct SdpMedia`
pub record SdpMedia : Type 0 where
  pub type : List ℕ
  pub transport : List ℕ
  pub payload_type : ℤ
  pub codec : List ℕ
  pub clock_rate : ℤ
  pub channels : ℤ
  pub attributes : List (List ℕ × List ℕ)

abbrev pub no_media : SdpMedia
no_media = record {
  type = [];
  transport = [];
  payload_type = negsuc 0;
  codec = [];
  clock_rate = pos 0;
  channels = pos 0;
  attributes = [];
}

-- `struct AirPlaySdp`
pub record AirPlaySdp : Type 0 where
  pub session_name : List ℕ
  pub rsaaeskey : List ℕ
  pub aesiv : List ℕ
  pub fmtp : List ℕ
  pub fingerprint : List ℕ
  pub group : List ℕ
  pub media : List SdpMedia

abbrev pub no_sdp : AirPlaySdp
no_sdp = record {
  session_name = [];
  rsaaeskey = [];
  aesiv = [];
  fmtp = [];
  fingerprint = [];
  group = [];
  media = [];
}

abbrev pub of_type : List ℕ → List SdpMedia → Bool
of_type type [] = false
of_type type (m ∷ ms) = bytes_eq m.type type || of_type type ms

abbrev pub has_audio : AirPlaySdp → Bool
has_audio sdp = of_type (codes "audio") sdp.media

abbrev pub has_video : AirPlaySdp → Bool
has_video sdp = of_type (codes "video") sdp.media

-- `npos` counts as the end of the text.
abbrev pub or_end : Option ℕ → List ℕ → ℕ
or_end none text = length text
or_end (some i) text = i

-- Where the key of an attribute ends.
abbrev pub split_of : List ℕ → ℕ
split_of value = min (or_end (find (codes ":") value) value) (or_end (find (codes "=") value) value)

abbrev pub key_of : List ℕ → List ℕ
key_of value = take (split_of value) value

abbrev pub data_of : List ℕ → List ℕ
data_of value = drop (suc (split_of value)) value

-- The attributes of the session.
pub store_attribute : List ℕ → List ℕ → AirPlaySdp → AirPlaySdp
store_attribute key value sdp =
    if bytes_eq key (codes "rsaaeskey")
    then record sdp { rsaaeskey = value }
    else if bytes_eq key (codes "aesiv")
    then record sdp { aesiv = value }
    else if bytes_eq key (codes "fmtp")
    then record sdp { fmtp = value }
    else if bytes_eq key (codes "fingerprint")
    then record sdp { fingerprint = value }
    else if bytes_eq key (codes "group")
    then record sdp { group = value }
    else sdp

-- The text before the first blank, or all of it: what `std::getline(stream, payload, ' ')` reads.
abbrev pub until_blank : List ℕ → List ℕ
until_blank [] = []
until_blank (c ∷ cs) = let rest = until_blank cs in if c == 32 then [] else c ∷ rest

-- The clock rate and the channels of `payload` behind its first slash: an exception clears both, also
-- where the clock rate was read before.
rate_and_channels : SdpMedia → List ℕ → Option ℕ → SdpMedia
rate_and_channels m behind none = elim (stoi behind) [
  | none ↦ record m { clock_rate = pos 0; channels = pos 0 }
  | some rate ↦ record m { clock_rate = rate }
]
rate_and_channels m behind (some slash2) = elim (stoi (take slash2 behind)) [
  | none ↦ record m { clock_rate = pos 0; channels = pos 0 }
  | some rate ↦ elim (stoi (drop (suc slash2) behind)) [
    | none ↦ record m { clock_rate = pos 0; channels = pos 0 }
    | some channels ↦ record m { clock_rate = rate; channels = channels }
  ]
]

-- The `rtpmap` of a medium.
pub rtpmap : List ℕ → SdpMedia → SdpMedia
unfolding rate_and_channels
rtpmap value m =
    let payload = until_blank value in
    elim (find (codes "/") payload) [
      | none ↦ m
      | some slash1 ↦
          let behind = drop (suc slash1) payload in
          rate_and_channels (record m { codec = payload }) behind (find (codes "/") behind)
    ]

-- What an attribute changes in the medium that it belongs to.
pub media_attribute : List ℕ → List ℕ → SdpMedia → SdpMedia
unfolding rtpmap
media_attribute key value m =
    let m' = record m { attributes = insert key value m.attributes } in
    if bytes_eq key (codes "rtpmap") then rtpmap value m' else m'

-- `*current`, which is the last medium where there is one.
pub update_last {ℓ} : {A : Type ℓ} → (A → A) → List A → List A
update_last f [] = []
update_last f (x ∷ []) = f x ∷ []
update_last f (x ∷ y ∷ xs) = x ∷ update_last f (y ∷ xs)

-- `parse_attribute`
pub parse_attribute : List ℕ → AirPlaySdp → AirPlaySdp
unfolding store_attribute media_attribute update_last
parse_attribute value sdp =
    store_attribute (key_of value) (data_of value) (record sdp {
      media = update_last (media_attribute (key_of value) (data_of value)) sdp.media;
    })

-- `stream >> word`: a word that is not there leaves the variable as it is, and the stream failed.
abbrev pub read_word : Option (List ℕ) → List ℕ × Option (List ℕ)
read_word none = ([], none)
read_word (some text) = elim (next_word text) [
  | none ↦ ([], none)
  | some (w, rest) ↦ (w, some rest)
]

-- The medium of an `m=` line: type, port, transport and payload type.
pub media_line : List ℕ → SdpMedia
media_line text =
    let (type, rest) = read_word (some text) in
    let (port, rest') = read_word rest in
    let (transport, rest'') = read_word rest' in
    let (payload, end) = read_word rest'' in
    let m = record no_media { type = type; transport = transport } in
    if length payload == 0 then m else elim (stoi payload) [
      | none ↦ record m { payload_type = negsuc 0 }
      | some n ↦ record m { payload_type = n }
    ]

-- `line.pop_back()` at a carriage return.
abbrev pub strip_return : List ℕ → List ℕ
strip_return [] = []
strip_return (c ∷ cs) =
    let rest = strip_return cs in if (c == 13) && (length cs == 0) then [] else c ∷ rest

-- The round of the loop for a line that was trimmed; `has_version` goes with the result.
pub parse_line : List ℕ → Bool × AirPlaySdp → Bool × AirPlaySdp
unfolding parse_attribute media_line
parse_line line (has_version, sdp) =
    if length line == 0
    then (has_version, sdp)
    else if starts_with (codes "v=") line
    then (bytes_eq line (codes "v=0"), sdp)
    else if starts_with (codes "s=") line
    then (has_version, record sdp { session_name = drop 2 line })
    else if starts_with (codes "m=") line
    then (has_version, record sdp { media = sdp.media ++ (media_line (drop 2 line) ∷ []) })
    else if starts_with (codes "a=") line
    then (has_version, parse_attribute (drop 2 line) sdp)
    else (has_version, sdp)

pub parse_lines : List (List ℕ) → Bool × AirPlaySdp → Bool × AirPlaySdp
unfolding parse_line
parse_lines [] s = s
parse_lines (line ∷ lines) s = parse_lines lines (parse_line (trim (strip_return line)) s)

-- `parse_sdp`: whether the text is accepted, and the result.
unfoldable pub parse_sdp : List ℕ → Bool × AirPlaySdp
unfolding parse_lines
parse_sdp text =
    let (has_version, sdp) = parse_lines (getlines 10 text) (false, no_sdp) in
    (has_version && not (length sdp.media == 0), sdp)
