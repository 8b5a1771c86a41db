-- ===== src/Rtsp/Plist.antt =====
-- The binary property lists of the SETUP responses: setup_ptp_response_plist, which is put together from
-- objects, and the two that are literals with the ports filled in.
pub mod Offsets
pub mod Ptp
pub mod Trailer
use gwl_airplay.Base.{
  ℕ, zero, suc, ◌+◌, ◌*◌, ◌-◌, ◌/◌, ◌%◌, ◌^◌, Bool, true, false, List, [], ◌∷◌, ◌++◌, map, Option,
  none, some, ltb, leb, ◌==◌, if◌then◌else◌, length, set, replicate, codes,
}

-- `append_ascii`; a text of 15 characters or more throws, which the caller rules out.
abbrev pub ascii : List ℕ → List ℕ
ascii s = (0x50 + length s) ∷ s

-- The objects of the PTP response, in the order of their numbers.
abbrev pub ptp_objects : ℕ → List ℕ → List (List ℕ)
ptp_objects event_port addr =
    (0xd3 ∷ 1 ∷ 2 ∷ 3 ∷ 4 ∷ 5 ∷ 11 ∷ [])
    ∷ ascii (codes "eventPort")
    ∷ ascii (codes "timingPeerInfo")
    ∷ ascii (codes "timingPort")
    ∷ (0x11 ∷ event_port / 256 % 256 ∷ event_port % 256 ∷ [])
    ∷ (0xd2 ∷ 6 ∷ 7 ∷ 8 ∷ 10 ∷ [])
    ∷ ascii (codes "Addresses")
    ∷ ascii (codes "ID")
    ∷ (0xa1 ∷ 9 ∷ [])
    ∷ ascii addr
    ∷ ascii addr
    ∷ (0x10 ∷ 0 ∷ [])
    ∷ []

-- The loop over the objects: where each begins, and the bytes.
pub offsets_from : ℕ → List (List ℕ) → List ℕ
offsets_from start [] = []
offsets_from start (o ∷ os) = start ∷ offsets_from (start + length o) os

abbrev pub concat : List (List ℕ) → List ℕ
concat [] = []
concat (o ∷ os) = o ++ concat os

abbrev pub last_or : ℕ → List ℕ → ℕ
last_or d [] = d
last_or d (x ∷ xs) = last_or x xs

-- `offset_size`: the bytes that the last offset needs. An offset has 64 bits, so that eight rounds are
-- enough.
pub size_loop : ℕ → ℕ → ℕ → ℕ
size_loop zero last size = size
size_loop (suc fuel) last size =
    let more = size_loop fuel last (suc size) in if last / 2 ^ (8 * size) == 0 then size else more

-- `size` bytes of a number, the highest first.
pub be_bytes : ℕ → ℕ → List ℕ
be_bytes zero n = []
be_bytes (suc size) n = n / 2 ^ (8 * size) % 256 ∷ be_bytes size n

abbrev pub table : ℕ → List ℕ → List ℕ
table size [] = []
table size (o ∷ os) = be_bytes size o ++ table size os

-- A property list of the objects, whose references have one byte and whose top object is the first.
pub write_objects : List (List ℕ) → List ℕ
unfolding offsets_from size_loop be_bytes
write_objects objects =
    let offsets = offsets_from 8 objects in
    let body = codes "bplist00" ++ concat objects in
    let size = size_loop 8 (last_or 0 offsets) 1 in
    body
    ++ (table size offsets
        ++ (replicate 6 0
            ++ (0
                ∷ size % 256
                ∷ 1
                ∷ (be_bytes 8 (length offsets) ++ (replicate 8 0 ++ be_bytes 8 (length body))))))

-- `setup_ptp_response_plist`; `none` is the std::runtime_error for an address of 15 characters or more.
pub setup_ptp_response_plist : ℕ → List ℕ → Option (List ℕ)
unfolding write_objects
setup_ptp_response_plist event_port host =
    let addr = if length host == 0 then codes "127.0.0.1" else host in
    if leb 15 (length addr) then none else some (write_objects (ptp_objects event_port addr))

-- The two literals. Each array is longer than its initialiser, and ends in zeros.
-- `b` of setup_event_response_plist.
abbrev pub event_literal : List ℕ
event_literal =
    (0x62 ∷ 0x70 ∷ 0x6c ∷ 0x69 ∷ 0x73 ∷ 0x74 ∷ 0x30 ∷ 0x30 ∷ 0xd2 ∷ 0x01 ∷ 0x02 ∷ 0x03 ∷ 0x04 ∷ 0x59
      ∷ 0x65 ∷ 0x76 ∷ 0x65 ∷ 0x6e ∷ 0x74 ∷ 0x50 ∷ 0x6f ∷ 0x72 ∷ 0x74 ∷ 0x5a ∷ 0x74 ∷ 0x69 ∷ 0x6d
      ∷ 0x69 ∷ 0x6e ∷ 0x67 ∷ 0x50 ∷ 0x6f ∷ 0x72 ∷ 0x74 ∷ 0x11 ∷ 0x00 ∷ 0x00 ∷ 0x11 ∷ 0x00 ∷ 0x00
      ∷ 0x08 ∷ 0x0d ∷ 0x17 ∷ 0x22 ∷ 0x25 ∷ 0x00 ∷ 0x00 ∷ 0x00 ∷ 0x00 ∷ 0x00 ∷ 0x00 ∷ 0x01 ∷ 0x01
      ∷ 0x00 ∷ 0x00 ∷ 0x00 ∷ 0x00 ∷ 0x00 ∷ 0x00 ∷ 0x00 ∷ 0x05 ∷ 0x00 ∷ 0x00 ∷ 0x00 ∷ 0x00 ∷ 0x00
      ∷ 0x00 ∷ 0x00 ∷ 0x00 ∷ 0x00 ∷ 0x00 ∷ 0x00 ∷ 0x00 ∷ 0x28 ∷ [])
    ++ replicate 3 0

-- `b` of setup_stream_response_plist for type 96.
abbrev pub audio_literal : List ℕ
audio_literal =
    (0x62 ∷ 0x70 ∷ 0x6c ∷ 0x69 ∷ 0x73 ∷ 0x74 ∷ 0x30 ∷ 0x30 ∷ 0xd1 ∷ 0x01 ∷ 0x02 ∷ 0x57 ∷ 0x73 ∷ 0x74
      ∷ 0x72 ∷ 0x65 ∷ 0x61 ∷ 0x6d ∷ 0x73 ∷ 0xa1 ∷ 0x03 ∷ 0xd3 ∷ 0x04 ∷ 0x05 ∷ 0x06 ∷ 0x07 ∷ 0x08
      ∷ 0x58 ∷ 0x64 ∷ 0x61 ∷ 0x74 ∷ 0x61 ∷ 0x50 ∷ 0x6f ∷ 0x72 ∷ 0x74 ∷ 0x5b ∷ 0x63 ∷ 0x6f ∷ 0x6e
      ∷ 0x74 ∷ 0x72 ∷ 0x6f ∷ 0x6c ∷ 0x50 ∷ 0x6f ∷ 0x72 ∷ 0x74 ∷ 0x54 ∷ 0x74 ∷ 0x79 ∷ 0x70 ∷ 0x65
      ∷ 0x11 ∷ 0xd2 ∷ 0xc0 ∷ 0x11 ∷ 0xea ∷ 0x78 ∷ 0x10 ∷ 0x60 ∷ 0x08 ∷ 0x0b ∷ 0x13 ∷ 0x15 ∷ 0x1c
      ∷ 0x25 ∷ 0x31 ∷ 0x36 ∷ 0x39 ∷ 0x3c ∷ 0x00 ∷ 0x00 ∷ 0x00 ∷ 0x00 ∷ 0x00 ∷ 0x00 ∷ 0x01 ∷ 0x01
      ∷ 0x00 ∷ 0x00 ∷ 0x00 ∷ 0x00 ∷ 0x00 ∷ 0x00 ∷ 0x00 ∷ 0x0a ∷ 0x00 ∷ 0x00 ∷ 0x00 ∷ 0x00 ∷ 0x00
      ∷ 0x00 ∷ 0x00 ∷ 0x00 ∷ 0x00 ∷ 0x00 ∷ 0x00 ∷ 0x3e ∷ [])
    ++ replicate 5 0

-- `b` of setup_stream_response_plist for the other types.
abbrev pub video_literal : List ℕ
video_literal =
    (0x62 ∷ 0x70 ∷ 0x6c ∷ 0x69 ∷ 0x73 ∷ 0x74 ∷ 0x30 ∷ 0x30 ∷ 0xd1 ∷ 0x01 ∷ 0x02 ∷ 0x57 ∷ 0x73 ∷ 0x74
      ∷ 0x72 ∷ 0x65 ∷ 0x61 ∷ 0x6d ∷ 0x73 ∷ 0xa1 ∷ 0x03 ∷ 0xd2 ∷ 0x04 ∷ 0x05 ∷ 0x06 ∷ 0x07 ∷ 0x58
      ∷ 0x64 ∷ 0x61 ∷ 0x74 ∷ 0x61 ∷ 0x50 ∷ 0x6f ∷ 0x72 ∷ 0x74 ∷ 0x54 ∷ 0x74 ∷ 0x79 ∷ 0x70 ∷ 0x65
      ∷ 0x11 ∷ 0xd2 ∷ 0xc0 ∷ 0x10 ∷ 0x6e ∷ 0x08 ∷ 0x0b ∷ 0x13 ∷ 0x15 ∷ 0x1a ∷ 0x23 ∷ 0x28 ∷ 0x2b
      ∷ 0x00 ∷ 0x00 ∷ 0x00 ∷ 0x00 ∷ 0x00 ∷ 0x00 ∷ 0x01 ∷ 0x01 ∷ 0x00 ∷ 0x00 ∷ 0x00 ∷ 0x00 ∷ 0x00
      ∷ 0x00 ∷ 0x00 ∷ 0x08 ∷ 0x00 ∷ 0x00 ∷ 0x00 ∷ 0x00 ∷ 0x00 ∷ 0x00 ∷ 0x00 ∷ 0x00 ∷ 0x00 ∷ 0x00
      ∷ 0x00 ∷ 0x2d ∷ [])
    ++ replicate 4 0

-- `bytes[i] = port >> 8; bytes[i + 1] = port & 0xff;`
abbrev pub put_port : ℕ → ℕ → List ℕ → List ℕ
put_port i port bytes = set (set bytes i (port / 256 % 256)) (suc i) (port % 256)

pub setup_event_response_plist : ℕ → ℕ → List ℕ
setup_event_response_plist event_port timing_port =
    put_port 38 timing_port (put_port 35 event_port event_literal)

pub setup_stream_response_plist : ℕ → ℕ → ℕ → List ℕ
setup_stream_response_plist data_port control_port type =
    if type == 96
    then put_port 58 control_port (put_port 55 data_port audio_literal)
    else put_port 41 data_port video_literal
