-- ===== src/Mdns.antt =====
-- src/mdns.cpp: the response packet (here), the life cycle of the service (Service), the loop of its thread
-- (Responder), and the proofs.
pub mod Layout
pub mod Service
pub mod Responder
mod Tests
use gwl_airplay.Base.{
  ℕ, zero, suc, ◌+◌, ◌-◌, ◌/◌, ◌%◌, ◌^◌, Bool, true, false, not, ◌||◌, List, [], ◌∷◌, ◌++◌, Option,
  none, some, ltb, leb, ◌==◌, if◌then◌else◌, length, take, drop, codes, bytes_eq,
}

-- `u16` and `u32`; the values are at most 2 ^ 16 and 2 ^ 32 wide.
abbrev pub u16 : ℕ → List ℕ
u16 v = v / 2 ^ 8 % 256 ∷ v % 256 ∷ []

abbrev pub u32 : ℕ → List ℕ
u32 v = v / 2 ^ 24 % 256 ∷ v / 2 ^ 16 % 256 ∷ v / 2 ^ 8 % 256 ∷ v % 256 ∷ []

-- The text up to the next dot, and what is behind the dot, where there is one.
abbrev pub label : List ℕ → List ℕ
label [] = []
label (c ∷ cs) = let rest = label cs in if c == 46 then [] else c ∷ rest

-- `name`: the labels of a dotted text, each behind its length, and a zero. A label of more than 63
-- characters ends the name, without the zero. Each round takes a character at least, so that a fuel of
-- the text's length is enough.
pub name_loop : ℕ → List ℕ → List ℕ
name_loop fuel [] = 0 ∷ []
name_loop zero (c ∷ cs) = []
name_loop (suc fuel) (c ∷ cs) =
    let part = label (c ∷ cs) in
    let rest = name_loop fuel (drop (suc (length part)) (c ∷ cs)) in
    if ltb 63 (length part) then [] else length part ∷ (part ++ rest)

pub name : List ℕ → List ℕ
unfolding name_loop
name value = name_loop (length value) value

abbrev pub header : ℕ → ℕ → ℕ → List ℕ
header flags qd an = u16 0 ++ (u16 flags ++ (u16 qd ++ (u16 an ++ (u16 0 ++ u16 0))))

-- `struct MdnsTxtRecord`
pub record MdnsTxtRecord : Type 0 where
  pub key : List ℕ
  pub value : List ℕ

-- The loop that fills `txt`; an item of more than 255 characters is left out.
pub txt_loop : List MdnsTxtRecord → List ℕ
txt_loop [] = []
txt_loop (r ∷ records) =
    let item = r.key ++ (codes "=" ++ r.value) in
    let rest = txt_loop records in
    if leb (length item) 255 then length item ∷ (item ++ rest) else rest

-- A record's owner, type, class, time to live, length and data.
abbrev pub resource : List ℕ → ℕ → List ℕ → List ℕ
resource owner type data_ =
    owner ++ (u16 type ++ (u16 0x8001 ++ (u32 4500 ++ (u16 (length data_ % 2 ^ 16) ++ data_))))

-- `make_response`, on the service's instance name, target, port, records and address.
pub make_response : List ℕ → List ℕ → ℕ → List MdnsTxtRecord → ℕ → List ℕ
unfolding name txt_loop
make_response instance_ target port records address =
    let service = instance_ ++ codes "._airplay._tcp.local" in
    header 0x8400 0 4
    ++ (resource (name (codes "_airplay._tcp.local")) 12 (name service)
        ++ (resource (name service) 33 (u16 0 ++ (u16 0 ++ (u16 port ++ name target)))
            ++ (resource (name service) 16 (txt_loop records)
                ++ resource (name target) 1 (u32 address))))

-- The scan of `run`: "_airplay" stands somewhere from the twelfth byte on.
pub scan : List ℕ → Bool
scan [] = false
scan (b ∷ bs) =
    let rest = scan bs in if bytes_eq (take 8 (b ∷ bs)) (codes "_airplay") then true else rest

-- Whether `run` answers a datagram.
pub query_for_airplay : List ℕ → Bool
unfolding scan
query_for_airplay datagram = if ltb (length datagram) 12 then false else scan (drop 12 datagram)
