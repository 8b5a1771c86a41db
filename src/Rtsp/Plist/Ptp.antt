-- ===== src/Rtsp/Plist/Ptp.antt =====
-- setup_ptp_response_plist: the property list, or the exception.
use gwl_airplay.Base.{
  ℕ, ◌+◌, ◌<◌, ◌^◌, ◌≡◌, refl, sym, false, List, [], ◌∷◌, ◌++◌, some, arith, length, length-append,
  leb, ◌==◌, if◌then◌else◌, codes,
}
use gwl_airplay.Rtsp.Plist.{
  offsets_from, concat, write_objects, ptp_objects, setup_ptp_response_plist,
}
use gwl_airplay.Rtsp.Plist.Offsets.{
  Placed, table_end, table_end-write_objects, write_objects-Placed,
}

-- A list whose objects stand at their offsets, and whose table of offsets, by the trailer in the last 32
-- bytes, ends one byte before them, where it should end at them.
pub record Written (event_port : ℕ) (host : List ℕ) : Type 0 where
  pub addr : List ℕ
  pub named : addr ≡ (if length host == 0 then codes "127.0.0.1" else host)
  pub plist : List ℕ
  pub result : setup_ptp_response_plist event_port host ≡ some plist
  pub gap : table_end plist + 33 ≡ length plist
  pub placed :
      Placed plist (offsets_from 8 (ptp_objects event_port addr)) (ptp_objects event_port addr)

concat_bound :
    (event_port : ℕ) (addr : List ℕ)
    → length addr < 15
    → length (concat (ptp_objects event_port addr)) < 2 ^ 63
concat_bound event_port addr h =
    let rest : List ℕ = 0x10 ∷ 0 ∷ [] in
    let e = length-append addr rest in
    let f = length-append addr ((0x50 + length addr) ∷ (addr ++ rest)) in omega arith

written :
    (event_port : ℕ) (host : List ℕ) (addr : List ℕ)
    → addr ≡ (if length host == 0 then codes "127.0.0.1" else host)
    → leb 15 (length addr) ≡ false
    → Written event_port host
unfolding setup_ptp_response_plist
written event_port host addr e h = record {
  addr = addr;
  named = e;
  plist = write_objects (ptp_objects event_port addr);
  result = rw (sym e, h) refl;
  gap =
      table_end-write_objects (ptp_objects event_port addr) (omega arith)
        (concat_bound event_port addr (ground arith));
  placed = write_objects-Placed (ptp_objects event_port addr);
}
