-- ===== src/Sdp/Lines.antt =====
-- The lines of a description: their ends, and which medium they change.
use gwl_airplay.Base.{
  ℕ, ◌≡◌, ◌≢◌, ◌⊎◌, ◌∙◌, inl, inr, refl, sym, ap, Bool, true, false, List, [], ◌∷◌, ◌++◌, map,
  arith, length, drop, All, ◌==◌, if◌then◌else◌, Bool-cases, none, codes, append_assoc, append-nil,
}
use gwl_airplay.Text.{trim, find, starts_with}
use gwl_airplay.Text.Lines.{lines_text, getlines-lines_text, trim-space}
use gwl_airplay.Sdp.{
  SdpMedia, AirPlaySdp, no_sdp, strip_return, until_blank, rtpmap, store_attribute, update_last,
  key_of, data_of, media_attribute, media_line, parse_attribute, parse_line, parse_lines, parse_sdp,
}

strip_return-cases : (l : List ℕ) → (strip_return l ≡ l) ⊎ (l ≡ strip_return l ++ (13 ∷ []))
strip_return-cases [] = inl refl
strip_return-cases (c ∷ []) = elim (Bool-cases (c == 13)) [
  | inl e ↦ inr (ground arith)
  | inr e ↦ inl (ground arith)
]
strip_return-cases (c ∷ d ∷ l) = elim (strip_return-cases (d ∷ l)) [
  | inl e ↦ inl (ground arith)
  | inr e ↦ inr (ground arith)
]

-- The carriage return is a blank, and would be trimmed away as well.
trim-strip_return : (l : List ℕ) → trim (strip_return l) ≡ trim l
trim-strip_return l = elim (strip_return-cases l) [
  | inl e ↦ ap trim e
  | inr e ↦ sym (ap trim e ∙ trim-space 13 (strip_return l) refl)
]

parse_lines-return :
    (ls : List (List ℕ)) (s : Bool × AirPlaySdp)
    → parse_lines (map (λ l. l ++ (13 ∷ [])) ls) s ≡ parse_lines (map (λ l. l ++ []) ls) s
unfolding parse_lines
parse_lines-return [] s = refl
parse_lines-return (l ∷ ls) s =
    let e : trim (strip_return (l ++ (13 ∷ []))) ≡ trim (strip_return (l ++ [])) =
      trim-strip_return (l ++ (13 ∷ []))
      ∙ (trim-space 13 l refl
          ∙ (ap trim (sym (append-nil l)) ∙ sym (trim-strip_return (l ++ [])))) in
    ap (λ t. parse_lines (map (λ l'. l' ++ (13 ∷ [])) ls) (parse_line t s)) e
    ∙ parse_lines-return ls (parse_line (trim (strip_return (l ++ []))) s)

-- A description means the same whether its lines end in a carriage return and a line feed or in a line
-- feed alone, where the lines themselves have no line feed.
pub parse_sdp-crlf :
    (ls : List (List ℕ))
    → All (All (λ c. c ≢ 10)) ls
    → parse_sdp (lines_text 10 (13 ∷ []) ls) ≡ parse_sdp (lines_text 10 [] ls)
unfolding parse_sdp
parse_sdp-crlf ls h =
    rw
      (
        getlines-lines_text 10 (13 ∷ []) ls (ground arith, tt) h,
        getlines-lines_text 10 [] ls tt h,
        parse_lines-return ls (false, no_sdp),
      )
      refl

-- An rtpmap whose text before the first blank has no slash, as the payload number of RFC 4566 has none,
-- gives the medium neither codec nor clock rate nor channels.
pub rtpmap_payload_first :
    (value : List ℕ) (m : SdpMedia)
    → find (codes "/") (until_blank value) ≡ none
    → rtpmap value m ≡ m
unfolding rtpmap
rtpmap_payload_first value m h = rw (h, rtpmap) refl

-- The media begin with `ms`, and at least one follows.
abbrev pub BeginsWith : List SdpMedia → AirPlaySdp → Type 0
BeginsWith ms sdp = (m : SdpMedia) × (more : List SdpMedia) × (sdp.media ≡ ms ++ (m ∷ more))

update_last-cons :
    (f : SdpMedia → SdpMedia) (m : SdpMedia) (more : List SdpMedia)
    → (m' : SdpMedia) × (more' : List SdpMedia) × (update_last f (m ∷ more) ≡ m' ∷ more')
unfolding update_last
update_last-cons f m [] = (f m, [], refl)
update_last-cons f m (x ∷ more) = (m, update_last f (x ∷ more), refl)

update_last-append :
    (f : SdpMedia → SdpMedia) (ms : List SdpMedia) (m : SdpMedia) (more : List SdpMedia)
    → update_last f (ms ++ (m ∷ more)) ≡ ms ++ update_last f (m ∷ more)
unfolding update_last
update_last-append f [] m more = refl
update_last-append f (x ∷ []) m more = refl
update_last-append f (x ∷ y ∷ ms) m more = ap (◌∷◌ x) (update_last-append f (y ∷ ms) m more)

store_attribute_media :
    (key value : List ℕ) (sdp : AirPlaySdp) → (store_attribute key value sdp).media ≡ sdp.media
unfolding store_attribute
store_attribute_media key value sdp = ground arith

parse_attribute-BeginsWith :
    (value : List ℕ) (ms : List SdpMedia) (sdp : AirPlaySdp)
    → BeginsWith ms sdp
    → BeginsWith ms (parse_attribute value sdp)
unfolding parse_attribute
parse_attribute-BeginsWith value ms sdp (m, more, e) =
    let (k, d) : List ℕ × List ℕ = (key_of value, data_of value) in
    let f = media_attribute k d in
    let (m', more', u) = update_last-cons f m more in
    (
      m',
      more',
      store_attribute_media k d (record sdp { media = update_last f sdp.media })
          ∙ (ap (update_last f) e ∙ (update_last-append f ms m more ∙ ap (λ l. ms ++ l) u)),
    )

if-BeginsWith :
    (b : Bool) (s t : Bool × AirPlaySdp) (ms : List SdpMedia)
    → BeginsWith ms s.1
    → BeginsWith ms t.1
    → BeginsWith ms (if b then s else t).1
if-BeginsWith true s t ms p q = p
if-BeginsWith false s t ms p q = q

parse_line-BeginsWith :
    (line : List ℕ) (ms : List SdpMedia) (v : Bool) (sdp : AirPlaySdp)
    → BeginsWith ms sdp
    → BeginsWith ms (parse_line line (v, sdp)).1
unfolding parse_line
parse_line-BeginsWith line ms v sdp (m, more, e) =
    let same : BeginsWith ms sdp = (m, more, e) in
    let added : BeginsWith ms
        (record sdp { media = sdp.media ++ (media_line (drop 2 line) ∷ []) }) =
      (
        m,
        more ++ (media_line (drop 2 line) ∷ []),
        ap (λ l. l ++ (media_line (drop 2 line) ∷ [])) e
            ∙ append_assoc ms (m ∷ more) (media_line (drop 2 line) ∷ []),
      ) in
    if-BeginsWith (length line == 0) _ _ ms same (
      if-BeginsWith (starts_with (codes "v=") line) _ _ ms same (
        if-BeginsWith (starts_with (codes "s=") line) _ _ ms same (
          if-BeginsWith (starts_with (codes "m=") line) _ _ ms added (
            if-BeginsWith (starts_with (codes "a=") line) _ _ ms
              (parse_attribute-BeginsWith (drop 2 line) ms sdp same) same))))

-- Once a medium follows `ms`, no further line changes the media of `ms`: attributes belong to the last
-- medium.
pub parse_lines-BeginsWith :
    (lines : List (List ℕ)) (ms : List SdpMedia) (v : Bool) (sdp : AirPlaySdp)
    → BeginsWith ms sdp
    → BeginsWith ms (parse_lines lines (v, sdp)).1
unfolding parse_lines
parse_lines-BeginsWith [] ms v sdp h = h
parse_lines-BeginsWith (line ∷ lines) ms v sdp h =
    let t = trim (strip_return line) in
    parse_lines-BeginsWith lines ms (parse_line t (v, sdp)).0 (parse_line t (v, sdp)).1
      (parse_line-BeginsWith t ms v sdp h)
