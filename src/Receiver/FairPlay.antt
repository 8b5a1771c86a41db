-- ===== src/Receiver/FairPlay.antt =====
-- handle_fairplay_setup of src/airplay_receiver.cpp.
use gwl_airplay.Base.{
  ℕ, ◌+◌, ◌*◌, ◌≡◌, ◌≢◌, refl, sym, ap, ◌∙◌, append-nil, take-append_of_eq, Bool, true, false, not,
  ◌||◌, ◌&&◌, List, [], ◌∷◌, ◌++◌, Option, none, some, arith, ltb, ◌==◌, if◌then◌else◌, length,
  take, drop, get_or, codes, length-drop,
}
use gwl_airplay.Crypto.{hex_value}

-- `hex_bytes` of a text of hexadecimal digits, which all of the literals are.
abbrev pub digit : Option ℕ → ℕ
digit none = 0
digit (some n) = n

unfoldable pub hex_bytes : List ℕ → List ℕ
hex_bytes [] = []
hex_bytes (c ∷ []) = []
hex_bytes (c ∷ d ∷ text) = (digit (hex_value c) * 16 + digit (hex_value d)) ∷ hex_bytes text

pub fairplay_v3_phase1_response : List ℕ
unfolding hex_bytes
fairplay_v3_phase1_response = hex_bytes (
    codes "46504c59030102000000008202039001e1727e0f57f9f5880db104a6257a23f5"
    ++ (codes "cfff1abbe1e93045251afb97eb9fc0011ebe0f3a81df5b691d76acb2f7a5c708"
        ++ (codes "e3d328f56bb39dbde5f29c8a17f481487e3ae863c678325422e6f78e166d18aa"
            ++ (codes "7fd636258bce28726f661f738893ce44311e4be6c0535193e5ef72e868623372"
                ++ codes "9c227d820c999445d89246c8c359"))))

abbrev pub phase3_header : List ℕ
phase3_header =
    0x46 ∷ 0x50 ∷ 0x4c ∷ 0x59 ∷ 0x03 ∷ 0x01 ∷ 0x04 ∷ 0x00 ∷ 0x00 ∷ 0x00 ∷ 0x00 ∷ 0x14 ∷ []

-- The response, which is empty with an error, the error, and the key message.
pub record FairPlay : Type 0 where
  pub response : List ℕ
  pub error : List ℕ
  pub key_message : List ℕ

abbrev refused : List ℕ → List ℕ → FairPlay
refused key error = record { response = []; error = error; key_message = key }

abbrev has_header : List ℕ → Bool
has_header body =
    (get_or body 0 0 == 70)
    && ((get_or body 1 0 == 80) && ((get_or body 2 0 == 76) && (get_or body 3 0 == 89)))

pub handle_fairplay_setup : List ℕ → List ℕ → FairPlay
unfolding fairplay_v3_phase1_response
handle_fairplay_setup body key =
    if ltb (length body) 16 || not (has_header body)
    then refused key (codes "invalid FPLY header")
    else if not (get_or body 4 0 == 3) || not (get_or body 5 0 == 1)
    then refused key (codes "unsupported FairPlay version")
    else if get_or body 6 0 == 1
    then if not (length body == 16)
      then refused key (codes "invalid FairPlay phase-1 length")
      else record { response = fairplay_v3_phase1_response; error = []; key_message = key }
    else if get_or body 6 0 == 3
    then if not (length body == 164)
      then refused key (codes "invalid FairPlay phase-3 length")
      else record {
        response = phase3_header ++ take 20 (drop 144 body);
        error = [];
        key_message = body;
      }
    else refused key (codes "unsupported FairPlay phase")

-- The first twelve bytes of a message: the name, the version 3.1, the type, and how many bytes follow.
abbrev pub message_header : ℕ → ℕ → List ℕ
message_header type rest = codes "FPLY" ++ (3 ∷ 1 ∷ type ∷ 0 ∷ 0 ∷ 0 ∷ 0 ∷ rest ∷ [])

phase1_response_lem :
    (length fairplay_v3_phase1_response ≡ 142)
    × (take 12 fairplay_v3_phase1_response ≡ message_header 2 130)
unfolding fairplay_v3_phase1_response hex_bytes
phase1_response_lem = (refl, refl)

-- A message of FairPlay's version 3.1.
pub record IsMessage (body : List ℕ) : Type 0 where
  pub named : take 4 body ≡ codes "FPLY"
  pub version : get_or body 4 0 ≡ 3
  pub revision : get_or body 5 0 ≡ 1

-- The two messages that are answered.
pub data IsGood (body : List ℕ) : Type 0 where
  good1 : IsMessage body → get_or body 6 0 ≡ 1 → length body ≡ 16 → IsGood body
  good3 : IsMessage body → get_or body 6 0 ≡ 3 → length body ≡ 164 → IsGood body

-- What a message gives: the response of phase 1, of 142 bytes behind its header, with the key message as it
-- was, for 16 bytes; a header and the last 20 bytes of a message of 164 bytes, which becomes the key message,
-- for phase 3; or, for all else, an error with no response and the key message as it was.
pub data Answered (body key : List ℕ) (r : FairPlay) : Type 0 where
  phase1 :
      IsMessage body
      → length body ≡ 16
      → get_or body 6 0 ≡ 1
      → r.key_message ≡ key
      → r.error ≡ []
      → r.response ≡ fairplay_v3_phase1_response
      → length r.response ≡ 142
      → take 12 r.response ≡ message_header 2 130
      → Answered body key r
  phase3 :
      IsMessage body
      → length body ≡ 164
      → get_or body 6 0 ≡ 3
      → r.key_message ≡ body
      → r.error ≡ []
      → r.response ≡ message_header 4 20 ++ drop 144 body
      → Answered body key r
  error : ¬ IsGood body → r.key_message ≡ key → r.response ≡ [] → r.error ≢ [] → Answered body key r

if-Answered :
    (body key : List ℕ) (b : Bool) (x y : FairPlay)
    → (b ≡ true → Answered body key x)
    → (b ≡ false → Answered body key y)
    → Answered body key (if b then x else y)
if-Answered body key true x y p q = p refl
if-Answered body key false x y p q = q refl

cons-ne-nil : {x : ℕ} {xs : List ℕ} → (x ∷ xs) ≢ []
cons-ne-nil e = omega (arith, ap length e)

phase3_response : (body : List ℕ) → length body ≡ 164 → take 20 (drop 144 body) ≡ drop 144 body
phase3_response body h =
    ap (take 20) (sym (append-nil (drop 144 body)))
    ∙ take-append_of_eq 20 (drop 144 body) [] (omega (arith, length-drop 144 body))

name_of : (body : List ℕ) → has_header body ≡ true → take 4 body ≡ codes "FPLY"
name_of [] e = ground arith
name_of (a ∷ []) e = ground arith
name_of (a ∷ b ∷ []) e = ground arith
name_of (a ∷ b ∷ c ∷ []) e = ground arith
name_of (a ∷ b ∷ c ∷ d ∷ rest) e = ground arith

has_header_of : (body : List ℕ) → take 4 body ≡ codes "FPLY" → has_header body ≡ true
has_header_of [] e = absurd (omega (arith, ap length e))
has_header_of (a ∷ []) e = absurd (omega (arith, ap length e))
has_header_of (a ∷ b ∷ []) e = absurd (omega (arith, ap length e))
has_header_of (a ∷ b ∷ c ∷ []) e = absurd (omega (arith, ap length e))
has_header_of (a ∷ b ∷ c ∷ d ∷ rest) e = ground arith

-- The four tests in which the code refuses a message.
module _ (body : List ℕ) where
  bad_header : (ltb (length body) 16 || not (has_header body)) ≡ true → ¬ IsGood body
  bad_header e (good1 m p l) = ground (arith, has_header_of body m.named)
  bad_header e (good3 m p l) = ground (arith, has_header_of body m.named)

  bad_version : (not (get_or body 4 0 == 3) || not (get_or body 5 0 == 1)) ≡ true → ¬ IsGood body
  bad_version e (good1 m p l) = ground (arith, m.version, m.revision)
  bad_version e (good3 m p l) = ground (arith, m.version, m.revision)

  bad_phase1 : get_or body 6 0 ≡ 1 → length body ≢ 16 → ¬ IsGood body
  bad_phase1 e n (good1 m p l) = n l
  bad_phase1 e n (good3 m p l) = omega arith

  bad_phase3 : get_or body 6 0 ≡ 3 → length body ≢ 164 → ¬ IsGood body
  bad_phase3 e n (good1 m p l) = omega arith
  bad_phase3 e n (good3 m p l) = n l

  bad_phase : get_or body 6 0 ≢ 1 → get_or body 6 0 ≢ 3 → ¬ IsGood body
  bad_phase a b (good1 m p l) = a p
  bad_phase a b (good3 m p l) = b p

  message :
      (ltb (length body) 16 || not (has_header body)) ≡ false
      → (not (get_or body 4 0 == 3) || not (get_or body 5 0 == 1)) ≡ false
      → IsMessage body
  message h v = record {
    named = name_of body (ground arith);
    version = ground arith;
    revision = ground arith;
  }

-- Any bytes are answered in one of three ways: 16 bytes of phase 1 in FairPlay's version 3.1 with the phase 1
-- response, of 142 bytes behind its header; 164 bytes of phase 3 in that version with a header and their last
-- 20 bytes, and they become the key message; and all else with an error and no response, which leaves the key
-- message as it was.
pub handle_fairplay_setup-Answered :
    (body key : List ℕ) → Answered body key (handle_fairplay_setup body key)
unfolding handle_fairplay_setup
handle_fairplay_setup-Answered body key =
    let no_length = refused key (codes "invalid FPLY header") in
    let no_version = refused key (codes "unsupported FairPlay version") in
    let no_phase1 = refused key (codes "invalid FairPlay phase-1 length") in
    let no_phase3 = refused key (codes "invalid FairPlay phase-3 length") in
    let no_phase = refused key (codes "unsupported FairPlay phase") in
    let one : FairPlay = record {
      response = fairplay_v3_phase1_response;
      error = [];
      key_message = key;
    } in
    let three : FairPlay = record {
      response = phase3_header ++ take 20 (drop 144 body);
      error = [];
      key_message = body;
    } in
    let first = if not (length body == 16) then no_phase1 else one in
    let third = if not (length body == 164) then no_phase3 else three in
    let last = if get_or body 6 0 == 3 then third else no_phase in
    let phases = if get_or body 6 0 == 1 then first else last in
    let versions =
      if not (get_or body 4 0 == 3) || not (get_or body 5 0 == 1) then no_version else phases in
    if-Answered body key (ltb (length body) 16 || not (has_header body)) no_length versions
      (λ h. error (bad_header body h) refl refl λ e. cons-ne-nil e)
      λ h.
        if-Answered body key (not (get_or body 4 0 == 3) || not (get_or body 5 0 == 1)) no_version
          phases (λ v. error (bad_version body v) refl refl λ e. cons-ne-nil e)
          λ v.
            if-Answered body key (get_or body 6 0 == 1) first last
              (λ a.
                if-Answered body key (not (length body == 16)) no_phase1 one
                  (λ l.
                    error (bad_phase1 body (ground arith) (λ k. ground arith)) refl refl
                      λ e. cons-ne-nil e)
                  (λ l.
                    phase1 (message body h v) (ground arith) (ground arith) refl refl refl
                      phase1_response_lem.0 phase1_response_lem.1))
              λ a.
                if-Answered body key (get_or body 6 0 == 3) third no_phase
                  (λ b.
                    if-Answered body key (not (length body == 164)) no_phase3 three
                      (λ l.
                        error (bad_phase3 body (ground arith) (λ k. ground arith)) refl refl
                          λ e. cons-ne-nil e)
                      (λ l.
                        let n : length body ≡ 164 = ground arith in
                        phase3 (message body h v) n (ground arith) refl refl
                          (ap (λ xs. phase3_header ++ xs) (phase3_response body n))))
                  (λ b.
                    error (bad_phase body (λ k. ground arith) (λ k. ground arith)) refl refl
                      λ e. cons-ne-nil e)
