-- ===== src/Text.antt =====
-- The text routines of the standard library that the sources use, and those that several files of src/
-- define alike (trim and header_value).
pub mod Decimal
pub mod Lines
use gwl_airplay.Base.{
  ℕ, zero, suc, ◌+◌, ◌*◌, ◌-◌, ◌%◌, ◌/◌, ◌^◌, Bool, true, false, not, ◌&&◌, ◌||◌, List, [], ◌∷◌,
  ◌++◌, map, Option, none, some, ltb, leb, ◌==◌, if◌then◌else◌, length, take, drop, codes, bytes_eq,
}

-- std::isspace of the C locale.
abbrev pub isspace : ℕ → Bool
isspace c = (c == 32) || (leb 9 c && leb c 13)

abbrev pub tolower : ℕ → ℕ
tolower c = if leb 65 c && leb c 90 then c + 32 else c

abbrev pub trim_front : List ℕ → List ℕ
trim_front [] = []
trim_front (c ∷ cs) = let rest = trim_front cs in if isspace c then rest else c ∷ cs

abbrev pub trim_back : List ℕ → List ℕ
trim_back [] = []
trim_back (c ∷ cs) =
    let rest = trim_back cs in if isspace c && (length rest == 0) then [] else c ∷ rest

abbrev pub trim : List ℕ → List ℕ
trim value = trim_back (trim_front value)

-- The first header, in the order of the map, whose name is `name` but for case; else the empty string.
abbrev pub header_value : List (List ℕ × List ℕ) → List ℕ → List ℕ
header_value [] name = []
header_value ((k, v) ∷ headers) name =
    let rest = header_value headers name in
    if bytes_eq (map tolower k) (map tolower name) then v else rest

-- std::string::find.
abbrev pub starts_with : List ℕ → List ℕ → Bool
starts_with [] xs = true
starts_with (p ∷ ps) [] = false
starts_with (p ∷ ps) (x ∷ xs) = (p == x) && starts_with ps xs

abbrev pub shift : ℕ → Option ℕ → Option ℕ
shift n none = none
shift n (some k) = some (n + k)

abbrev pub find : List ℕ → List ℕ → Option ℕ
find ps [] = if starts_with ps [] then some 0 else none
find ps (x ∷ xs) =
    let later = shift 1 (find ps xs) in if starts_with ps (x ∷ xs) then some 0 else later

-- `find(needle, start)`
abbrev pub find_at : List ℕ → List ℕ → ℕ → Option ℕ
find_at ps xs start = if ltb (length xs) start then none else shift start (find ps (drop start xs))

abbrev pub substr : List ℕ → ℕ → ℕ → List ℕ
substr xs start n = take n (drop start xs)

-- std::stoul in base 10: white space, a sign, the digits up to the first other character. A minus sign
-- negates in 64 bits. `none` is an exception: no digits, or a number that does not fit.
abbrev pub digits : List ℕ → List ℕ
digits [] = []
digits (c ∷ cs) = let rest = digits cs in if leb 48 c && leb c 57 then (c - 48) ∷ rest else []

abbrev pub from_digits : ℕ → List ℕ → ℕ
from_digits acc [] = acc
from_digits acc (d ∷ ds) = from_digits (acc * 10 + d) ds

abbrev pub stoul_digits : Bool → List ℕ → Option ℕ
stoul_digits negative ds =
    let n = from_digits 0 ds in
    if (length ds == 0) || leb (2 ^ 64) n
    then none
    else some (if negative then (2 ^ 64 - n) % 2 ^ 64 else n)

abbrev pub stoul_sign : List ℕ → Option ℕ
stoul_sign [] = none
stoul_sign (c ∷ cs) =
    if c == 45
    then stoul_digits true (digits cs)
    else stoul_digits false (digits (if c == 43 then cs else c ∷ cs))

abbrev pub stoul : List ℕ → Option ℕ
stoul text = stoul_sign (trim_front text)

-- `stream >> word`: the word after white space, and what follows it.
abbrev pub word : List ℕ → List ℕ
word [] = []
word (c ∷ cs) = let rest = word cs in if isspace c then [] else c ∷ rest

abbrev pub next_word : List ℕ → Option (List ℕ × List ℕ)
next_word text =
    let t = trim_front text in
    let w = word t in if length w == 0 then none else some (w, drop (length w) t)

-- std::to_string; a number has fewer digits than its value plus one.
pub digits_loop : ℕ → ℕ → List ℕ → List ℕ
digits_loop zero n out = out
digits_loop (suc fuel) n out =
    let out' = (48 + n % 10) ∷ out in
    let rest = digits_loop fuel (n / 10) out' in if n / 10 == 0 then out' else rest

abbrev pub to_string : ℕ → List ℕ
to_string n = digits_loop (suc n) n []

-- An `int`; `negsuc n` is -(n + 1).
pub data ℤ : Type 0 where
  pos : ℕ → ℤ
  negsuc : ℕ → ℤ

abbrev pub int_of : Bool → ℕ → ℤ
int_of negative zero = ℤ.pos zero
int_of true (suc n) = ℤ.negsuc n
int_of false (suc n) = ℤ.pos (suc n)

-- std::stoi in base 10, into 32 bits.
abbrev pub stoi_digits : Bool → List ℕ → Option ℤ
stoi_digits negative ds =
    let n = from_digits 0 ds in
    if (length ds == 0) || ltb (if negative then 2 ^ 31 else 2 ^ 31 - 1) n
    then none
    else some (int_of negative n)

abbrev pub stoi_sign : List ℕ → Option ℤ
stoi_sign [] = none
stoi_sign (c ∷ cs) =
    if c == 45
    then stoi_digits true (digits cs)
    else stoi_digits false (digits (if c == 43 then cs else c ∷ cs))

abbrev pub stoi : List ℕ → Option ℤ
stoi text = stoi_sign (trim_front text)

-- std::getline until the text ends: the pieces before and between delimiters, and the last one unless it
-- is empty.
abbrev pub prepend : ℕ → List (List ℕ) → List (List ℕ)
prepend c [] = (c ∷ []) ∷ []
prepend c (line ∷ lines) = (c ∷ line) ∷ lines

abbrev pub getlines : ℕ → List ℕ → List (List ℕ)
getlines delim [] = []
getlines delim (c ∷ cs) =
    let rest = getlines delim cs in if c == delim then [] ∷ rest else prepend c rest
