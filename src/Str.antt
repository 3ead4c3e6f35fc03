-- ===== src/Str.antt =====
-- The methods of Rust's `str` and of its integers that the text formats of flip-client and flip-cli
-- use, on texts as lists of code points.
pub mod Decimal
pub mod Words
pub mod Signed
pub mod Printed
use flip_link.Base.{
  ℕ, zero, suc, ◌+◌, ◌-◌, ◌*◌, ◌/◌, ◌%◌, ◌^◌, Bool, true, false, ◌&&◌, ◌||◌, ltb, leb, ◌==◌,
  if◌then◌else◌, List, [], ◌∷◌, ◌++◌, Option, none, some, Text, map_option, ℤ, pos, negsuc,
}

-- `char::is_whitespace`: the code points with the property White_Space.
unfoldable pub is_whitespace : ℕ → Bool
is_whitespace c =
    leb 9 c && leb c 13
    || c == 32
    || c == 0x85
    || c == 0xa0
    || c == 0x1680
    || leb 0x2000 c && leb c 0x200a
    || c == 0x2028
    || c == 0x2029
    || c == 0x202f
    || c == 0x205f
    || c == 0x3000

abbrev pub is_empty {ℓ} : {A : Type ℓ} → List A → Bool
is_empty [] = true
is_empty (x ∷ xs) = false

unfoldable pub trim_start : Text → Text
trim_start [] = []
trim_start (c ∷ s) = let rest = trim_start s in if is_whitespace c then rest else c ∷ s

unfoldable pub trim_end : Text → Text
trim_end [] = []
trim_end (c ∷ s) =
    let rest = trim_end s in if is_whitespace c && is_empty rest then [] else c ∷ rest

abbrev pub trim : Text → Text
trim s = trim_end (trim_start s)

-- `strip_prefix`
abbrev pub strip_prefix : Text → Text → Option Text
strip_prefix [] s = some s
strip_prefix (p ∷ ps) [] = none
strip_prefix (p ∷ ps) (c ∷ s) = if c == p then strip_prefix ps s else none

-- A line without the carriage return of its end.
unfoldable pub strip_cr : Text → Text
strip_cr [] = []
strip_cr (c ∷ []) = if c == b'\r' then [] else c ∷ []
strip_cr (c ∷ d ∷ s) = c ∷ strip_cr (d ∷ s)

abbrev pub whole : Text → List Text
whole [] = []
whole (c ∷ s) = (c ∷ s) ∷ []

-- `lines()`, with the line read so far.
unfoldable pub lines_from : Text → Text → List Text
lines_from line [] = whole line
lines_from line (c ∷ s) =
    let ends = c == b'\n' in
    let rest = lines_from (if ends then [] else line ++ (c ∷ [])) s in
    if ends then strip_cr line ∷ rest else rest

abbrev pub lines : Text → List Text
lines = lines_from []

-- `split_whitespace()`, with the word read so far.
unfoldable pub words_from : Text → Text → List Text
words_from word [] = whole word
words_from word (c ∷ s) =
    let ends = is_whitespace c in
    let rest = words_from (if ends then [] else word ++ (c ∷ [])) s in
    if ends then whole word ++ rest else rest

abbrev pub split_whitespace : Text → List Text
split_whitespace = words_from []

abbrev pub is_digit : ℕ → Bool
is_digit c = leb b'0' c && leb c b'9'

-- The digits behind a number that is read already; a number above `max` is refused.
unfoldable pub parse_digits : ℕ → Text → ℕ → Option ℕ
parse_digits max [] n = some n
parse_digits max (c ∷ s) n =
    let next = n * 10 + (c - b'0') in
    let rest = parse_digits max s next in
    if is_digit c then (if leb next max then rest else none) else none

abbrev pub some_digits : ℕ → Text → Option ℕ
some_digits max [] = none
some_digits max (c ∷ s) = parse_digits max (c ∷ s) 0

-- `parse` of an unsigned type with the greatest number `max`: a plus sign may stand in front.
unfoldable pub parse_uint : ℕ → Text → Option ℕ
parse_uint max [] = none
parse_uint max (c ∷ s) = if c == b'+' then some_digits max s else some_digits max (c ∷ s)

abbrev pub max_u32 : ℕ
max_u32 = 2 ^ 32 - 1

abbrev pub max_u64 : ℕ
max_u64 = 2 ^ 64 - 1

-- The digits of `n` in front of `out`; each round divides by ten, so `n` is enough fuel.
unfoldable pub digits : ℕ → ℕ → Text → Text
digits zero n out = (b'0' + n % 10) ∷ out
digits (suc fuel) n out =
    let rest = digits fuel (n / 10) ((b'0' + n % 10) ∷ out) in
    if ltb n 10 then (b'0' + n % 10) ∷ out else rest

-- `to_string` of an unsigned number.
unfoldable pub to_string : ℕ → Text
unfolding digits
to_string n = digits n n []

abbrev pub negated : ℕ → ℤ
negated zero = pos 0
negated (suc n) = negsuc n

-- `parse` of `i64`: a sign may stand in front.
unfoldable pub parse_i64 : Text → Option ℤ
parse_i64 [] = none
parse_i64 (c ∷ s) =
    if c == b'-'
    then map_option negated (some_digits (2 ^ 63) s)
    else map_option pos (parse_uint (2 ^ 63 - 1) (c ∷ s))

-- `to_string` of a signed number.
abbrev pub int_to_string : ℤ → Text
int_to_string (pos n) = to_string n
int_to_string (negsuc n) = b'-' ∷ to_string (suc n)

abbrev before : ℕ → Text × Text → Text × Text
before c (s, t) = (c ∷ s, t)

-- `split_once`: what stands before the first separator, and behind it.
unfoldable pub split_once : ℕ → Text → Option (Text × Text)
split_once sep [] = none
split_once sep (c ∷ s) =
    let rest = split_once sep s in if c == sep then some ([], s) else map_option (before c) rest
