-- ===== src/Client/SubGhz/Hex.antt =====
-- `parse_probe_hex` of crates/flip-client/src/subghz.rs: the payload of a link probe from the hex
-- digits of a command line.
use flip_link.Base.{ℕ, ◌+◌, ◌*◌, ◌-◌, ◌%◌, Bool, true, false, not, leb, ◌==◌, ◌&&◌, if◌then◌else◌}
use flip_link.Base.{List, [], ◌∷◌, ◌++◌, length, Option, none, some, Text, codes}
use flip_link.Base.Results.{Result, ok, err, ok_or, unwrap_or, ◌>>=◌, ◌>>◌}
use flip_link.Proto.Bytes.{Bytes}
use flip_link.Str.{strip_prefix, split_whitespace}
use flip_link.Client.SubGhz.{SubGhzError, not_hex, odd_digits, bad_hex_byte, validate_probe_payload}

-- `is_ascii_hexdigit`, and the value of the digit.
unfoldable pub hex_value : ℕ → Option ℕ
hex_value c =
    if leb b'0' c && leb c b'9'
    then some (c - b'0')
    else if leb b'a' c && leb c b'f'
    then some (c - b'a' + 10)
    else if leb b'A' c && leb c b'F'
    then some (c - b'A' + 10)
    else none

abbrev is_some {ℓ} : {A : Type ℓ} → Option A → Bool
is_some none = false
is_some (some a) = true

abbrev pub all_hex : Text → Bool
all_hex [] = true
all_hex (c ∷ s) = is_some (hex_value c) && all_hex s

-- The parts between white space, each without a `0x` in front.
abbrev pub cleaned : List Text → Text
cleaned [] = []
cleaned (part ∷ parts) = unwrap_or (strip_prefix (codes "0x") part) part ++ cleaned parts

abbrev byte_of : Option ℕ → Option ℕ → Option ℕ
byte_of (some a) (some b) = some (a * 16 + b)
byte_of _ _ = none

-- The digits two by two.
unfoldable pub hex_bytes : Text → Result Bytes SubGhzError
hex_bytes [] = ok []
hex_bytes (c ∷ []) = err odd_digits
hex_bytes (c ∷ d ∷ s) = do
  b ← ok_or (byte_of (hex_value c) (hex_value d)) (bad_hex_byte c d)
  bs ← hex_bytes s
  ok (b ∷ bs)

abbrev pub checked_digits : Text → Result Bytes SubGhzError
checked_digits s =
    if not (all_hex s)
    then err not_hex
    else if not (length s % 2 == 0)
    then err odd_digits
    else hex_bytes s >>= λ out. validate_probe_payload out >> ok out

unfoldable pub parse_probe_hex : Text → Result Bytes SubGhzError
parse_probe_hex input = checked_digits (cleaned (split_whitespace input))
