-- ===== src/Cli/Render/Hexed.antt =====
-- The digits that crates/flip-cli/src/main.rs shows of a payload, against those that
-- crates/flip-client/src/subghz.rs reads of one.
use flip_link.Base.{
  ℕ, ◌+◌, ◌*◌, ◌/◌, ◌%◌, ◌≤◌, ◌<◌, ◌≡◌, refl, ap, ◌∙◌, arith, true, false, ◌==◌, ltb, Bool-cases,
  inl, inr, [], ◌∷◌, ◌++◌, All, length, some, none, append-nil, Text, codes,
}
use flip_link.Base.Results.{ok, unwrap_or}
use flip_link.Proto.Bytes.{Bytes, IsByte}
use flip_link.Str.{is_whitespace, strip_prefix}
use flip_link.Str.Words.{IsSolid, IsWord, split_whitespace-join}
use flip_link.Client.SubGhz.{validate_probe_payload, max_link_probe_bytes}
use flip_link.Client.SubGhz.Hex.{
  hex_value, all_hex, cleaned, checked_digits, hex_bytes, parse_probe_hex,
}
use flip_link.Cli.Render.{hex_digit, hex_text, hex_preview}

hex_value-hex_digit : (n : ℕ) → n < 16 → hex_value (hex_digit n) ≡ some n
unfolding hex_value
hex_value-hex_digit n h = ground arith

digit-IsSolid : (n : ℕ) → n < 16 → is_whitespace (hex_digit n) ≡ false
unfolding is_whitespace
digit-IsSolid n h = ground arith

digit_not_x : (n : ℕ) → n < 16 → (hex_digit n == b'x') ≡ false
digit_not_x n h = ground arith

hex_text-IsSolid : (bs : Bytes) → All IsByte bs → IsSolid (hex_text bs)
hex_text-IsSolid [] h = tt
hex_text-IsSolid (b ∷ bs) (h, hs) = (
  digit-IsSolid (b / 16) (omega arith),
  (digit-IsSolid (b % 16) (omega arith), hex_text-IsSolid bs hs),
)

all_hex-hex_text : (bs : Bytes) → All IsByte bs → all_hex (hex_text bs) ≡ true
all_hex-hex_text [] h = refl
all_hex-hex_text (b ∷ bs) (h, hs) =
    rw (hex_value-hex_digit (b / 16) (omega arith), hex_value-hex_digit (b % 16) (omega arith))
      (all_hex-hex_text bs hs)

length-hex_text : (bs : Bytes) → length (hex_text bs) ≡ 2 * length bs
length-hex_text [] = refl
length-hex_text (b ∷ bs) = omega (arith, length-hex_text bs)

hex_bytes-hex_text : (bs : Bytes) → All IsByte bs → hex_bytes (hex_text bs) ≡ ok bs
unfolding hex_bytes
hex_bytes-hex_text [] h = refl
hex_bytes-hex_text (b ∷ bs) (h, hs) =
    let both : b / 16 * 16 + b % 16 ≡ b = omega arith in
    rw
      (
        hex_value-hex_digit (b / 16) (omega arith),
        hex_value-hex_digit (b % 16) (omega arith),
        hex_bytes-hex_text bs hs,
        both,
      )
      refl

-- What is shown has no `0x` in front to take away.
no_prefix : (bs : Bytes) → All IsByte bs → strip_prefix (codes "0x") (hex_text bs) ≡ none
no_prefix [] h = refl
no_prefix (b ∷ bs) (h, hs) = elim (Bool-cases (hex_digit (b / 16) == b'0')) [
  | inl e ↦ rw (e, digit_not_x (b % 16) (omega arith)) refl
  | inr e ↦ rw e refl
]

validated :
    (bs : Bytes)
    → 0 < length bs
    → length bs ≤ max_link_probe_bytes
    → validate_probe_payload bs ≡ ok tt
unfolding validate_probe_payload
validated bs h k =
    let some_bytes : (length bs == 0) ≡ false = ground arith in
    let fits : ltb max_link_probe_bytes (length bs) ≡ false = ground arith in
    rw (some_bytes, fits) refl

checked_digits_lem :
    (t : Text) (out : Bytes)
    → all_hex t ≡ true
    → (length t % 2 == 0) ≡ true
    → hex_bytes t ≡ ok out
    → validate_probe_payload out ≡ ok tt
    → checked_digits t ≡ ok out
checked_digits_lem t out a b c d = rw (a, b, c, d) refl

cleaned_one : (t : Text) → strip_prefix (codes "0x") t ≡ none → cleaned (t ∷ []) ≡ t
cleaned_one t e = ap (λ o. unwrap_or o t ++ []) e ∙ append-nil t

-- A payload of a link probe, not empty and of 60 bytes at most, is read back from the hex digits
-- that `hex_preview` shows of it.
pub parse_probe_hex-hex_preview :
    (bs : Bytes)
    → All IsByte bs
    → 0 < length bs
    → length bs ≤ max_link_probe_bytes
    → parse_probe_hex (hex_preview bs) ≡ ok bs
unfolding parse_probe_hex hex_preview
parse_probe_hex-hex_preview [] h k l = absurd (omega arith)
parse_probe_hex-hex_preview (b ∷ bs) h k l =
    let word : IsWord (hex_text (b ∷ bs)) = (hex_text-IsSolid (b ∷ bs) h, refl) in
    let even : (length (hex_text (b ∷ bs)) % 2 == 0) ≡ true =
      ground (arith, length-hex_text (b ∷ bs)) in
    let t = hex_text (b ∷ bs) in
    ap (λ ws. checked_digits (cleaned ws)) (split_whitespace-join (t ∷ []) (word, tt))
    ∙ ap checked_digits (cleaned_one t (no_prefix (b ∷ bs) h))
    ∙ checked_digits_lem t (b ∷ bs) (all_hex-hex_text (b ∷ bs) h) even
        (hex_bytes-hex_text (b ∷ bs) h) (validated (b ∷ bs) k l)
