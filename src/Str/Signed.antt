-- ===== src/Str/Signed.antt =====
-- Signed numbers that are printed and read back, and texts that are split in two.
use flip_link.Base.{
  ℕ, suc, ◌^◌, ◌≤◌, ◌<◌, ◌≡◌, refl, sym, ap, ◌∙◌, arith, false, true, ◌==◌, [], ◌∷◌, ◌++◌, All,
  some, none, Text, negsuc,
}
use flip_link.Str.{
  parse_digits, some_digits, parse_uint, parse_i64, to_string, int_to_string, split_once,
}
use flip_link.Str.Decimal.{to_string-digits, parse_uint-to_string}

-- A number without a sign is read by its digits alone.
some_digits-to_string : (max n : ℕ) → n ≤ max → some_digits max (to_string n) ≡ some n
unfolding parse_uint
some_digits-to_string max n h =
    let (c, s, e, d, ds) = to_string-digits n in
    let no_sign : (c == b'+') ≡ false = ground (arith, d.0, d.1) in
    let by_sign : parse_uint max (c ∷ s) ≡ some_digits max (c ∷ s) = rw no_sign refl in
    ap (some_digits max) e
    ∙ sym by_sign
    ∙ ap (parse_uint max) (sym e)
    ∙ parse_uint-to_string max n h

pub parse_i64-to_string :
    (n : ℕ) → n < 2 ^ 63 → parse_i64 (int_to_string (negsuc n)) ≡ some (negsuc n)
unfolding parse_i64
parse_i64-to_string n h = rw (some_digits-to_string (2 ^ 63) (suc n) (omega arith)) refl

pub parse_uint_negative : (max : ℕ) (s : Text) → parse_uint max (b'-' ∷ s) ≡ none
unfolding parse_uint parse_digits
parse_uint_negative max s = refl

abbrev pub IsFree : ℕ → Text → Type 0
IsFree sep = All (λ (c : ℕ). (c == sep) ≡ false)

-- The first separator is the one behind a text without it.
pub split_once-append :
    (sep : ℕ) (k v : Text) → IsFree sep k → split_once sep (k ++ (sep ∷ v)) ≡ some (k, v)
unfolding split_once
split_once-append sep [] v h = let same : (sep == sep) ≡ true = ground arith in rw same refl
split_once-append sep (c ∷ k) v h = rw (h.0, split_once-append sep k v h.1) refl

-- Without a separator there is nothing to split.
pub split_once-eq-none : (sep : ℕ) (s : Text) → IsFree sep s → split_once sep s ≡ none
unfolding split_once
split_once-eq-none sep [] h = refl
split_once-eq-none sep (c ∷ s) h = rw (h.0, split_once-eq-none sep s h.1) refl
