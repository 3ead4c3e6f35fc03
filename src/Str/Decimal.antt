-- ===== src/Str/Decimal.antt =====
-- Numbers that are printed in decimal and read back.
use flip_link.Base.{
  ℕ, zero, suc, ◌+◌, ◌-◌, ◌*◌, ◌/◌, ◌%◌, ◌≤◌, ◌<◌, ◌≡◌, refl, ap, ◌∙◌, if-either, arith, false, ltb,
  ◌==◌, Bool-cases, inl, inr,
}
use flip_link.Base.{[], ◌∷◌, All, some, none, Text, codes}
use flip_link.Str.{parse_digits, parse_uint, max_u64, digits, to_string}

abbrev pub IsDigit : ℕ → Type 0
IsDigit c = (b'0' ≤ c) × (c ≤ b'9')

-- Reading the last digit behind the digits before it.
parse_last :
    (max n : ℕ) (out : Text)
    → n ≤ max
    → parse_digits max ((b'0' + n % 10) ∷ out) (n / 10) ≡ parse_digits max out n
unfolding parse_digits
parse_last max n out h =
    let back : n / 10 * 10 + (b'0' + n % 10 - b'0') ≡ n = omega arith in ground (arith, back)

parse_one :
    (max n : ℕ) (out : Text)
    → n < 10
    → n ≤ max
    → parse_digits max ((b'0' + n % 10) ∷ out) 0 ≡ parse_digits max out n
parse_one max n out h k =
    let tenth : 0 ≡ n / 10 = omega arith in
    ap (λ (m : ℕ). parse_digits max ((b'0' + n % 10) ∷ out) m) tenth ∙ parse_last max n out k

parse_digits-digits :
    (max fuel n : ℕ) (out : Text)
    → n ≤ fuel
    → n ≤ max
    → parse_digits max (digits fuel n out) 0 ≡ parse_digits max out n
unfolding digits
parse_digits-digits max zero n out h k = parse_one max n out (omega arith) k
parse_digits-digits max (suc fuel) n out h k = elim (Bool-cases (ltb n 10)) [
  | inl e ↦ rw e (parse_one max n out (ground arith) k)
  | inr e ↦ rw e (
      parse_digits-digits max fuel (n / 10) ((b'0' + n % 10) ∷ out) (ground arith) (omega arith)
      ∙ parse_last max n out k)
]

-- What is printed begins with a digit, and has nothing but digits.
data StartsWithDigit : Text → Type 0 where
  starts : {c : ℕ} {s : Text} → IsDigit c → All IsDigit s → StartsWithDigit (c ∷ s)

digits-starts : (fuel n : ℕ) (out : Text) → All IsDigit out → StartsWithDigit (digits fuel n out)
unfolding digits
digits-starts zero n out h = starts (omega arith) h
digits-starts (suc fuel) n out h =
    if-either StartsWithDigit (ltb n 10) _ _ (starts (omega arith) h)
      (digits-starts fuel (n / 10) ((b'0' + n % 10) ∷ out) (omega arith, h))

-- A number as a digit and more digits.
pub to_string-digits :
    (n : ℕ) → (c : ℕ) × (s : Text) × (to_string n ≡ c ∷ s) × IsDigit c × All IsDigit s
unfolding to_string
to_string-digits n = parts (digits n n []) (digits-starts n n [] tt)
  where
    parts :
        (t : Text)
        → StartsWithDigit t
        → (c : ℕ) × (s : Text) × (t ≡ c ∷ s) × IsDigit c × All IsDigit s
    parts t (starts {c} {s} h k) = (c, s, refl, h, k)

some_digits_lem : (max : ℕ) (t : Text) → StartsWithDigit t → parse_uint max t ≡ parse_digits max t 0
unfolding parse_uint
some_digits_lem max t (starts {c} {s} h k) =
    let no_sign : (c == b'+') ≡ false = ground arith in rw no_sign refl

-- A number that the type holds is read back from its print.
pub parse_uint-to_string : (max n : ℕ) → n ≤ max → parse_uint max (to_string n) ≡ some n
unfolding to_string parse_digits
parse_uint-to_string max n h =
    some_digits_lem max (digits n n []) (digits-starts n n [] tt)
    ∙ parse_digits-digits max n n [] (omega arith) h

test_numbers :
    (to_string 0 ≡ codes "0")
    × (to_string max_u64 ≡ codes "18446744073709551615")
    × (parse_uint max_u64 (codes "18446744073709551616") ≡ none)
    × (parse_uint max_u64 (codes "+007") ≡ some 7)
    × (parse_uint max_u64 (codes "+") ≡ none)
    × (parse_uint max_u64 (codes "-1") ≡ none)
unfolding to_string digits parse_uint parse_digits
test_numbers = (refl, refl, refl, refl, refl, refl)
