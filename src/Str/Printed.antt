-- ===== src/Str/Printed.antt =====
-- Numbers that are printed, as words and in lines.
use flip_link.Base.{
  ℕ, ◌≡◌, refl, sym, ap, ◌∙◌, arith, false, ◌==◌, List, [], ◌∷◌, ◌++◌, All, All-append,
  append_assoc, map, Text,
}
use flip_link.Str.{is_whitespace, lines_from, to_string}
use flip_link.Str.Decimal.{IsDigit, to_string-digits}
use flip_link.Str.Words.{
  IsSolid, IsWord, IsInLine, IsSolid-IsInLine, EndsInWord, IsWord-EndsInWord, EndsInWord-append,
  line_lem,
}

pub digit_not_space : (c : ℕ) → IsDigit c → is_whitespace c ≡ false
unfolding is_whitespace
digit_not_space c h = ground arith

digits-IsSolid : (s : Text) → All IsDigit s → IsSolid s
digits-IsSolid [] h = tt
digits-IsSolid (c ∷ s) h = (digit_not_space c h.0, digits-IsSolid s h.1)

-- A number that is printed is a word, and so are many.
pub to_string-IsWord : (n : ℕ) → IsWord (to_string n)
to_string-IsWord n =
    let (c, s, e, h, k) = to_string-digits n in
    rw e ((digit_not_space c h, digits-IsSolid s k), refl)

pub map-to_string-IsWord : (ns : List ℕ) → All IsWord (map to_string ns)
map-to_string-IsWord [] = tt
map-to_string-IsWord (n ∷ ns) = (to_string-IsWord n, map-to_string-IsWord ns)

pub number-IsInLine : (n : ℕ) → IsInLine (to_string n)
number-IsInLine n = IsSolid-IsInLine (to_string n) (to_string-IsWord n).0

-- Nothing is trimmed from a text that ends in a number.
pub ends_in_number : (t : Text) (n : ℕ) → EndsInWord (t ++ to_string n)
ends_in_number t n =
    EndsInWord-append t (to_string n) (IsWord-EndsInWord (to_string n) (to_string-IsWord n))

-- A line that ends in a number, and its line break.
pub header_line :
    (t : Text) (n : ℕ) (rest : Text)
    → IsInLine t
    → lines_from [] (t ++ (to_string n ++ (b'\n' ∷ rest))) ≡ (t ++ to_string n) ∷ lines_from [] rest
header_line t n rest h =
    ap (lines_from []) (sym (append_assoc t (to_string n) (b'\n' ∷ rest)))
    ∙ line_lem (t ++ to_string n) rest
        (All-append (λ (c : ℕ). (c == b'\n') ≡ false) t (to_string n) h (number-IsInLine n))
        (ends_in_number t n)
