-- ===== src/Str/Words.antt =====
-- Lines and words that are put together and taken apart again.
use flip_link.Base.{
  ℕ, ◌≡◌, refl, sym, ap, ◌∙◌, arith, Bool, true, false, not, ◌==◌, ◌&&◌, Bool-cases, inl, inr,
}
use flip_link.Base.{List, [], ◌∷◌, ◌++◌, All, append_assoc, append-nil, Text}
use flip_link.Str.{
  is_whitespace, is_empty, trim_start, trim_end, trim, strip_cr, whole, lines_from, words_from,
  split_whitespace,
}

-- No white space at all.
abbrev pub IsSolid : Text → Type 0
IsSolid = All (λ (c : ℕ). is_whitespace c ≡ false)

abbrev pub IsWord : Text → Type 0
IsWord w = IsSolid w × (is_empty w ≡ false)

abbrev pub IsInLine : Text → Type 0
IsInLine = All (λ (c : ℕ). (c == b'\n') ≡ false)

abbrev pub is_in_line : Text → Bool
is_in_line [] = true
is_in_line (c ∷ w) = not (c == b'\n') && is_in_line w

-- The test serves for the texts of literals.
pub literal_lem : (w : Text) → is_in_line w ≡ true → IsInLine w
literal_lem [] e = tt
literal_lem (c ∷ w) e = elim (Bool-cases (c == b'\n')) [
  | inl q ↦ absurd ground arith
  | inr q ↦ (q, literal_lem w (ground arith))
]

-- A line break is white space.
pub IsSolid-IsInLine : (w : Text) → IsSolid w → IsInLine w
unfolding is_whitespace
IsSolid-IsInLine [] h = tt
IsSolid-IsInLine (c ∷ w) h =
    let inside : (c == b'\n') ≡ false = ground (arith, h.0) in (inside, IsSolid-IsInLine w h.1)

pub lines_from-append :
    (w line s : Text) → IsInLine w → lines_from line (w ++ s) ≡ lines_from (line ++ w) s
unfolding lines_from
lines_from-append [] line s h = ap (λ l. lines_from l s) (sym (append-nil line))
lines_from-append (c ∷ w) line s h = rw h.0 (
    lines_from-append w (line ++ (c ∷ [])) s h.1
    ∙ ap (λ l. lines_from l s) (append_assoc line (c ∷ []) w))

words_from-append :
    (w word s : Text) → IsSolid w → words_from word (w ++ s) ≡ words_from (word ++ w) s
unfolding words_from
words_from-append [] word s h = ap (λ l. words_from l s) (sym (append-nil word))
words_from-append (c ∷ w) word s h = rw h.0 (
    words_from-append w (word ++ (c ∷ [])) s h.1
    ∙ ap (λ l. words_from l s) (append_assoc word (c ∷ []) w))

whole_lem : (w : Text) → is_empty w ≡ false → whole w ≡ w ∷ []
whole_lem [] e = absurd cc
whole_lem (c ∷ w) e = refl

-- Words with a space between each two.
abbrev pub join : List Text → Text
join [] = []
join (w ∷ []) = w
join (w ∷ v ∷ ws) = w ++ (b' ' ∷ join (v ∷ ws))

pub split_whitespace-join : (ws : List Text) → All IsWord ws → split_whitespace (join ws) ≡ ws
unfolding words_from is_whitespace
split_whitespace-join [] h = refl
split_whitespace-join (w ∷ []) ((solid, some_text), _) =
    ap (λ t. words_from [] t) (sym (append-nil w))
    ∙ words_from-append w [] [] solid
    ∙ whole_lem w some_text
split_whitespace-join (w ∷ v ∷ ws) ((solid, some_text), h) =
    words_from-append w [] (b' ' ∷ join (v ∷ ws)) solid
    ∙ ap (λ l. l ++ words_from [] (join (v ∷ ws))) (whole_lem w some_text)
    ∙ ap (λ l. w ∷ l) (split_whitespace-join (v ∷ ws) h)

-- The first word of a text that goes on behind a space.
pub first_word :
    (w s : Text) → IsWord w → split_whitespace (w ++ (b' ' ∷ s)) ≡ w ∷ split_whitespace s
unfolding words_from is_whitespace
first_word w s (solid, some_text) =
    words_from-append w [] (b' ' ∷ s) solid ∙ ap (λ l. l ++ words_from [] s) (whole_lem w some_text)

pub join-snoc :
    (w : Text) (ws : List Text) (v : Text)
    → join (w ∷ (ws ++ (v ∷ []))) ≡ join (w ∷ ws) ++ (b' ' ∷ v)
join-snoc w [] v = refl
join-snoc w (u ∷ ws) v =
    ap (λ t. w ++ (b' ' ∷ t)) (join-snoc u ws v)
    ∙ sym (append_assoc w (b' ' ∷ join (u ∷ ws)) (b' ' ∷ v))

-- A text that ends with a word: nothing is trimmed from its end.
abbrev pub EndsInWord : Text → Type 0
EndsInWord t = (trim_end t ≡ t) × (strip_cr t ≡ t) × (is_empty t ≡ false)

pub IsWord-EndsInWord : (w : Text) → IsWord w → EndsInWord w
unfolding trim_end strip_cr is_whitespace
IsWord-EndsInWord [] (solid, some_text) = absurd cc
IsWord-EndsInWord (c ∷ []) (solid, some_text) =
    let no_cr : (c == b'\r') ≡ false = ground (arith, solid.0) in
    (rw solid.0 refl, rw no_cr refl, refl)
IsWord-EndsInWord (c ∷ d ∷ w) (solid, some_text) =
    let (a, b, e) = IsWord-EndsInWord (d ∷ w) (solid.1, refl) in
    (rw solid.0 (ap (λ t. c ∷ t) a), ap (λ t. c ∷ t) b, refl)

EndsInWord-cons : (c : ℕ) (t : Text) → EndsInWord t → EndsInWord (c ∷ t)
unfolding trim_end strip_cr
EndsInWord-cons c [] (a, b, e) = absurd cc
EndsInWord-cons c (d ∷ t) (a, b, e) = elim (Bool-cases (is_whitespace c)) [
  | inl w ↦ (rw (w, a) refl, ap (λ t'. c ∷ t') b, refl)
  | inr w ↦ (rw (w, a) refl, ap (λ t'. c ∷ t') b, refl)
]

pub EndsInWord-append : (s t : Text) → EndsInWord t → EndsInWord (s ++ t)
EndsInWord-append [] t h = h
EndsInWord-append (c ∷ s) t h = EndsInWord-cons c (s ++ t) (EndsInWord-append s t h)

pub trim_lem :
    (c : ℕ) (t : Text) → is_whitespace c ≡ false → EndsInWord (c ∷ t) → trim (c ∷ t) ≡ c ∷ t
unfolding trim_start
trim_lem c t s (a, b, e) = rw s a

pub join-EndsInWord : (w : Text) (ws : List Text) → All IsWord (w ∷ ws) → EndsInWord (join (w ∷ ws))
join-EndsInWord w [] (h, hs) = IsWord-EndsInWord w h
join-EndsInWord w (v ∷ ws) (h, hs) =
    EndsInWord-append w (b' ' ∷ join (v ∷ ws))
      (EndsInWord-cons b' ' (join (v ∷ ws)) (join-EndsInWord v ws hs))

-- Words that are put together begin with the first character of the first one.
pub join-head :
    (w : Text) (ws : List Text) (c : ℕ) (s : Text)
    → w ≡ c ∷ s
    → (r : Text) × (join (w ∷ ws) ≡ c ∷ r)
join-head w [] c s e = (s, e)
join-head w (v ∷ ws) c s e = (s ++ (b' ' ∷ join (v ∷ ws)), ap (λ t. t ++ (b' ' ∷ join (v ∷ ws))) e)

-- A line that ends with a word, and its line break.
pub line_lem :
    (t s : Text)
    → IsInLine t
    → EndsInWord t
    → lines_from [] (t ++ (b'\n' ∷ s)) ≡ t ∷ lines_from [] s
unfolding lines_from
line_lem t s h (a, b, e) = lines_from-append t [] (b'\n' ∷ s) h ∙ ap (λ l. l ∷ lines_from [] s) b
