-- ===== src/Client/Signal/File/RoundTrip.antt =====
-- An infrared signal's file is read back, in crates/flip-client/src/signal.rs.
use flip_link.Base.{
  ℕ, suc, ◌%◌, ◌≤◌, ◌≡◌, refl, sym, ap, ◌∙◌, subst, arith, false, ◌==◌, if◌then◌else◌, Bool-cases,
  inl, inr,
}
use flip_link.Base.{
  List, [], ◌∷◌, ◌++◌, All, All-append, append_assoc, append-nil, map, map-append, Text, codes,
}
use flip_link.Base.Results.{ok, err}
use flip_link.Str.{
  is_whitespace, is_empty, strip_cr, trim, trim_end, trim_start, lines_from, split_whitespace,
  max_u32, max_u64, to_string,
}
use flip_link.Str.Decimal.{to_string-digits, parse_uint-to_string}
use flip_link.Str.Words.{
  lines_from-append, join, split_whitespace-join, join-snoc, EndsInWord, trim_lem, join-EndsInWord,
  join-head, literal_lem,
}
use flip_link.Str.Printed.{
  digit_not_space, map-to_string-IsWord, to_string-IsWord, number-IsInLine, ends_in_number,
  header_line,
}
use flip_link.Client.Signal.{IrSignal}
use flip_link.Client.Signal.File.{
  no_timings, parse_directive_u32, with_frequency, with_duty_permille, with_timings, push_timings,
  parse_line, parse_lines, blank, parse, timing_text, to_file_string,
}

push_timings-to_string :
    (ts before : List ℕ)
    → All (λ t. t ≤ max_u64) ts
    → push_timings (map to_string ts) before ≡ ok (before ++ ts)
unfolding push_timings
push_timings-to_string [] before h = ap ok (sym (append-nil before))
push_timings-to_string (t ∷ ts) before h =
    rw (parse_uint-to_string max_u64 t h.0)
      (push_timings-to_string ts (before ++ (t ∷ [])) h.1 ∙ ap ok (append_assoc before (t ∷ []) ts))

parse_line-timings :
    (u : ℕ) (us : List ℕ) (s : IrSignal)
    → All (λ t. t ≤ max_u64) (u ∷ us)
    → parse_line (trim (join (map to_string (u ∷ us)))) s
      ≡ ok (with_timings (s.timings ++ (u ∷ us)) s)
parse_line-timings u us s h =
    let (c, d, e, is_digit, ds) = to_string-digits u in
    let words = map to_string (u ∷ us) in
    let all_words = map-to_string-IsWord (u ∷ us) in
    let (r, j) = join-head (to_string u) (map to_string us) c d e in
    let ends = subst EndsInWord j (join-EndsInWord (to_string u) (map to_string us) all_words) in
    let line : trim (join words) ≡ c ∷ r =
      ap trim j ∙ trim_lem c r (digit_not_space c is_digit) ends in
    let split : split_whitespace (c ∷ r) ≡ words =
      ap split_whitespace (sym j) ∙ split_whitespace-join words all_words in
    let no_comment : (c == b'#') ≡ false = ground arith in
    rw (line, no_comment, split, push_timings-to_string (u ∷ us) s.timings h) refl

-- The end of a line of timings.
line_done :
    (u : ℕ) (us : List ℕ) (rest : Text) (s : IrSignal)
    → All (λ t. t ≤ max_u64) (u ∷ us)
    → parse_lines (lines_from (join (map to_string (u ∷ us))) (b'\n' ∷ rest)) s
      ≡ parse_lines (lines_from [] rest) (with_timings (s.timings ++ (u ∷ us)) s)
unfolding parse_lines lines_from
line_done u us rest s h =
    let (a, b, e) =
      join-EndsInWord (to_string u) (map to_string us) (map-to_string-IsWord (u ∷ us)) in
    rw (b, parse_line-timings u us s h) refl

-- A timing behind a space goes on with the line.
line_goes_on :
    (u : ℕ) (us : List ℕ) (t : ℕ) (rest : Text)
    → lines_from (join (map to_string (u ∷ us))) (b' ' ∷ (to_string t ++ rest))
      ≡ lines_from (join (map to_string (u ∷ (us ++ (t ∷ []))))) rest
line_goes_on u us t rest =
    lines_from-append (b' ' ∷ to_string t) (join (map to_string (u ∷ us))) rest
      (refl, number-IsInLine t)
    ∙ ap (λ l. lines_from l rest)
        (sym (join-snoc (to_string u) (map to_string us) (to_string t))
          ∙ ap (λ l. join (to_string u ∷ l)) (sym (map-append to_string us (t ∷ []))))

All-snoc :
    (us : List ℕ) (t : ℕ)
    → All (λ n. n ≤ max_u64) us
    → t ≤ max_u64
    → All (λ n. n ≤ max_u64) (us ++ (t ∷ []))
All-snoc us t h k = All-append (λ n. n ≤ max_u64) us (t ∷ []) h (k, tt)

-- The timings from number `i` on, behind a line that begins with `us`.
parse_lines-timings :
    (u : ℕ) (us ts : List ℕ) (i : ℕ) (s : IrSignal)
    → All (λ t. t ≤ max_u64) (u ∷ us)
    → All (λ t. t ≤ max_u64) ts
    → parse_lines (lines_from (join (map to_string (u ∷ us))) (timing_text (suc i) ts)) s
      ≡ ok (with_timings (s.timings ++ (u ∷ (us ++ ts))) s)
unfolding timing_text
parse_lines-timings u us [] i s h k =
    line_done u us [] s h
    ∙ unfold parse_lines lines_from in
      ap (λ l. ok (with_timings (s.timings ++ (u ∷ l)) s)) (sym (append-nil us))
parse_lines-timings u us (t ∷ ts) i s h k = elim (Bool-cases (suc i % 12 == 0)) [
  | inl e ↦ rw e (
      line_done u us (to_string t ++ timing_text (suc (suc i)) ts) s h
      ∙ ap (λ l. parse_lines l (with_timings (s.timings ++ (u ∷ us)) s))
          (lines_from-append (to_string t) [] (timing_text (suc (suc i)) ts) (number-IsInLine t))
      ∙ parse_lines-timings t [] ts (suc i) (with_timings (s.timings ++ (u ∷ us)) s) (k.0, tt) k.1
      ∙ ap (λ l. ok (with_timings l s)) (append_assoc s.timings (u ∷ us) (t ∷ ts)))
  | inr e ↦ rw e (
      ap (λ l. parse_lines l s) (line_goes_on u us t (timing_text (suc (suc i)) ts))
      ∙ parse_lines-timings u (us ++ (t ∷ [])) ts (suc i) s (h.0, All-snoc us t h.1 k.0) k.1
      ∙ ap (λ l. ok (with_timings (s.timings ++ (u ∷ l)) s)) (append_assoc us (t ∷ []) ts))
]

value_lem : (name : Text) (n : ℕ) → n ≤ max_u32 → parse_directive_u32 name (to_string n) ≡ ok n
value_lem name n h =
    let word : split_whitespace (to_string n) ≡ to_string n ∷ [] =
      split_whitespace-join (to_string n ∷ []) (to_string-IsWord n, tt) in
    rw (word, parse_uint-to_string max_u32 n h) refl

parse_line-freq :
    (n : ℕ) (s : IrSignal)
    → n ≤ max_u32
    → parse_line (trim (codes "# freq=" ++ to_string n)) s ≡ ok (with_frequency n s)
unfolding is_whitespace trim_start
parse_line-freq n s h =
    rw
      (
        (ends_in_number (codes "# freq=") n).0,
        (ends_in_number (codes "freq=") n).0,
        value_lem (codes "freq") n h,
      )
      refl

parse_line-duty :
    (n : ℕ) (s : IrSignal)
    → n ≤ max_u32
    → parse_line (trim (codes "# duty=" ++ to_string n)) s ≡ ok (with_duty_permille n s)
unfolding is_whitespace trim_start
parse_line-duty n s h =
    rw
      (
        (ends_in_number (codes "# duty=") n).0,
        (ends_in_number (codes "duty=") n).0,
        value_lem (codes "duty") n h,
      )
      refl

body_lem :
    (ts : List ℕ) (s : IrSignal)
    → All (λ t. t ≤ max_u64) ts
    → s.timings ≡ []
    → parse_lines (lines_from [] (timing_text 0 ts)) s ≡ ok (with_timings ts s)
unfolding timing_text
body_lem [] s h e =
    unfold parse_lines lines_from trim_start trim_end strip_cr in ap (λ l. ok (with_timings l s)) e
body_lem (t ∷ ts) s h e =
    ap (λ l. parse_lines l s)
      (lines_from-append (to_string t) [] (timing_text 1 ts) (number-IsInLine t))
    ∙ parse_lines-timings t [] ts 0 s (h.0, tt) h.1
    ∙ ap (λ l. ok (with_timings (l ++ (t ∷ ts)) s)) e

-- For a frequency and a duty cycle of 32 bits and timings of 64 bits: what `to_file_string` writes is
-- parsed to the signal itself, whatever the number of timings and of lines; a signal with no timings
-- is refused with that error.
pub parse-to_file_string :
    (s : IrSignal)
    → s.frequency ≤ max_u32
    → s.duty_permille ≤ max_u32
    → All (λ t. t ≤ max_u64) s.timings
    → parse (to_file_string s) ≡ (if is_empty s.timings then err no_timings else ok s)
unfolding parse to_file_string
parse-to_file_string s f d h =
    let body = b'\n' ∷ timing_text 0 s.timings in
    let duty = codes "# duty=" ++ (to_string s.duty_permille ++ body) in
    let first =
      header_line (codes "# freq=") s.frequency duty (literal_lem (codes "# freq=") refl) in
    let second =
      header_line (codes "# duty=") s.duty_permille (timing_text 0 s.timings)
        (literal_lem (codes "# duty=") refl) in
    let with_both = with_duty_permille s.duty_permille (with_frequency s.frequency blank) in
    rw (first, second)
      (unfold parse_lines in
        rw
          (
            parse_line-freq s.frequency blank f,
            parse_line-duty s.duty_permille (with_frequency s.frequency blank) d,
            body_lem s.timings with_both h refl,
          )
          refl)
