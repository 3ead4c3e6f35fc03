-- ===== src/Client/SubGhz/File/RoundTrip.antt =====
-- A Sub-GHz signal's file is read back, in crates/flip-client/src/subghz.rs.
use flip_link.Base.{
  ℕ, ◌≤◌, ◌<◌, ◌≡◌, refl, sym, ap, ◌∙◌, arith, Bool, true, false, if◌then◌else◌, List, [], ◌∷◌,
  ◌++◌, All, append_assoc, append-nil, Text, codes,
}
use flip_link.Base.Results.{ok, err}
use flip_link.Str.{
  is_whitespace, is_empty, trim, trim_start, trim_end, strip_cr, lines_from, words_from,
  split_whitespace, max_u32, to_string,
}
use flip_link.Str.Decimal.{parse_uint-to_string}
use flip_link.Str.Words.{first_word, split_whitespace-join, literal_lem}
use flip_link.Str.Printed.{to_string-IsWord, ends_in_number, header_line}
use flip_link.Client.SubGhz.{
  no_edges, SubGhzPreset, ook270, ook650, fsk_dev238, fsk_dev476, msk99_97, gfsk9_99, as_str,
  from_str, SubGhzEdge, SubGhzSignal, max_subghz_duration_us,
}
use flip_link.Client.SubGhz.File.{
  Partial, in_range, with_frequency, with_preset, with_edges, parse_line, parse_lines, blank,
  signal, parse, edge_line, edge_text, to_file_string,
}

abbrev pub IsEdge : SubGhzEdge → Type 0
IsEdge e = (0 < e.duration_us) × (e.duration_us ≤ max_subghz_duration_us)

abbrev edge : Bool → ℕ → SubGhzEdge
edge level n = record { level = level; duration_us = n }

one_word : (n : ℕ) → split_whitespace (to_string n) ≡ to_string n ∷ []
one_word n = split_whitespace-join (to_string n ∷ []) (to_string-IsWord n, tt)

parse_line-frequency :
    (n : ℕ) (s : Partial)
    → n ≤ max_u32
    → parse_line (trim (codes "# frequency=" ++ to_string n)) s ≡ ok (with_frequency n s)
unfolding is_whitespace trim_start
parse_line-frequency n s h =
    rw
      (
        (ends_in_number (codes "# frequency=") n).0,
        (ends_in_number (codes "frequency=") n).0,
        one_word n,
        parse_uint-to_string max_u32 n h,
      )
      refl

parse_line-preset :
    (p : SubGhzPreset) (s : Partial)
    → parse_line (trim (codes "# preset=" ++ as_str p)) s ≡ ok (with_preset p s)
unfolding is_whitespace trim_start trim_end words_from as_str from_str
parse_line-preset ook270 s = refl
parse_line-preset ook650 s = refl
parse_line-preset fsk_dev238 s = refl
parse_line-preset fsk_dev476 s = refl
parse_line-preset msk99_97 s = refl
parse_line-preset gfsk9_99 s = refl

preset_line :
    (p : SubGhzPreset) (rest : Text)
    → lines_from [] (codes "# preset=" ++ (as_str p ++ (b'\n' ∷ rest)))
      ≡ (codes "# preset=" ++ as_str p) ∷ lines_from [] rest
unfolding lines_from strip_cr as_str
preset_line ook270 rest = refl
preset_line ook650 rest = refl
preset_line fsk_dev238 rest = refl
preset_line fsk_dev476 rest = refl
preset_line msk99_97 rest = refl
preset_line gfsk9_99 rest = refl

range_lem : (n : ℕ) → 0 < n → n ≤ max_subghz_duration_us → in_range n ≡ ok n
range_lem n h k = ground arith

parse_line-edge :
    (level : Bool) (n : ℕ) (s : Partial)
    → 0 < n
    → n ≤ max_subghz_duration_us
    → parse_line (trim (edge_line (edge level n))) s
      ≡ ok (with_edges (s.edges ++ (edge level n ∷ [])) s)
unfolding is_whitespace trim_start
parse_line-edge true n s h k =
    rw
      (
        (ends_in_number (codes "1 ") n).0,
        first_word (codes "1") (to_string n) ((refl, tt), refl),
        one_word n,
        parse_uint-to_string max_u32 n (omega arith),
        range_lem n h k,
      )
      refl
parse_line-edge false n s h k =
    rw
      (
        (ends_in_number (codes "0 ") n).0,
        first_word (codes "0") (to_string n) ((refl, tt), refl),
        one_word n,
        parse_uint-to_string max_u32 n (omega arith),
        range_lem n h k,
      )
      refl

edge_line_lem :
    (level : Bool) (n : ℕ) (rest : Text)
    → lines_from [] (edge_line (edge level n) ++ (b'\n' ∷ rest))
      ≡ edge_line (edge level n) ∷ lines_from [] rest
edge_line_lem true n rest = header_line (codes "1 ") n rest (literal_lem (codes "1 ") refl)
edge_line_lem false n rest = header_line (codes "0 ") n rest (literal_lem (codes "0 ") refl)

parse_lines-cons :
    (line : Text) (later : List Text) (s s' : Partial)
    → parse_line (trim line) s ≡ ok s'
    → parse_lines (line ∷ later) s ≡ parse_lines later s'
unfolding parse_lines
parse_lines-cons line later s s' e = rw e refl

parse_lines-nil : (s : Partial) → parse_lines (lines_from [] []) s ≡ ok s
unfolding parse_lines lines_from
parse_lines-nil s = refl

parse_lines-edges :
    (es : List SubGhzEdge) (s : Partial)
    → All IsEdge es
    → parse_lines (lines_from [] (edge_text es)) s ≡ ok (with_edges (s.edges ++ es) s)
unfolding edge_text
parse_lines-edges [] s h =
    parse_lines-nil s ∙ ap (λ l. ok (with_edges l s)) (sym (append-nil s.edges))
parse_lines-edges (e ∷ es) s h =
    let read = with_edges (s.edges ++ (e ∷ [])) s in
    ap (λ l. parse_lines l s) (edge_line_lem e.level e.duration_us (edge_text es))
    ∙ parse_lines-cons (edge_line e) (lines_from [] (edge_text es)) s read
        (parse_line-edge e.level e.duration_us s h.0.0 h.0.1)
    ∙ parse_lines-edges es read h.1
    ∙ ap (λ l. ok (with_edges l s)) (append_assoc s.edges (e ∷ []) es)

abbrev format_text : Text
format_text = codes "# format=flip-subghz-raw-v1"

-- The line that names the format is a comment to `parse`.
format_line :
    (rest : Text) → lines_from [] (format_text ++ (b'\n' ∷ rest)) ≡ format_text ∷ lines_from [] rest
unfolding lines_from strip_cr
format_line rest = refl

parse_line-format : (s : Partial) → parse_line (trim format_text) s ≡ ok s
unfolding trim_start trim_end is_whitespace
parse_line-format s = refl

signal_lem :
    (s : SubGhzSignal)
    → signal s.frequency s.preset s.edges ≡ (if is_empty s.edges then err no_edges else ok s)
signal_lem s = by_edges s.edges
  where
    by_edges :
        (es : List SubGhzEdge)
        → signal s.frequency s.preset es ≡ (
            if is_empty es
            then err no_edges
            else ok (record { frequency = s.frequency; preset = s.preset; edges = es }))
    by_edges [] = refl
    by_edges (e ∷ es) = refl

-- For a frequency of 32 bits and edges of a duration from 1 to 0x3fffffff: what `to_file_string`
-- writes is parsed to the signal itself, with any of the presets; a signal with no edges is refused
-- with that error.
pub subghz_parse-to_file_string :
    (s : SubGhzSignal)
    → s.frequency ≤ max_u32
    → All IsEdge s.edges
    → parse (to_file_string s) ≡ (if is_empty s.edges then err no_edges else ok s)
unfolding parse to_file_string
subghz_parse-to_file_string s f h =
    let edges = edge_text s.edges in
    let preset = codes "# preset=" ++ as_str s.preset in
    let frequency = codes "# frequency=" ++ to_string s.frequency in
    let from_preset = codes "# preset=" ++ (as_str s.preset ++ (b'\n' ∷ edges)) in
    let from_frequency = codes "# frequency=" ++ (to_string s.frequency ++ (b'\n' ∷ from_preset)) in
    let second =
      header_line (codes "# frequency=") s.frequency from_preset
        (literal_lem (codes "# frequency=") refl) in
    let after_frequency = with_frequency s.frequency blank in
    let after_preset = with_preset s.preset after_frequency in
    let read : parse_lines (lines_from [] (format_text ++ (b'\n' ∷ from_frequency))) blank
        ≡ ok (with_edges s.edges after_preset) =
      ap (λ l. parse_lines l blank) (format_line from_frequency)
      ∙ parse_lines-cons format_text (lines_from [] from_frequency) blank blank
          (parse_line-format blank)
      ∙ ap (λ l. parse_lines l blank) second
      ∙ parse_lines-cons frequency (lines_from [] from_preset) blank after_frequency
          (parse_line-frequency s.frequency blank f)
      ∙ ap (λ l. parse_lines l after_frequency) (preset_line s.preset edges)
      ∙ parse_lines-cons preset (lines_from [] edges) after_frequency after_preset
          (parse_line-preset s.preset after_frequency)
      ∙ parse_lines-edges s.edges after_preset h in
    rw read (signal_lem s)
