-- ===== src/Client/SubGhz/File.antt =====
-- The text format of a Sub-GHz signal, in crates/flip-client/src/subghz.rs. Reading and writing the
-- file itself is input and output.
pub mod RoundTrip
mod Tests
use flip_link.Base.{
  ℕ, ◌==◌, ◌||◌, ltb, true, false, Bool, if◌then◌else◌, List, [], ◌∷◌, ◌++◌, Option, none, some,
  Text, codes, text_eq,
}
use flip_link.Base.Results.{Result, ok, err, ok_or, ◌>>=◌}
use flip_link.Str.{
  is_empty, trim, strip_prefix, lines, split_whitespace, parse_uint, max_u32, to_string,
}
use flip_link.Client.SubGhz.{
  SubGhzError, missing_value, bad_value, bad_edge_line, bad_level, bad_duration,
  duration_out_of_range, frequency_missing, preset_missing, no_edges, SubGhzPreset, as_str,
  from_str, SubGhzEdge, SubGhzSignal, max_subghz_duration_us,
}

-- What `parse` has read so far.
pub record Partial : Type 0 where
  pub frequency : Option ℕ
  pub preset : Option SubGhzPreset
  pub edges : List SubGhzEdge

abbrev first_number : Text → List Text → Result ℕ SubGhzError
first_number name [] = err (missing_value name)
first_number name (token ∷ more) = ok_or (parse_uint max_u32 token) (bad_value name token)

abbrev parse_u32 : Text → Text → Result ℕ SubGhzError
parse_u32 name rest = first_number name (split_whitespace rest)

abbrev first_preset : List Text → Result SubGhzPreset SubGhzError
first_preset [] = err (missing_value (codes "preset"))
first_preset (token ∷ more) = from_str token

abbrev with_frequency : ℕ → Partial → Partial
with_frequency n s = record { frequency = some n; preset = s.preset; edges = s.edges }

abbrev with_preset : SubGhzPreset → Partial → Partial
with_preset p s = record { frequency = s.frequency; preset = some p; edges = s.edges }

abbrev with_edges : List SubGhzEdge → Partial → Partial
with_edges es s = record { frequency = s.frequency; preset = s.preset; edges = es }

abbrev or_preset : Option Text → Partial → Result Partial SubGhzError
or_preset (some rest) s = do p ← first_preset (split_whitespace rest); ok (with_preset p s)
or_preset none s = ok s

abbrev or_frequency : Option Text → Text → Partial → Result Partial SubGhzError
or_frequency (some rest) text s = do n ← parse_u32 (codes "frequency") rest; ok (with_frequency n s)
or_frequency none text s = or_preset (strip_prefix (codes "preset=") text) s

-- What stands behind the `#` of a line; any other text is a comment.
abbrev directive : Text → Partial → Result Partial SubGhzError
directive text s = or_frequency (strip_prefix (codes "frequency=") text) text s

abbrev parse_level : Text → Result Bool SubGhzError
parse_level field =
    if text_eq field (codes "0")
    then ok false
    else if text_eq field (codes "1")
    then ok true
    else err (bad_level field)

abbrev in_range : ℕ → Result ℕ SubGhzError
in_range n = if n == 0 || ltb max_subghz_duration_us n then err (duration_out_of_range n) else ok n

abbrev parse_edge : Text → List Text → Result SubGhzEdge SubGhzError
parse_edge line (l ∷ d ∷ []) = do
  level ← parse_level l
  n ← ok_or (parse_uint max_u32 d) (bad_duration d)
  duration ← in_range n
  ok (record { level = level; duration_us = duration })
parse_edge line _ = err (bad_edge_line line)

abbrev pub parse_line : Text → Partial → Result Partial SubGhzError
parse_line [] s = ok s
parse_line (c ∷ rest) s =
    if c == b'#'
    then directive (trim rest) s
    else parse_edge (c ∷ rest) (split_whitespace (c ∷ rest)) >>= λ e.
        ok (with_edges (s.edges ++ (e ∷ [])) s)

unfoldable pub parse_lines : List Text → Partial → Result Partial SubGhzError
parse_lines [] s = ok s
parse_lines (line ∷ later) s = parse_line (trim line) s >>= parse_lines later

abbrev blank : Partial
blank = record { frequency = none; preset = none; edges = [] }

abbrev signal : ℕ → SubGhzPreset → List SubGhzEdge → Result SubGhzSignal SubGhzError
signal frequency preset [] = err no_edges
signal frequency preset (e ∷ es) =
    ok (record { frequency = frequency; preset = preset; edges = e ∷ es })

-- The checks behind the loop.
abbrev pub completed : Partial → Result SubGhzSignal SubGhzError
completed s = do
  frequency ← ok_or s.frequency frequency_missing
  preset ← ok_or s.preset preset_missing
  signal frequency preset s.edges

unfoldable pub parse : Text → Result SubGhzSignal SubGhzError
unfolding parse_lines
parse text = parse_lines (lines text) blank >>= completed

abbrev pub edge_line : SubGhzEdge → Text
edge_line e = (if e.level then codes "1 " else codes "0 ") ++ to_string e.duration_us

unfoldable pub edge_text : List SubGhzEdge → Text
edge_text [] = []
edge_text (e ∷ es) = edge_line e ++ (b'\n' ∷ edge_text es)

unfoldable pub to_file_string : SubGhzSignal → Text
unfolding edge_text
to_file_string s =
    codes "# format=flip-subghz-raw-v1\n# frequency="
    ++ (to_string s.frequency
        ++ (codes "\n# preset=" ++ (as_str s.preset ++ (b'\n' ∷ edge_text s.edges))))
