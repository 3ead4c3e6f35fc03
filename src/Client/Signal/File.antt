-- ===== src/Client/Signal/File.antt =====
-- The text format of an infrared signal, in crates/flip-client/src/signal.rs. Reading and writing the
-- file itself is input and output.
pub mod RoundTrip
mod Tests
use flip_link.Base.{
  ℕ, zero, suc, ◌+◌, ◌%◌, ◌==◌, if◌then◌else◌, List, [], ◌∷◌, ◌++◌, Option, none, some, Text, codes,
}
use flip_link.Base.Results.{Result, ok, err, ok_or, ◌>>=◌}
use flip_link.Str.{
  is_empty, trim, strip_prefix, lines, split_whitespace, parse_uint, max_u32, max_u64, to_string,
}
use flip_link.Client.Signal.{IrSignal, default_frequency, default_duty_permille}

pub data SignalError : Type 0 where
  missing_value : Text → SignalError
  invalid_value : Text → Text → SignalError
  invalid_timing : Text → SignalError
  no_timings : SignalError

abbrev first_value : Text → List Text → Result ℕ SignalError
first_value name [] = err (missing_value name)
first_value name (token ∷ more) = ok_or (parse_uint max_u32 token) (invalid_value name token)

abbrev parse_directive_u32 : Text → Text → Result ℕ SignalError
parse_directive_u32 name rest = first_value name (split_whitespace rest)

abbrev with_frequency : ℕ → IrSignal → IrSignal
with_frequency n s = record { frequency = n; duty_permille = s.duty_permille; timings = s.timings }

abbrev with_duty_permille : ℕ → IrSignal → IrSignal
with_duty_permille n s = record { frequency = s.frequency; duty_permille = n; timings = s.timings }

abbrev pub with_timings : List ℕ → IrSignal → IrSignal
with_timings ts s = record {
  frequency = s.frequency;
  duty_permille = s.duty_permille;
  timings = ts;
}

abbrev or_duty : Option Text → IrSignal → Result IrSignal SignalError
or_duty (some rest) s = do n ← parse_directive_u32 (codes "duty") rest; ok (with_duty_permille n s)
or_duty none s = ok s

abbrev or_freq : Option Text → Text → IrSignal → Result IrSignal SignalError
or_freq (some rest) text s = do n ← parse_directive_u32 (codes "freq") rest; ok (with_frequency n s)
or_freq none text s = or_duty (strip_prefix (codes "duty=") text) s

-- What stands behind the `#` of a line; any other text is a comment.
abbrev directive : Text → IrSignal → Result IrSignal SignalError
directive text s = or_freq (strip_prefix (codes "freq=") text) text s

unfoldable pub push_timings : List Text → List ℕ → Result (List ℕ) SignalError
push_timings [] timings = ok timings
push_timings (token ∷ tokens) timings = do
  timing ← ok_or (parse_uint max_u64 token) (invalid_timing token)
  push_timings tokens (timings ++ (timing ∷ []))

abbrev pub parse_line : Text → IrSignal → Result IrSignal SignalError
parse_line [] s = ok s
parse_line (c ∷ rest) s =
    if c == b'#'
    then directive (trim rest) s
    else push_timings (split_whitespace (c ∷ rest)) s.timings >>= λ timings.
        ok (with_timings timings s)

unfoldable pub parse_lines : List Text → IrSignal → Result IrSignal SignalError
parse_lines [] s = ok s
parse_lines (line ∷ later) s = parse_line (trim line) s >>= parse_lines later

abbrev blank : IrSignal
blank = record {
  frequency = default_frequency;
  duty_permille = default_duty_permille;
  timings = [];
}

abbrev pub checked : IrSignal → Result IrSignal SignalError
checked s = if is_empty s.timings then err no_timings else ok s

unfoldable pub parse : Text → Result IrSignal SignalError
unfolding parse_lines push_timings
parse text = parse_lines (lines text) blank >>= checked

-- What stands in front of timing `i`.
abbrev pub separator : ℕ → Text
separator zero = []
separator (suc i) = if suc i % 12 == 0 then b'\n' ∷ [] else b' ' ∷ []

-- The timings from number `i` on, and the last line break.
unfoldable pub timing_text : ℕ → List ℕ → Text
timing_text i [] = b'\n' ∷ []
timing_text i (t ∷ ts) = separator i ++ (to_string t ++ timing_text (suc i) ts)

unfoldable pub to_file_string : IrSignal → Text
unfolding timing_text
to_file_string s =
    codes "# freq="
    ++ (to_string s.frequency
        ++ (codes "\n# duty=" ++ (to_string s.duty_permille ++ (b'\n' ∷ timing_text 0 s.timings))))
