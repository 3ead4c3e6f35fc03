-- ===== src/Client/Signal/File/Tests.antt =====
-- The text format of crates/flip-client/src/signal.rs on concrete files.
use flip_link.Base.{◌≡◌, refl, arith, [], ◌∷◌, codes}
use flip_link.Base.Results.{ok, err}
use flip_link.Str.{
  is_whitespace, trim_start, trim_end, strip_cr, lines_from, words_from, parse_digits, parse_uint,
  digits, to_string,
}
use flip_link.Client.Signal.{IrSignal}
use flip_link.Client.Signal.File.{
  no_timings, invalid_timing, invalid_value, push_timings, parse_lines, parse, timing_text,
  to_file_string,
}
use flip_link.Client.Signal.File.RoundTrip.{parse-to_file_string}

abbrev remote : IrSignal
remote = record { frequency = 36000; duty_permille = 400; timings = 9000 ∷ 4500 ∷ 560 ∷ 1690 ∷ [] }

abbrev thirteen : IrSignal
thirteen = record {
  frequency = 38000;
  duty_permille = 330;
  timings = 1 ∷ 2 ∷ 3 ∷ 4 ∷ 5 ∷ 6 ∷ 7 ∷ 8 ∷ 9 ∷ 10 ∷ 11 ∷ 12 ∷ 13 ∷ [];
}

parse-to_file_string_example : parse (to_file_string remote) ≡ ok remote
parse-to_file_string_example = parse-to_file_string remote (omega arith) (omega arith) (omega arith)

test_twelve_on_a_line :
    to_file_string thirteen ≡ codes "# freq=38000\n# duty=330\n1 2 3 4 5 6 7 8 9 10 11 12\n13\n"
unfolding to_file_string timing_text to_string digits
test_twelve_on_a_line = refl

test_directives :
    parse (codes "# freq=40000      carrier in Hz\n# duty=250        duty in permille\n900 450\n")
    ≡ ok (record { frequency = 40000; duty_permille = 250; timings = 900 ∷ 450 ∷ [] })
unfolding parse parse_lines push_timings is_whitespace trim_start trim_end strip_cr lines_from
    words_from parse_digits parse_uint
test_directives = refl

test_errors :
    (parse (codes "9000 hello") ≡ err (invalid_timing (codes "hello")))
    × (parse (codes "# freq=nope\n9000") ≡ err (invalid_value (codes "freq") (codes "nope")))
    × (parse (codes "# only comments\n") ≡ err no_timings)
unfolding parse parse_lines push_timings is_whitespace trim_start trim_end strip_cr lines_from
    words_from parse_digits parse_uint
test_errors = (refl, refl, refl)
