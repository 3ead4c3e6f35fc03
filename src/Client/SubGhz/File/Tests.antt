-- ===== src/Client/SubGhz/File/Tests.antt =====
-- The text formats of crates/flip-client/src/subghz.rs on concrete inputs.
use flip_link.Base.{◌≡◌, refl, arith, true, false, [], ◌∷◌, codes}
use flip_link.Base.Results.{ok, err}
use flip_link.Str.{
  is_whitespace, trim_start, trim_end, strip_cr, lines_from, words_from, parse_digits, parse_uint,
}
use flip_link.Client.SubGhz.{
  SubGhzSignal, ook650, from_str, duration_out_of_range, frequency_missing, bad_edge_line, not_hex,
  odd_digits, validate_probe_payload,
}
use flip_link.Client.SubGhz.File.{parse_lines, parse, to_file_string}
use flip_link.Client.SubGhz.File.RoundTrip.{subghz_parse-to_file_string}
use flip_link.Client.SubGhz.Hex.{hex_value, hex_bytes, parse_probe_hex}

abbrev doorbell : SubGhzSignal
doorbell = record {
  frequency = 433920000;
  preset = ook650;
  edges =
      record { level = true; duration_us = 350 }
      ∷ record { level = false; duration_us = 1050 }
      ∷ [];
}

subghz_text_read_back : parse (to_file_string doorbell) ≡ ok doorbell
subghz_text_read_back = subghz_parse-to_file_string doorbell (omega arith) (omega arith)

test_parse :
    parse (codes "# frequency=433920000\r\n# preset=ook650 OOK\r\n1 350\r\n  0 1050") ≡ ok doorbell
unfolding parse parse_lines is_whitespace trim_start trim_end strip_cr lines_from words_from
    parse_digits parse_uint from_str
test_parse = refl

test_errors :
    (parse (codes "1 0") ≡ err (duration_out_of_range 0))
    × (parse (codes "1 5 6") ≡ err (bad_edge_line (codes "1 5 6")))
    × (parse (codes "1 5") ≡ err frequency_missing)
unfolding parse parse_lines is_whitespace trim_start trim_end strip_cr lines_from words_from
    parse_digits parse_uint
test_errors = (refl, refl, refl)

test_hex :
    (parse_probe_hex (codes "0xDE ad be0xef") ≡ err not_hex)
    × (parse_probe_hex (codes "0xDE ad beef") ≡ ok (0xde ∷ 0xad ∷ 0xbe ∷ 0xef ∷ []))
    × (parse_probe_hex (codes "abc") ≡ err odd_digits)
unfolding parse_probe_hex hex_value hex_bytes words_from is_whitespace validate_probe_payload
test_hex = (refl, refl, refl)
