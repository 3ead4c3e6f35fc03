-- ===== src/Cli/Tests.antt =====
-- The command line of crates/flip-cli on concrete arguments.
use flip_link.Base.{◌≡◌, refl, arith, true, false, [], ◌∷◌, ◌++◌, codes, negsuc}
use flip_link.Base.Results.{ok, err}
use flip_link.Proto.Value.{Value, Entries, end, entry, nil, cons}
use flip_link.Str.{parse_uint, parse_digits, parse_i64, split_once, digits, to_string}
use flip_link.Cli.Kv.{not_key_value, parse_value, parse_pairs, parse_params}
use flip_link.Cli.Kv.Typed.{IsPlain, arguments, parse_params-arguments}
use flip_link.Client.SubGhz.Hex.{parse_probe_hex}
use flip_link.Cli.Render.Hexed.{parse_probe_hex-hex_preview}
use flip_link.Cli.Render.{render_value, hex_preview}

-- The crate's own tests.
parses_typed_pairs :
    parse_params (codes "msg=hi" ∷ codes "n=5" ∷ codes "neg=-3" ∷ codes "flag=true" ∷ [])
    ≡ ok (
        Value.map (
          entry (codes "msg") (Value.text (codes "hi")) (
            entry (codes "n") (Value.u64 5) (
              entry
                (codes "neg")
                (Value.i64 (negsuc 2))
                (entry (codes "flag") (Value.bool true) end)))))
unfolding parse_params parse_pairs parse_value split_once parse_uint parse_digits parse_i64
parses_typed_pairs = refl

rejects_bare_arg : parse_params (codes "nope" ∷ []) ≡ err (not_key_value (codes "nope"))
unfolding parse_params parse_pairs split_once
rejects_bare_arg = refl

renders :
    (render_value (
        Value.array
          (cons (Value.bytes (1 ∷ 0xab ∷ [])) (cons Value.null (cons (Value.i64 (negsuc 2)) nil))))
      ≡ codes "[0x01ab, null, -3]")
    × (render_value
          (Value.map (entry (codes "a") (Value.u64 7) (entry (codes "b") (Value.bool false) end)))
        ≡ codes "{a: 7, b: false}")
unfolding render_value to_string digits
renders = (refl, refl)

hi-IsPlain : IsPlain (codes "hi")
unfolding parse_uint parse_digits parse_i64
hi-IsPlain = (refl, refl, refl, refl)

abbrev two_pairs : Entries
two_pairs =
    entry (codes "msg") (Value.text (codes "hi")) (entry (codes "n") (Value.i64 (negsuc 2)) end)

parse_params-arguments_example :
    (parse_params (arguments two_pairs) ≡ ok (Value.map two_pairs))
    × (parse_params (arguments two_pairs ++ (codes "nope" ∷ codes "x=1" ∷ []))
        ≡ err (not_key_value (codes "nope")))
parse_params-arguments_example =
    parse_params-arguments two_pairs (codes "nope") (codes "x=1" ∷ [])
      ((refl, (refl, (refl, tt))), hi-IsPlain, ((refl, tt), omega arith, tt))
      (refl, (refl, (refl, (refl, tt))))

hex_read_back : parse_probe_hex (hex_preview (0 ∷ 0xab ∷ [])) ≡ ok (0 ∷ 0xab ∷ [])
hex_read_back =
    parse_probe_hex-hex_preview (0 ∷ 0xab ∷ []) (omega arith) (omega arith) (omega arith)
