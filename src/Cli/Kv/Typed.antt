-- ===== src/Cli/Kv/Typed.antt =====
-- What the arguments of crates/flip-cli/src/kv.rs are read as, against how main.rs shows values.
use flip_link.Base.{
  ℕ, suc, ◌^◌, ◌≤◌, ◌<◌, ◌≡◌, refl, ap, ◌∙◌, arith, true, false, List, [], ◌∷◌, ◌++◌, none, Text,
  codes, text_eq, pos, negsuc,
}
use flip_link.Base.Results.{ok, err}
use flip_link.Proto.Value.{Value, Entries, end, entry}
use flip_link.Str.{parse_uint, parse_i64, max_u64, to_string}
use flip_link.Str.Decimal.{to_string-digits, parse_uint-to_string}
use flip_link.Str.Signed.{
  parse_i64-to_string, parse_uint_negative, IsFree, split_once-append, split_once-eq-none,
}
use flip_link.Cli.Kv.{not_key_value, parse_value, parse_pairs, parse_params}
use flip_link.Cli.Render.{render_value}

-- A text that has the shape of nothing else.
abbrev pub IsPlain : Text → Type 0
IsPlain s =
    (text_eq s (codes "true") ≡ false)
    × (text_eq s (codes "false") ≡ false)
    × (parse_uint max_u64 s ≡ none)
    × (parse_i64 s ≡ none)

-- The values that an argument can stand for.
abbrev pub IsArgument : Value → Type 0
IsArgument (Value.bool b) = Unit {0}
IsArgument (Value.u64 n) = n ≤ max_u64
IsArgument (Value.i64 (negsuc n)) = n < 2 ^ 63
IsArgument (Value.text s) = IsPlain s
IsArgument _ = ⊥

parse_value-number : (n : ℕ) → n ≤ max_u64 → parse_value (to_string n) ≡ Value.u64 n
unfolding parse_value
parse_value-number n h =
    let (c, s, e, d, ds) = to_string-digits n in
    let no_true : text_eq (to_string n) (codes "true") ≡ false =
      ap (λ t. text_eq t (codes "true")) e ∙ ground (arith, d.0, d.1) in
    let no_false : text_eq (to_string n) (codes "false") ≡ false =
      ap (λ t. text_eq t (codes "false")) e ∙ ground (arith, d.0, d.1) in
    rw (no_true, no_false, parse_uint-to_string max_u64 n h) refl

parse_value-render_value : (v : Value) → IsArgument v → parse_value (render_value v) ≡ v
unfolding render_value parse_value
parse_value-render_value (Value.bool true) h = refl
parse_value-render_value (Value.bool false) h = refl
parse_value-render_value (Value.u64 n) h = parse_value-number n h
parse_value-render_value (Value.i64 (negsuc n)) h =
    rw (parse_uint_negative max_u64 (to_string (suc n)), parse_i64-to_string n h) refl
parse_value-render_value (Value.text s) (a, b, c, d) = rw (a, b, c, d) refl
parse_value-render_value Value.null h = absurd h
parse_value-render_value (Value.i64 (pos n)) h = absurd h
parse_value-render_value (Value.bytes b) h = absurd h
parse_value-render_value (Value.array vs) h = absurd h
parse_value-render_value (Value.map es) h = absurd h

-- The arguments that stand for these pairs.
abbrev pub arguments : Entries → List Text
arguments end = []
arguments (entry k v es) = (k ++ (b'=' ∷ render_value v)) ∷ arguments es

abbrev pub AreArguments : Entries → Type 0
AreArguments end = Unit {0}
AreArguments (entry k v es) = IsFree b'=' k × IsArgument v × AreArguments es

parse_pairs-arguments : (es : Entries) → AreArguments es → parse_pairs (arguments es) ≡ ok es
unfolding parse_pairs
parse_pairs-arguments end h = refl
parse_pairs-arguments (entry k v es) (free, is_value, h) =
    rw
      (
        split_once-append b'=' k (render_value v) free,
        parse_value-render_value v is_value,
        parse_pairs-arguments es h,
      )
      refl

parse_pairs-bare :
    (es : Entries) (arg : Text) (args : List Text)
    → AreArguments es
    → IsFree b'=' arg
    → parse_pairs (arguments es ++ (arg ∷ args)) ≡ err (not_key_value arg)
unfolding parse_pairs
parse_pairs-bare end arg args h bare = rw (split_once-eq-none b'=' arg bare) refl
parse_pairs-bare (entry k v es) arg args (free, is_value, h) bare =
    rw (split_once-append b'=' k (render_value v) free, parse_pairs-bare es arg args h bare) refl

-- For pairs whose keys have no `=` and whose values are Booleans, 64-bit unsigned numbers, negative
-- 64-bit numbers, or texts that read as none of these: `parse_params` of the arguments `key=value`,
-- each value as `render_value` shows it, gives the map of the pairs. With an argument without `=`
-- behind them, whatever follows, it fails and names that argument.
pub parse_params-arguments :
    (es : Entries) (arg : Text) (args : List Text)
    → AreArguments es
    → IsFree b'=' arg
    → (parse_params (arguments es) ≡ ok (Value.map es))
      × (parse_params (arguments es ++ (arg ∷ args)) ≡ err (not_key_value arg))
unfolding parse_params
parse_params-arguments es arg args h bare =
    (rw (parse_pairs-arguments es h) refl, rw (parse_pairs-bare es arg args h bare) refl)
