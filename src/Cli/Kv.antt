-- ===== src/Cli/Kv.antt =====
-- crates/flip-cli/src/kv.rs: `key=value` arguments as a map of values, each typed by its shape.
pub mod Typed
use flip_link.Base.{
  ℕ, Bool, true, false, if◌then◌else◌, List, [], ◌∷◌, Option, none, some, Text, codes, text_eq, ℤ,
}
use flip_link.Base.Results.{Result, ok, err, ok_or, ◌>>=◌}
use flip_link.Proto.Value.{Value, Entries, end, entry}
use flip_link.Str.{parse_uint, parse_i64, max_u64, split_once}

pub data KvError : Type 0 where
  not_key_value : Text → KvError

-- The last tests of `parse_value`, over what the two parsers answer.
abbrev pub number_or_text : Option ℕ → Option ℤ → Text → Value
number_or_text (some u) i s = Value.u64 u
number_or_text none (some i) s = Value.i64 i
number_or_text none none s = Value.text s

unfoldable pub parse_value : Text → Value
parse_value s =
    if text_eq s (codes "true")
    then Value.bool true
    else if text_eq s (codes "false")
    then Value.bool false
    else number_or_text (parse_uint max_u64 s) (parse_i64 s) s

-- The loop over the arguments: the first one without a `=` ends it.
unfoldable pub parse_pairs : List Text → Result Entries KvError
parse_pairs [] = ok end
parse_pairs (arg ∷ args) = do
  kv ← ok_or (split_once b'=' arg) (not_key_value arg)
  pairs ← parse_pairs args
  ok (entry kv.0 (parse_value kv.1) pairs)

unfoldable pub parse_params : List Text → Result Value KvError
parse_params args = parse_pairs args >>= λ pairs. ok (Value.map pairs)
