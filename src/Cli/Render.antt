-- ===== src/Cli/Render.antt =====
-- crates/flip-cli/src/main.rs: how values and bytes are shown.
pub mod Hexed
use flip_link.Base.{
  ℕ, ◌+◌, ◌-◌, ◌/◌, ◌%◌, ltb, Bool, true, false, if◌then◌else◌, List, [], ◌∷◌, ◌++◌, Text, codes,
}
use flip_link.Proto.Bytes.{Bytes}
use flip_link.Proto.Value.{Value, Values, Entries, nil, cons, end, entry}
use flip_link.Str.{to_string, int_to_string}

abbrev pub hex_digit : ℕ → ℕ
hex_digit n = if ltb n 10 then b'0' + n else b'a' + (n - 10)

-- `format!("{byte:02x}")` for each byte.
abbrev pub hex_text : Bytes → Text
hex_text [] = []
hex_text (b ∷ bs) = hex_digit (b / 16) ∷ hex_digit (b % 16) ∷ hex_text bs

unfoldable pub hex_preview : Bytes → Text
hex_preview bytes = hex_text bytes

abbrev pub bool_text : Bool → Text
bool_text true = codes "true"
bool_text false = codes "false"

-- `join`
abbrev pub join_with : Text → List Text → Text
join_with sep [] = []
join_with sep (t ∷ []) = t
join_with sep (t ∷ u ∷ ts) = t ++ (sep ++ join_with sep (u ∷ ts))

unfoldable mutual
  pub render_value : Value → Text
  render_value Value.null = codes "null"
  render_value (Value.bool b) = bool_text b
  render_value (Value.u64 n) = to_string n
  render_value (Value.i64 n) = int_to_string n
  render_value (Value.text s) = s
  render_value (Value.bytes bytes) = codes "0x" ++ hex_text bytes
  render_value (Value.array items) =
      codes "[" ++ (join_with (codes ", ") (render_items items) ++ codes "]")
  render_value (Value.map fields) =
      codes "{" ++ (join_with (codes ", ") (render_fields fields) ++ codes "}")

  pub render_items : Values → List Text
  render_items nil = []
  render_items (cons v vs) = render_value v ∷ render_items vs

  pub render_fields : Entries → List Text
  render_fields end = []
  render_fields (entry k v es) = (k ++ (codes ": " ++ render_value v)) ∷ render_fields es
