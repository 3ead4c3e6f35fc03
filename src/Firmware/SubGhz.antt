-- ===== src/Firmware/SubGhz.antt =====
-- firmware/src/subghz_instrument.rs: the checks of the parameters.
pub mod Capture
pub mod LinkProbe
pub mod Transmit
use flip_link.Base.{
  ℕ, Bool, ltb, ◌==◌, ◌||◌, ◌&&◌, leb, if◌then◌else◌, List, [], ◌∷◌, length, Option, none, some,
}
use flip_link.Base.{Text, codes, text_eq}
use flip_link.Base.Results.{ok, err, ◌>>=◌, ok_or, unwrap_or}
use flip_link.Proto.Bytes.{Bytes}
use flip_link.Proto.Messages.{err_bad_params, err_oversized}
use flip_link.Proto.Value.{Value, Values, nil, cons, get}
use flip_link.Proto.Value.Codec.{count}
use flip_link.Firmware.Params.{Answer, get_u64, as_u32}

abbrev pub max_edges : ℕ
max_edges = 4096

abbrev pub capture_cap : ℕ
capture_cap = 8192

abbrev pub edge_record_size : ℕ
edge_record_size = 5

abbrev pub max_link_probe_bytes : ℕ
max_link_probe_bytes = 60

abbrev pub min_link_probe_timeout_ms : ℕ
min_link_probe_timeout_ms = 100

abbrev pub max_link_probe_timeout_ms : ℕ
max_link_probe_timeout_ms = 5000

abbrev pub default_link_probe_timeout_ms : ℕ
default_link_probe_timeout_ms = 500

pub record TxEdge : Type 0 where
  pub level : Bool
  pub duration_us : ℕ

-- The SDK's constants `FuriHalSubGhzPreset…Async`.
pub data FuriPreset : Type 0 where
  ook270_async ook650_async fsk_dev238_async fsk_dev476_async : FuriPreset
  msk99_97_async gfsk9_99_async : FuriPreset

unfoldable pub required_frequency : Value → Answer ℕ
unfolding get
required_frequency params =
    ok_or (get_u64 params (codes "frequency")) (err_bad_params, codes "frequency required") >>= λ n.
    ok (as_u32 n)

unfoldable pub preset_by_name : Text → Answer FuriPreset
preset_by_name name =
    if text_eq name (codes "ook270")
    then ok ook270_async
    else if text_eq name (codes "ook650")
    then ok ook650_async
    else if text_eq name (codes "2fsk_dev238")
    then ok fsk_dev238_async
    else if text_eq name (codes "2fsk_dev476")
    then ok fsk_dev476_async
    else if text_eq name (codes "msk99_97")
    then ok msk99_97_async
    else if text_eq name (codes "gfsk9_99")
    then ok gfsk9_99_async
    else err (err_bad_params, codes "unknown subghz preset")

unfoldable pub required_preset : Value → Answer FuriPreset
unfolding get
required_preset params = elim (get params (codes "preset")) [
  | some (Value.text name) ↦ preset_by_name name
  | _ ↦ err (err_bad_params, codes "preset required")
]

abbrev pub edge_level : Value → Answer Bool
edge_level item = elim (get item (codes "level")) [
  | some (Value.bool level) ↦ ok level
  | _ ↦ err (err_bad_params, codes "edge level required")
]

abbrev pub in_range : Option ℕ → Answer ℕ
in_range none = err (err_bad_params, codes "edge duration_us out of range")
in_range (some d) =
    if ltb 0 d && leb d 0x3fffffff
    then ok (as_u32 d)
    else err (err_bad_params, codes "edge duration_us out of range")

unfoldable pub edge_list : Values → Answer (List TxEdge)
unfolding get
edge_list nil = ok []
edge_list (cons item items) = edge_level item >>= λ level.
    in_range (get_u64 item (codes "duration_us")) >>= λ duration_us.
    edge_list items >>= λ rest. ok (record { level = level; duration_us = duration_us } ∷ rest)

unfoldable pub checked_edges : Values → Answer (List TxEdge)
checked_edges array =
    if count array == 0
    then err (err_bad_params, codes "edges empty")
    else if ltb max_edges (count array)
    then err (err_oversized, codes "too many subghz edges")
    else edge_list array

unfoldable pub parse_edges : Value → Answer (List TxEdge)
unfolding get
parse_edges params = elim (get params (codes "edges")) [
  | some (Value.array array) ↦ checked_edges array
  | _ ↦ err (err_bad_params, codes "edges array required")
]

unfoldable pub repeat_count : Value → Answer ℕ
unfolding get
repeat_count params =
    let repeat = unwrap_or (get_u64 params (codes "repeat")) 1 in
    if repeat == 0 || ltb 100 repeat
    then err (err_bad_params, codes "repeat out of range")
    else ok (as_u32 repeat)

unfoldable pub checked_payload : Bytes → Answer Bytes
checked_payload bytes =
    if length bytes == 0
    then err (err_bad_params, codes "payload empty")
    else if ltb max_link_probe_bytes (length bytes)
    then err (err_oversized, codes "payload too large")
    else ok bytes

unfoldable pub probe_payload : Value → Answer Bytes
unfolding get
probe_payload params = elim (get params (codes "payload")) [
  | some (Value.bytes bytes) ↦ checked_payload bytes
  | _ ↦ err (err_bad_params, codes "payload bytes required")
]

unfoldable pub probe_timeout_ms : Value → Answer ℕ
unfolding get
probe_timeout_ms params =
    let timeout = unwrap_or (get_u64 params (codes "timeout_ms")) default_link_probe_timeout_ms in
    if ltb timeout min_link_probe_timeout_ms || ltb max_link_probe_timeout_ms timeout
    then err (err_bad_params, codes "timeout_ms out of range")
    else ok (as_u32 timeout)
