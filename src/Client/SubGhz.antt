-- ===== src/Client/SubGhz.antt =====
-- crates/flip-client/src/subghz.rs: the presets, the parameters of the requests and the answers.
-- A `Duration` is its number of nanoseconds. An `anyhow` error is the constructor that names it.
pub mod Agree
pub mod Sent
pub mod File
pub mod Hex
pub mod Probed
use flip_link.Base.{ℕ, ◌/◌, ◌%◌, ◌*◌, ◌+◌, Bool, not, ltb, leb, ◌==◌, ◌||◌, if◌then◌else◌}
use flip_link.Base.{List, [], ◌∷◌, ◌++◌, length, Option, none, some, Text, codes, text_eq}
use flip_link.Base.Results.{Result, ok, err, ◌>>=◌, ◌>>◌}
use flip_link.Proto.Bytes.{Bytes, u32_from_le_bytes}
use flip_link.Proto.Value.{Value, Values, nil, cons, end, entry, get}

abbrev pub max_subghz_duration_us : ℕ
max_subghz_duration_us = 0x3fffffff

abbrev pub max_link_probe_bytes : ℕ
max_link_probe_bytes = 60

abbrev pub min_link_probe_timeout_ms : ℕ
min_link_probe_timeout_ms = 100

abbrev pub max_link_probe_timeout_ms : ℕ
max_link_probe_timeout_ms = 5000

pub data SubGhzError : Type 0 where
  unknown_preset : Text → SubGhzError
  payload_empty : SubGhzError
  payload_too_large : ℕ → SubGhzError
  bad_timeout : SubGhzError
  missing_number : Text → SubGhzError
  preview_too_large : ℕ → SubGhzError
  missing_preview : SubGhzError
  missing_value bad_edge_line bad_level bad_duration : Text → SubGhzError
  bad_value : Text → Text → SubGhzError
  duration_out_of_range : ℕ → SubGhzError
  frequency_missing preset_missing no_edges : SubGhzError
  not_hex odd_digits : SubGhzError
  bad_hex_byte : ℕ → ℕ → SubGhzError

pub record SubGhzLinkProbeResult : Type 0 where
  pub written : ℕ
  pub read : ℕ
  pub callbacks : ℕ
  pub rx_preview : Bytes

pub data SubGhzPreset : Type 0 where
  ook270 ook650 fsk_dev238 fsk_dev476 msk99_97 gfsk9_99 : SubGhzPreset

unfoldable pub as_str : SubGhzPreset → Text
as_str ook270 = codes "ook270"
as_str ook650 = codes "ook650"
as_str fsk_dev238 = codes "2fsk_dev238"
as_str fsk_dev476 = codes "2fsk_dev476"
as_str msk99_97 = codes "msk99_97"
as_str gfsk9_99 = codes "gfsk9_99"

unfoldable pub from_str : Text → Result SubGhzPreset SubGhzError
from_str value =
    if text_eq value (codes "ook270")
    then ok ook270
    else if text_eq value (codes "ook650")
    then ok ook650
    else if text_eq value (codes "2fsk_dev238")
    then ok fsk_dev238
    else if text_eq value (codes "2fsk_dev476")
    then ok fsk_dev476
    else if text_eq value (codes "msk99_97")
    then ok msk99_97
    else if text_eq value (codes "gfsk9_99")
    then ok gfsk9_99
    else err (unknown_preset value)

pub record SubGhzEdge : Type 0 where
  pub level : Bool
  pub duration_us : ℕ

pub record SubGhzSignal : Type 0 where
  pub frequency : ℕ
  pub preset : SubGhzPreset
  pub edges : List SubGhzEdge

unfoldable pub capture_params : ℕ → SubGhzPreset → Value
unfolding as_str
capture_params frequency preset = Value.map (
    entry (codes "frequency") (Value.u64 frequency)
      (entry (codes "preset") (Value.text (as_str preset)) end))

abbrev pub edge_to_value : SubGhzEdge → Value
edge_to_value edge = Value.map (
    entry (codes "level") (Value.bool edge.level)
      (entry (codes "duration_us") (Value.u64 edge.duration_us) end))

abbrev pub edge_values : List SubGhzEdge → Values
edge_values [] = nil
edge_values (edge ∷ edges) = cons (edge_to_value edge) (edge_values edges)

unfoldable pub to_transmit_params : SubGhzSignal → ℕ → Value
unfolding as_str
to_transmit_params s repeat = Value.map (
    entry (codes "frequency") (Value.u64 s.frequency) (
      entry (codes "preset") (Value.text (as_str s.preset)) (
        entry (codes "repeat") (Value.u64 repeat)
          (entry (codes "edges") (Value.array (edge_values s.edges)) end))))

unfoldable pub validate_probe_payload : Bytes → Result (Unit {0}) SubGhzError
validate_probe_payload payload =
    if length payload == 0
    then err payload_empty
    else if ltb max_link_probe_bytes (length payload)
    then err (payload_too_large (length payload))
    else ok tt

abbrev pub from_millis : ℕ → ℕ
from_millis ms = ms * 1000000

unfoldable pub link_probe_params : ℕ → Bytes → ℕ → Result Value SubGhzError
unfolding validate_probe_payload
link_probe_params frequency payload timeout =
    validate_probe_payload payload
    >> (if ltb timeout (from_millis min_link_probe_timeout_ms)
          || (ltb (from_millis max_link_probe_timeout_ms) timeout
              || not (timeout % 1000000000 % 1000000 == 0))
        then err bad_timeout
        else ok (
            Value.map (
              entry (codes "frequency") (Value.u64 frequency) (
                entry (codes "payload") (Value.bytes payload)
                  (entry (codes "timeout_ms") (Value.u64 (timeout / 1000000)) end)))))

unfoldable pub required_u64 : Value → Text → Result ℕ SubGhzError
unfolding get
required_u64 value key = elim (get value key) [
  | some (Value.u64 n) ↦ ok n
  | _ ↦ err (missing_number key)
]

unfoldable pub preview : Value → Result Bytes SubGhzError
unfolding get
preview value = elim (get value (codes "rx_preview")) [
  | some (Value.bytes bytes) ↦
      if leb (length bytes) max_link_probe_bytes
      then ok bytes
      else err (preview_too_large (length bytes))
  | _ ↦ err missing_preview
]

unfoldable pub link_probe_result : Value → Result SubGhzLinkProbeResult SubGhzError
unfolding required_u64 preview
link_probe_result value = required_u64 value (codes "written") >>= λ w.
    required_u64 value (codes "read") >>= λ r. required_u64 value (codes "callbacks") >>= λ c.
    preview value >>= λ p. ok (record { written = w; read = r; callbacks = c; rx_preview = p })

-- `payload.chunks_exact(5)`: the edges in order, and how many. A record of duration 0 is dropped,
-- and the bytes behind the last whole record too.
unfoldable pub stream_edges : Bytes → List SubGhzEdge × ℕ
stream_edges (l ∷ a ∷ b ∷ c ∷ d ∷ rest) =
    let (edges, count) = stream_edges rest in
    let duration_us = u32_from_le_bytes a b c d in
    if ltb 0 duration_us
    then (record { level = not (l == 0); duration_us = duration_us } ∷ edges, 1 + count)
    else (edges, count)
stream_edges _ = ([], 0)

-- `out` after the call, and the count.
unfoldable pub decode_stream_data : Bytes → List SubGhzEdge → List SubGhzEdge × ℕ
decode_stream_data payload out = let (edges, count) = stream_edges payload in (out ++ edges, count)
