-- ===== src/Client/SubGhz/Agree.antt =====
-- The Sub-GHz parameters that crates/flip-client/src/subghz.rs writes, read by
-- firmware/src/subghz_instrument.rs.
use flip_link.Base.{
  ℕ, suc, ◌/◌, ◌^◌, ◌*◌, ◌<◌, ◌≤◌, ◌≡◌, refl, arith, List, [], ◌∷◌, map, All, length, ap,
}
use flip_link.Base.Results.{ok}
use flip_link.Proto.Bytes.{Bytes}
use flip_link.Proto.Value.{Value, find, get}
use flip_link.Proto.Value.Codec.{count}
use flip_link.Client.SubGhz.{
  SubGhzEdge, SubGhzSignal, SubGhzPreset, ook270, ook650, fsk_dev238, fsk_dev476, msk99_97,
  gfsk9_99, as_str, from_str, capture_params, edge_values, to_transmit_params, link_probe_params,
  validate_probe_payload, max_subghz_duration_us,
}
use flip_link.Firmware.SubGhz.{
  TxEdge, FuriPreset, ook270_async, ook650_async, fsk_dev238_async, fsk_dev476_async,
  msk99_97_async, gfsk9_99_async, required_frequency, required_preset, preset_by_name, edge_list,
  checked_edges, parse_edges, repeat_count, checked_payload, probe_payload, probe_timeout_ms,
  max_edges,
}

-- The device's preset for the client's.
abbrev pub on_device : SubGhzPreset → FuriPreset
on_device ook270 = ook270_async
on_device ook650 = ook650_async
on_device fsk_dev238 = fsk_dev238_async
on_device fsk_dev476 = fsk_dev476_async
on_device msk99_97 = msk99_97_async
on_device gfsk9_99 = gfsk9_99_async

-- The name of each preset is read as that preset by the client, and as the same one by the device.
preset_names :
    (p : SubGhzPreset)
    → (from_str (as_str p) ≡ ok p) × (preset_by_name (as_str p) ≡ ok (on_device p))
unfolding as_str from_str preset_by_name
preset_names p =
    elim p as (λ p. (from_str (as_str p) ≡ ok p) × (preset_by_name (as_str p) ≡ ok (on_device p))) [
      | ook270 ↦ (refl, refl)
      | ook650 ↦ (refl, refl)
      | fsk_dev238 ↦ (refl, refl)
      | fsk_dev476 ↦ (refl, refl)
      | msk99_97 ↦ (refl, refl)
      | gfsk9_99 ↦ (refl, refl)
    ]

abbrev pub IsEdge : SubGhzEdge → Type 0
IsEdge e = (0 < e.duration_us) × (e.duration_us ≤ max_subghz_duration_us)

abbrev pub tx_edge : SubGhzEdge → TxEdge
tx_edge e = record { level = e.level; duration_us = e.duration_us }

edge_list_back :
    (es : List SubGhzEdge) → All IsEdge es → edge_list (edge_values es) ≡ ok (map tx_edge es)
unfolding edge_list get find
edge_list_back [] h = refl
edge_list_back (e ∷ es) h = rw (edge_list_back es h.1) (ground arith)

count-edge_values : (es : List SubGhzEdge) → count (edge_values es) ≡ length es
count-edge_values [] = refl
count-edge_values (e ∷ es) = ap suc (count-edge_values es)

checked_edges_back :
    (es : List SubGhzEdge)
    → All IsEdge es
    → 0 < length es
    → length es ≤ max_edges
    → checked_edges (edge_values es) ≡ ok (map tx_edge es)
unfolding checked_edges
checked_edges_back es h p q = rw (count-edge_values es, edge_list_back es h) (ground arith)

-- For a frequency below 2 ^ 32, a repeat count from 1 to 100, and from 1 to 4096 edges of durations
-- that are not 0 and fit 30 bits, the device reads from the client's transmit parameters the
-- signal's frequency, preset and edges in order, and the repeat count.
pub transmit_params_agree :
    (s : SubGhzSignal) (repeat : ℕ)
    → s.frequency < 2 ^ 32
    → All IsEdge s.edges
    → 0 < length s.edges
    → length s.edges ≤ max_edges
    → 0 < repeat
    → repeat ≤ 100
    → (required_frequency (to_transmit_params s repeat) ≡ ok s.frequency)
      × (required_preset (to_transmit_params s repeat) ≡ ok (on_device s.preset))
      × (parse_edges (to_transmit_params s repeat) ≡ ok (map tx_edge s.edges))
      × (repeat_count (to_transmit_params s repeat) ≡ ok repeat)
unfolding required_frequency required_preset parse_edges repeat_count to_transmit_params get find
transmit_params_agree s repeat f h p q r t =
    (ground arith, (preset_names s.preset).1, checked_edges_back s.edges h p q, ground arith)

-- For a frequency below 2 ^ 32, the device reads the frequency and the preset that the client asks
-- a capture for.
capture_params_agree :
    (frequency : ℕ) (preset : SubGhzPreset)
    → frequency < 2 ^ 32
    → (required_frequency (capture_params frequency preset) ≡ ok frequency)
      × (required_preset (capture_params frequency preset) ≡ ok (on_device preset))
unfolding required_frequency required_preset capture_params get find
capture_params_agree frequency preset h = (ground arith, (preset_names preset).1)

-- For a frequency below 2 ^ 32: when the client accepts a payload and a timeout for a link probe,
-- the device accepts them too, and reads the frequency, the payload and the timeout's milliseconds.
pub link_probe_params_agree :
    (frequency : ℕ) (payload : Bytes) (timeout : ℕ) (v : Value)
    → frequency < 2 ^ 32
    → link_probe_params frequency payload timeout ≡ ok v
    → (required_frequency v ≡ ok frequency)
      × (probe_payload v ≡ ok payload)
      × (probe_timeout_ms v ≡ ok (timeout / 1000000))
      × (timeout ≡ timeout / 1000000 * 1000000)
unfolding required_frequency probe_payload checked_payload probe_timeout_ms link_probe_params
    validate_probe_payload get find
link_probe_params_agree frequency payload timeout v f h = ground arith
