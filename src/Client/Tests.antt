-- ===== src/Client/Tests.antt =====
-- Runs of crates/flip-client with the firmware's checks, and the theorems at concrete requests.
use flip_link.Base.{
  ◌*◌, ℕ, ◌<◌, ◌≤◌, ◌≡◌, refl, arith, true, false, none, [], ◌∷◌, ◌++◌, map, flatten, replicate,
  codes,
}
use flip_link.Base.Results.{ok}
use flip_link.Proto.Value.{Value, end, entry}
use flip_link.Firmware.SubGhz.{ook650_async}
use flip_link.Firmware.SubGhz.Transmit.{
  begin, reset, load_preset, set_frequency, flush_tx, start_async_tx, yielded, delay_ms,
  stop_async_tx, idle, sleep, finish, level_duration_reset, Radio, SubGhzState, transmit,
  timeout_ms, total_us,
}
use flip_link.Firmware.Ir.Transmit.{asked, published}
use flip_link.Firmware.Ir.Transmit as IrTransmit
use flip_link.Client.SubGhz.{
  SubGhzSignal, ook650, to_transmit_params, link_probe_params, validate_probe_payload,
}
use flip_link.Client.SubGhz.Agree.{tx_edge}
use flip_link.Client.SubGhz.Sent.{edge_level, subghz_signal_sent}
use flip_link.Client.Signal.{IrSignal, decode_stream_data}
use flip_link.Client.Signal as Signal
use flip_link.Client.Signal.Agree.{alternate, ir_signal_sent}

abbrev key_press : SubGhzSignal
key_press = record {
  frequency = 433920000;
  preset = ook650;
  edges =
      record { level = true; duration_us = 9000 }
      ∷ record { level = false; duration_us = 4500 }
      ∷ [];
}

abbrev probe : Value
probe = Value.map (
    entry (codes "frequency") (Value.u64 433920000) (
      entry (codes "payload") (Value.bytes (1 ∷ 2 ∷ []))
        (entry (codes "timeout_ms") (Value.u64 250) end)))

test_probe : link_probe_params 433920000 (1 ∷ 2 ∷ []) 250000000 ≡ ok probe
unfolding link_probe_params validate_probe_payload
test_probe = refl

abbrev working : Radio
working = record {
  is_present = true;
  is_frequency_valid = λ f. true;
  begins = true;
  starts = true;
  is_complete = λ ms. true;
  asks = 7;
}

abbrev at_rest : SubGhzState
at_rest = record {
  capture_active = false;
  tx = record { ptr = none; len = 0; pos = 0; repeat = 1; repeat_pos = 0 };
}

test_timeout : 0 < timeout_ms (map tx_edge key_press.edges) 3
unfolding timeout_ms total_us
test_timeout = omega arith

subghz_signal_sent_example :
    ((transmit working at_rest (to_transmit_params key_press 3)).0
      ≡ ok (Value.map (entry (codes "sent") (Value.u64 (2 * 3)) end)))
    × ((transmit working at_rest (to_transmit_params key_press 3)).1.tx.ptr ≡ none)
    × ((waited : ℕ) × (waited ≤ 0)
        × ((transmit working at_rest (to_transmit_params key_press 3)).2
            ≡ begin true
              ∷ reset
              ∷ load_preset ook650_async
              ∷ set_frequency 433920000
              ∷ flush_tx
              ∷ start_async_tx true
              ∷ yielded (
                  flatten (replicate 3 (map edge_level key_press.edges))
                  ++ replicate 1 level_duration_reset)
              ∷ delay_ms waited
              ∷ stop_async_tx
              ∷ idle
              ∷ sleep
              ∷ finish
              ∷ []))
subghz_signal_sent_example =
    subghz_signal_sent working at_rest key_press 3 0 1 (ground arith) (refl, refl)
      (refl, refl, refl, refl) refl test_timeout refl

abbrev remote : IrSignal
remote = record { frequency = 40000; duty_permille = 250; timings = 560 ∷ 1690 ∷ 560 ∷ [] }

ir_signal_sent_example :
    (IrTransmit.transmit false (Signal.to_transmit_params remote)
      ≡ ok (
        Value.map (entry (codes "sent") (Value.u64 3) end),
        record {
          frequency = 40000;
          duty_permille = 250;
          tx = published remote.timings;
          ptr_after = none;
        },
      ))
    × (asked 5 (published remote.timings) ≡ (alternate true remote.timings, true))
ir_signal_sent_example =
    ir_signal_sent remote 5 (ground arith) (omega arith) (omega arith) (omega arith)
