-- ===== src/Firmware/Tests.antt =====
-- The theorems on the instruments of firmware/src at concrete states.
use flip_link.Base.{
  ◌⊎◌, ℕ, zero, suc, ◌+◌, ◌*◌, ◌%◌, ◌^◌, ◌<◌, ◌≡◌, ◌≢◌, refl, ap, arith, some, none, true, false,
  inl, List, [], ◌∷◌, ◌++◌, length, take, map, replicate, flatten, codes,
}
use flip_link.Proto.Value.{Value, cons, nil, end, entry}
use flip_link.Proto.Messages.{stream_format_raw_i32_us}
use flip_link.Firmware.Stream.{buffer_of, buffer_of-IsStreamBuffer, stream_start, stream_stop}
use flip_link.Firmware.SubGhz.{TxEdge, ook650_async, capture_cap, edge_record_size}
use flip_link.Firmware.SubGhz.Transmit.{
  Radio, TxRequest, SubGhzState, level_duration_reset, yields, published, transmit,
}
use flip_link.Firmware.SubGhz.Transmit.Yield.{sent, yields-published}
use flip_link.Firmware.SubGhz.Transmit.Release.{IsReleased, transmit-IsReleased}
use flip_link.Firmware.SubGhz.Capture.{
  Capture, with_stream, record_bytes, rx_capture_isr, drain_capture,
}
use flip_link.Firmware.SubGhz.Capture.Session.{IsHeld}
use flip_link.Firmware.SubGhz.Capture.Runs.{starts, stops, drains, edge, run, run-IsHeld}
use flip_link.Firmware.SubGhz.Capture.Records.{records, frame_of, records_kept, records_cut}
use flip_link.Firmware.Ir.Capture as Ir
use flip_link.Firmware.Ir.Capture.Queue.{sample, drain, sent_frames}
use flip_link.Firmware.Ir.Capture.Session.{session, session_lem}

abbrev mark : TxEdge
mark = record { level = true; duration_us = 9000 }

abbrev space : TxEdge
space = record { level = false; duration_us = 4500 }

abbrev press : TxRequest
press = record {
  frequency = 433920000;
  preset = ook650_async;
  edges = mark ∷ space ∷ [];
  repeat = 3;
}

yields-published_example :
    (yields (3 * 2 + 2) (published press)).0
    ≡ flatten (replicate 3 (map sent press.edges)) ++ replicate 2 level_duration_reset
yields-published_example = yields-published press 2 (omega arith)

-- A radio that begins, and refuses to start.
abbrev refusing : Radio
refusing = record {
  is_present = true;
  is_frequency_valid = λ f. true;
  begins = true;
  starts = false;
  is_complete = λ ms. false;
  asks = 0;
}

abbrev at_rest : SubGhzState
at_rest = record {
  capture_active = false;
  tx = record { ptr = none; len = 0; pos = 0; repeat = 1; repeat_pos = 0 };
}

abbrev edge_value : Value
edge_value =
    Value.map
      (entry (codes "level") (Value.bool true) (entry (codes "duration_us") (Value.u64 9) end))

abbrev one_edge : Value
one_edge = Value.map (
    entry (codes "frequency") (Value.u64 433920000) (
      entry (codes "preset") (Value.text (codes "ook650"))
        (entry (codes "edges") (Value.array (cons edge_value nil)) end)))

transmit-IsReleased_example : IsReleased at_rest (transmit refusing at_rest one_edge)
transmit-IsReleased_example = transmit-IsReleased refusing at_rest one_edge refl

abbrev quiet : Capture
quiet = record { stream = none; active = false; device = false; seq = 0; dropped = 0 }

abbrev running : Capture
running = record {
  stream = some (records (mark ∷ []));
  active = true;
  device = true;
  seq = 5;
  dropped = 0;
}

run-IsHeld_example :
    IsHeld
      (run
        (buffer_of capture_cap)
        (starts refusing true 5 one_edge ∷ edge mark ∷ drains ∷ stops ∷ edge mark ∷ [])
        1
        running).0
      (run
        (buffer_of capture_cap)
        (starts refusing true 5 one_edge ∷ edge mark ∷ drains ∷ stops ∷ edge mark ∷ [])
        1
        running).1
run-IsHeld_example =
    run-IsHeld (buffer_of capture_cap)
      (starts refusing true 5 one_edge ∷ edge mark ∷ drains ∷ stops ∷ edge mark ∷ []) 1 running
      (inl (refl, refl, refl))

abbrev instant : TxEdge
instant = record { level = true; duration_us = 0 }

keeps_records :
    (rx_capture_isr (buffer_of capture_cap) space running
      ≡ with_stream running (records (mark ∷ space ∷ [])))
    × (rx_capture_isr (buffer_of capture_cap) instant running ≡ running)
    × (drain_capture (buffer_of capture_cap) running
        ≡ (with_stream running [], frame_of 5 (mark ∷ [])))
keeps_records =
    records_kept (buffer_of capture_cap) running (mark ∷ []) space instant
      (buffer_of-IsStreamBuffer capture_cap) refl refl (omega arith) (omega arith) refl

length-replicate : (n : ℕ) → length (replicate n mark) ≡ n
length-replicate zero = refl
length-replicate (suc n) = ap suc (length-replicate n)

abbrev nearly_full : Capture
nearly_full = record {
  stream = some (records (replicate 1638 mark));
  active = true;
  device = true;
  seq = 5;
  dropped = 0;
}

records_cut_example :
    (rx_capture_isr (buffer_of capture_cap) space nearly_full ≡ record {
      stream = some (records (replicate 1638 mark) ++ take 2 (record_bytes space));
      active = true;
      device = true;
      seq = 5;
      dropped = (0 + 1) % 2 ^ 32;
    })
    × (length (records (replicate 1638 mark) ++ take 2 (record_bytes space)) ≡ capture_cap)
    × (capture_cap % edge_record_size ≢ 0)
records_cut_example =
    records_cut (buffer_of capture_cap) nearly_full (replicate 1638 mark) space
      (buffer_of-IsStreamBuffer capture_cap) refl (length-replicate 1638) (omega arith)

abbrev ir_quiet : Ir.Capture
ir_quiet = record { stream = none; active = false; seq = 0; dropped = 0 }

allocated : Ir.ensure_capture_buffer true none ≡ some []
unfolding Ir.ensure_capture_buffer
allocated = refl

session_lem_example :
    (fs : List (List ℕ)) × (lost : ℕ) × (session
        (buffer_of Ir.capture_cap)
        true
        9
        (sample 560 ∷ drain ∷ sample 1690 ∷ [])
        ir_quiet
      ≡ stream_start 9 stream_format_raw_i32_us
        ∷ (sent_frames 9 fs ++ (stream_stop 9 (lost % 2 ^ 32) ∷ [])))
    × (length (flatten fs) + lost ≡ 2)
    × ((0 < lost) ⊎ (flatten fs ≡ 560 ∷ 1690 ∷ []))
session_lem_example =
    session_lem (buffer_of Ir.capture_cap) true 9 (sample 560 ∷ drain ∷ sample 1690 ∷ []) ir_quiet
      [] (buffer_of-IsStreamBuffer Ir.capture_cap) refl allocated
