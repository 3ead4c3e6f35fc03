-- ===== src/Client/Capture/SubGhzEndToEnd/Tests.antt =====
-- A Sub-GHz capture from the device's interrupt to the client's signal, at a concrete run.
use flip_link.Base.{
  ℕ, ◌<◌, ◌≡◌, refl, arith, true, false, ◌⊎◌, List, [], ◌∷◌, map, Option, none, some,
}
use flip_link.Base.Results.{err}
use flip_link.Proto.Bytes.{Bytes}
use flip_link.Proto.Frame.{stream_start, stream_data, stream_stop}
use flip_link.Proto.Messages.{StreamStart, StreamStop, stream_format_subghz_level_duration_v1}
use flip_link.Proto.Value.{get}
use flip_link.Firmware.Stream.{buffer_of, buffer_of-IsStreamBuffer, Sent}
use flip_link.Firmware.SubGhz.{
  TxEdge, capture_cap, required_frequency, required_preset, preset_by_name,
}
use flip_link.Firmware.SubGhz.Transmit.{Radio}
use flip_link.Firmware.SubGhz.Capture as Device
use flip_link.Firmware.SubGhz.Capture.Records.{records}
use flip_link.Firmware.SubGhz.Capture.Lossy.{EdgeEvent, edge, drain, run_edges}
use flip_link.Firmware.SubGhz.Capture.Lossless.{session}
use flip_link.Client.SubGhz.{ook650, capture_params, as_str}
use flip_link.Client.Capture.{
  dropped_samples, Next, frame, nothing, Wait, Poll, Run, subghz_capture, subghz_signal,
}
use flip_link.Client.Capture.Arrived.{Bodies, passed, arrivals}
use flip_link.Client.Capture.SubGhzEndToEnd.{seen, subghz_capture_lem}

abbrev bodies : Bodies
bodies = record {
  start_body = λ s. s.format;
  stop_body = λ s. s.dropped ∷ [];
  error_body = λ e. [];
}

abbrev read_start : Bytes → Option StreamStart
read_start body = some (record { format = body })

abbrev read_stop : Bytes → Option StreamStop
read_stop [] = none
read_stop (n ∷ rest) = some (record { dropped = n })

abbrev free_radio : Radio
free_radio = record {
  is_present = true;
  is_frequency_valid = λ f. true;
  begins = true;
  starts = true;
  is_complete = λ ms. true;
  asks = 0;
}

abbrev quiet : Device.Capture
quiet = record { stream = none; active = false; device = false; seq = 0; dropped = 0 }

abbrev long : TxEdge
long = record { level = true; duration_us = 70000 }

abbrev short : TxEdge
short = record { level = false; duration_us = 350 }

abbrev skipped : TxEdge
skipped = record { level = true; duration_us = 0 }

abbrev events : List EdgeEvent
events = edge long ∷ edge skipped ∷ drain ∷ edge short ∷ []

abbrev poll : Next → Poll
poll next = record { cancelled = false; next = next; data_at = 0; now = 0 }

abbrev opening : Wait
opening = record { next = frame stream_start stream_format_subghz_level_duration_v1; late = false }

abbrev quick : Run
quick = record {
  opens = true;
  start = opening ∷ [];
  opened_at = 0;
  polls =
      poll (frame stream_data (records (long ∷ [])))
      ∷ poll nothing
      ∷ poll (frame stream_data (records (short ∷ [])))
      ∷ poll (frame stream_stop (0 ∷ []))
      ∷ [];
  sends = true;
  stop = [];
}

starts :
    (Device.start_capture
      (buffer_of capture_cap)
      free_radio
      true
      9
      (capture_params 433920000 ook650)
      quiet).1
    ≡ Sent.stream_start 9 stream_format_subghz_level_duration_v1 ∷ []
unfolding Device.start_capture Device.after_frequency Device.after_preset Device.open_capture
    Device.buffer_or_end Device.armed Device.ensure_capture_buffer required_frequency
    required_preset preset_by_name capture_params as_str get
starts = refl

frames_match :
    opening.next ∷ arrivals quick.polls
    ≡ map (passed bodies) (
        session
          (buffer_of capture_cap)
          free_radio
          true
          9
          (capture_params 433920000 ook650)
          events
          quiet)
unfolding session run_edges Device.start_capture Device.after_frequency Device.after_preset
    Device.open_capture Device.buffer_or_end Device.armed Device.ensure_capture_buffer
    required_frequency required_preset preset_by_name capture_params as_str get
    Device.rx_capture_isr Device.pushed Device.drain_capture Device.drain_stream Device.batch
    Device.whole_records Device.flush Device.flush_all Device.stop_capture Device.empty_stream
frames_match = refl

subghz_capture_lem_example :
    (subghz_capture (λ e. none) read_start read_stop 433920000 ook650 none quick
      ≡ some (subghz_signal 433920000 ook650 (map seen (long ∷ short ∷ []))))
    ⊎ ((lost : ℕ) × (0 < lost)
        × (subghz_capture (λ e. none) read_start read_stop 433920000 ook650 none quick
            ≡ some (err (dropped_samples lost))))
subghz_capture_lem_example =
    subghz_capture_lem bodies (λ e. none) read_start read_stop (buffer_of capture_cap) free_radio
      true 9 (capture_params 433920000 ook650) events quiet 433920000 ook650 quick opening []
      (λ s. refl) (λ s. refl) (buffer_of-IsStreamBuffer capture_cap) starts (omega arith)
      (omega arith, (omega arith, tt)) refl refl (refl, (refl, (refl, (refl, tt)))) frames_match
