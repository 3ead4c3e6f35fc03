-- ===== src/Client/Capture/Tests.antt =====
-- The theorems on the captures of crates/flip-client/src/lib.rs at concrete runs.
use flip_link.Base.{
  ℕ, ◌<◌, ◌≡◌, refl, arith, true, false, ◌⊎◌, List, [], ◌∷◌, map, Option, none, some,
}
use flip_link.Base.Results.{err}
use flip_link.Proto.Bytes.{Bytes}
use flip_link.Proto.Frame.{stream_start, stream_data, stream_stop}
use flip_link.Proto.Messages.{StreamStart, StreamStop, stream_format_raw_i32_us}
use flip_link.Firmware.Stream.{buffer_of, buffer_of-IsStreamBuffer}
use flip_link.Firmware.Ir.Capture as Device
use flip_link.Firmware.Ir.Capture.Queue.{CaptureEvent, sample, drain, sample_bytes, run_capture}
use flip_link.Firmware.Ir.Capture.Session.{session}
use flip_link.Client.Capture.{
  dropped_samples, Next, frame, nothing, Wait, Poll, Run, ir_capture, ir_signal,
}
use flip_link.Client.Capture.Arrived.{Bodies, passed, arrivals}
use flip_link.Client.Capture.EndToEnd.{ir_capture_lem}

abbrev bodies : Bodies
bodies = record {
  start_body = λ s. s.format;
  stop_body = λ s. s.dropped ∷ [];
  error_body = λ e. [];
}

abbrev read_start : Bytes → Option StreamStart
read_start body = some (record { format = body })

abbrev read_stop : Bytes → Option StreamStop
read_stop [] = none
read_stop (n ∷ rest) = some (record { dropped = n })

abbrev quiet : Device.Capture
quiet = record { stream = none; active = false; seq = 0; dropped = 0 }

abbrev edges : List CaptureEvent
edges = sample 70000 ∷ sample 560 ∷ drain ∷ sample 1690 ∷ []

abbrev poll : Next → Poll
poll next = record { cancelled = false; next = next; data_at = 0; now = 0 }

abbrev opening : Wait
opening = record { next = frame stream_start stream_format_raw_i32_us; late = false }

abbrev quick : Run
quick = record {
  opens = true;
  start = opening ∷ [];
  opened_at = 0;
  polls =
      poll (frame stream_data (sample_bytes (70000 ∷ 560 ∷ [])))
      ∷ poll nothing
      ∷ poll (frame stream_data (sample_bytes (1690 ∷ [])))
      ∷ poll (frame stream_stop (0 ∷ []))
      ∷ [];
  sends = true;
  stop = [];
}

buffer_there : Device.ensure_capture_buffer true none ≡ some []
unfolding Device.ensure_capture_buffer
buffer_there = refl

frames_match :
    opening.next ∷ arrivals quick.polls
    ≡ map (passed bodies) (session (buffer_of Device.capture_cap) true 9 edges quiet)
unfolding session run_capture Device.whole_samples Device.ensure_capture_buffer Device.pushed
    Device.rx_capture_isr Device.empty_stream Device.armed Device.start_capture Device.batch
    Device.drain_stream Device.drain_capture Device.flush Device.flushed Device.stop_capture
frames_match = refl

ir_capture_lem_example :
    (ir_capture (λ e. none) read_start read_stop none quick
      ≡ some (ir_signal (70000 ∷ 560 ∷ 1690 ∷ [])))
    ⊎ ((lost : ℕ) × (0 < lost)
        × (ir_capture (λ e. none) read_start read_stop none quick
            ≡ some (err (dropped_samples lost))))
ir_capture_lem_example =
    ir_capture_lem bodies (λ e. none) read_start read_stop (buffer_of Device.capture_cap) true 9
      edges quiet [] quick opening [] (λ s. refl) (λ s. refl)
      (buffer_of-IsStreamBuffer Device.capture_cap) refl buffer_there (omega arith) (omega arith)
      refl refl (refl, (refl, (refl, (refl, tt)))) frames_match
