-- ===== src/Client/Capture/EndToEnd.antt =====
-- An infrared capture from the interrupt of firmware/src/ir_instrument.rs to the signal that
-- crates/flip-client/src/lib.rs returns.
use flip_link.Base.{
  ℕ, ◌%◌, ◌^◌, ◌<◌, ◌≡◌, refl, sym, subst, ap, ◌∙◌, arith, Bool, true, false, ltb, inl, inr, ◌⊎◌,
}
use flip_link.Base.{
  List, [], ◌∷◌, ◌++◌, All, All-append_left, All-append_right, append_assoc, append-nil, length,
  map, flatten, Option, none, some,
}
use flip_link.Base.Results.{err}
use flip_link.Proto.Bytes.{Bytes}
use flip_link.Proto.Messages.{AgentError, StreamStart, StreamStop, stream_format_raw_i32_us}
use flip_link.Firmware.Stream.{data_frames, Sent, StreamBuffer, IsStreamBuffer}
use flip_link.Firmware.Ir.Capture.{Capture, capture_cap, ensure_capture_buffer}
use flip_link.Firmware.Ir.Capture.Queue.{CaptureEvent, sample_bytes, sent_frames}
use flip_link.Firmware.Ir.Capture.Session.{session, session_lem, offered}
use flip_link.Client.Signal.{decode_stream_data}
use flip_link.Client.Signal.Agree.{decode_stream_data-sample_bytes}
use flip_link.Client.Capture.Arrived.{Bodies, passed, arrivals, IsPatient, collect, captured_lem}
use flip_link.Client.Capture.{
  drain_capture_stop, dropped_samples, Wait, Run, ir_capture, ir_result, ir_signal,
}

-- The device's frames, by what their payloads are.
sent_frames-data_frames :
    (seq : ℕ) (fs : List (List ℕ)) → sent_frames seq fs ≡ data_frames seq (map sample_bytes fs)
sent_frames-data_frames seq [] = refl
sent_frames-data_frames seq (f ∷ fs) =
    ap (λ l. Sent.stream_data seq (sample_bytes f) ∷ l) (sent_frames-data_frames seq fs)

collect_lem :
    (fs : List (List ℕ)) (out : List ℕ)
    → All (λ d. d < 2 ^ 31) (flatten fs)
    → collect decode_stream_data (map sample_bytes fs) out ≡ out ++ flatten fs
unfolding flatten
collect_lem [] out h = sym (append-nil out)
collect_lem (f ∷ fs) out h =
    ap (λ (r : List ℕ × ℕ). collect decode_stream_data (map sample_bytes fs) r.0)
      (decode_stream_data-sample_bytes f out (All-append_left (λ d. d < 2 ^ 31) f (flatten fs) h))
    ∙ (collect_lem fs (out ++ f) (All-append_right (λ d. d < 2 ^ 31) f (flatten fs) h)
        ∙ append_assoc out f (flatten fs))

-- For a stream buffer as the SDK documents it, no capture running on a free infrared, the buffer there
-- or allocated, fewer than 2 ^ 32 samples offered by the interrupt, each below 2 ^ 31, and bodies that
-- are read as they were written: when the client gets the frames of the device's session in their
-- order and nobody cancels, its `ir_capture` without an idle gap returns the signal of all the samples
-- that the interrupt offered, in order and without the first one (or the error that there is none),
-- or the error that names how many samples were dropped, which is more than none.
pub ir_capture_lem :
    (b : Bodies) (read_error : Bytes → Option AgentError) (read_start : Bytes → Option StreamStart)
    (read_stop : Bytes → Option StreamStop) (sb : StreamBuffer) (allocates : Bool) (seq : ℕ)
    (es : List CaptureEvent) (c : Capture) (inside : Bytes) (run : Run) (w : Wait) (ws : List Wait)
    → ((s : StreamStart) → read_start (b.start_body s) ≡ some s)
    → ((s : StreamStop) → read_stop (b.stop_body s) ≡ some s)
    → IsStreamBuffer capture_cap sb
    → c.active ≡ false
    → ensure_capture_buffer allocates c.stream ≡ some inside
    → length (offered es) < 2 ^ 32
    → All (λ d. d < 2 ^ 31) (offered es)
    → run.opens ≡ true
    → run.start ≡ w ∷ ws
    → All IsPatient run.polls
    → w.next ∷ arrivals run.polls ≡ map (passed b) (session sb allocates seq es c)
    → (ir_capture read_error read_start read_stop none run ≡ some (ir_signal (offered es)))
      ⊎ ((lost : ℕ) × (0 < lost)
          × (ir_capture read_error read_start read_stop none run
              ≡ some (err (dropped_samples lost))))
unfolding ir_capture
ir_capture_lem b read_error read_start read_stop sb allocates seq es c inside run w ws starts stops
      h inactive there few small opens start patient e =
    let (fs, lost, frames, total, either) =
      session_lem sb allocates seq es c inside h inactive there in
    let n = lost % 2 ^ 32 in
    let same : n ≡ lost = omega arith in
    let payloads = map sample_bytes fs in
    let same_frames =
      ap
        (λ l. Sent.stream_start seq stream_format_raw_i32_us ∷ (l ++ (Sent.stream_stop seq n ∷ [])))
        (sent_frames-data_frames seq fs) in
    let result = ap ir_result (
      captured_lem b read_error read_stop decode_stream_data stops read_start
        (drain_capture_stop read_error read_start read_stop) stream_format_raw_i32_us run w ws seq
        payloads n starts opens start patient (e ∙ ap (map (passed b)) (frames ∙ same_frames))) in
    elim either [
      | inl some_lost ↦
          let l : ltb 0 n ≡ true = ground arith in inr (n, omega arith, result ∙ rw l refl)
      | inr all ↦
          let l : ltb 0 n ≡ false = ground (arith, ap length all) in
          let kept = subst (All (λ d. d < 2 ^ 31)) (sym all) small in
          inl (result ∙ rw l (ap (λ raw. some (ir_signal raw)) (collect_lem fs [] kept ∙ all)))
    ]
