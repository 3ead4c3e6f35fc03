-- ===== src/Client/Capture/SubGhzEndToEnd.antt =====
-- A Sub-GHz capture from the interrupt of firmware/src/subghz_instrument.rs to the signal that
-- crates/flip-client/src/lib.rs returns.
mod Tests
use flip_link.Base.{
  ℕ, suc, ◌+◌, ◌/◌, ◌*◌, ◌%◌, ◌^◌, ◌<◌, ◌≡◌, refl, sym, subst, ap, ◌∙◌, arith, Bool, true, false,
  ltb, not, ◌==◌, if◌then◌else◌, Bool-cases, inl, inr, ◌⊎◌,
}
use flip_link.Base.{
  List, [], ◌∷◌, ◌++◌, All, All-append_left, All-append_right, append_assoc, append-nil, length,
  map, map-append, flatten, Option, none, some,
}
use flip_link.Base.Results.{Result, ok, err}
use flip_link.Proto.Bytes.{Bytes}
use flip_link.Proto.Messages.{
  AgentError, StreamStart, StreamStop, stream_format_subghz_level_duration_v1,
}
use flip_link.Proto.Value.{Value}
use flip_link.Firmware.Stream.{StreamBuffer, IsStreamBuffer, Sent}
use flip_link.Firmware.SubGhz.{TxEdge, capture_cap}
use flip_link.Firmware.SubGhz.Transmit.{Radio}
use flip_link.Firmware.SubGhz.Capture.{Capture, start_capture}
use flip_link.Firmware.SubGhz.Capture.Records.{records}
use flip_link.Firmware.SubGhz.Capture.Lossy.{
  EdgeEvent, edge, drain, offered, offered_some, offered_none,
}
use flip_link.Firmware.SubGhz.Capture.Lossless.{session, framed_by, subghz_session_lem}
use flip_link.Client.SubGhz.{SubGhzPreset, SubGhzEdge, stream_edges, decode_stream_data}
use flip_link.Client.Capture.Arrived.{
  Bodies, passed, arrivals, IsPatient, collect, counted, captured_lem,
}
use flip_link.Client.Capture.{
  drain_subghz_capture_stop, dropped_samples, Wait, Run, subghz_capture, subghz_result,
  subghz_signal,
}

-- A device's edge as the client has it.
abbrev pub seen : TxEdge → SubGhzEdge
seen e = record { level = e.level; duration_us = e.duration_us }

abbrev IsWord : TxEdge → Type 0
IsWord e = (0 < e.duration_us) × (e.duration_us < 2 ^ 32)

abbrev IsShort : TxEdge → Type 0
IsShort e = e.duration_us < 2 ^ 32

level_byte : (level : Bool) → not ((if level then 1 else 0) == 0) ≡ level
level_byte true = refl
level_byte false = refl

stream_edges_lem :
    (es : List TxEdge) → All IsWord es → stream_edges (records es) ≡ (map seen es, length es)
unfolding stream_edges
stream_edges_lem [] h = refl
stream_edges_lem (e ∷ es) ((p, w), h) =
    let d = e.duration_us in
    let whole : d % 2 ^ 8
          + d / 2 ^ 8 % 2 ^ 8 * 2 ^ 8
          + d / 2 ^ 16 % 2 ^ 8 * 2 ^ 16
          + d / 2 ^ 24 % 2 ^ 8 * 2 ^ 24
        ≡ d =
      omega arith in
    let some_time : ltb 0 d ≡ true = ground arith in
    let size : 1 + length es ≡ suc (length es) = omega arith in
    rw (stream_edges_lem es h, whole, some_time, size, level_byte e.level) refl

decode_stream_data-records :
    (es : List TxEdge) (out : List SubGhzEdge)
    → All IsWord es
    → decode_stream_data (records es) out ≡ (out ++ map seen es, length es)
unfolding decode_stream_data
decode_stream_data-records es out h = rw (stream_edges_lem es h) refl

collect_lem :
    (fs : List (List TxEdge)) (out : List SubGhzEdge)
    → All IsWord (flatten fs)
    → collect decode_stream_data (map records fs) out ≡ out ++ map seen (flatten fs)
unfolding flatten
collect_lem [] out h = sym (append-nil out)
collect_lem (f ∷ fs) out h =
    ap (λ (r : List SubGhzEdge × ℕ). collect decode_stream_data (map records fs) r.0)
      (decode_stream_data-records f out (All-append_left IsWord f (flatten fs) h))
    ∙ collect_lem fs (out ++ map seen f) (All-append_right IsWord f (flatten fs) h)
    ∙ append_assoc out (map seen f) (map seen (flatten fs))
    ∙ ap (λ l. out ++ l) (sym (map-append seen f (flatten fs)))

offered-IsWord :
    (es : List EdgeEvent) → All (λ e. e.duration_us < 2 ^ 32) (offered es) → All IsWord (offered es)
offered-IsWord [] h = tt
offered-IsWord (drain ∷ es) h = offered-IsWord es h
offered-IsWord (edge e ∷ es) h = elim (Bool-cases (e.duration_us == 0)) [
  | inl z ↦
      rw (offered_none e es z) (offered-IsWord es (subst (All IsShort) (offered_none e es z) h))
  | inr z ↦
      let both = subst (All IsShort) (offered_some e es z) h in
      rw (offered_some e es z) ((ground arith, both.0), offered-IsWord es both.1)
]

-- What the client makes of such a session's frames.
captured_frames :
    (b : Bodies) (read_error : Bytes → Option AgentError) (read_start : Bytes → Option StreamStart)
    (read_stop : Bytes → Option StreamStop) (seq frequency : ℕ) (preset : SubGhzPreset) (run : Run)
    (w : Wait) (ws : List Wait) (payloads : List Bytes) (n : ℕ)
    → ((s : StreamStart) → read_start (b.start_body s) ≡ some s)
    → ((s : StreamStop) → read_stop (b.stop_body s) ≡ some s)
    → run.opens ≡ true
    → run.start ≡ w ∷ ws
    → All IsPatient run.polls
    → w.next ∷ arrivals run.polls ≡ map (passed b) (framed_by seq payloads n)
    → subghz_capture read_error read_start read_stop frequency preset none run
      ≡ subghz_result frequency preset (some (counted n (collect decode_stream_data payloads [])))
unfolding subghz_capture
captured_frames b read_error read_start read_stop seq frequency preset run w ws payloads n starts
      stops opens start patient e =
    ap (subghz_result frequency preset) (
      captured_lem b read_error read_stop decode_stream_data stops read_start
        (drain_subghz_capture_stop read_error read_start read_stop)
        stream_format_subghz_level_duration_v1 run w ws seq payloads n starts opens start patient e)

-- For a stream buffer as the SDK documents it, a device whose `start_capture` starts a capture, fewer
-- than 2 ^ 32 - 1 edges of a duration that is not 0 offered by the interrupt, each below 2 ^ 32, and
-- bodies that are read as they were written: when the client gets the frames of the device's session
-- in their order and nobody cancels, its `subghz_capture` without an idle gap returns the signal of
-- all these edges in order, with the frequency and preset of the request (or the error that there is
-- none), or the error that names how many edges were dropped, which is more than none.
pub subghz_capture_lem :
    (b : Bodies) (read_error : Bytes → Option AgentError) (read_start : Bytes → Option StreamStart)
    (read_stop : Bytes → Option StreamStop) (sb : StreamBuffer) (radio : Radio) (allocates : Bool)
    (seq : ℕ) (params : Value) (es : List EdgeEvent) (c : Capture) (frequency : ℕ)
    (preset : SubGhzPreset) (run : Run) (w : Wait) (ws : List Wait)
    → ((s : StreamStart) → read_start (b.start_body s) ≡ some s)
    → ((s : StreamStop) → read_stop (b.stop_body s) ≡ some s)
    → IsStreamBuffer capture_cap sb
    → (start_capture sb radio allocates seq params c).1
      ≡ Sent.stream_start seq stream_format_subghz_level_duration_v1 ∷ []
    → length (offered es) + 1 < 2 ^ 32
    → All (λ e. e.duration_us < 2 ^ 32) (offered es)
    → run.opens ≡ true
    → run.start ≡ w ∷ ws
    → All IsPatient run.polls
    → w.next ∷ arrivals run.polls ≡ map (passed b) (session sb radio allocates seq params es c)
    → (subghz_capture read_error read_start read_stop frequency preset none run
        ≡ some (subghz_signal frequency preset (map seen (offered es))))
      ⊎ ((lost : ℕ) × (0 < lost)
          × (subghz_capture read_error read_start read_stop frequency preset none run
              ≡ some (err (dropped_samples lost))))
subghz_capture_lem b read_error read_start read_stop sb radio allocates seq params es c frequency
      preset run w ws starts stops h started few small opens start patient e =
    let answer = λ (payloads : List Bytes) (n : ℕ).
      captured_frames b read_error read_start read_stop seq frequency preset run w ws payloads n
        starts stops opens start patient in
    elim (subghz_session_lem sb radio allocates seq params es c h started few) [
      | inl (fs, frames, all) ↦
          let words = subst (All IsWord) (sym all) (offered-IsWord es small) in
          inl (
            answer (map records fs) 0 (e ∙ ap (map (passed b)) frames)
            ∙ ap (λ edges. some (subghz_signal frequency preset edges))
                (collect_lem fs [] words ∙ ap (map seen) all))
      | inr (payloads, lost, frames, p) ↦
          let l : ltb 0 lost ≡ true = ground arith in
          inr (lost, p, answer payloads lost (e ∙ ap (map (passed b)) frames) ∙ rw l refl)
    ]
