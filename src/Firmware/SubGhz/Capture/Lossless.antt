-- ===== src/Firmware/SubGhz/Capture/Lossless.antt =====
-- A whole capture of firmware/src/subghz_instrument.rs, from `start_capture` to `stop_capture`: it
-- loses no edge, or says so.
use flip_link.Base.{
  batches, flatten-batches, ℕ, suc, ◌+◌, ◌^◌, ◌<◌, ◌≡◌, refl, ap, ◌∙◌, arith, Bool, not, if-either,
  ◌⊎◌, inl, inr,
}
use flip_link.Base.{
  List, [], ◌∷◌, ◌++◌, length, map, flatten, Option, none, some, append_assoc, map-append,
  flatten-append,
}
use flip_link.Base.Results.{ok, err}
use flip_link.Proto.Bytes.{Bytes}
use flip_link.Proto.Messages.{stream_format_subghz_level_duration_v1}
use flip_link.Proto.Value.{Value}
use flip_link.Firmware.Params.{Answer}
use flip_link.Firmware.Stream.{
  StreamBuffer, IsStreamBuffer, data_frames, Sent, stream_start, stream_data, stream_stop,
}
use flip_link.Firmware.SubGhz.{TxEdge, FuriPreset, capture_cap, required_frequency, required_preset}
use flip_link.Firmware.SubGhz.Transmit.{Radio}
use flip_link.Firmware.SubGhz.Capture.{
  Capture, Step, ensure_capture_buffer, armed, buffer_or_end, open_capture, after_preset,
  after_frequency, start_capture, flush_all, stop_capture,
}
use flip_link.Firmware.SubGhz.Capture.Records.{records, length-records}
use flip_link.Firmware.SubGhz.Capture.Lossy.{
  EdgeEvent, offered, run_edges, running, flush_any, flush_lem, empty_stream_lem,
}
use flip_link.Firmware.SubGhz.Capture.Kept.{Ran, run_lem}

module _ (sb : StreamBuffer) (h : IsStreamBuffer capture_cap sb) (seq : ℕ) where
  -- How a capture that started, ends.
  stop_kept :
      (q : List TxEdge)
      → (stop_capture sb (running seq (records q) 0)).1
        ≡ data_frames seq (map records (batches 49 (suc (length (records q))) q))
          ++ (stream_stop seq 0 ∷ [])
  unfolding stop_capture flush_all
  stop_kept q =
      rw (flush_lem sb h seq (suc (length (records q))) q (omega (arith, length-records q))) refl

  stop_any :
      (inside : Bytes) (dropped : ℕ)
      → (payloads : List Bytes) × ((stop_capture sb (running seq inside dropped)).1
          ≡ data_frames seq payloads ++ (stream_stop seq dropped ∷ []))
  unfolding stop_capture flush_all
  stop_any inside dropped =
      let (inside', payloads, e) = flush_any sb seq (suc (length inside)) inside in
      (payloads, rw e refl)

  -- A step that sends the STREAM_START leaves an empty buffer.
  Starts : Step → Type 0
  Starts s =
      s.1 ≡ stream_start seq stream_format_subghz_level_duration_v1 ∷ [] → s.0 ≡ running seq [] 0

  module _ (c : Capture) where
    buffer-Starts :
        (frequency : ℕ) (preset : FuriPreset) (buffer : Option Bytes)
        → Starts (buffer_or_end sb seq frequency preset buffer c)
    unfolding Starts buffer_or_end armed
    buffer-Starts frequency preset none = λ e. absurd cc
    buffer-Starts frequency preset (some inside) =
        λ e. rw (empty_stream_lem sb h seq (suc (length inside)) inside (omega arith)) refl

    open-Starts :
        (radio : Radio) (allocates : Bool) (frequency : ℕ) (preset : FuriPreset)
        → Starts (open_capture sb radio allocates seq frequency preset c)
    unfolding Starts open_capture
    open-Starts radio allocates frequency preset =
        if-either Starts (not radio.is_present) _ _ (λ e. absurd cc)
          (if-either Starts (not (radio.is_frequency_valid frequency)) _ _ (λ e. absurd cc)
            (if-either Starts (not radio.begins) _ _ (λ e. absurd cc)
              (buffer-Starts frequency preset (ensure_capture_buffer allocates c.stream))))

    preset-Starts :
        (radio : Radio) (allocates : Bool) (frequency : ℕ) (preset : Answer FuriPreset)
        → Starts (after_preset sb radio allocates seq frequency preset c)
    unfolding Starts after_preset
    preset-Starts radio allocates frequency (err x) = λ e. absurd cc
    preset-Starts radio allocates frequency (ok preset) =
        open-Starts radio allocates frequency preset

    frequency-Starts :
        (radio : Radio) (allocates : Bool) (frequency : Answer ℕ) (preset : Answer FuriPreset)
        → Starts (after_frequency sb radio allocates seq frequency preset c)
    unfolding Starts after_frequency
    frequency-Starts radio allocates (err x) preset = λ e. absurd cc
    frequency-Starts radio allocates (ok frequency) preset =
        preset-Starts radio allocates frequency preset

  start_lem :
      (radio : Radio) (allocates : Bool) (params : Value) (c : Capture)
      → Starts (start_capture sb radio allocates seq params c)
  unfolding Starts start_capture
  start_lem radio allocates params c =
      if-either Starts c.active _ _ (λ e. absurd cc)
        (frequency-Starts c radio allocates (required_frequency params) (required_preset params))

-- `start_capture`, the interrupts and drains of a run, and `stop_capture`: the frames sent.
unfoldable pub session :
    StreamBuffer → Radio → Bool → ℕ → Value → List EdgeEvent → Capture → List Sent
session sb radio allocates seq params es c =
    let started = start_capture sb radio allocates seq params c in
    let ran = run_edges sb es started.0 in
    let stopped = stop_capture sb ran.0 in started.1 ++ (ran.1 ++ stopped.1)

-- The frames of a session with these data frames and this count of dropped edges.
abbrev pub framed_by : ℕ → List Bytes → ℕ → List Sent
framed_by seq payloads dropped =
    stream_start seq stream_format_subghz_level_duration_v1
    ∷ (data_frames seq payloads ++ (stream_stop seq dropped ∷ []))

-- For a stream buffer as the SDK documents it, when `start_capture` starts a capture and fewer than
-- 2 ^ 32 - 1 edges of a duration that is not 0 are offered by the interrupts, in any order with the
-- rounds that drain: the session sends its STREAM_START, then data frames, then a STREAM_STOP. Either
-- this counts no dropped edge, and the frames hold the records of all the edges offered, in order, or
-- it counts dropped edges, more than none.
pub subghz_session_lem :
    (sb : StreamBuffer) (radio : Radio) (allocates : Bool) (seq : ℕ) (params : Value)
    (es : List EdgeEvent) (c : Capture)
    → IsStreamBuffer capture_cap sb
    → (start_capture sb radio allocates seq params c).1
      ≡ stream_start seq stream_format_subghz_level_duration_v1 ∷ []
    → length (offered es) + 1 < 2 ^ 32
    → ((fs : List (List TxEdge)) × (session sb radio allocates seq params es c
          ≡ framed_by seq (map records fs) 0)
        × (flatten fs ≡ offered es))
      ⊎ ((payloads : List Bytes) × (dropped : ℕ) × (session sb radio allocates seq params es c
            ≡ framed_by seq payloads dropped)
          × (0 < dropped))
unfolding session Starts Ran
subghz_session_lem sb radio allocates seq params es c h started few =
    let from = start_lem sb h seq radio allocates params c started in
    elim (run_lem sb h seq es [] (omega arith) few) [
      | inl (fs, waiting, e, all) ↦
          let n = suc (length (records waiting)) in
          let rest = batches 49 n waiting in
          inl (
            fs ++ rest,
            rw
                (
                  started,
                  from,
                  e,
                  stop_kept sb h seq waiting,
                  map-append records fs rest,
                  map-append (stream_data seq) (map records fs) (map records rest),
                  append_assoc (data_frames seq (map records fs))
                      (data_frames seq (map records rest)) (stream_stop seq 0 ∷ []),
                )
                refl,
            flatten-append fs rest
                ∙ ap (λ l. flatten fs ++ l)
                    (flatten-batches 49 n waiting (omega (arith, length-records waiting)))
                ∙ all,
          )
      | inr (inside, dropped, payloads, e, p, small) ↦
          let (more, last) = stop_any sb h seq inside dropped in
          inr (
            payloads ++ more,
            dropped,
            rw
                (
                  started,
                  from,
                  e,
                  last,
                  map-append (stream_data seq) payloads more,
                  append_assoc (data_frames seq payloads) (data_frames seq more)
                      (stream_stop seq dropped ∷ []),
                )
                refl,
            p,
          )
    ]
