-- ===== src/Firmware/Ir/Capture/Session.antt =====
-- A whole capture of firmware/src/ir_instrument.rs, from `start_capture` to `stop_capture`.
use flip_link.Base.{
  batches, flatten-batches, flatten-append, ◌==◌, ◌⊎◌, ℕ, zero, suc, ◌+◌, ◌%◌, ◌^◌, ◌<◌, ◌≤◌, ◌≡◌,
  refl, sym, ap, ◌∙◌, arith, ltb, true, false,
}
use flip_link.Base.{
  List, [], ◌∷◌, ◌++◌, length, take, drop, flatten, some, take-append-drop, append-nil,
  append_assoc, length-append, length-drop, map-append, Bool-cases, inl, inr, take-min, drop-min,
  Bool,
}
use flip_link.Proto.Bytes.{Bytes}
use flip_link.Proto.Messages.{stream_format_raw_i32_us}
use flip_link.Firmware.Stream.{
  StreamBuffer, IsStreamBuffer, Sent, stream_start, stream_data, stream_stop,
}
use flip_link.Firmware.Ir.Capture.{
  Capture, capture_cap, empty_stream, armed, ensure_capture_buffer, start_capture, flush, flushed,
  stop_capture,
}
use flip_link.Firmware.Ir.Capture.Queue.{
  sample_bytes, Queue, CaptureEvent, sample, drain, offer, frames, event, run_queue, run_capture,
  statics, sent_frames, length-sample_bytes, batch-sample_bytes, whole_samples_lem,
  whole_samples_nil, run_refines,
}

-- The samples that the interrupts of a run offer.
abbrev pub offered : List CaptureEvent → List ℕ
offered [] = []
offered (sample d ∷ es) = d ∷ offered es
offered (drain ∷ es) = offered es

module _ (sb : StreamBuffer) (h : IsStreamBuffer capture_cap sb) (seq : ℕ) where
  flush_lem :
      (fuel : ℕ) (w : List ℕ)
      → length w < fuel
      → flush sb seq fuel (sample_bytes w) ≡ ([], sent_frames seq (batches 63 fuel w))
  unfolding flush
  flush_lem zero w g = absurd (omega arith)
  flush_lem (suc fuel) [] g = rw (batch-sample_bytes sb h seq [], whole_samples_nil sb h seq) refl
  flush_lem (suc fuel) (d ∷ ds) g =
      let rest = flush_lem fuel (drop 63 ds) (omega (arith, length-drop 63 ds)) in
      rw (batch-sample_bytes sb h seq (d ∷ ds), whole_samples_lem sb h seq d (take 63 ds), rest)
        refl

  empty_stream_lem :
      (fuel : ℕ) (inside : Bytes) → length inside < fuel → empty_stream sb fuel inside ≡ []
  unfolding empty_stream
  empty_stream_lem zero inside g = absurd (omega arith)
  empty_stream_lem (suc fuel) [] g = rw (h.gives_eq [] 64, take-min 64 [], drop-min 64 []) refl
  empty_stream_lem (suc fuel) (b ∷ bs) g =
      let rest = empty_stream_lem fuel (drop 63 bs) (omega (arith, length-drop 63 bs)) in
      let some_given : ltb 0 (length (take 64 (b ∷ bs))) ≡ true = ground arith in
      rw (h.gives_eq (b ∷ bs) 64, take-min 64 (b ∷ bs), drop-min 64 (b ∷ bs), some_given, rest) refl

  stop_refines :
      (q : Queue)
      → stop_capture sb (statics seq q) ≡ (
        record { stream = some []; active = false; seq = seq; dropped = q.lost % 2 ^ 32 },
        sent_frames seq (batches 63 (suc (length (sample_bytes q.waiting))) q.waiting)
            ++ (stream_stop seq (q.lost % 2 ^ 32) ∷ []),
      )
  unfolding stop_capture flushed
  stop_refines q =
      rw
        (flush_lem (suc (length (sample_bytes q.waiting))) q.waiting
          (omega (arith, length-sample_bytes q.waiting)))
        refl

  -- A capture that can start empties the buffer, and stands for the empty queue.
  start_refines :
      (allocates : Bool) (c : Capture) (inside : Bytes)
      → c.active ≡ false
      → ensure_capture_buffer allocates c.stream ≡ some inside
      → start_capture sb false allocates seq c ≡ (
        statics seq (record { waiting = []; lost = 0 }),
        stream_start seq stream_format_raw_i32_us ∷ [],
      )
  unfolding start_capture armed
  start_refines allocates c inside a e =
      rw (a, e, empty_stream_lem (suc (length inside)) inside (omega arith)) refl

-- An offered sample waits or is lost.
offer_lem :
    (d : ℕ) (q : Queue)
    → (length (offer d q).waiting + (offer d q).lost ≡ length q.waiting + q.lost + 1)
      × (q.lost ≤ (offer d q).lost)
      × ((offer d q).lost ≡ q.lost → (offer d q).waiting ≡ q.waiting ++ (d ∷ []))
offer_lem d q = elim (Bool-cases (ltb (length q.waiting) 1024)) [
  | inl t ↦ rw t (omega (arith, length-append q.waiting (d ∷ [])), omega arith, λ e. refl)
  | inr t ↦ rw t (omega arith, omega arith, λ e. absurd (omega arith))
]

-- A drain sends the first samples that wait.
flatten-frames :
    (w : List ℕ) (gs : List (List ℕ)) → flatten (frames w ++ gs) ≡ take 64 w ++ flatten gs
unfolding flatten
flatten-frames [] gs = refl
flatten-frames (d ∷ ds) gs = refl

-- What a run keeps: each offered sample is sent, waits or is lost, and they keep their order while
-- none is lost.
queue_lem :
    (es : List CaptureEvent) (q : Queue)
    → (length (flatten (run_queue es q).1)
          + length (run_queue es q).0.waiting
          + (run_queue es q).0.lost
        ≡ length q.waiting + q.lost + length (offered es))
      × (q.lost ≤ (run_queue es q).0.lost)
      × ((run_queue es q).0.lost ≡ q.lost
          → flatten (run_queue es q).1 ++ (run_queue es q).0.waiting ≡ q.waiting ++ offered es)
unfolding run_queue flatten
queue_lem [] q = (omega arith, omega arith, λ e. sym (append-nil q.waiting))
queue_lem (sample d ∷ es) q =
    let (a, b, c) = queue_lem es (offer d q) in
    let (x, y, z) = offer_lem d q in
    (
      omega arith,
      omega arith,
      λ e.
          c (omega arith)
          ∙ ap (λ w. w ++ offered es) (z (omega arith))
          ∙ append_assoc q.waiting (d ∷ []) (offered es),
    )
queue_lem (drain ∷ es) q =
    let after = (event drain q).0 in
    let (a, b, c) = queue_lem es after in
    let sent = flatten-frames q.waiting (run_queue es after).1 in
    let halves = take-append-drop 64 q.waiting in
    (
      omega (
        arith,
        ap length sent,
        ap length halves,
        length-append (take 64 q.waiting) (drop 64 q.waiting),
        length-append (take 64 q.waiting) (flatten (run_queue es after).1),
      ),
      omega arith,
      λ e.
          ap (λ w. w ++ (run_queue es after).0.waiting) sent
          ∙ append_assoc (take 64 q.waiting) (flatten (run_queue es after).1)
              (run_queue es after).0.waiting
          ∙ ap (λ w. take 64 q.waiting ++ w) (c e)
          ∙ sym (append_assoc (take 64 q.waiting) (drop 64 q.waiting) (offered es))
          ∙ ap (λ w. w ++ offered es) halves,
    )

-- `start_capture`, the interrupts and drains of a run, and `stop_capture`: the frames sent.
unfoldable pub session : StreamBuffer → Bool → ℕ → List CaptureEvent → Capture → List Sent
session sb allocates seq es c =
    let started = start_capture sb false allocates seq c in
    let ran = run_capture sb es started.0 in
    let stopped = stop_capture sb ran.0 in started.1 ++ (ran.1 ++ stopped.1)

-- For a stream buffer as the SDK documents it, no capture running, an infrared that is not busy, and
-- the buffer there or allocated: a capture session sends its STREAM_START first, then frames of whole samples, then a STREAM_STOP
-- with the count of lost samples modulo 2 ^ 32. The samples in the frames and the lost ones are as
-- many as the interrupts gave; either some are lost, or the frames hold all of them in order.
pub session_lem :
    (sb : StreamBuffer) (allocates : Bool) (seq : ℕ) (es : List CaptureEvent) (c : Capture)
    (inside : Bytes)
    → IsStreamBuffer capture_cap sb
    → c.active ≡ false
    → ensure_capture_buffer allocates c.stream ≡ some inside
    → (fs : List (List ℕ)) × (lost : ℕ) × (session sb allocates seq es c
        ≡ stream_start seq stream_format_raw_i32_us
          ∷ (sent_frames seq fs ++ (stream_stop seq (lost % 2 ^ 32) ∷ [])))
      × (length (flatten fs) + lost ≡ length (offered es))
      × ((0 < lost) ⊎ (flatten fs ≡ offered es))
unfolding session
session_lem sb allocates seq es c inside h a e =
    let empty : Queue = record { waiting = []; lost = 0 } in
    let out = run_queue es empty in
    let left = out.0.waiting in
    let rest = batches 63 (suc (length (sample_bytes left))) left in
    let whole =
      flatten-batches 63 (suc (length (sample_bytes left))) left
        (omega (arith, length-sample_bytes left)) in
    let (x, y, z) = queue_lem es empty in
    let all = flatten-append out.1 rest ∙ ap (λ w. flatten out.1 ++ w) whole in
    let started = start_refines sb h seq allocates c inside a e in
    let ran = run_refines sb h seq es empty (omega arith) in
    let stopped = stop_refines sb h seq out.0 in
    let frames_sent = map-append (λ f. stream_data seq (sample_bytes f)) out.1 rest in
    let assoc =
      append_assoc (sent_frames seq out.1) (sent_frames seq rest)
        (stream_stop seq (out.0.lost % 2 ^ 32) ∷ []) in
    (
      out.1 ++ rest,
      out.0.lost,
      rw (started, ran, stopped, frames_sent, assoc) refl,
      omega (arith, ap length all, length-append (flatten out.1) left),
      elim (Bool-cases (out.0.lost == 0)) [
        | inl none_lost ↦ inr (all ∙ z (ground arith))
        | inr some_lost ↦ inl (ground arith)
      ],
    )
