-- ===== src/Firmware/Ir/Capture/Queue.antt =====
-- A capture of firmware/src/ir_instrument.rs as a queue of samples that drops what does not fit.
use flip_link.Base.{
  ℕ, zero, suc, ◌+◌, ◌-◌, ◌*◌, ◌%◌, ◌^◌, ◌<◌, ◌≤◌, ◌≡◌, refl, ap, ◌∙◌, arith, min, ltb, leb,
  if◌then◌else◌, true,
}
use flip_link.Base.{
  List, [], ◌∷◌, ◌++◌, length, take, drop, map, none, some, take-min, drop-min, take-all,
  append-nil, length-append, length-drop, map-append, Bool-cases, inl, inr,
}
use flip_link.Proto.Bytes.{Bytes, u32_to_le_bytes}
use flip_link.Firmware.Stream.{StreamBuffer, IsStreamBuffer, Sent, stream_data}
use flip_link.Firmware.Ir.Capture.{
  Capture, capture_cap, whole_samples, pushed, rx_capture_isr, batch, drain_stream, drain_capture,
}

abbrev pub sample_bytes : List ℕ → Bytes
sample_bytes [] = []
sample_bytes (d ∷ ds) = u32_to_le_bytes d ++ sample_bytes ds

pub length-sample_bytes : (q : List ℕ) → length (sample_bytes q) ≡ 4 * length q
length-sample_bytes [] = refl
length-sample_bytes (d ∷ ds) = omega (arith, length-sample_bytes ds)

sample_bytes-append : (q ds : List ℕ) → sample_bytes (q ++ ds) ≡ sample_bytes q ++ sample_bytes ds
sample_bytes-append [] ds = refl
sample_bytes-append (x ∷ q) ds = ap (λ l. u32_to_le_bytes x ++ l) (sample_bytes-append q ds)

take-sample_bytes :
    (j n : ℕ) (q : List ℕ) → n ≡ 4 * j → take n (sample_bytes q) ≡ sample_bytes (take j q)
take-sample_bytes zero n q e = let z : n ≡ 0 = omega arith in rw z refl
take-sample_bytes (suc j) n [] e = let z : n ≡ suc (n - 1) = omega arith in rw z refl
take-sample_bytes (suc j) n (d ∷ ds) e =
    let z : n ≡ suc (suc (suc (suc (4 * j)))) = omega arith in
    rw (z, take-sample_bytes j (4 * j) ds refl) refl

drop-sample_bytes :
    (j n : ℕ) (q : List ℕ) → n ≡ 4 * j → drop n (sample_bytes q) ≡ sample_bytes (drop j q)
drop-sample_bytes zero n q e = let z : n ≡ 0 = omega arith in rw z refl
drop-sample_bytes (suc j) n [] e = let z : n ≡ suc (n - 1) = omega arith in rw z refl
drop-sample_bytes (suc j) n (d ∷ ds) e =
    let z : n ≡ suc (suc (suc (suc (4 * j)))) = omega arith in
    rw (z, drop-sample_bytes j (4 * j) ds refl) refl

-- The queue: at most 1024 samples wait, at most 64 go into one frame.
pub record Queue : Type 0 where
  pub waiting : List ℕ
  pub lost : ℕ

pub data CaptureEvent : Type 0 where
  sample : ℕ → CaptureEvent
  drain : CaptureEvent

abbrev pub offer : ℕ → Queue → Queue
offer d q =
    if ltb (length q.waiting) 1024
    then record { waiting = q.waiting ++ (d ∷ []); lost = q.lost }
    else record { waiting = q.waiting; lost = q.lost + 1 }

-- The samples of the next frame, if one is sent.
abbrev pub frames : List ℕ → List (List ℕ)
frames [] = []
frames (d ∷ ds) = take 64 (d ∷ ds) ∷ []

abbrev pub event : CaptureEvent → Queue → Queue × List (List ℕ)
event (sample d) q = (offer d q, [])
event drain q = (record { waiting = drop 64 q.waiting; lost = q.lost }, frames q.waiting)

abbrev pub capture_event : StreamBuffer → CaptureEvent → Capture → Capture × List Sent
capture_event sb (sample d) c = (rx_capture_isr sb d c, [])
capture_event sb drain c = drain_capture sb c

-- Interrupts and rounds of the main loop, in the order in which they happen.
unfoldable pub run_capture : StreamBuffer → List CaptureEvent → Capture → Capture × List Sent
run_capture sb [] c = (c, [])
run_capture sb (e ∷ es) c =
    let (c', sents) = capture_event sb e c in
    let (last, more) = run_capture sb es c' in (last, sents ++ more)

unfoldable pub run_queue : List CaptureEvent → Queue → Queue × List (List ℕ)
run_queue [] q = (q, [])
run_queue (e ∷ es) q =
    let (q', fs) = event e q in let (last, gs) = run_queue es q' in (last, fs ++ gs)

abbrev pub IsQueue : Queue → Type 0
IsQueue q = length q.waiting ≤ 1024

event-IsQueue : (e : CaptureEvent) (q : Queue) → IsQueue q → IsQueue (event e q).0
event-IsQueue (sample d) q h = elim (Bool-cases (ltb (length q.waiting) 1024)) [
  | inl t ↦
      let room : length q.waiting < 1024 = ground arith in
      rw t (omega (arith, length-append q.waiting (d ∷ [])))
  | inr t ↦ rw t h
]
event-IsQueue drain q h = omega (arith, length-drop 64 q.waiting)

-- The statics that the queue stands for.
abbrev pub statics : ℕ → Queue → Capture
statics seq q = record {
  stream = some (sample_bytes q.waiting);
  active = true;
  seq = seq;
  dropped = q.lost % 2 ^ 32;
}

abbrev pub sent_frames : ℕ → List (List ℕ) → List Sent
sent_frames seq fs = map (λ f. stream_data seq (sample_bytes f)) fs

module _ (sb : StreamBuffer) (h : IsStreamBuffer capture_cap sb) (seq : ℕ) where
  open h use {accepts_eq, gives_eq}

  pub whole_samples_lem :
      (d : ℕ) (ds : List ℕ) → whole_samples (sample_bytes (d ∷ ds)) ≡ some (sample_bytes (d ∷ ds))
  unfolding whole_samples
  whole_samples_lem d ds =
      let size = length-sample_bytes (d ∷ ds) in
      let n = length (sample_bytes (d ∷ ds)) in
      let long : leb 4 (n - n % 4) ≡ true = ground (arith, size) in
      rw (long, take-all (n - n % 4) (sample_bytes (d ∷ ds)) (omega (arith, size))) refl

  pub whole_samples_nil : whole_samples [] ≡ none
  unfolding whole_samples
  whole_samples_nil = refl

  pub batch-sample_bytes :
      (q : List ℕ)
      → batch sb (sample_bytes q)
        ≡ (whole_samples (sample_bytes (take 64 q)), sample_bytes (drop 64 q))
  unfolding batch
  batch-sample_bytes q =
      let given = gives_eq (sample_bytes q) 256 in
      let front = take-min 256 (sample_bytes q) ∙ take-sample_bytes 64 256 q refl in
      let back = drop-min 256 (sample_bytes q) ∙ drop-sample_bytes 64 256 q refl in
      rw (given, front, back) refl

  isr_refines :
      (d : ℕ) (q : Queue)
      → IsQueue q
      → rx_capture_isr sb d (statics seq q) ≡ statics seq (offer d q)
  unfolding rx_capture_isr pushed
  isr_refines d q g =
      let size = length-sample_bytes q.waiting in
      let room = accepts_eq (sample_bytes q.waiting) 4 in
      elim (Bool-cases (ltb (length q.waiting) 1024)) [
        | inl t ↦
            let fits : min 4 (capture_cap - length (sample_bytes q.waiting)) ≡ 4 = ground arith in
            rw (room, fits, t, sample_bytes-append q.waiting (d ∷ [])) refl
        | inr t ↦
            let full : min 4 (capture_cap - length (sample_bytes q.waiting)) ≡ 0 = ground arith in
            let wrapped : (q.lost % 2 ^ 32 + 1) % 2 ^ 32 ≡ (q.lost + 1) % 2 ^ 32 = omega arith in
            rw (room, full, t, append-nil (sample_bytes q.waiting), wrapped) refl
      ]

  drain_lem :
      (w : List ℕ) (lost : ℕ)
      → drain_stream sb (sample_bytes w) (statics seq (record { waiting = w; lost = lost }))
        ≡ (statics seq (record { waiting = drop 64 w; lost = lost }), sent_frames seq (frames w))
  unfolding drain_stream
  drain_lem [] lost = rw (batch-sample_bytes [], whole_samples_nil) refl
  drain_lem (d ∷ ds) lost = rw (batch-sample_bytes (d ∷ ds), whole_samples_lem d (take 63 ds)) refl

  -- An event of the capture does to the statics, and sends, what the queue's event does.
  event_refines :
      (e : CaptureEvent) (q : Queue)
      → IsQueue q
      → capture_event sb e (statics seq q)
        ≡ (statics seq (event e q).0, sent_frames seq (event e q).1)
  unfolding drain_capture
  event_refines (sample d) q g = ap (λ (c : Capture). (c, [])) (isr_refines d q g)
  event_refines drain q g = drain_lem q.waiting q.lost

  -- From an empty queue on, and between any interrupts and drains in any order: the statics are those
  -- of the queue, and the frames sent are the queue's, whole samples all.
  pub run_refines :
      (es : List CaptureEvent) (q : Queue)
      → IsQueue q
      → run_capture sb es (statics seq q)
        ≡ (statics seq (run_queue es q).0, sent_frames seq (run_queue es q).1)
  unfolding run_capture run_queue
  run_refines [] q g = refl
  run_refines (e ∷ es) q g =
      let now = event_refines e q g in
      let later = run_refines es (event e q).0 (event-IsQueue e q g) in
      rw
        (
          now,
          later,
          map-append (λ f. stream_data seq (sample_bytes f)) (event e q).1
              (run_queue es (event e q).0).1,
        )
        refl
