-- ===== src/Client/Capture/Arrived.antt =====
-- What the capture loops of crates/flip-client/src/lib.rs make of a device's frames, over what the
-- payloads are decoded to.
use flip_link.Base.{
  ℕ, ◌≡◌, refl, sym, ap, ◌∙◌, true, false, ltb, if◌then◌else◌, Bool-cases, inl, inr, ◌⊎◌,
  text_eq_refl, Text,
}
use flip_link.Base.{List, [], ◌∷◌, ◌++◌, All, map-append, map, Option, none, some}
use flip_link.Base.Results.{Result, ok, err}
use flip_link.Proto.Bytes.{Bytes}
use flip_link.Proto.Frame.{MsgType, stream_start, stream_data, stream_stop, error}
use flip_link.Proto.Messages.{AgentError, StreamStart, StreamStop}
use flip_link.Firmware.Stream.{Sent, data_frames}
use flip_link.Client.Capture.{
  ClientError, dropped_samples, Next, frame, nothing, broken, Wait, Poll, Run, Looped, finished,
  gave_up, capture_loop, expect_start, Drain, captured,
}

-- The bodies as their sender encodes them.
pub record Bodies : Type 0 where
  pub start_body : StreamStart → Bytes
  pub stop_body : StreamStop → Bytes
  pub error_body : AgentError → Bytes

-- The device's frame as the client's connection gives it.
abbrev pub passed : Bodies → Sent → Next
passed b (Sent.stream_start seq format) =
    frame stream_start (b.start_body (record { format = format }))
passed b (Sent.stream_data seq payload) = frame stream_data payload
passed b (Sent.stream_stop seq dropped) =
    frame stream_stop (b.stop_body (record { dropped = dropped }))
passed b (Sent.error seq code message) =
    frame error (b.error_body (record { code = code; message = message }))

abbrev arrived : Next → List Next → List Next
arrived nothing later = later
arrived broken later = broken ∷ later
arrived (frame typ payload) later = frame typ payload ∷ later

-- The frames of the turns, in order.
abbrev pub arrivals : List Poll → List Next
arrivals [] = []
arrivals (p ∷ ps) = arrived p.next (arrivals ps)

-- Nobody cancels, and the connection holds.
abbrev pub IsPatient : Poll → Type 0
IsPatient p = p.cancelled ≡ false

Next-cases :
    (n : Next) → (n ≡ nothing) ⊎ ((n ≡ broken) ⊎ ((t : MsgType) × (b : Bytes) × (n ≡ frame t b)))
Next-cases nothing = inl refl
Next-cases broken = inr (inl refl)
Next-cases (frame t b) = inr (inr (t, b, refl))

module _ {A : Type 0} where
  -- What the payloads are decoded to, behind what is there.
  abbrev pub collect : (Bytes → List A → List A × ℕ) → List Bytes → List A → List A
  collect decode [] out = out
  collect decode (p ∷ ps) out = collect decode ps (decode p out).0

  abbrev pub stop_result : ℕ → List A → Looped A
  stop_result n out = if ltb 0 n then gave_up (dropped_samples n) else finished out

  abbrev pub counted : ℕ → List A → Result (List A) ClientError
  counted n out = if ltb 0 n then err (dropped_samples n) else ok out

module _ (b : Bodies) (read_error : Bytes → Option AgentError)
    (read_stop : Bytes → Option StreamStop) {A : Type 0} (decode : Bytes → List A → List A × ℕ)
    (stops : (s : StreamStop) → read_stop (b.stop_body s) ≡ some s) where
  abbrev loop : List Poll → List A → ℕ → Looped A
  loop = capture_loop read_error read_stop decode none

  abbrev stop_frame : ℕ → Next
  stop_frame n = frame stream_stop (b.stop_body (record { dropped = n }))

  stop_step :
      (q : Poll) (ps : List Poll) (n : ℕ) (out : List A) (last : ℕ)
      → q.cancelled ≡ false
      → q.next ≡ stop_frame n
      → loop (q ∷ ps) out last ≡ stop_result n out
  unfolding capture_loop
  stop_step q ps n out last c e = elim (Bool-cases (ltb 0 n)) [
    | inl l ↦ rw (c, e, stops (record { dropped = n }), l) refl
    | inr l ↦ rw (c, e, stops (record { dropped = n }), l) refl
  ]

  -- The loop, over turns that bring these data frames and then the STREAM_STOP.
  capture_loop_lem :
      (ps : List Poll) (seq : ℕ) (fs : List Bytes) (n : ℕ) (more : List Next) (out : List A)
      (last : ℕ)
      → All IsPatient ps
      → arrivals ps ≡ map (passed b) (data_frames seq fs) ++ (stop_frame n ∷ more)
      → loop ps out last ≡ stop_result n (collect decode fs out)
  unfolding capture_loop
  capture_loop_lem [] seq [] n more out last p e = absurd cc
  capture_loop_lem [] seq (f ∷ fs) n more out last p e = absurd cc
  capture_loop_lem (q ∷ ps) seq [] n more out last p e = elim (Next-cases q.next) [
    | inl x ↦
        let e' = ap (λ m. arrived m (arrivals ps)) (sym x) ∙ e in
        rw (p.0, x) (capture_loop_lem ps seq [] n more out last p.1 e')
    | inr (inl x) ↦ let e' = ap (λ m. arrived m (arrivals ps)) (sym x) ∙ e in absurd cc
    | inr (inr (t, bs, x)) ↦
        let e' = ap (λ m. arrived m (arrivals ps)) (sym x) ∙ e in
        let here : frame t bs ≡ stop_frame n = cc in stop_step q ps n out last p.0 (x ∙ here)
  ]
  capture_loop_lem (q ∷ ps) seq (f ∷ fs) n more out last p e = elim (Next-cases q.next) [
    | inl x ↦
        let e' = ap (λ m. arrived m (arrivals ps)) (sym x) ∙ e in
        rw (p.0, x) (capture_loop_lem ps seq (f ∷ fs) n more out last p.1 e')
    | inr (inl x) ↦ let e' = ap (λ m. arrived m (arrivals ps)) (sym x) ∙ e in absurd cc
    | inr (inr (t, bs, x)) ↦
        let e' = ap (λ m. arrived m (arrivals ps)) (sym x) ∙ e in
        let here : frame t bs ≡ frame stream_data f = cc in
        let rest : arrivals ps ≡ map (passed b) (data_frames seq fs) ++ (stop_frame n ∷ more) =
          cc in
        let next = decode f out in
        rw (p.0, x ∙ here)
          (capture_loop_lem ps seq fs n more next.0 (if ltb 0 next.1 then q.data_at else last) p.1
            rest)
  ]

  -- A whole capture, over a device's frames.
  pub captured_lem :
      (read_start : Bytes → Option StreamStart) (drain : Drain A) (format : Text) (run : Run)
      (w : Wait) (ws : List Wait) (seq : ℕ) (fs : List Bytes) (n : ℕ)
      → ((s : StreamStart) → read_start (b.start_body s) ≡ some s)
      → run.opens ≡ true
      → run.start ≡ w ∷ ws
      → All IsPatient run.polls
      → w.next ∷ arrivals run.polls
        ≡ map
            (passed b)
            (Sent.stream_start seq format ∷ (data_frames seq fs ++ (Sent.stream_stop seq n ∷ [])))
      → captured read_error read_start read_stop decode drain none run
          (expect_start read_error read_start format)
        ≡ some (counted n (collect decode fs []))
  unfolding captured expect_start
  captured_lem read_start drain format run w ws seq fs n starts opens start patient e =
      let first : w.next ≡ frame stream_start (b.start_body (record { format = format })) = cc in
      let later : arrivals run.polls
          ≡ map (passed b) (data_frames seq fs ++ (Sent.stream_stop seq n ∷ [])) =
        cc in
      let looped =
        capture_loop_lem run.polls seq fs n [] [] run.opened_at patient
          (later ∙ map-append (passed b) (data_frames seq fs) (Sent.stream_stop seq n ∷ [])) in
      let wanted = text_eq_refl format in
      let known = starts (record { format = format }) in
      elim (Bool-cases (ltb 0 n)) [
        | inl l ↦ rw (opens, start, first, known, wanted, looped, l) refl
        | inr l ↦ rw (opens, start, first, known, wanted, looped, l) refl
      ]
