-- ===== src/Firmware/SubGhz/Capture/Runs.antt =====
-- Runs of a capture of firmware/src/subghz_instrument.rs: the main loop's calls, in any order, with
-- the interrupt at any place between them.
use flip_link.Base.{
  ℕ, ◌≡◌, refl, Bool, ◌==◌, not, Option, none, some, inl, inr, List, [], ◌∷◌, if-either,
  if◌then◌else◌,
}
use flip_link.Proto.Bytes.{Bytes}
use flip_link.Proto.Value.{Value}
use flip_link.Firmware.Stream.{StreamBuffer, Sent}
use flip_link.Firmware.SubGhz.{TxEdge}
use flip_link.Firmware.SubGhz.Transmit.{Radio}
use flip_link.Firmware.SubGhz.Transmit.Release.{held}
use flip_link.Firmware.SubGhz.Capture.{
  Capture, rx_capture_isr, pushed, start_capture, drain_stream, drain_capture, stop_capture,
}
use flip_link.Firmware.SubGhz.Capture.Session.{IsHeld, start_capture-IsHeld, stop_capture-IsHeld}

-- A request with what the radio and the allocator answer, the end of a stream, a round of the main
-- loop, and an interrupt.
pub data Event : Type 0 where
  starts : Radio → Bool → ℕ → Value → Event
  stops drains : Event
  edge : TxEdge → Event

-- Two captures that differ in the buffer and the count of dropped edges.
abbrev IsLike : Capture → Capture → Type 0
IsLike c c' = (c'.active ≡ c.active) × (c'.device ≡ c.device)

module _ (sb : StreamBuffer) where
  -- How many sessions of the radio are open after an event, and the statics.
  abbrev pub step : Event → ℕ → Capture → ℕ × Capture
  step (starts radio allocates seq params) n c = (
    held n (start_capture sb radio allocates seq params c).2,
    (start_capture sb radio allocates seq params c).0,
  )
  step stops n c = (held n (stop_capture sb c).2, (stop_capture sb c).0)
  step drains n c = (n, (drain_capture sb c).0)
  step (edge e) n c = (n, rx_capture_isr sb e c)

  abbrev pub run : List Event → ℕ → Capture → ℕ × Capture
  run [] n c = (n, c)
  run (e ∷ es) n c = run es (step e n c).0 (step e n c).1

  isr-IsLike : (e : TxEdge) (c : Capture) → IsLike c (rx_capture_isr sb e c)
  unfolding rx_capture_isr pushed
  isr-IsLike e c = on c.stream
    where
      on :
          (s : Option Bytes)
          → IsLike c (elim s [
            | none ↦ c
            | some inside ↦ if e.duration_us == 0 then c else pushed sb inside e c
          ])
      on none = (refl, refl)
      on (some inside) =
          if-either (IsLike c) (e.duration_us == 0) c (pushed sb inside e c) (refl, refl)
            (refl, refl)

  drain-IsLike : (c : Capture) → IsLike c (drain_capture sb c).0
  unfolding drain_capture drain_stream
  drain-IsLike c = on c.stream
    where
      on :
          (s : Option Bytes)
          → IsLike c
              (elim s as (λ (o : Option Bytes). Capture × List Sent) [
                | none ↦ (c, [])
                | some inside ↦ if not c.active then (c, []) else drain_stream sb inside c
              ]).0
      on none = (refl, refl)
      on (some inside) =
          if-either (λ r. IsLike c r.0) (not c.active) (c, []) (drain_stream sb inside c)
            (refl, refl) (refl, refl)

  like-IsHeld : (n : ℕ) (c c' : Capture) → IsLike c c' → IsHeld n c → IsHeld n c'
  like-IsHeld n c c' (a, d) (inl (x, y, z)) = inl (rw a x, rw d y, z)
  like-IsHeld n c c' (a, d) (inr (x, z)) = inr (rw a x, z)

  step-IsHeld :
      (e : Event) (n : ℕ) (c : Capture) → IsHeld n c → IsHeld (step e n c).0 (step e n c).1
  step-IsHeld (starts radio allocates seq params) n c h =
      start_capture-IsHeld sb radio allocates seq params c n h
  step-IsHeld stops n c h = let (a, b) = stop_capture-IsHeld sb c n h in inr (b, a)
  step-IsHeld drains n c h = like-IsHeld n c (drain_capture sb c).0 (drain-IsLike c) h
  step-IsHeld (edge e) n c h = like-IsHeld n c (rx_capture_isr sb e c) (isr-IsLike e c) h

-- Over any list of starts, with whatever the radio and the allocator answer and whatever the
-- parameters are, of stops, of rounds that drain and of interrupts, from statics whose capture runs
-- just when the radio is held for it: the statics and the radio are so afterwards.
pub run-IsHeld :
    (sb : StreamBuffer) (events : List Event) (n : ℕ) (c : Capture)
    → IsHeld n c
    → IsHeld (run sb events n c).0 (run sb events n c).1
run-IsHeld sb [] n c h = h
run-IsHeld sb (e ∷ es) n c h =
    run-IsHeld sb es (step sb e n c).0 (step sb e n c).1 (step-IsHeld sb e n c h)
