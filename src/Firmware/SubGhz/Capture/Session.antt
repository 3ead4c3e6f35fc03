-- ===== src/Firmware/SubGhz/Capture/Session.antt =====
-- The radio over a capture of firmware/src/subghz_instrument.rs: each session begun is ended.
use flip_link.Base.{
  ℕ, ◌≡◌, refl, Bool, true, false, not, Option, none, some, if-either, ◌⊎◌, inl, inr,
}
use flip_link.Base.Results.{ok, err}
use flip_link.Proto.Bytes.{Bytes}
use flip_link.Proto.Value.{Value}
use flip_link.Firmware.Params.{Answer}
use flip_link.Firmware.Stream.{StreamBuffer}
use flip_link.Firmware.SubGhz.{FuriPreset, required_frequency, required_preset}
use flip_link.Firmware.SubGhz.Transmit.{Radio}
use flip_link.Firmware.SubGhz.Transmit.Release.{held}
use flip_link.Firmware.SubGhz.Capture.{
  Capture, Step, ensure_capture_buffer, armed, buffer_or_end, open_capture, after_preset,
  after_frequency, start_capture, stop_capture,
}

-- A capture runs just when the radio is held for it, and then `CAPTURE_DEVICE` is set.
abbrev pub IsHeld : ℕ → Capture → Type 0
IsHeld n c = ((c.active ≡ true) × (c.device ≡ true) × (n ≡ 1)) ⊎ ((c.active ≡ false) × (n ≡ 0))

abbrev Good : Step → Type 0
Good s = IsHeld (held 0 s.2) s.0

module _ (sb : StreamBuffer) where
  module _ (c : Capture) (a : c.active ≡ false) where
    buffer_lem :
        (seq frequency : ℕ) (preset : FuriPreset) (buffer : Option Bytes)
        → Good (buffer_or_end sb seq frequency preset buffer c)
    unfolding buffer_or_end armed
    buffer_lem seq frequency preset none = inr (a, refl)
    buffer_lem seq frequency preset (some inside) = inl (refl, refl, refl)

    open_lem :
        (radio : Radio) (allocates : Bool) (seq frequency : ℕ) (preset : FuriPreset)
        → Good (open_capture sb radio allocates seq frequency preset c)
    unfolding open_capture
    open_lem radio allocates seq frequency preset =
        if-either Good (not radio.is_present) _ _ (inr (a, refl)) (
          if-either Good (not (radio.is_frequency_valid frequency)) _ _ (inr (a, refl)) (
            if-either Good (not radio.begins) _ _ (inr (a, refl))
              (buffer_lem seq frequency preset (ensure_capture_buffer allocates c.stream))))

    preset_lem :
        (radio : Radio) (allocates : Bool) (seq frequency : ℕ) (preset : Answer FuriPreset)
        → Good (after_preset sb radio allocates seq frequency preset c)
    unfolding after_preset
    preset_lem radio allocates seq frequency (err e) = inr (a, refl)
    preset_lem radio allocates seq frequency (ok preset) =
        open_lem radio allocates seq frequency preset

    frequency_lem :
        (radio : Radio) (allocates : Bool) (seq : ℕ) (frequency : Answer ℕ)
        (preset : Answer FuriPreset)
        → Good (after_frequency sb radio allocates seq frequency preset c)
    unfolding after_frequency
    frequency_lem radio allocates seq (err e) preset = inr (a, refl)
    frequency_lem radio allocates seq (ok frequency) preset =
        preset_lem radio allocates seq frequency preset

-- From statics whose capture runs just when the radio is held for it, whatever the radio answers,
-- whether or not the buffer can be allocated, and whatever the parameters are: `start_capture` leaves
-- the statics and the radio so, whether it starts a capture or refuses to.
pub start_capture-IsHeld :
    (sb : StreamBuffer) (radio : Radio) (allocates : Bool) (seq : ℕ) (params : Value) (c : Capture)
    (n : ℕ)
    → IsHeld n c
    → IsHeld
        (held n (start_capture sb radio allocates seq params c).2)
        (start_capture sb radio allocates seq params c).0
unfolding start_capture
start_capture-IsHeld sb radio allocates seq params c n (inl (a, d, e)) = simp a (inl (refl, d, e))
start_capture-IsHeld sb radio allocates seq params c n (inr (a, e)) =
    simp (a, e)
      (frequency_lem sb c a radio allocates seq (required_frequency params)
        (required_preset params))

-- From statics whose capture runs just when the radio is held for it: after `stop_capture` the radio
-- is not held and no capture runs.
pub stop_capture-IsHeld :
    (sb : StreamBuffer) (c : Capture) (n : ℕ)
    → IsHeld n c
    → (held n (stop_capture sb c).2 ≡ 0) × ((stop_capture sb c).0.active ≡ false)
unfolding stop_capture
stop_capture-IsHeld sb c n (inl (a, d, e)) = rw (a, d, e) (refl, refl)
stop_capture-IsHeld sb c n (inr (a, e)) = rw (a, e) (refl, refl)
