-- ===== src/Firmware/Ir/Capture.antt =====
-- firmware/src/ir_instrument.rs: the statics of a capture, the interrupt that fills the buffer, and
-- the main loop's start, drain and stop. The stream buffer is a parameter, and so is what the SDK
-- answers: whether the infrared is busy, and whether the buffer can be allocated.
pub mod Queue
pub mod Session
use flip_link.Base.{
  ℕ, zero, suc, ◌+◌, ◌-◌, ◌%◌, ◌^◌, Bool, true, false, not, ltb, leb, ◌==◌, ◌||◌, if◌then◌else◌,
}
use flip_link.Base.{List, [], ◌∷◌, ◌++◌, length, take, Option, none, some, codes}
use flip_link.Proto.Bytes.{Bytes, u32_to_le_bytes}
use flip_link.Proto.Messages.{err_busy, err_internal, stream_format_raw_i32_us}
use flip_link.Firmware.Stream.{
  StreamBuffer, send, receive, Sent, stream_start, stream_data, stream_stop, error,
}

abbrev pub capture_cap : ℕ
capture_cap = 4096

-- `CAPTURE_STREAM`, null or the bytes inside, and the other statics.
pub record Capture : Type 0 where
  pub stream : Option Bytes
  pub active : Bool
  pub seq : ℕ
  pub dropped : ℕ

-- `got - (got % 4)` bytes, when that is 4 at least.
unfoldable pub whole_samples : Bytes → Option Bytes
whole_samples given =
    let whole = length given - length given % 4 in
    if leb 4 whole then some (take whole given) else none

-- `ensure_capture_buffer`: the buffer is allocated once; `allocates` tells whether that succeeds.
unfoldable pub ensure_capture_buffer : Bool → Option Bytes → Option Bytes
ensure_capture_buffer allocates (some inside) = some inside
ensure_capture_buffer allocates none = if allocates then some [] else none

-- A round of the loop of `stop_capture`, before the rounds behind it.
abbrev pub after_batch : ℕ → Option Bytes → Bytes → Bytes × List Sent → Bytes × List Sent
after_batch seq none inside rest = (inside, [])
after_batch seq (some samples) inside (last, sents) = (last, stream_data seq samples ∷ sents)

module _ (sb : StreamBuffer) where
  -- `(duration as i32).to_le_bytes()` has the bytes of `duration`.
  unfoldable pub pushed : Bytes → ℕ → Capture → Capture
  pushed inside duration c =
      let (inside', sent) = send sb inside (u32_to_le_bytes duration) in
      record {
        stream = some inside';
        active = c.active;
        seq = c.seq;
        dropped = if sent == 4 then c.dropped else (c.dropped + 1) % 2 ^ 32;
      }

  unfoldable pub rx_capture_isr : ℕ → Capture → Capture
  rx_capture_isr duration c = elim c.stream [ none ↦ c | some inside ↦ pushed inside duration c ]

  -- `while receive(…, 64, 0) > 0 {}`
  unfoldable pub empty_stream : ℕ → Bytes → Bytes
  empty_stream zero inside = inside
  empty_stream (suc fuel) inside =
      let (given, inside') = receive sb inside 64 in
      let rest = empty_stream fuel inside' in if ltb 0 (length given) then rest else inside'

  unfoldable pub armed : ℕ → Bytes → Capture × List Sent
  armed seq inside = (
    record {
      stream = some (empty_stream (suc (length inside)) inside);
      active = true;
      seq = seq;
      dropped = 0;
    },
    stream_start seq stream_format_raw_i32_us ∷ [],
  )

  unfoldable pub start_capture : Bool → Bool → ℕ → Capture → Capture × List Sent
  start_capture is_busy allocates seq c =
      if c.active || is_busy
      then (c, error seq err_busy (codes "ir busy") ∷ [])
      else elim (ensure_capture_buffer allocates c.stream) [
        | none ↦ (c, error seq err_internal (codes "no capture buffer") ∷ [])
        | some inside ↦ armed seq inside
      ]

  -- One receive of up to 256 bytes: its whole samples, if any, and the bytes inside after.
  unfoldable pub batch : Bytes → Option Bytes × Bytes
  batch inside = let (given, inside') = receive sb inside 256 in (whole_samples given, inside')

  unfoldable pub drain_stream : Bytes → Capture → Capture × List Sent
  drain_stream inside c =
      let (found, inside') = batch inside in
      (
        record { stream = some inside'; active = c.active; seq = c.seq; dropped = c.dropped },
        elim found [ none ↦ [] | some samples ↦ stream_data c.seq samples ∷ [] ],
      )

  unfoldable pub drain_capture : Capture → Capture × List Sent
  drain_capture c = elim c.stream [
    | none ↦ (c, [])
    | some inside ↦ if not c.active then (c, []) else drain_stream inside c
  ]

  -- The loop of `stop_capture`: it ends at the first batch without a whole sample.
  unfoldable pub flush : ℕ → ℕ → Bytes → Bytes × List Sent
  flush seq zero inside = (inside, [])
  flush seq (suc fuel) inside =
      let taken = batch inside in
      let rest = flush seq fuel taken.1 in after_batch seq taken.0 taken.1 rest

  -- Each round but the last takes 4 bytes at least.
  unfoldable pub flushed : Capture → Capture × List Sent
  flushed c = elim c.stream [
    | none ↦ (
      record { stream = none; active = false; seq = c.seq; dropped = c.dropped },
      stream_stop c.seq c.dropped ∷ [],
    )
    | some inside ↦
        let (inside', sents) = flush c.seq (suc (length inside)) inside in
        (
          record { stream = some inside'; active = false; seq = c.seq; dropped = c.dropped },
          sents ++ (stream_stop c.seq c.dropped ∷ []),
        )
  ]

  unfoldable pub stop_capture : Capture → Capture × List Sent
  stop_capture c = if not c.active then (c, []) else flushed c
