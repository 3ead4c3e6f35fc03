-- ===== src/Firmware/SubGhz/Capture.antt =====
-- firmware/src/subghz_instrument.rs: the statics of a capture, the interrupt that fills the buffer,
-- and the main loop's start, drain and stop. The stream buffer and the radio are parameters, and so
-- is whether the buffer can be allocated. Each step returns the statics, the frames that it sends
-- and its calls of the radio.
pub mod Records
pub mod Session
pub mod Runs
pub mod Lossy
pub mod Kept
pub mod Lossless
use flip_link.Base.{
  ℕ, zero, suc, ◌+◌, ◌-◌, ◌%◌, ◌^◌, Bool, true, false, not, ltb, leb, ◌==◌, ◌||◌, if◌then◌else◌,
}
use flip_link.Base.{List, [], ◌∷◌, ◌++◌, length, take, Option, none, some, codes}
use flip_link.Base.Results.{ok, err}
use flip_link.Proto.Bytes.{Bytes, u32_to_le_bytes}
use flip_link.Proto.Messages.{
  err_bad_params, err_busy, err_internal, stream_format_subghz_level_duration_v1,
}
use flip_link.Proto.Value.{Value}
use flip_link.Firmware.Params.{Answer}
use flip_link.Firmware.Stream.{
  StreamBuffer, send, receive, Sent, stream_start, stream_data, stream_stop, error,
}
use flip_link.Firmware.SubGhz.{
  TxEdge, FuriPreset, edge_record_size, required_frequency, required_preset,
}
use flip_link.Firmware.SubGhz.Transmit.{
  Radio, RadioCall, begin, reset, load_preset, set_frequency, set_rx, flush_rx, start_async_rx,
  stop_async_rx, idle, sleep, finish, put_away,
}

-- `CAPTURE_STREAM`, null or the bytes inside, whether `CAPTURE_DEVICE` is set, and the others.
pub record Capture : Type 0 where
  pub stream : Option Bytes
  pub active : Bool
  pub device : Bool
  pub seq : ℕ
  pub dropped : ℕ

abbrev pub Step : Type 0
Step = Capture × List Sent × List RadioCall

abbrev pub with_stream : Capture → Bytes → Capture
with_stream c inside = record {
  stream = some inside;
  active = c.active;
  device = c.device;
  seq = c.seq;
  dropped = c.dropped;
}

-- The record of an edge: the level, then the duration's four bytes.
abbrev pub record_bytes : TxEdge → Bytes
record_bytes e = (if e.level then 1 else 0) ∷ u32_to_le_bytes e.duration_us

-- `got - (got % EDGE_RECORD_SIZE)` bytes, when that is a record at least.
unfoldable pub whole_records : Bytes → Option Bytes
whole_records given =
    let whole = length given - length given % edge_record_size in
    if leb edge_record_size whole then some (take whole given) else none

unfoldable pub ensure_capture_buffer : Bool → Option Bytes → Option Bytes
ensure_capture_buffer allocates (some inside) = some inside
ensure_capture_buffer allocates none = if allocates then some [] else none

-- A round of the loop of `stop_capture`, before the rounds behind it.
abbrev pub after_batch : ℕ → Option Bytes → Bytes → Bytes × List Sent → Bytes × List Sent
after_batch seq none inside rest = (inside, [])
after_batch seq (some records) inside (last, sents) = (last, stream_data seq records ∷ sents)

module _ (sb : StreamBuffer) where
  unfoldable pub pushed : Bytes → TxEdge → Capture → Capture
  pushed inside e c =
      let (inside', sent) = send sb inside (record_bytes e) in
      record {
        stream = some inside';
        active = c.active;
        device = c.device;
        seq = c.seq;
        dropped = if sent == edge_record_size then c.dropped else (c.dropped + 1) % 2 ^ 32;
      }

  unfoldable pub rx_capture_isr : TxEdge → Capture → Capture
  rx_capture_isr e c = elim c.stream [
    | none ↦ c
    | some inside ↦ if e.duration_us == 0 then c else pushed inside e c
  ]

  -- `while receive(…, 128, 0) > 0 {}`
  unfoldable pub empty_stream : ℕ → Bytes → Bytes
  empty_stream zero inside = inside
  empty_stream (suc fuel) inside =
      let (given, inside') = receive sb inside 128 in
      let rest = empty_stream fuel inside' in if ltb 0 (length given) then rest else inside'

  unfoldable pub armed : ℕ → ℕ → FuriPreset → Bytes → Step
  armed seq frequency preset inside = (
    record {
      stream = some (empty_stream (suc (length inside)) inside);
      active = true;
      device = true;
      seq = seq;
      dropped = 0;
    },
    stream_start seq stream_format_subghz_level_duration_v1 ∷ [],
    begin true
        ∷ reset
        ∷ load_preset preset
        ∷ set_frequency frequency
        ∷ set_rx
        ∷ flush_rx
        ∷ start_async_rx
        ∷ [],
  )

  -- The device is begun: the buffer, or the end of the session again.
  unfoldable pub buffer_or_end : ℕ → ℕ → FuriPreset → Option Bytes → Capture → Step
  buffer_or_end seq frequency preset none c =
      (c, error seq err_internal (codes "no subghz capture buffer") ∷ [], begin true ∷ finish ∷ [])
  buffer_or_end seq frequency preset (some inside) c = armed seq frequency preset inside

  unfoldable pub open_capture : Radio → Bool → ℕ → ℕ → FuriPreset → Capture → Step
  open_capture radio allocates seq frequency preset c =
      if not radio.is_present
      then (c, error seq err_internal (codes "subghz internal device unavailable") ∷ [], [])
      else if not (radio.is_frequency_valid frequency)
      then (c, error seq err_bad_params (codes "invalid subghz frequency") ∷ [], [])
      else if not radio.begins
      then (c, error seq err_busy (codes "subghz device unavailable") ∷ [], begin false ∷ [])
      else buffer_or_end seq frequency preset (ensure_capture_buffer allocates c.stream) c

  unfoldable pub after_preset : Radio → Bool → ℕ → ℕ → Answer FuriPreset → Capture → Step
  after_preset radio allocates seq frequency (err (code, message)) c =
      (c, error seq code message ∷ [], [])
  after_preset radio allocates seq frequency (ok preset) c =
      open_capture radio allocates seq frequency preset c

  unfoldable pub after_frequency : Radio → Bool → ℕ → Answer ℕ → Answer FuriPreset → Capture → Step
  after_frequency radio allocates seq (err (code, message)) preset c =
      (c, error seq code message ∷ [], [])
  after_frequency radio allocates seq (ok frequency) preset c =
      after_preset radio allocates seq frequency preset c

  unfoldable pub start_capture : Radio → Bool → ℕ → Value → Capture → Step
  start_capture radio allocates seq params c =
      if c.active
      then (c, error seq err_busy (codes "subghz busy") ∷ [], [])
      else after_frequency radio allocates seq (required_frequency params) (required_preset params)
          c

  -- One receive of up to 250 bytes: its whole records, if any, and the bytes inside after.
  unfoldable pub batch : Bytes → Option Bytes × Bytes
  batch inside = let (given, inside') = receive sb inside 250 in (whole_records given, inside')

  unfoldable pub drain_stream : Bytes → Capture → Capture × List Sent
  drain_stream inside c =
      let (found, inside') = batch inside in
      (
        with_stream c inside',
        elim found [ none ↦ [] | some records ↦ stream_data c.seq records ∷ [] ],
      )

  unfoldable pub drain_capture : Capture → Capture × List Sent
  drain_capture c = elim c.stream [
    | none ↦ (c, [])
    | some inside ↦ if not c.active then (c, []) else drain_stream inside c
  ]

  -- The loop of `stop_capture`: it ends at the first batch without a whole record.
  unfoldable pub flush : ℕ → ℕ → Bytes → Bytes × List Sent
  flush seq zero inside = (inside, [])
  flush seq (suc fuel) inside =
      let taken = batch inside in
      let rest = flush seq fuel taken.1 in after_batch seq taken.0 taken.1 rest

  -- Each round but the last takes 5 bytes at least.
  unfoldable pub flush_all : ℕ → Option Bytes → Option Bytes × List Sent
  flush_all seq none = (none, [])
  flush_all seq (some inside) =
      let (inside', sents) = flush seq (suc (length inside)) inside in (some inside', sents)

  unfoldable pub stop_capture : Capture → Step
  stop_capture c =
      let (stream', sents) = flush_all c.seq c.stream in
      if not c.active then (c, [], []) else (
        record {
          stream = stream';
          active = false;
          device = false;
          seq = c.seq;
          dropped = c.dropped;
        },
        sents ++ (stream_stop c.seq c.dropped ∷ []),
        stop_async_rx ∷ (if c.device then put_away else []),
      )
