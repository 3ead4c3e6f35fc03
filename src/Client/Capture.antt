-- ===== src/Client/Capture.antt =====
-- crates/flip-client/src/lib.rs: the calls of the library, and the loops that capture a signal. What
-- the daemon's connection and the clock do is a list of turns; the CBOR of the bodies is a parameter.
-- The idle gap and the clock are numbers of one unit.
pub mod Arrived
pub mod EndToEnd
pub mod SubGhzEndToEnd
mod Tests
use flip_link.Base.{
  ℕ, ◌-◌, Bool, true, false, ltb, leb, not, ◌&&◌, if◌then◌else◌, List, [], ◌∷◌, ◌++◌, Option, none,
  some, Text, codes, text_eq,
}
use flip_link.Base.Results.{Result, ok, err, ok_or, ◌>>=◌}
use flip_link.Proto.Bytes.{Bytes}
use flip_link.Proto.Frame.{MsgType, stream_start, stream_data, stream_stop, error}
use flip_link.Proto.Messages.{
  AgentError, StreamStart, StreamStop, stream_format_raw_i32_us,
  stream_format_subghz_level_duration_v1,
}
use flip_link.Proto.Value.{Value, Entries, find}
use flip_link.Str.{is_empty}
use flip_link.Client.Signal.{IrSignal, from_capture}
use flip_link.Client.Signal as Ir
use flip_link.Client.SubGhz.{SubGhzPreset, SubGhzEdge, SubGhzSignal}
use flip_link.Client.SubGhz as SubGhz

pub data ClientError : Type 0 where
  io timed_out bad_start bad_stop bad_error not_sent not_counted nothing_captured : ClientError
  device_error : ℕ → Text → ClientError
  unsupported_format : Text → ClientError
  unexpected : MsgType → ClientError
  dropped_samples : ℕ → ClientError

-- What `conn.next_frame` gives.
pub data Next : Type 0 where
  frame : MsgType → Bytes → Next
  nothing broken : Next

-- A turn of a loop that waits, and whether its deadline has passed behind the frame.
pub record Wait : Type 0 where
  pub next : Next
  pub late : Bool

-- A turn of a capture: whether `cancel()` holds, the frame, the clock when it is read, and the clock
-- at the test of the idle gap.
pub record Poll : Type 0 where
  pub cancelled : Bool
  pub next : Next
  pub data_at : ℕ
  pub now : ℕ

-- A capture: whether the connection opens, the turns of the start, of the loop, whether the stop can
-- be sent, and the turns behind it.
pub record Run : Type 0 where
  pub opens : Bool
  pub start : List Wait
  pub opened_at : ℕ
  pub polls : List Poll
  pub sends : Bool
  pub stop : List Wait

-- How the main loop ends: by its own will, by the device's STREAM_STOP, or by an error; `looping`
-- when the turns end first.
pub data Looped {ℓ} (A : Type ℓ) : Type ℓ where
  broke finished : List A → Looped A
  gave_up : ClientError → Looped A
  looping : Looped A

abbrev number_of : Option Value → Result ℕ ClientError
number_of (some (Value.u64 n)) = ok n
number_of _ = err not_sent

-- `sent_count`, of the result of a transmission.
unfoldable pub sent_count : Value → Result ℕ ClientError
sent_count (Value.u64 n) = ok n
sent_count (Value.map fields) = number_of (find fields (codes "sent"))
sent_count _ = err not_counted

module _ (read_error : Bytes → Option AgentError) where
  abbrev agent_error : Option AgentError → ClientError
  agent_error none = bad_error
  agent_error (some e) = device_error e.code e.message

  abbrev pub decode_agent_error : Bytes → ClientError
  decode_agent_error payload = agent_error (read_error payload)

  module _ (read_start : Bytes → Option StreamStart) where
    abbrev checked_start : Text → Option StreamStart → Result (Unit {0}) ClientError
    checked_start format none = err bad_start
    checked_start format (some start) =
        if text_eq start.format format then ok tt else err (unsupported_format start.format)

    -- `validate_capture_stream_start_frame` and its Sub-GHz copy, which differ in the format.
    abbrev pub validate_start : Text → MsgType → Bytes → Result (Unit {0}) ClientError
    validate_start format stream_start payload = checked_start format (read_start payload)
    validate_start format error payload = err (decode_agent_error payload)
    validate_start format other payload = err (unexpected other)

    -- The loop of `expect_capture_stream_start`; `none` while the turns do not decide it.
    unfoldable pub expect_start : Text → List Wait → Option (Result (Unit {0}) ClientError)
    expect_start format [] = none
    expect_start format (w ∷ ws) = elim w.next [
      | frame typ payload ↦ some (validate_start format typ payload)
      | nothing ↦
          (let later = expect_start format ws in if w.late then some (err timed_out) else later)
      | broken ↦ some (err io)
    ]

  module _ (read_stop : Bytes → Option StreamStop) where
    abbrev pub checked_stop : Option StreamStop → Result (Unit {0}) ClientError
    checked_stop none = err bad_stop
    checked_stop (some stop) =
        if ltb 0 stop.dropped then err (dropped_samples stop.dropped) else ok tt

    abbrev pub handle_stream_stop : Bytes → Result (Unit {0}) ClientError
    handle_stream_stop payload = checked_stop (read_stop payload)

    -- The two instruments' loops differ in what a payload is decoded to.
    module _ {A : Type 0} (decode : Bytes → List A → List A × ℕ) where
      abbrev ended : List A → Result (Unit {0}) ClientError → Looped A
      ended out (ok _) = finished out
      ended out (err e) = gave_up e

      abbrev is_idle : Option ℕ → List A → ℕ → ℕ → Bool
      is_idle none out last now = false
      is_idle (some gap) out last now = not (is_empty out) && leb gap (now - last)

      -- The frame of a turn; `rest` is the turn's end, with the samples and the time of the last.
      abbrev on_frame : Poll → Next → List A → ℕ → (List A → ℕ → Looped A) → Looped A
      on_frame p (frame stream_data payload) out last rest =
          let (out', n) = decode payload out in rest out' (if ltb 0 n then p.data_at else last)
      on_frame p (frame stream_stop payload) out last rest = ended out (handle_stream_stop payload)
      on_frame p (frame error payload) out last rest = gave_up (decode_agent_error payload)
      on_frame p (frame other payload) out last rest = gave_up (unexpected other)
      on_frame p nothing out last rest = rest out last
      on_frame p broken out last rest = gave_up io

      -- The main loop of `ir_capture` and of `subghz_capture`.
      unfoldable pub capture_loop : Option ℕ → List Poll → List A → ℕ → Looped A
      capture_loop idle_gap [] out last = looping
      capture_loop idle_gap (p ∷ ps) out last =
          if p.cancelled
          then broke out
          else on_frame p p.next out last λ out' last'.
            let later = capture_loop idle_gap ps out' last' in
            if is_idle idle_gap out' last' p.now then broke out' else later

      abbrev stopped : List A → Result (Unit {0}) ClientError → Result (List A) ClientError
      stopped out (ok _) = ok out
      stopped out (err e) = err e

      -- `drain_capture_stop` and its Sub-GHz copy.
      unfoldable pub drain_stop : List Wait → List A → Option (Result (List A) ClientError)
      drain_stop [] out = none
      drain_stop (w ∷ ws) out =
          let or_late : Option (Result (List A) ClientError)
              → Option (Result (List A) ClientError) =
            λ later. if w.late then some (err timed_out) else later in
          elim w.next [
            | frame typ payload ↦ elim typ [
              | stream_data ↦ or_late (drain_stop ws (decode payload out).0)
              | stream_stop ↦ some (stopped out (handle_stream_stop payload))
              | error ↦ some (err (decode_agent_error payload))
              | other ↦ some (err (unexpected other))
            ]
            | nothing ↦ or_late (drain_stop ws out)
            | broken ↦ some (err io)
          ]

-- How a stop is awaited, behind what was captured.
abbrev pub Drain : Type 0 → Type 0
Drain A = List Wait → List A → Option (Result (List A) ClientError)

-- The end of a capture: when the device has not stopped by itself, it is asked to.
abbrev pub after_loop :
    {A : Type 0} → Drain A → Bool → List Wait → Looped A → Option (Result (List A) ClientError)
after_loop drain sends stop (broke out) = if sends then drain stop out else some (err io)
after_loop drain sends stop (finished out) = some (ok out)
after_loop drain sends stop (gave_up e) = some (err e)
after_loop drain sends stop looping = none

abbrev pub ir_signal : List ℕ → Result IrSignal ClientError
ir_signal raw =
    let signal = from_capture raw in
    if is_empty signal.timings then err nothing_captured else ok signal

abbrev pub ir_result : Option (Result (List ℕ) ClientError) → Option (Result IrSignal ClientError)
ir_result none = none
ir_result (some (err e)) = some (err e)
ir_result (some (ok raw)) = some (ir_signal raw)

abbrev pub subghz_signal : ℕ → SubGhzPreset → List SubGhzEdge → Result SubGhzSignal ClientError
subghz_signal frequency preset edges =
    if is_empty edges
    then err nothing_captured
    else ok (record { frequency = frequency; preset = preset; edges = edges })

abbrev pub subghz_result :
    ℕ
    → SubGhzPreset
    → Option (Result (List SubGhzEdge) ClientError)
    → Option (Result SubGhzSignal ClientError)
subghz_result frequency preset none = none
subghz_result frequency preset (some (err e)) = some (err e)
subghz_result frequency preset (some (ok edges)) = some (subghz_signal frequency preset edges)

module _ (read_error : Bytes → Option AgentError) (read_start : Bytes → Option StreamStart)
    (read_stop : Bytes → Option StreamStop) where
  abbrev pub expect_capture_stream_start : List Wait → Option (Result (Unit {0}) ClientError)
  expect_capture_stream_start = expect_start read_error read_start stream_format_raw_i32_us

  abbrev pub expect_subghz_stream_start : List Wait → Option (Result (Unit {0}) ClientError)
  expect_subghz_stream_start =
      expect_start read_error read_start stream_format_subghz_level_duration_v1

  abbrev pub drain_capture_stop : Drain ℕ
  drain_capture_stop = drain_stop read_error read_stop Ir.decode_stream_data

  abbrev pub drain_subghz_capture_stop : Drain SubGhzEdge
  drain_subghz_capture_stop = drain_stop read_error read_stop SubGhz.decode_stream_data

  module _ {A : Type 0} (decode : Bytes → List A → List A × ℕ) (drain : Drain A) where
    abbrev after_start :
        Option ℕ
        → Run
        → Option (Result (Unit {0}) ClientError)
        → Option (Result (List A) ClientError)
    after_start idle_gap run none = none
    after_start idle_gap run (some (err e)) = some (err e)
    after_start idle_gap run (some (ok _)) =
        after_loop drain run.sends run.stop
          (capture_loop read_error read_stop decode idle_gap run.polls [] run.opened_at)

    -- What a capture collects, `none` while its turns do not decide it.
    unfoldable pub captured :
        Option ℕ
        → Run
        → (List Wait → Option (Result (Unit {0}) ClientError))
        → Option (Result (List A) ClientError)
    captured idle_gap run start =
        if run.opens then after_start idle_gap run (start run.start) else some (err io)

  unfoldable pub ir_capture : Option ℕ → Run → Option (Result IrSignal ClientError)
  ir_capture idle_gap run =
      ir_result
        (captured Ir.decode_stream_data drain_capture_stop idle_gap run expect_capture_stream_start)

  unfoldable pub subghz_capture :
      ℕ → SubGhzPreset → Option ℕ → Run → Option (Result SubGhzSignal ClientError)
  subghz_capture frequency preset idle_gap run = subghz_result frequency preset (
      captured SubGhz.decode_stream_data drain_subghz_capture_stop idle_gap run
        expect_subghz_stream_start)
