-- ===== src/Firmware/Usb.antt =====
-- firmware/src/main.rs: the USB callbacks, what the outer loop receives from their buffer, and how
-- frames are sent. The interrupts run between the steps of the loop; a step returns the statics.
pub mod Heard
pub mod Sending
pub mod Served
mod Tests
use flip_link.Base.{
  ℕ, zero, suc, ◌+◌, min, Bool, true, false, ltb, ◌==◌, ◌&&◌, if◌then◌else◌, List, [], ◌∷◌, ◌++◌,
  length, take, drop, replicate, Option, none, some,
}
use flip_link.Proto.Bytes.{Bytes}
use flip_link.Proto.Frame.{
  MsgType, caps, resp, error, stream_start, stream_data, stream_stop, encode, header_size,
}
use flip_link.Proto.Messages.{Caps, Resp, AgentError, StreamStart, StreamStop}
use flip_link.Firmware.Stream.{StreamBuffer, send, receive, Sent}
use flip_link.Firmware.Loop.{Reply, Received, overflow, nothing, chunk}

abbrev pub rx_stream_cap : ℕ
rx_stream_cap = 1024

-- `CHUNK`
abbrev pub chunk_size : ℕ
chunk_size = 64

-- The bytes inside the buffer of `RX_STREAM`, and `RX_OVERFLOWED`.
pub record Rx : Type 0 where
  pub inside : Bytes
  pub overflowed : Bool

-- Where the outer loop stands: before its receive, with what was given, or in the loop that empties
-- the buffer. What it does between two of these does not touch the buffer.
pub data Phase : Type 0 where
  receiving emptying : Phase
  checking : Bytes → Phase

pub data Event : Type 0 where
  usb : Bytes → Event
  turn : Event

module _ (sb : StreamBuffer) where
  unfoldable pub stored : Bytes → Rx → Rx
  stored bytes r =
      let (inside', sent) = send sb r.inside bytes in
      record { inside = inside'; overflowed = if sent == length bytes then r.overflowed else true }

  -- The interrupt, over what the endpoint gives it; `none` is the null pointer.
  unfoldable pub rx_callback : Bytes → Option Rx → Option Rx
  rx_callback bytes none = none
  rx_callback bytes (some r) = some (if ltb 0 (length bytes) then stored bytes r else r)

  abbrev pub received_in : Bytes → Received
  received_in [] = nothing
  received_in (b ∷ bytes) = chunk (b ∷ bytes)

  -- The loop's next access, and what a round has received with it. The flag is read and cleared
  -- by one `swap`.
  unfoldable pub access : Phase → Rx → Phase × Rx × List Received
  access receiving r =
      let (given, inside') = receive sb r.inside chunk_size in
      (checking given, record { inside = inside'; overflowed = r.overflowed }, [])
  access (checking given) r =
      if r.overflowed
      then (emptying, record { inside = r.inside; overflowed = false }, overflow ∷ [])
      else (receiving, r, received_in given ∷ [])
  access emptying r =
      let (given, inside') = receive sb r.inside chunk_size in
      (
        if length given == 0 then receiving else emptying,
        record { inside = inside'; overflowed = r.overflowed },
        [],
      )

  -- Interrupts and accesses in any order, with what the rounds have received.
  unfoldable pub listen : List Event → Phase → Rx → Phase × Rx × List Received
  listen [] p r = (p, r, [])
  listen (usb bytes ∷ events) p r =
      listen events p (if ltb 0 (length bytes) then stored bytes r else r)
  listen (turn ∷ events) p r =
      let (p', r', now) = access p r in
      let (q, last, later) = listen events p' r' in (q, last, now ++ later)

-- The semaphore's count after `tx_callback`; it holds one credit at most.
unfoldable pub tx_callback : Option ℕ → Option ℕ
tx_callback none = none
tx_callback (some credits) = some (min 1 (credits + 1))

-- The kind and the key of an input event, as numbers of the SDK: `RUNNING` after it.
unfoldable pub input_callback : ℕ → ℕ → Option (ℕ × ℕ) → Bool → Bool
input_callback type_short key_back none running = running
input_callback type_short key_back (some (typ, key)) running =
    if typ == type_short && key == key_back then false else running

-- `cdc_send_all` from round `i` on, over whether each wait for the semaphore ends in time; a null
-- semaphore is not waited for. Each round takes a byte at least.
unfoldable pub send_from : (ℕ → Bool) → ℕ → ℕ → Bytes → List Bytes
send_from acquires i zero bytes = []
send_from acquires i (suc fuel) [] = []
send_from acquires i (suc fuel) (b ∷ bytes) =
    let rest = send_from acquires (suc i) fuel (drop chunk_size (b ∷ bytes)) in
    if acquires i then take chunk_size (b ∷ bytes) ∷ rest else []

unfoldable pub cdc_send_all : (ℕ → Bool) → Bytes → List Bytes
cdc_send_all acquires bytes = send_from acquires 0 (length bytes) bytes

-- The bytes of a frame that could be encoded.
abbrev pub encoded : Option (ℕ × Bytes) → Bytes
encoded none = []
encoded (some (n, frame)) = take n frame

-- `send_msg` and `send_stream_data`, up to the call of `cdc_send_all`.
unfoldable pub framed : MsgType → ℕ → Bytes → Bytes
framed typ seq payload =
    encoded (encode typ 0 seq payload (replicate (header_size + length payload + 2) 0))

-- The CBOR of the bodies that the device sends.
pub record Bodies : Type 0 where
  pub of_caps : Caps → Bytes
  pub of_resp : Resp → Bytes
  pub of_error : AgentError → Bytes
  pub of_start : StreamStart → Bytes
  pub of_stop : StreamStop → Bytes

module _ (b : Bodies) where
  -- `send_stream_start`, `send_stream_data`, `send_stream_stop`, `send_error`
  abbrev pub stream_message : Sent → MsgType × ℕ × Bytes
  stream_message (Sent.stream_start seq format) =
      (stream_start, seq, b.of_start (record { format = format }))
  stream_message (Sent.stream_data seq raw) = (stream_data, seq, raw)
  stream_message (Sent.stream_stop seq dropped) =
      (stream_stop, seq, b.of_stop (record { dropped = dropped }))
  stream_message (Sent.error seq code message) =
      (error, seq, b.of_error (record { code = code; message = message }))

  -- The bytes that a reply hands to `cdc_send_all`.
  unfoldable pub reply_bytes : Reply → Bytes
  reply_bytes (Reply.caps seq c) = framed caps seq (b.of_caps c)
  reply_bytes (Reply.resp seq v) = framed resp seq (b.of_resp (record { ok = true; result = v }))
  reply_bytes (Reply.stream s) =
      let (typ, seq, payload) = stream_message s in framed typ seq payload
  reply_bytes (Reply.raw bytes) = bytes
