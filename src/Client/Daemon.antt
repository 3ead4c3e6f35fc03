-- ===== src/Client/Daemon.antt =====
-- crates/flip-client/src/daemon.rs: the requests of the library through the daemon's socket. What the
-- socket and the clock do is given; a closed socket is a read that fails.
pub mod Invoked
pub mod Connect
mod Tests
use flip_link.Base.{
  ℕ, Bool, true, false, ◌&&◌, not, if◌then◌else◌, List, [], ◌∷◌, length, replicate, Option, none,
  some, Text, codes,
}
use flip_link.Base.Results.{Result, ok, err, ◌>>=◌}
use flip_link.Proto.Bytes.{Bytes}
use flip_link.Proto.Frame.{Frame, MsgType, hello, caps, req, error, ping, encode}
use flip_link.Proto.Messages.{Hello, Caps, Req, Resp, AgentError}
use flip_link.Proto.Value.{Value}
use flip_link.Core.Reader.{FrameReader, new}
use flip_link.Core.Device.{
  Turn, LinkError, timed_out, io, Awaited, found, gave_up, waiting, await_frame, is_pong, encoded,
  send, settled, request_answer, hello_answer,
}
use flip_link.Client.Signal.{IrSignal}
use flip_link.Client.Signal as Ir
use flip_link.Client.SubGhz.{SubGhzSignal}
use flip_link.Client.SubGhz as SubGhz
use flip_link.Client.Capture.{ClientError, sent_count}

-- The connection: whether it is made, whether its timeout can be set, whether it takes what is
-- written, and the turns of the wait for an answer.
pub record Socket : Type 0 where
  pub connects : Bool
  pub configures : Bool
  pub writes : Bool
  pub turns : List Turn

-- What the read of the socket's stream gives; `not_yet` when it would block or its time is over.
pub data StreamRead : Type 0 where
  gave : Bytes → StreamRead
  not_yet broke : StreamRead

-- `StreamTransport::read`: no byte at all is a closed socket.
unfoldable pub stream_read : StreamRead → Result Bytes LinkError
stream_read (gave []) = err io
stream_read (gave (b ∷ bytes)) = ok (b ∷ bytes)
stream_read not_yet = ok []
stream_read broke = err io

abbrev is_usable : Socket → Bool
is_usable s = s.connects && s.configures

abbrev pub any_frame : Frame → Bool
any_frame f = true

-- Writes the bytes and waits; nothing is awaited when they cannot be written.
unfoldable pub exchange :
    {A : Type 0}
    → (Frame → Result A LinkError)
    → (Frame → Bool)
    → Result Bytes LinkError
    → Socket
    → Option (Result A LinkError)
exchange answer wanted (err e) s = if is_usable s then some (err e) else some (err io)
exchange answer wanted (ok bytes) s =
    if is_usable s && s.writes
    then settled answer (await_frame wanted s.turns new).0
    else some (err io)

-- `round_trip`, and what is made of the reply.
abbrev pub round_trip :
    {A : Type 0}
    → (Frame → Result A LinkError)
    → MsgType
    → Bytes
    → Socket
    → Option (Result A LinkError)
round_trip answer typ payload = exchange answer any_frame (send typ 1 payload)

module _ (to_payload : Req → Bytes) where
  abbrev pub request_body : Text → Text → Value → Bytes
  request_body instrument opcode params =
      to_payload (record { instrument = instrument; opcode = opcode; params = params })

  -- `open_stream`: the reader of the connection.
  unfoldable pub open_stream : Text → Text → Value → Socket → Result FrameReader LinkError
  open_stream instrument opcode params s =
      if is_usable s
      then (send req 1 (request_body instrument opcode params) >>= λ bytes.
          if s.writes then ok new else err io)
      else err io

  module _ (read_resp : Bytes → Option Resp) (read_error : Bytes → Option AgentError) where
    unfoldable pub invoke : Text → Text → Value → Socket → Option (Result Resp LinkError)
    invoke instrument opcode params =
        round_trip (request_answer to_payload read_resp read_error) req
          (request_body instrument opcode params)

    abbrev pub counted :
        Option (Result Resp LinkError) → Option (Result (Result ℕ ClientError) LinkError)
    counted none = none
    counted (some (err e)) = some (err e)
    counted (some (ok r)) = some (ok (sent_count r.result))

    -- The inner error is that of `sent_count`.
    unfoldable pub ir_transmit :
        IrSignal → Socket → Option (Result (Result ℕ ClientError) LinkError)
    ir_transmit signal s =
        counted (invoke (codes "ir") (codes "transmit") (Ir.to_transmit_params signal) s)

    unfoldable pub subghz_transmit :
        SubGhzSignal → ℕ → Socket → Option (Result (Result ℕ ClientError) LinkError)
    subghz_transmit signal repeat s =
        counted
          (invoke (codes "subghz") (codes "transmit") (SubGhz.to_transmit_params signal repeat) s)

-- `StreamConn::send`: the bytes that the socket took.
unfoldable pub send_through : Bool → MsgType → Bytes → Result Bytes LinkError
send_through writes typ payload =
    send typ 1 payload >>= λ bytes. if writes then ok bytes else err io

-- `StreamConn::next_frame`: the frame, nothing yet, or an error; and the reader after it.
abbrev polled : Awaited → Option (Result (Option Frame) LinkError)
polled (found f) = some (ok (some f))
polled (gave_up timed_out) = some (ok none)
polled (gave_up e) = some (err e)
polled waiting = none

unfoldable pub next_frame :
    List Turn → FrameReader → Option (Result (Option Frame) LinkError) × FrameReader
next_frame turns r = let (awaited, r') = await_frame any_frame turns r in (polled awaited, r')

-- It encodes into a buffer of 1100 bytes.
unfoldable pub ping_through_daemon : Bytes → Socket → Option (Result Bytes LinkError)
ping_through_daemon payload =
    exchange (λ f. ok f.payload) (is_pong 1) (encoded (encode ping 0 1 payload (replicate 1100 0)))

pub data DeviceStatus : Type 0 where
  connected : ℕ → DeviceStatus
  disconnected : DeviceStatus
  unknown : Text → DeviceStatus

pub record DaemonStatus : Type 0 where
  pub daemon_running : Bool
  pub device : DeviceStatus

abbrev running : Text → DaemonStatus
running why = record { daemon_running = true; device = unknown why }

module _ (to_payload : Hello → Option Bytes) (read_caps : Bytes → Option Caps) where
  unfoldable pub caps_call : (Hello → Bytes) → Socket → Option (Result Caps LinkError)
  caps_call body =
      round_trip (hello_answer body read_caps) hello (body (record { host_version = 0 }))

  abbrev known : Option Caps → DeviceStatus
  known none = unknown (codes "CAPS undecodable")
  known (some c) = connected (length c.instruments)

  abbrev device_of : Frame → DeviceStatus
  device_of f = elim f.typ [ caps ↦ known (read_caps f.payload) | other ↦ disconnected ]

  abbrev awaited_status : Awaited → Option DaemonStatus
  awaited_status (found f) = some (record { daemon_running = true; device = device_of f })
  awaited_status (gave_up timed_out) = some (running (codes "no reply"))
  awaited_status (gave_up e) = some (running (codes "read error"))
  awaited_status waiting = none

  abbrev asked_status : Result Bytes LinkError → Socket → Option DaemonStatus
  asked_status (err e) s = some (running (codes "HELLO payload too big"))
  asked_status (ok bytes) s =
      if s.writes
      then awaited_status (await_frame any_frame s.turns new).0
      else some (running (codes "write error"))

  abbrev encoded_status : Option Bytes → Socket → Option DaemonStatus
  encoded_status none s = some (running (codes "encode HELLO failed"))
  encoded_status (some body) s = asked_status (send hello 1 body) s

  -- `status`, less the path of the log.
  unfoldable pub status : Socket → Option DaemonStatus
  status s =
      if not s.connects
      then some (record { daemon_running = false; device = unknown (codes "daemon not running") })
      else if not s.configures
      then some (running (codes "socket error"))
      else encoded_status (to_payload (record { host_version = 0 })) s
