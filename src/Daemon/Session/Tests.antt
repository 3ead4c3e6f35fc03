-- ===== src/Daemon/Session/Tests.antt =====
-- The theorems on the sessions of crates/flip-daemon/src/server.rs at concrete runs.
use flip_link.Base.{ℕ, ◌≡◌, ◌≢◌, refl, arith, true, false}
use flip_link.Base.{List, [], ◌∷◌, ◌++◌, All, Option, none, some}
use flip_link.Proto.Bytes.{Bytes}
use flip_link.Proto.Crc.{crc16_ccitt_false, crc_from, absorb, shift_bits, shift_bit}
use flip_link.Proto.Frame.{
  Frame, req, resp, stream_start, stream_data, stream_stop, decode, checked, decode_body, from_u8,
  to_u8, encode, fill_header, fill_payload,
}
use flip_link.Proto.Frame.Wire.{wire, body}
use flip_link.Proto.Messages.{AgentError}
use flip_link.Core.Reader.{FrameReader, feed, next_frame, scan, drain, drain_from}
use flip_link.Core.Reader as Reader
use flip_link.Daemon.Router.{Router, register, unregister}
use flip_link.Daemon.Router as Router
use flip_link.Daemon.Session.{
  Read, closed, nothing, bytes, Recv, reply, empty, Turn, Io, ended, failed, running, relay,
  Exchange, serve_frame, serve_frames, proxy, after_reply, framed, serve_client,
}
use flip_link.Daemon.Session.Relay.{frame_of, stop_bytes, Left, relay-Left}
use flip_link.Daemon.Session.Progress.{asks_stop, relay_settles}
use flip_link.Daemon.Session.Relayed.{IsCalm, for_client, relay-relayed}
use flip_link.Daemon.Session.Routes.{
  IsIdle, serve_client-IsIdle, serve_frame_once, serve_frame_leaks,
}

-- Every error has this body.
abbrev to_payload : AgentError → Option Bytes
to_payload e = some (6 ∷ [])

abbrev start : Io
start = record { router = Router.new; outbound = []; stream = []; wakes = 0 }

abbrev asked : Frame
asked = frame_of req 0 1 (1 ∷ 2 ∷ [])

abbrev opened : Frame
opened = frame_of stream_start 0 42 []

abbrev sample : Frame
sample = frame_of stream_data 0 42 (1 ∷ 2 ∷ 3 ∷ 4 ∷ [])

abbrev stopped : Frame
stopped = frame_of stream_stop 0 42 []

abbrev turn : ℕ → Read → Recv → Turn
turn now got recv = record { now = now; read = got; read_at = now; recv = recv; writes = true }

-- The client stops at 10, the device goes silent, and it is 3010.
abbrev silent : List Turn
silent = turn 50 nothing (reply sample) ∷ turn 3010 nothing empty ∷ []

stop_bytes-asks : asks_stop (drain (feed Reader.new (stop_bytes 1))).0 ≡ true
unfolding drain drain_from next_frame feed scan decode decode_body checked from_u8 to_u8 wire body
    crc16_ccitt_false crc_from absorb shift_bits shift_bit
stop_bytes-asks = refl

relay_settles_example :
    (relay to_payload 1 42 3000
      (turn 10 (bytes (stop_bytes 1)) empty
        ∷ ((turn 50 nothing (reply sample) ∷ []) ++ (turn 3010 nothing empty ∷ [])))
      Reader.new
      none
      start).0
    ≢ running
relay_settles_example =
    relay_settles 42 to_payload 1 3000 (turn 10 (bytes (stop_bytes 1)) empty)
      (turn 3010 nothing empty) (turn 50 nothing (reply sample) ∷ []) [] (stop_bytes 1) Reader.new
      start refl stop_bytes-asks (omega arith)

leaves : Left 42 start (
    relay to_payload 1 42 3000
      (turn 10 (bytes (stop_bytes 1)) empty ∷ silent)
      Reader.new
      none
      start)
leaves =
    relay-Left 42 to_payload 1 3000 (turn 10 (bytes (stop_bytes 1)) empty ∷ silent) Reader.new none
      start

abbrev calm : List Turn
calm =
    turn 0 nothing (reply sample)
    ∷ turn 20 nothing empty
    ∷ turn 40 nothing (reply stopped)
    ∷ turn 60 nothing (reply sample)
    ∷ []

calm-IsCalm : All (IsCalm 3000 3000) calm
calm-IsCalm = (ground arith, (ground arith, (ground arith, (ground arith, tt))))

relay-relayed_example :
    ((relay to_payload 1 42 3000 calm Reader.new none start).0 ≡ ended)
    × ((relay to_payload 1 42 3000 calm Reader.new none start).1.stream
        ≡ for_client 1 sample ∷ for_client 1 stopped ∷ [])
unfolding to_u8
relay-relayed_example = relay-relayed to_payload 1 42 3000 3000 calm Reader.new start calm-IsCalm

abbrev one_shot : Exchange
one_shot = record { first = some (frame_of resp 0 1 (7 ∷ [])); writes = true; turns = [] }

serve_frame_once_example :
    ((serve_frame to_payload 5 one_shot asked start).0 ≡ ended)
    × ((serve_frame to_payload 5 one_shot asked start).1 ≡ record {
      router = unregister 1 (register 5 Router.new).1;
      outbound = wire 1 (frame_of req 0 1 (1 ∷ 2 ∷ [])) ∷ [];
      stream = wire 1 (frame_of resp 0 1 (7 ∷ [])) ∷ [];
      wakes = 0;
    })
unfolding to_u8
serve_frame_once_example =
    serve_frame_once to_payload 5 one_shot asked (frame_of resp 0 1 (7 ∷ [])) start refl refl refl
      refl (omega arith) (omega arith)

abbrev hung_up : Exchange
hung_up = record { first = some opened; writes = false; turns = [] }

serve_frame_leaks_example :
    ((serve_frame to_payload 5 hung_up asked start).0 ≡ failed)
    × ((serve_frame to_payload 5 hung_up asked start).1.router ≡ (register 5 Router.new).1)
    × ((serve_frame to_payload 5 hung_up asked start).1.outbound
        ≡ wire 1 (frame_of req 0 1 (1 ∷ 2 ∷ [])) ∷ [])
unfolding to_u8
serve_frame_leaks_example =
    serve_frame_leaks to_payload 5 hung_up asked opened start refl refl refl refl (omega arith)
      (omega arith)

-- A request that the device never answers, and the client closes.
abbrev unanswered : List (Read × List Exchange)
unanswered =
    (bytes (wire 1 asked), record { first = none; writes = true; turns = [] } ∷ [])
    ∷ (nothing, [])
    ∷ (closed, [])
    ∷ []

unanswered-ended : (serve_client to_payload 5 unanswered Reader.new start).0 ≡ ended
unfolding serve_client serve_frames serve_frame proxy after_reply framed drain drain_from next_frame
    feed scan decode decode_body checked from_u8 to_u8 wire body crc16_ccitt_false crc_from absorb
    shift_bits shift_bit encode fill_header fill_payload register unregister
unanswered-ended = refl

serve_client-IsIdle_example :
    IsIdle 5 (serve_client to_payload 5 unanswered Reader.new start).1.router
serve_client-IsIdle_example =
    serve_client-IsIdle to_payload 5 unanswered Reader.new start tt unanswered-ended
