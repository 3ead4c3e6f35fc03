-- ===== src/Client/Daemon/Tests.antt =====
-- A request through the daemon at a concrete exchange.
use flip_link.Base.{◌≡◌, refl, arith, true, [], ◌∷◌, map, flatten, Option, none, some, codes}
use flip_link.Proto.Bytes.{Bytes, overlay}
use flip_link.Proto.Crc.{crc16_ccitt_false, crc_from, absorb, shift_bits, shift_bit}
use flip_link.Proto.Frame.{
  stream_stop, req, resp, decode, checked, decode_body, from_u8, to_u8, encode, fill_header,
  fill_payload,
}
use flip_link.Proto.Frame.Wire.{wire, body}
use flip_link.Proto.Messages.{Req, Resp, AgentError}
use flip_link.Proto.Value.{Value}
use flip_link.Core.Reader.{new, feed, next_frame, scan, drain, drain_from}
use flip_link.Core.Device.{received, request_answer, io, send}
use flip_link.Base.Results.{ok, err}
use flip_link.Daemon.Router.{lookup, register, unregister}
use flip_link.Daemon.Router as Router
use flip_link.Daemon.Session.{
  Io, bytes, Exchange, framed, serve_client, serve_frames, serve_frame, proxy, after_reply,
}
use flip_link.Daemon.Session.Relay.{frame_of}
use flip_link.Client.Daemon.{Socket, invoke, stream_read, gave, not_yet, send_through}
use flip_link.Client.Daemon.Invoked.{invoke_lem}

abbrev to_payload : Req → Bytes
to_payload r = 1 ∷ 2 ∷ []

abbrev read_resp : Bytes → Option Resp
read_resp body = some (record { ok = true; result = Value.bytes body })

abbrev error_body : AgentError → Option Bytes
error_body e = some (6 ∷ [])

abbrev idle : Io
idle = record { router = Router.new; outbound = []; stream = []; wakes = 0 }

abbrev answered : Exchange
answered = record { first = some (frame_of resp 0 1 (7 ∷ [])); writes = true; turns = [] }

abbrev response : Bytes
response = wire 1 (frame_of resp 0 1 (7 ∷ []))

abbrev socket : Socket
socket = record {
  connects = true;
  configures = true;
  writes = true;
  turns = map received (response ∷ []);
}

session_stream :
    flatten (response ∷ [])
    ≡ flatten
        (serve_client error_body 5
          ((bytes (wire 1 (frame_of req 0 1 (1 ∷ 2 ∷ []))), answered ∷ []) ∷ [])
          new
          idle).1.stream
unfolding serve_client serve_frames serve_frame proxy after_reply framed drain drain_from next_frame
    feed scan decode decode_body checked from_u8 to_u8 wire body crc16_ccitt_false crc_from absorb
    shift_bits shift_bit encode fill_header fill_payload register unregister flatten overlay
session_stream = refl

invoke_lem_example :
    (invoke to_payload read_resp (λ b. none) (codes "sys") (codes "echo") Value.null socket
      ≡ some (request_answer to_payload read_resp (λ b. none) (frame_of resp 0 1 (7 ∷ []))))
    × ((serve_client error_body 5
          ((bytes (wire 1 (frame_of req 0 1 (1 ∷ 2 ∷ []))), answered ∷ []) ∷ [])
          new
          idle).1.outbound
        ≡ wire 1 (frame_of req 0 1 (1 ∷ 2 ∷ [])) ∷ [])
    × ((serve_client error_body 5
          ((bytes (wire 1 (frame_of req 0 1 (1 ∷ 2 ∷ []))), answered ∷ []) ∷ [])
          new
          idle).1.router
        ≡ unregister 1 (register 5 Router.new).1)
    × (lookup 1
          (serve_client error_body 5
            ((bytes (wire 1 (frame_of req 0 1 (1 ∷ 2 ∷ []))), answered ∷ []) ∷ [])
            new
            idle).1.router.routes
        ≡ none)
unfolding to_u8
invoke_lem_example =
    invoke_lem to_payload read_resp (λ b. none) (codes "sys") (codes "echo") Value.null error_body 5
      answered (frame_of resp 0 1 (7 ∷ [])) idle socket (response ∷ []) (omega arith) (omega arith)
      refl refl refl refl refl refl refl refl session_stream

reads :
    (stream_read (gave []) ≡ err io)
    × (stream_read not_yet ≡ ok [])
    × (stream_read (gave (7 ∷ [])) ≡ ok (7 ∷ []))
unfolding stream_read
reads = (refl, refl, refl)

sends_stop : send_through true stream_stop [] ≡ ok (wire 1 (frame_of stream_stop 0 1 []))
unfolding send_through send encode fill_header fill_payload overlay wire body crc16_ccitt_false
    crc_from absorb shift_bits shift_bit
sends_stop = refl
