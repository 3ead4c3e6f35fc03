-- ===== src/Client/Daemon/Invoked.antt =====
-- A request of crates/flip-client through a session of crates/flip-daemon.
use flip_link.Base.{◌+◌, ◌≤◌, ◌≡◌, refl, sym, ap, ◌∙◌, arith, true, false, ◌==◌}
use flip_link.Base.{List, [], ◌∷◌, ◌++◌, append-nil, length, map, flatten, Option, none, some, Text}
use flip_link.Proto.Bytes.{Bytes}
use flip_link.Proto.Frame.{Frame, hello, req, stream_start, max_payload, to_u8}
use flip_link.Proto.Frame.Wire.{wire, IsFrame}
use flip_link.Proto.Frame.Stream.{decode-nil}
use flip_link.Proto.Messages.{Req, Resp, AgentError}
use flip_link.Proto.Value.{Value}
use flip_link.Core.Reader.{new, feed, drain, read_all}
use flip_link.Core.Reader.Stream.{scan_need_more}
use flip_link.Core.Reader.Chunks.{drain-wires, drain_idle, read_all-flatten}
use flip_link.Core.Device.{received, await_frame, request_answer}
use flip_link.Core.Device.Await.{outcome, await_frame-received, send_lem}
use flip_link.Daemon.Router.{Channel, lookup, register, unregister}
use flip_link.Daemon.Router.Routing.{lookup-remove_same}
use flip_link.Daemon.Session.{
  Io, bytes, Exchange, running, ended, woken, serve_frame, serve_frames, serve_client,
}
use flip_link.Daemon.Session.Relay.{frame_of}
use flip_link.Daemon.Session.Routes.{serve_frame_once}
use flip_link.Client.Daemon.{Socket, any_frame, exchange, request_body, invoke}

-- A frame's bytes are read as that frame.
drain-wire :
    (f : Frame) → IsFrame f → drain (record { buf = wire 1 f }) ≡ (f ∷ [], record { buf = [] })
drain-wire f h =
    ap (λ b. drain (record { buf = b }))
      (sym (append-nil (wire 1 f)) ∙ sym (append-nil (wire 1 f ++ [])))
    ∙ drain-wires (f ∷ []) [] (h, tt) decode-nil

-- The waiting loop over the pieces of one frame.
await_one :
    (f : Frame) (chunks : List Bytes)
    → IsFrame f
    → flatten chunks ≡ wire 1 f
    → (await_frame any_frame (map received chunks) new).0 ≡ outcome (some f)
await_one f chunks h e =
    let empty : drain new ≡ ([], new) = drain_idle [] [] (scan_need_more [] decode-nil) in
    let read : read_all chunks new ≡ (f ∷ [], record { buf = [] }) =
      read_all-flatten chunks ∙ ap (λ b. drain (record { buf = b })) e ∙ drain-wire f h in
    await_frame-received any_frame chunks [] ∙ rw (empty, read) refl

-- A client that asks by `req`, and the daemon that proxies: `f` is the client's frame, `answer` the
-- device's.
session_lem :
    (to_payload : AgentError → Option Bytes) (me : Channel) (e : Exchange) (f answer : Frame)
    (io : Io)
    → IsFrame f
    → (to_u8 f.typ == to_u8 hello) ≡ false
    → (to_u8 answer.typ == to_u8 stream_start) ≡ false
    → e.first ≡ some answer
    → e.writes ≡ true
    → length answer.payload ≤ max_payload
    → ((serve_client to_payload me ((bytes (wire 1 f), e ∷ []) ∷ []) new io).0 ≡ running)
      × ((serve_client to_payload me ((bytes (wire 1 f), e ∷ []) ∷ []) new io).1 ≡ record {
        router = unregister io.router.next_seq (register me io.router).1;
        outbound =
            io.outbound ++ (wire 1 (frame_of f.typ f.flags io.router.next_seq f.payload) ∷ []);
        stream = io.stream ++ (wire 1 (frame_of answer.typ 0 f.seq answer.payload) ∷ []);
        wakes = io.wakes + 1;
      })
unfolding serve_client serve_frames feed
session_lem to_payload me e f answer io h not_hello not_start first_reply taken fits =
    let (a, b) =
      serve_frame_once to_payload me e f answer (woken io) not_hello not_start first_reply taken
        h.payload_fits fits in
    let served : serve_frame to_payload me e f (woken io)
        ≡ (ended, (serve_frame to_payload me e f (woken io)).1) =
      λ i. (a i, (serve_frame to_payload me e f (woken io)).1) in
    rw (drain-wire f h, served, b) (refl, refl)

-- For a request whose body fits a frame, and a device's answer that fits, starts no stream and comes
-- in time: when the daemon reads the client's frame and the client reads, in any pieces, what the
-- daemon sends it, `invoke` returns what the device's answer says, as if the client were linked to the
-- device; the device gets the one frame of the request under the number that the router gives next;
-- and the router is left as after registering that number and unregistering it, so that the number
-- has no route.
pub invoke_lem :
    (to_payload : Req → Bytes) (read_resp : Bytes → Option Resp)
    (read_error : Bytes → Option AgentError) (instrument opcode : Text) (params : Value)
    (error_body : AgentError → Option Bytes) (me : Channel) (e : Exchange) (answer : Frame)
    (io : Io) (s : Socket) (chunks : List Bytes)
    → IsFrame (frame_of req 0 1 (request_body to_payload instrument opcode params))
    → IsFrame answer
    → (to_u8 answer.typ == to_u8 stream_start) ≡ false
    → e.first ≡ some answer
    → e.writes ≡ true
    → io.stream ≡ []
    → s.connects ≡ true
    → s.configures ≡ true
    → s.writes ≡ true
    → s.turns ≡ map received chunks
    → flatten chunks
      ≡ flatten
          (serve_client error_body me
            ((
              bytes (wire 1 (frame_of req 0 1 (request_body to_payload instrument opcode params))),
              e ∷ [],
            )
              ∷ [])
            new
            io).1.stream
    → (invoke to_payload read_resp read_error instrument opcode params s
        ≡ some (
            request_answer to_payload read_resp read_error
              (frame_of answer.typ 0 1 answer.payload)))
      × ((serve_client error_body me
            ((
              bytes (wire 1 (frame_of req 0 1 (request_body to_payload instrument opcode params))),
              e ∷ [],
            )
              ∷ [])
            new
            io).1.outbound
          ≡ io.outbound
            ++ (wire 1 (
                  frame_of req 0 io.router.next_seq
                    (request_body to_payload instrument opcode params))
                ∷ []))
      × ((serve_client error_body me
            ((
              bytes (wire 1 (frame_of req 0 1 (request_body to_payload instrument opcode params))),
              e ∷ [],
            )
              ∷ [])
            new
            io).1.router
          ≡ unregister io.router.next_seq (register me io.router).1)
      × (lookup io.router.next_seq
            (serve_client error_body me
              ((
                bytes
                    (wire 1 (frame_of req 0 1 (request_body to_payload instrument opcode params))),
                e ∷ [],
              )
                ∷ [])
              new
              io).1.router.routes
          ≡ none)
unfolding invoke exchange unregister
invoke_lem to_payload read_resp read_error instrument opcode params error_body me e answer io s
      chunks h k not_start first_reply taken quiet connects configures writes turns pieces =
    let body = request_body to_payload instrument opcode params in
    let f = frame_of req 0 1 body in
    let (a, b) =
      session_lem error_body me e f answer io h (unfold to_u8 in refl) not_start first_reply taken
        k.payload_fits in
    let back = frame_of answer.typ 0 1 answer.payload in
    let back-IsFrame : IsFrame back = record {
      flags_byte = omega arith;
      seq_u16 = omega arith;
      payload_bytes = k.payload_bytes;
      payload_fits = k.payload_fits;
    } in
    let streamed : flatten
          (serve_client error_body me ((bytes (wire 1 f), e ∷ []) ∷ []) new io).1.stream
        ≡ wire 1 back =
      ap (λ (q : Io). flatten q.stream) b
      ∙ ap (λ l. flatten (l ++ (wire 1 back ∷ []))) quiet
      ∙ (unfold flatten in append-nil (wire 1 back)) in
    (
      rw
          (
            connects,
            configures,
            writes,
            send_lem req 1 body h.payload_fits,
            turns,
            await_one back chunks back-IsFrame (pieces ∙ streamed),
          )
          refl,
      ap (λ (q : Io). q.outbound) b,
      ap (λ (q : Io). q.router) b,
      ap (λ (q : Io). lookup io.router.next_seq q.router.routes) b
          ∙ lookup-remove_same io.router.next_seq (register me io.router).1.routes,
    )
