-- ===== src/Core/Loopback/Echoed.antt =====
-- A device link over a loopback of crates/flip-core/src/mock.rs gets back what it sent.
use flip_link.Base.{
  if◌then◌else◌, text_eq, codes, ℕ, ◌≤◌, ◌+◌, ◌≡◌, refl, sym, ap, ◌∙◌, arith, true, List, [], ◌∷◌,
  ◌++◌, All, append-nil, map, length, some, Option, Bool,
}
use flip_link.Base.Results.{ok}
use flip_link.Proto.Bytes.{Bytes, IsByte, IsU16}
use flip_link.Proto.Frame.{Frame, MsgType, ping, pong, req, resp, header_size, max_payload, to_u8}
use flip_link.Proto.Frame.Wire.{wire, IsFrame}
use flip_link.Proto.Frame.Stream.{decode-nil}
use flip_link.Proto.Messages.{Caps, Req, Resp, AgentError}
use flip_link.Proto.Value.{Value}
use flip_link.Core.Reader.{new, drain, read_all}
use flip_link.Core.Reader.Chunks.{drain_idle}
use flip_link.Core.Reader.Stream.{scan_need_more}
use flip_link.Core.Device.{
  DeviceLink, Called, received, of_seq, is_pong, send_ping, request, request_answer,
}
use flip_link.Core.Device.Await.{first, sent_frame, send_ping_lem, request_lem}
use flip_link.Core.Loopback.{
  Loopback, Written, write_all, new_loopback, pong_reply, pong_write_all, control_write_all, queue,
  control_reply,
}
use flip_link.Core.Loopback.Answered.{loopback, write_all-wires, reads, reads-wires, extended_lem}

abbrev pub new_link : ℕ → DeviceLink
new_link seq = record { reader = new; next_seq = seq }

sent_frame-IsFrame :
    (typ : MsgType) (seq : ℕ) (body : Bytes)
    → length body ≤ max_payload
    → All IsByte body
    → IsU16 seq
    → IsFrame (sent_frame typ seq body)
sent_frame-IsFrame typ seq body h b s = record {
  flags_byte = omega arith;
  seq_u16 = s;
  payload_bytes = b;
  payload_fits = h;
}

-- The one frame that a link's read of a loopback finds.
found_answer :
    (wanted : Frame → Bool) (sizes : List ℕ) (l : Loopback) (f : Frame)
    → IsFrame f
    → wanted f ≡ true
    → l.out ≡ wire 1 f ++ []
    → (reads sizes l).1.out ≡ []
    → first wanted ((drain new).0 ++ (read_all (reads sizes l).0 (drain new).1).0) ≡ some f
found_answer wanted sizes l f h w e done =
    let idle = drain_idle [] [] (scan_need_more [] decode-nil) in
    let got = reads-wires sizes l (f ∷ []) (h, tt) e done in rw (idle, got, w) refl

abbrev IsPing : Frame → Type 0
IsPing f = (f.typ ≡ ping) × (length f.payload ≤ 1087)

abbrev pong_of : Frame → Frame
pong_of f = sent_frame pong f.seq f.payload

pong_answered :
    (f : Frame) (out : Bytes) → IsPing f → pong_reply f out ≡ ok (out ++ wire 1 (pong_of f))
unfolding pong_reply
pong_answered f out (is_ping, h) =
    rw is_ping (extended_lem pong f.seq 1100 f.payload out (omega arith) (omega arith))

-- A ping that is written to a new `PongLoopback`.
abbrev pub pinged : ℕ → Bytes → Written
pinged seq payload = pong_write_all (wire 1 (sent_frame ping seq payload)) new_loopback

abbrev pub ping_call : ℕ → Bytes → List ℕ → Called Bytes
ping_call seq payload sizes =
    send_ping payload (map received (reads sizes (pinged seq payload).1).0) (new_link seq)

pub pinged_lem :
    (seq : ℕ) (payload : Bytes)
    → length payload ≤ 1087
    → All IsByte payload
    → IsU16 seq
    → pinged seq payload ≡ (ok tt, loopback (wire 1 (sent_frame pong seq payload) ++ []) new)
pinged_lem seq payload h b s =
    let f = sent_frame ping seq payload in
    ap (λ bs. write_all pong_reply bs new_loopback) (sym (append-nil (wire 1 f)))
    ∙ write_all-wires pong_reply (λ g. wire 1 (pong_of g)) IsPing pong_answered (f ∷ [])
        (sent_frame-IsFrame ping seq payload (omega arith) b s, tt) ((refl, h), tt)

-- A ping over a new `PongLoopback` that the link reads empty, with buffers of any sizes: the write
-- succeeds, `ping` writes just these bytes, and it returns its own payload.
pub ping_echoes :
    (seq : ℕ) (payload : Bytes) (sizes : List ℕ)
    → length payload ≤ 1087
    → All IsByte payload
    → IsU16 seq
    → (reads sizes (pinged seq payload).1).1.out ≡ []
    → ((pinged seq payload).0 ≡ ok tt)
      × ((ping_call seq payload sizes).1 ≡ wire 1 (sent_frame ping seq payload))
      × ((ping_call seq payload sizes).0 ≡ some (ok payload))
unfolding to_u8
ping_echoes seq payload sizes h b s done =
    let g = sent_frame pong seq payload in
    let written = pinged_lem seq payload h b s in
    let answer =
      found_answer (is_pong seq) sizes (pinged seq payload).1 g
        (sent_frame-IsFrame pong seq payload (omega arith) b s) (ground arith)
        (ap (λ (w : Written). w.1.out) written) done in
    let (a, c) = send_ping_lem payload (reads sizes (pinged seq payload).1).0 [] seq g h answer in
    (ap (λ (w : Written). w.0) written, c, a)

-- What `ControlLoopback` answers to a request.
abbrev pub answer_to : Req → Resp
answer_to r = record {
  ok = true;
  result = if text_eq r.opcode (codes "echo") then r.params else Value.null;
}

module _ (to_caps : Caps → Bytes) (read_req : Bytes → Option Req) (to_resp : Resp → Bytes) where
  abbrev answer_frame : Req → ℕ → Frame
  answer_frame r seq = sent_frame resp seq (to_resp (answer_to r))

  abbrev Asks : Req → Frame → Type 0
  Asks r f = (f.typ ≡ req) × (read_req f.payload ≡ some r)

  req_answered :
      (r : Req) (f : Frame) (out : Bytes)
      → length (to_resp (answer_to r)) ≤ max_payload
      → Asks r f
      → control_reply to_caps read_req to_resp f out ≡ ok (out ++ wire 1 (answer_frame r f.seq))
  unfolding control_reply queue
  req_answered r f out h (is_req, reads_back) =
      let body = to_resp (answer_to r) in
      rw (is_req, reads_back)
        (extended_lem resp f.seq (header_size + length body + 2) body out h (omega arith))

  -- A request that is written to a new `ControlLoopback`.
  abbrev pub requested : ℕ → Bytes → Written
  requested seq body =
      control_write_all to_caps read_req to_resp (wire 1 (sent_frame req seq body)) new_loopback

  pub requested_lem :
      (r : Req) (seq : ℕ) (body : Bytes)
      → length body ≤ max_payload
      → All IsByte body
      → read_req body ≡ some r
      → length (to_resp (answer_to r)) ≤ max_payload
      → IsU16 seq
      → requested seq body ≡ (ok tt, loopback (wire 1 (answer_frame r seq) ++ []) new)
  requested_lem r seq body h b back h' s =
      let f = sent_frame req seq body in
      let reply = control_reply to_caps read_req to_resp in
      ap (λ bs. write_all reply bs new_loopback) (sym (append-nil (wire 1 f)))
      ∙ write_all-wires reply (λ f'. wire 1 (answer_frame r f'.seq)) (Asks r)
          (λ f' out asks. req_answered r f' out h' asks) (f ∷ [])
          (sent_frame-IsFrame req seq body h b s, tt) ((refl, back), tt)

  module _ (to_req : Req → Bytes) (read_resp : Bytes → Option Resp)
      (read_error : Bytes → Option AgentError) where
    abbrev pub request_call : Req → ℕ → List ℕ → Called Resp
    request_call r seq sizes =
        request to_req read_resp read_error r.instrument r.opcode r.params
          (map received (reads sizes (requested seq (to_req r)).1).0) (new_link seq)

    -- A request over a new `ControlLoopback` that the link reads empty, with buffers of any sizes, for
    -- bodies that fit and that are read back as they were written: the write succeeds, `request` writes
    -- just these bytes, and it returns the parameters of an echo, null for any other opcode.
    pub request_echoes :
        (r : Req) (seq : ℕ) (sizes : List ℕ)
        → length (to_req r) ≤ max_payload
        → All IsByte (to_req r)
        → read_req (to_req r) ≡ some r
        → length (to_resp (answer_to r)) ≤ max_payload
        → All IsByte (to_resp (answer_to r))
        → read_resp (to_resp (answer_to r)) ≡ some (answer_to r)
        → IsU16 seq
        → (reads sizes (requested seq (to_req r)).1).1.out ≡ []
        → ((requested seq (to_req r)).0 ≡ ok tt)
          × ((request_call r seq sizes).1 ≡ wire 1 (sent_frame req seq (to_req r)))
          × ((request_call r seq sizes).0 ≡ some (ok (answer_to r)))
    unfolding request_answer
    request_echoes r seq sizes h b back h' b' back' s done =
        let g = answer_frame r seq in
        let w = requested seq (to_req r) in
        let written = requested_lem r seq (to_req r) h b back h' s in
        let answer =
          found_answer (of_seq seq) sizes w.1 g
            (sent_frame-IsFrame resp seq (to_resp (answer_to r)) h' b' s) (ground arith)
            (ap (λ (v : Written). v.1.out) written) done in
        let (a, c) =
          request_lem to_req read_resp read_error r.instrument r.opcode r.params (reads sizes w.1).0
            [] seq g h answer in
        let read_back : request_answer to_req read_resp read_error g ≡ ok (answer_to r) =
          rw back' refl in
        (ap (λ (v : Written). v.0) written, c, a ∙ ap some read_back)
