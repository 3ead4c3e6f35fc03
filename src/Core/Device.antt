-- ===== src/Core/Device.antt =====
-- crates/flip-core/src/device.rs: a framed link to the device. What the transport and the clock do
-- is a list of turns of the waiting loop; the CBOR of the bodies is a parameter, which gives bytes for
-- each request, as the encoder's writes to a growing buffer cannot fail. A call returns its answer,
-- the bytes that it writes and the link after it.
pub mod Await
mod Tests
use flip_link.Base.{ℕ, zero, suc, ◌+◌, ◌%◌, ◌^◌, Bool, true, false, ◌==◌, ◌&&◌, if◌then◌else◌}
use flip_link.Base.{List, [], ◌∷◌, length, take, replicate, Option, none, some, Text}
use flip_link.Base.Results.{Result, ok, err}
use flip_link.Proto.Bytes.{Bytes}
use flip_link.Proto.Frame.{
  Frame, MsgType, hello, caps, req, resp, error, ping, pong, encode, to_u8, header_size,
}
use flip_link.Proto.Messages.{Hello, Caps, Req, Resp, AgentError}
use flip_link.Proto.Value.{Value}
use flip_link.Core.Reader.{FrameReader, feed, next_frame}

-- A turn that finds no whole frame: the deadline has passed, the read fails, or it gives bytes, none
-- for a read that has nothing yet.
pub data Turn : Type 0 where
  expired failed : Turn
  received : Bytes → Turn

pub data LinkError : Type 0 where
  too_large timed_out io bad_body : LinkError
  device_error : ℕ → Text → LinkError
  unexpected : MsgType → LinkError

pub data Awaited : Type 0 where
  found : Frame → Awaited
  gave_up : LinkError → Awaited
  waiting : Awaited

pub record DeviceLink : Type 0 where
  pub reader : FrameReader
  pub next_seq : ℕ

unfoldable pub alloc_seq : DeviceLink → ℕ × DeviceLink
alloc_seq l = (l.next_seq, record { reader = l.reader; next_seq = (l.next_seq + 1) % 2 ^ 16 })

abbrev pub or_later :
    (Frame → Bool)
    → Option Frame
    → FrameReader
    → Option Frame × FrameReader
    → Option Frame × FrameReader
or_later wanted none r later = (none, r)
or_later wanted (some f) r later = if wanted f then (some f, r) else later

-- The turns of the loop that find a frame: they drop those that are not wanted. Each takes bytes, so
-- the buffer's length is enough fuel.
unfoldable pub take_wanted : (Frame → Bool) → ℕ → FrameReader → Option Frame × FrameReader
take_wanted wanted zero r = (none, r)
take_wanted wanted (suc fuel) r =
    let next = next_frame r in
    let later = take_wanted wanted fuel next.1 in or_later wanted next.0 next.1 later

abbrev pub after_frames :
    Option Frame × FrameReader → (FrameReader → Awaited × FrameReader) → Awaited × FrameReader
after_frames (some f, r) go_on = (found f, r)
after_frames (none, r) go_on = go_on r

-- The loop of `await_seq` and of `ping`; `waiting` when the turns end before it does.
unfoldable pub await_frame : (Frame → Bool) → List Turn → FrameReader → Awaited × FrameReader
await_frame wanted [] r =
    after_frames (take_wanted wanted (suc (length r.buf)) r) λ r'. (waiting, r')
await_frame wanted (expired ∷ turns) r =
    after_frames (take_wanted wanted (suc (length r.buf)) r) λ r'. (gave_up timed_out, r')
await_frame wanted (failed ∷ turns) r =
    after_frames (take_wanted wanted (suc (length r.buf)) r) λ r'. (gave_up io, r')
await_frame wanted (received bytes ∷ turns) r =
    after_frames (take_wanted wanted (suc (length r.buf)) r)
      λ r'. await_frame wanted turns (feed r' bytes)

abbrev pub of_seq : ℕ → Frame → Bool
of_seq seq f = f.seq == seq

abbrev pub is_pong : ℕ → Frame → Bool
is_pong seq f = to_u8 f.typ == to_u8 pong && f.seq == seq

-- The bytes that are written, if the frame could be encoded.
abbrev pub encoded : Option (ℕ × Bytes) → Result Bytes LinkError
encoded none = err too_large
encoded (some (n, buf)) = ok (take n buf)

unfoldable pub send : MsgType → ℕ → Bytes → Result Bytes LinkError
send typ seq body = encoded (encode typ 0 seq body (replicate (header_size + length body + 2) 0))

abbrev pub settled {ℓ} :
    {A : Type ℓ} → (Frame → Result A LinkError) → Awaited → Option (Result A LinkError)
settled answer (found f) = some (answer f)
settled answer (gave_up e) = some (err e)
settled answer waiting = none

-- The answer, `none` while the turns do not decide it; the bytes written; the link after.
abbrev pub Called : Type 0 → Type 0
Called A = Option (Result A LinkError) × Bytes × DeviceLink

-- Nothing is awaited when nothing was written.
abbrev pub answer_of :
    {A : Type 0}
    → (Frame → Result A LinkError)
    → Result Bytes LinkError
    → Awaited
    → DeviceLink
    → DeviceLink
    → Called A
answer_of answer (err e) awaited before after = (some (err e), [], before)
answer_of answer (ok bytes) awaited before after = (settled answer awaited, bytes, after)

-- A call with the next number: what it writes, and the wait for its answer.
unfoldable pub call :
    {A : Type 0}
    → (Frame → Result A LinkError)
    → (ℕ → Result Bytes LinkError)
    → (ℕ → Frame → Bool)
    → List Turn
    → DeviceLink
    → Called A
call answer sent wanted turns l =
    let (seq, l') = alloc_seq l in
    let (awaited, r) = await_frame (wanted seq) turns l'.reader in
    let l'' : DeviceLink = record { reader = r; next_seq = l'.next_seq } in
    answer_of answer (sent seq) awaited l' l''

module _ (to_payload : Req → Bytes) (read_resp : Bytes → Option Resp)
    (read_error : Bytes → Option AgentError) where
  -- The match on the type of the awaited frame.
  unfoldable pub request_answer : Frame → Result Resp LinkError
  request_answer f = elim f.typ [
    | resp ↦ elim (read_resp f.payload) [ none ↦ err bad_body | some r ↦ ok r ]
    | error ↦ elim (read_error f.payload) [
      | none ↦ err bad_body
      | some e ↦ err (device_error e.code e.message)
    ]
    | other ↦ err (unexpected other)
  ]

  unfoldable pub request : Text → Text → Value → List Turn → DeviceLink → Called Resp
  request instrument opcode params =
      let body =
        to_payload (record { instrument = instrument; opcode = opcode; params = params }) in
      call request_answer (λ seq. send req seq body) of_seq

module _ (to_payload : Hello → Bytes) (read_caps : Bytes → Option Caps) where
  unfoldable pub hello_answer : Frame → Result Caps LinkError
  hello_answer f = elim f.typ [
    | caps ↦ elim (read_caps f.payload) [ none ↦ err bad_body | some c ↦ ok c ]
    | other ↦ err (unexpected other)
  ]

  unfoldable pub say_hello : List Turn → DeviceLink → Called Caps
  say_hello =
      call hello_answer (λ seq. send hello seq (to_payload (record { host_version = 0 }))) of_seq

-- `ping`: the echoed payload; it encodes into a buffer of 1100 bytes.
unfoldable pub send_ping : Bytes → List Turn → DeviceLink → Called Bytes
send_ping payload =
    call (λ f. ok f.payload) (λ seq. encoded (encode ping 0 seq payload (replicate 1100 0))) is_pong
