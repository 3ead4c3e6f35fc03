-- ===== src/Core/Loopback.antt =====
-- crates/flip-core/src/mock.rs: the transports in memory that answer as a device does. Both have the
-- same fields and the same loop; they differ in what a frame that was written adds to `out`. The
-- CBOR of the bodies is a parameter.
pub mod Answered
pub mod Echoed
mod Tests
use flip_link.Base.{
  ℕ, zero, suc, ◌+◌, Bool, true, if◌then◌else◌, List, [], ◌∷◌, ◌++◌, length, take, replicate,
  Option, none, some, Text, codes, text_eq,
}
use flip_link.Base.Results.{Result, ok, err}
use flip_link.Proto.Bytes.{Bytes}
use flip_link.Proto.Frame.{Frame, MsgType, hello, caps, req, resp, ping, pong, encode, header_size}
use flip_link.Proto.Messages.{Caps, Req, Resp, protocol_version}
use flip_link.Proto.Value.{Value}
use flip_link.Core.Reader.{FrameReader, new, feed, next_frame}

pub data LoopError : Type 0 where
  too_large bad_req : LoopError

-- `PongLoopback` and `ControlLoopback`.
pub record Loopback : Type 0 where
  pub out : Bytes
  pub reader : FrameReader

abbrev pub new_loopback : Loopback
new_loopback = record { out = []; reader = new }

abbrev pub Written : Type 0
Written = Result (Unit {0}) LoopError × Loopback

-- What a frame makes of `out`.
abbrev pub Reply : Type 0
Reply = Frame → Bytes → Result Bytes LoopError

abbrev pub after_reply : Result Bytes LoopError → Bytes → FrameReader → (Bytes → Written) → Written
after_reply (err e) out r go_on = (err e, record { out = out; reader = r })
after_reply (ok out') out r go_on = go_on out'

abbrev pub after_next : Reply → Option Frame → Bytes → FrameReader → (Bytes → Written) → Written
after_next reply none out r go_on = (ok tt, record { out = out; reader = r })
after_next reply (some f) out r go_on = after_reply (reply f out) out r go_on

-- `while let Some(f) = self.reader.next_frame()`. Each round with a frame takes bytes, so the
-- buffer's length is enough fuel.
unfoldable pub serve : Reply → ℕ → Bytes → FrameReader → Written
serve reply zero out r = (ok tt, record { out = out; reader = r })
serve reply (suc fuel) out r =
    let next = next_frame r in
    after_next reply next.0 out next.1 λ out'. serve reply fuel out' next.1

unfoldable pub write_all : Reply → Bytes → Loopback → Written
write_all reply bytes l =
    let fed = feed l.reader bytes in serve reply (suc (length fed.buf)) l.out fed

-- The loop of `read`: the bytes for a buffer of this length, and what stays in `out`.
unfoldable pub pop : ℕ → Bytes → Bytes × Bytes
pop zero out = ([], out)
pop (suc n) [] = ([], [])
pop (suc n) (b ∷ out) = let (bs, rest) = pop n out in (b ∷ bs, rest)

unfoldable pub read : ℕ → Loopback → Bytes × Loopback
read n l = let (bs, rest) = pop n l.out in (bs, record { out = rest; reader = l.reader })

-- `self.out.extend(&enc[..n])`
abbrev pub extended : Bytes → Option (ℕ × Bytes) → Result Bytes LoopError
extended out none = err too_large
extended out (some (n, enc)) = ok (out ++ take n enc)

-- The body of the loop of `PongLoopback`; its buffer has 1100 bytes.
unfoldable pub pong_reply : Reply
pong_reply f out = elim f.typ [
  | ping ↦ extended out (encode pong 0 f.seq f.payload (replicate 1100 0))
  | other ↦ ok out
]

-- `PongLoopback::write_all`
abbrev pub pong_write_all : Bytes → Loopback → Written
pong_write_all = write_all pong_reply

-- `ControlLoopback::queue`
unfoldable pub queue : MsgType → ℕ → Bytes → Bytes → Result Bytes LoopError
queue typ seq body out =
    extended out (encode typ 0 seq body (replicate (header_size + length body + 2) 0))

abbrev pub loopback_caps : Caps
loopback_caps = record {
  protocol = protocol_version;
  instruments = record { id = codes "sys"; opcodes = codes "version" ∷ codes "echo" ∷ [] } ∷ [];
}

abbrev pub result_of : Req → Value
result_of r = if text_eq r.opcode (codes "echo") then r.params else Value.null

module _ (to_caps : Caps → Bytes) (read_req : Bytes → Option Req) (to_resp : Resp → Bytes) where
  abbrev pub req_reply : ℕ → Option Req → Bytes → Result Bytes LoopError
  req_reply seq none out = err bad_req
  req_reply seq (some r) out =
      queue resp seq (to_resp (record { ok = true; result = result_of r })) out

  -- The body of the loop of `ControlLoopback`.
  unfoldable pub control_reply : Reply
  control_reply f out = elim f.typ [
    | hello ↦ queue caps f.seq (to_caps loopback_caps) out
    | req ↦ req_reply f.seq (read_req f.payload) out
    | other ↦ ok out
  ]

  -- `ControlLoopback::write_all`
  abbrev pub control_write_all : Bytes → Loopback → Written
  control_write_all = write_all control_reply
