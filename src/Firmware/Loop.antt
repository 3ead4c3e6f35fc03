-- ===== src/Firmware/Loop.antt =====
-- firmware/src/main.rs: `handle_frame`, and the loop that gathers bytes and handles whole frames.
-- The instruments are an interface over a world of type `W`, and the CBOR reading of a request is a
-- parameter. A reply is the frame that the code sends, before its encoding.
pub mod Handled
pub mod Served
mod Tests
use flip_link.Base.{
  ℕ, zero, suc, ◌+◌, ◌*◌, Bool, true, false, not, ltb, ◌==◌, ◌||◌, ◌&&◌, if◌then◌else◌,
}
use flip_link.Base.{
  List, [], ◌∷◌, ◌++◌, length, take, drop, replicate, Option, none, some, Text, codes, text_eq,
}
use flip_link.Base.Results.{ok, err}
use flip_link.Proto.Bytes.{Bytes}
use flip_link.Proto.Frame.{
  Frame, frame, need_more, resync, MsgType, hello, req, stream_stop, ping, pong, DecodeResult,
  decode, encode,
}
use flip_link.Proto.Messages.{Caps, Req, err_unknown_opcode, err_bad_params}
use flip_link.Proto.Value.{Value}
use flip_link.Firmware.Params.{Answer}
use flip_link.Firmware.Stream.{Sent, error}
use flip_link.Firmware.Registry.{Handler, is_streaming, dispatch, build_caps}

abbrev pub enc_cap : ℕ
enc_cap = 1100

abbrev pub max_idle : ℕ
max_idle = 15000

abbrev pub max_frame : ℕ
max_frame = 16 * 1024

pub data Reply : Type 0 where
  caps : ℕ → Caps → Reply
  resp : ℕ → Value → Reply
  stream : Sent → Reply
  raw : Bytes → Reply

pub record Instruments (W : Type 0) : Type 0 where
  pub run : Handler → Value → W → Answer Value × W
  pub ir_start : ℕ → W → W × List Reply
  pub subghz_start : ℕ → Value → W → W × List Reply
  pub stop_captures : W → W × List Reply
  pub capturing : W → Bool
  pub drain_captures : W → W × List Reply

-- What a receive of the outer loop finds: that bytes were lost, no byte, or a chunk.
pub data Received : Type 0 where
  overflow nothing : Received
  chunk : Bytes → Received

pub record State (W : Type 0) : Type 0 where
  pub acc : Bytes
  pub idle : ℕ
  pub world : W

module _ {W : Type 0} (device : Instruments W) (from_payload : Bytes → Option Req) where
  abbrev pub answered : ℕ → Answer Value × W → W × List Reply
  answered seq (ok result, w) = (w, resp seq result ∷ [])
  answered seq (err (code, message), w) = (w, stream (error seq code message) ∷ [])

  unfoldable pub start_stream : ℕ → Req → W → W × List Reply
  start_stream seq r w =
      if text_eq r.instrument (codes "ir") && text_eq r.opcode (codes "capture")
      then device.ir_start seq w
      else if text_eq r.instrument (codes "subghz") && text_eq r.opcode (codes "capture")
      then device.subghz_start seq r.params w
      else (w, stream (error seq err_unknown_opcode (codes "unknown streaming opcode")) ∷ [])

  unfoldable pub handle_req : ℕ → Option Req → W → W × List Reply
  handle_req seq none w = (w, stream (error seq err_bad_params (codes "bad REQ body")) ∷ [])
  handle_req seq (some r) w =
      if is_streaming r.instrument r.opcode
      then start_stream seq r w
      else answered seq (dispatch device.run r.instrument r.opcode r.params w)

  unfoldable pub handle_frame : MsgType → ℕ → Bytes → W → W × List Reply
  handle_frame typ seq payload w = elim typ [
    | hello ↦ (w, caps seq build_caps ∷ [])
    | req ↦ handle_req seq (from_payload payload) w
    | stream_stop ↦ device.stop_captures w
    | _ ↦ (w, [])
  ]

  abbrev pub pong_reply : Option (ℕ × Bytes) → List Reply
  pong_reply none = []
  pong_reply (some (n, enc)) = raw (take n enc) ∷ []

  -- A PING is answered with its payload, if the answer fits `enc`; the rest goes to `handle_frame`.
  unfoldable pub handle : Frame → W → W × List Reply
  handle f w = elim f.typ [
    | ping ↦ (w, pong_reply (encode pong 0 f.seq f.payload (replicate enc_cap 0)))
    | _ ↦ handle_frame f.typ f.seq f.payload w
  ]

  abbrev pub Drained : Type 0
  Drained = Bytes × W × List Reply

  abbrev pub prepend : List Reply → Drained → Drained
  prepend replies (acc, w, more) = (acc, w, replies ++ more)

  -- The arms of the inner loop's match, before its next round.
  unfoldable pub after_decode : (Bytes → W → Drained) → DecodeResult → Bytes → W → Drained
  after_decode again (frame f used) acc w =
      let handled = handle f w in prepend handled.1 (again (drop used acc) handled.0)
  after_decode again need_more acc w = (acc, w, [])
  after_decode again resync acc w =
      let next = again (drop 1 acc) w in if length acc == 0 then (acc, w, []) else next

  -- The inner loop: it decodes the front of `acc` until a frame is not whole. A round that goes on
  -- takes a byte at least.
  unfoldable pub drain_acc : ℕ → Bytes → W → Drained
  drain_acc zero acc w = (acc, w, [])
  drain_acc (suc fuel) acc w = after_decode (drain_acc fuel) (decode acc) acc w

  unfoldable pub gather : Bytes → W → Drained
  gather acc w =
      if ltb max_frame (length acc) then ([], w, []) else drain_acc (suc (length acc)) acc w

  -- A round of the outer loop.
  unfoldable pub round : Received → State W → State W × List Reply
  round overflow s = (record { acc = []; idle = 0; world = s.world }, [])
  round nothing s =
      let (w, replies) = device.drain_captures s.world in
      let idle = if device.capturing s.world then s.idle else s.idle + 1 in
      (record { acc = s.acc; idle = idle; world = w }, replies)
  round (chunk bytes) s =
      let (w, replies) = device.drain_captures s.world in
      let (acc, last, more) = gather (s.acc ++ bytes) w in
      (record { acc = acc; idle = 0; world = last }, replies ++ more)

  -- The outer loop, over what `RUNNING` says and what is received in each round: it ends when Back
  -- was pressed or after enough idle rounds, and then finishes the captures.
  unfoldable pub main_loop : List (Bool × Received) → State W → State W × List Reply
  main_loop [] s = (s, [])
  main_loop ((running, received) ∷ inputs) s =
      let (s', replies) = round received s in
      let (last, more) = main_loop inputs s' in
      let (w, stops) = device.stop_captures s.world in
      if running && ltb s.idle max_idle
      then (last, replies ++ more)
      else (record { acc = s.acc; idle = s.idle; world = w }, stops)
