-- ===== src/Proto/Frame/RoundTrip.antt =====
-- `encode` and `decode` of crates/flip-proto/src/frame.rs together: `decode` accepts exactly the
-- frames that `encode` writes, with any version byte.
use flip_link.Base.{ℕ, ◌≤◌, ◌≡◌, refl, ◌∙◌, arith}
use flip_link.Base.{◌++◌, length, drop, some}
use flip_link.Base.{append_assoc}
use flip_link.Proto.Bytes.{Bytes, u16_to_le_bytes}
use flip_link.Proto.Bytes.{u16_from_le_bytes-to}
use flip_link.Proto.Crc.{crc16_ccitt_false}
use flip_link.Proto.Crc.Detect.{crc16_ccitt_false-IsU16}
use flip_link.Proto.Frame.{MsgType, Frame, frame, to_u8, from_u8}
use flip_link.Proto.Frame.{hello, caps, req, resp, stream_start, stream_data, stream_stop, event}
use flip_link.Proto.Frame.{error, ping, pong, decode, encode, checked}
use flip_link.Proto.Frame.Wire.{body, wire, IsFrame, frame_size, encode-wire}
use flip_link.Proto.Frame.Accept.{accept, decode-accept}

from_u8-to_u8 : (t : MsgType) → from_u8 (to_u8 t) ≡ some t
unfolding from_u8 to_u8
from_u8-to_u8 hello = refl
from_u8-to_u8 caps = refl
from_u8-to_u8 req = refl
from_u8-to_u8 resp = refl
from_u8-to_u8 stream_start = refl
from_u8-to_u8 stream_data = refl
from_u8-to_u8 stream_stop = refl
from_u8-to_u8 event = refl
from_u8-to_u8 error = refl
from_u8-to_u8 ping = refl
from_u8-to_u8 pong = refl

pub to_u8-from_u8 : (b : ℕ) (t : MsgType) → from_u8 b ≡ some t → to_u8 t ≡ b
unfolding from_u8 to_u8
to_u8-from_u8 b t e = ground arith

checked_accepts :
    (crc : ℕ) (f : Frame) (s n : ℕ)
    → s ≡ f.seq
    → checked crc crc (to_u8 f.typ) f.flags s f.payload n ≡ frame f n
unfolding checked
checked_accepts crc f s n e = ground (arith, from_u8-to_u8 f.typ)

-- A frame on the wire, with whatever bytes behind it and whatever version byte, is decoded to its
-- fields and its size.
pub decode-wire :
    (v : ℕ) (f : Frame) (rest : Bytes)
    → IsFrame f
    → decode (wire v f ++ rest) ≡ frame f (frame_size f)
unfolding wire body accept
decode-wire v f rest ok =
    let crc = crc16_ccitt_false (body v f) in
    rw (append_assoc f.payload (u16_to_le_bytes crc) rest) (
      decode-accept v (to_u8 f.typ) f.flags _ _ _ _ 0 0 f.payload _ _ rest (omega arith)
        ok.payload_fits
      ∙ rw (u16_from_le_bytes-to crc (crc16_ccitt_false-IsU16 (body v f)))
          (checked_accepts crc f _ (frame_size f) (u16_from_le_bytes-to f.seq ok.seq_u16)))

-- Whatever `encode` wrote into a slice that is long enough, `decode` reads back from that slice,
-- and answers the count of bytes that `encode` returned.
pub decode-encode :
    (f : Frame) (out : Bytes)
    → IsFrame f
    → frame_size f ≤ length out
    → (written : Bytes) × (encode f.typ f.flags f.seq f.payload out ≡ some (frame_size f, written))
      × (decode written ≡ frame f (frame_size f))
decode-encode f out ok room =
    (_, encode-wire f out ok.payload_fits room, decode-wire 1 f (drop (frame_size f) out) ok)
