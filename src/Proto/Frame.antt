-- ===== src/Proto/Frame.antt =====
-- crates/flip-proto/src/frame.rs: the frame wire format, little-endian:
-- magic u16 | version u8 | type u8 | flags u8 | seq u16 | length u32 | payload | crc16 u16.
-- `out` is the caller's slice: `encode` returns it as it is after the call. Every index that the
-- code reads is guarded by a length test, so `at` never answers its default.
pub mod Wire
pub mod Accept
pub mod RoundTrip
pub mod Sound
pub mod Stream
pub mod Tamper
use flip_link.Base.{ℕ, ◌+◌, ◌%◌, ◌^◌, [], ◌∷◌, length, get_or, Option, none, some}
use flip_link.Base.{ltb, ◌==◌, if◌then◌else◌, not}
use flip_link.Proto.Bytes.{
  Bytes, u16_to_le_bytes, u32_to_le_bytes, u16_from_le_bytes, u32_from_le_bytes, slice, copy_at,
}
use flip_link.Proto.Crc.{crc16_ccitt_false}

abbrev pub frame_magic : ℕ
frame_magic = 0xf1a6

abbrev pub frame_version : ℕ
frame_version = 1

abbrev pub header_size : ℕ
header_size = 11

abbrev pub crc_size : ℕ
crc_size = 2

abbrev pub max_payload : ℕ
max_payload = 0xffff

pub data MsgType : Type 0 where
  hello caps req resp stream_start stream_data stream_stop event error ping pong : MsgType

-- `typ as u8`
unfoldable pub to_u8 : MsgType → ℕ
to_u8 hello = 1
to_u8 caps = 2
to_u8 req = 3
to_u8 resp = 4
to_u8 stream_start = 5
to_u8 stream_data = 6
to_u8 stream_stop = 7
to_u8 event = 8
to_u8 error = 9
to_u8 ping = 10
to_u8 pong = 11

unfoldable pub from_u8 : ℕ → Option MsgType
from_u8 v =
    if v == 1
    then some hello
    else if v == 2
    then some caps
    else if v == 3
    then some req
    else if v == 4
    then some resp
    else if v == 5
    then some stream_start
    else if v == 6
    then some stream_data
    else if v == 7
    then some stream_stop
    else if v == 8
    then some event
    else if v == 9
    then some error
    else if v == 10
    then some ping
    else if v == 11
    then some pong
    else none

pub record Frame : Type 0 where
  pub typ : MsgType
  pub flags : ℕ
  pub seq : ℕ
  pub payload : Bytes

pub data DecodeResult : Type 0 where
  frame : Frame → ℕ → DecodeResult
  need_more : DecodeResult
  resync : DecodeResult

abbrev at : Bytes → ℕ → ℕ
at buf i = get_or buf i 0

-- The writes of `encode`, in order: the header fields, then the payload and the checksum of what
-- stands between the magic number and the end of the payload.
unfoldable pub fill_header : MsgType → ℕ → ℕ → ℕ → Bytes → Bytes
unfolding to_u8 copy_at
fill_header typ flags seq size out =
    let out1 = copy_at 0 (u16_to_le_bytes frame_magic) out in
    let out2 = copy_at 2 (frame_version ∷ []) out1 in
    let out3 = copy_at 3 (to_u8 typ ∷ []) out2 in
    let out4 = copy_at 4 (flags ∷ []) out3 in
    let out5 = copy_at 5 (u16_to_le_bytes seq) out4 in
    copy_at 7 (u32_to_le_bytes (size % 2 ^ 32)) out5

unfoldable pub fill_payload : Bytes → Bytes → Bytes
fill_payload payload out =
    let out' = copy_at header_size payload out in
    let crc = crc16_ccitt_false (slice out' 2 (header_size + length payload)) in
    copy_at (header_size + length payload) (u16_to_le_bytes crc) out'

-- `none` leaves `out` alone. The bytes written and the new `out`, otherwise.
unfoldable pub encode : MsgType → ℕ → ℕ → Bytes → Bytes → Option (ℕ × Bytes)
encode typ flags seq payload out =
    let total = header_size + length payload + crc_size in
    if ltb max_payload (length payload % 2 ^ 32)
    then none
    else if ltb (length out) total
    then none
    else some (total, fill_payload payload (fill_header typ flags seq (length payload) out))

-- The end of `decode`: the checksum, then the type, then the frame.
unfoldable pub checked : ℕ → ℕ → ℕ → ℕ → ℕ → Bytes → ℕ → DecodeResult
checked want got typ_byte flags seq payload total =
    if not (want == got) then resync else elim (from_u8 typ_byte) [
      | none ↦ resync
      | some t ↦ frame (record { typ = t; flags = flags; seq = seq; payload = payload }) total
    ]

-- The header and its length field are accepted, and the whole frame is in the buffer.
unfoldable pub decode_body : Bytes → ℕ → DecodeResult
decode_body buf size =
    let total = header_size + size + crc_size in
    let crc_at = header_size + size in
    let want = u16_from_le_bytes (at buf crc_at) (at buf (crc_at + 1)) in
    let got = crc16_ccitt_false (slice buf 2 crc_at) in
    checked want got (at buf 3) (at buf 4) (u16_from_le_bytes (at buf 5) (at buf 6))
      (slice buf header_size crc_at) total

unfoldable pub decode : Bytes → DecodeResult
decode buf =
    let size = u32_from_le_bytes (at buf 7) (at buf 8) (at buf 9) (at buf 10) in
    if ltb (length buf) 2
    then need_more
    else if not (u16_from_le_bytes (at buf 0) (at buf 1) == frame_magic)
    then resync
    else if ltb (length buf) header_size
    then need_more
    else if ltb max_payload size
    then resync
    else if ltb (length buf) (header_size + size + crc_size)
    then need_more
    else decode_body buf size
