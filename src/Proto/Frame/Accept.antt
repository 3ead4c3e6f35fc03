-- ===== src/Proto/Frame/Accept.antt =====
-- `decode` of crates/flip-proto/src/frame.rs over a buffer that is taken apart into the header's
-- bytes, the payload, the checksum's bytes and the rest.
use flip_link.Base.{ℕ, ◌+◌, ◌≤◌, ◌≡◌, arith}
use flip_link.Base.{◌∷◌, ◌++◌, length, length-append}
use flip_link.Base.{take-append_length, get_or-append_ge}
use flip_link.Proto.Bytes.{Bytes, slice, u16_from_le_bytes, u32_from_le_bytes}
use flip_link.Proto.Crc.{crc16_ccitt_false}
use flip_link.Proto.Frame.{DecodeResult}
use flip_link.Proto.Frame.{decode, decode_body, checked, at, max_payload, header_size, crc_size}

module _ (v t fl s0 s1 l0 l1 l2 l3 : ℕ) (p : Bytes) (c0 c1 : ℕ) where
  -- The checks and the result once the whole frame is there, over its parts.
  unfoldable pub accept : DecodeResult
  accept =
      checked (u16_from_le_bytes c0 c1)
        (crc16_ccitt_false (v ∷ t ∷ fl ∷ s0 ∷ s1 ∷ l0 ∷ l1 ∷ l2 ∷ l3 ∷ p)) t fl
        (u16_from_le_bytes s0 s1) p (header_size + length p + crc_size)

  module _ (m0 m1 : ℕ) (rest : Bytes) where
    abbrev pub buffer : Bytes
    buffer = m0 ∷ m1 ∷ v ∷ t ∷ fl ∷ s0 ∷ s1 ∷ l0 ∷ l1 ∷ l2 ∷ l3 ∷ (p ++ (c0 ∷ c1 ∷ rest))

    abbrev front : Bytes
    front = m0 ∷ m1 ∷ v ∷ t ∷ fl ∷ s0 ∷ s1 ∷ l0 ∷ l1 ∷ l2 ∷ l3 ∷ p

    slice_body :
        slice buffer 2 (header_size + length p) ≡ v ∷ t ∷ fl ∷ s0 ∷ s1 ∷ l0 ∷ l1 ∷ l2 ∷ l3 ∷ p
    slice_body =
        take-append_length (v ∷ t ∷ fl ∷ s0 ∷ s1 ∷ l0 ∷ l1 ∷ l2 ∷ l3 ∷ p) (c0 ∷ c1 ∷ rest) _
          (omega arith)

    slice_payload : slice buffer header_size (header_size + length p) ≡ p
    slice_payload = take-append_length p (c0 ∷ c1 ∷ rest) _ (omega arith)

    at_crc : at buffer (header_size + length p) ≡ c0
    at_crc = get_or-append_ge front (c0 ∷ c1 ∷ rest) _ 0 0 (omega arith)

    at_crc_next : at buffer (header_size + length p + 1) ≡ c1
    at_crc_next = get_or-append_ge front (c0 ∷ c1 ∷ rest) _ 1 0 (omega arith)

    decode_body_lem : decode_body buffer (length p) ≡ accept
    unfolding decode_body accept
    decode_body_lem = rw (at_crc, at_crc_next, slice_body, slice_payload)

-- A buffer that starts with the magic number and a whole frame, whatever its bytes are.
pub decode-accept :
    (v t fl s0 s1 l0 l1 l2 l3 : ℕ) (p : Bytes) (c0 c1 : ℕ) (rest : Bytes)
    → u32_from_le_bytes l0 l1 l2 l3 ≡ length p
    → length p ≤ max_payload
    → decode (buffer v t fl s0 s1 l0 l1 l2 l3 p c0 c1 0xa6 0xf1 rest)
      ≡ accept v t fl s0 s1 l0 l1 l2 l3 p c0 c1
unfolding decode
decode-accept v t fl s0 s1 l0 l1 l2 l3 p c0 c1 rest same small = rw same (
    ground (
      arith,
      length-append p (c0 ∷ c1 ∷ rest),
      decode_body_lem v t fl s0 s1 l0 l1 l2 l3 p c0 c1 0xa6 0xf1 rest,
    ))
