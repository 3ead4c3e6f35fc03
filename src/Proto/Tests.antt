-- ===== src/Proto/Tests.antt =====
-- Runs of the frame codec of crates/flip-proto at concrete frames, and its theorems there.
use flip_link.Base.{ℕ, ◌≡◌, refl, [], ◌∷◌, ◌++◌, arith, some}
use flip_link.Base.{◌↔◌, inr, replicate}
use flip_link.Proto.Bytes.{Bytes, overlay, copy_at}
use flip_link.Proto.Crc.{crc16_ccitt_false, crc_from, absorb, shift_bits, shift_bit}
use flip_link.Proto.Frame.{Frame, frame, resync, ping, encode, decode, from_u8}
use flip_link.Proto.Frame.{to_u8, decode_body, checked, fill_header, fill_payload}
use flip_link.Proto.Frame.Wire.{body, wire, IsFrame, frame_size}
use flip_link.Proto.Frame.RoundTrip.{decode-encode}
use flip_link.Proto.Frame.Sound.{decode_iff}
use flip_link.Proto.Frame.Tamper.{tampered, decode-tampered}

abbrev hi : Frame
hi = record { typ = ping; flags = 0; seq = 0x1234; payload = b'h' ∷ b'i' ∷ [] }

hi-IsFrame : IsFrame hi
hi-IsFrame = omega arith

abbrev blank : Bytes
blank = replicate 16 7

abbrev hi_bytes : Bytes
hi_bytes = 0xa6 ∷ 0xf1 ∷ 1 ∷ 10 ∷ 0 ∷ 0x34 ∷ 0x12 ∷ 2 ∷ 0 ∷ 0 ∷ 0 ∷ b'h' ∷ b'i' ∷ 0xe2 ∷ 0x72 ∷ []

crc_check_value :
    crc16_ccitt_false (b'1' ∷ b'2' ∷ b'3' ∷ b'4' ∷ b'5' ∷ b'6' ∷ b'7' ∷ b'8' ∷ b'9' ∷ []) ≡ 0x29b1
unfolding crc16_ccitt_false crc_from absorb shift_bits shift_bit
crc_check_value = refl

test_bytes : wire 1 hi ≡ hi_bytes
unfolding wire body to_u8 crc16_ccitt_false crc_from absorb shift_bits shift_bit
test_bytes = refl

test_encode : encode ping 0 0x1234 (b'h' ∷ b'i' ∷ []) blank ≡ some (15, hi_bytes ++ (7 ∷ []))
unfolding encode fill_header fill_payload to_u8 copy_at overlay crc16_ccitt_false crc_from absorb
    shift_bits shift_bit
test_encode = refl

test_decode : decode (hi_bytes ++ (9 ∷ [])) ≡ frame hi 15
unfolding decode decode_body checked from_u8 crc16_ccitt_false crc_from absorb shift_bits shift_bit
test_decode = refl

-- Another version byte, with the checksum that goes with it, is accepted.
test_other_version : decode (wire 9 hi) ≡ frame hi 15
unfolding decode decode_body checked from_u8 crc16_ccitt_false crc_from absorb shift_bits shift_bit
    wire body to_u8
test_other_version = refl

decode-encode_example :
    (written : Bytes) × (encode ping 0 0x1234 (b'h' ∷ b'i' ∷ []) blank ≡ some (15, written))
    × (decode written ≡ frame hi 15)
decode-encode_example = decode-encode hi blank hi-IsFrame (omega arith)

decode_iff_example : (decode hi_bytes ≡ frame hi 15) ↔ (
    (v : ℕ) × (rest : Bytes) × (hi_bytes ≡ wire v hi ++ rest) × (15 ≡ frame_size hi) × IsFrame hi)
decode_iff_example = decode_iff hi_bytes hi 15 (omega arith)

decode-tampered_example :
    decode (tampered 1 hi (1 ∷ 10 ∷ 0 ∷ 0x34 ∷ 0x12 ∷ 2 ∷ 0 ∷ 0 ∷ 0 ∷ b'j' ∷ b'i' ∷ []) []) ≡ resync
unfolding body to_u8
decode-tampered_example =
    decode-tampered 1 hi (1 ∷ 10 ∷ 0 ∷ 0x34 ∷ 0x12 ∷ 2 ∷ 0 ∷ 0 ∷ 0 ∷ []) b'h' b'j' (b'i' ∷ []) []
      hi-IsFrame (omega arith) (omega arith) (omega arith) refl (inr (omega arith))
