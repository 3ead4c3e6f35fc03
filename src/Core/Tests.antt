-- ===== src/Core/Tests.antt =====
-- Runs of the reader of crates/flip-core, and its theorems at concrete streams.
use flip_link.Base.{◌≡◌, refl, [], ◌∷◌, ◌++◌, arith, none, some, flatten, sym, ap}
use flip_link.Proto.Bytes.{Bytes}
use flip_link.Proto.Crc.{crc16_ccitt_false, crc_from, absorb, shift_bits, shift_bit}
use flip_link.Proto.Frame.{Frame, pong, decode, checked, decode_body, from_u8, to_u8}
use flip_link.Proto.Frame.Wire.{wire, body, IsFrame}
use flip_link.Core.Reader.{new, feed, next_frame, scan, drain, read_all}
use flip_link.Core.Reader.Stream.{scan_garbage}
use flip_link.Core.Reader.Chunks.{read_all-wires, read_all-flatten}

abbrev x_frame : Frame
x_frame = record { typ = pong; flags = 0; seq = 1; payload = b'x' ∷ [] }

abbrev x_head : Bytes
x_head = 0xa6 ∷ 0xf1 ∷ 1 ∷ 11 ∷ 0 ∷ []

abbrev x_tail : Bytes
x_tail = 1 ∷ 0 ∷ 1 ∷ 0 ∷ 0 ∷ 0 ∷ b'x' ∷ 104 ∷ 103 ∷ []

x_bytes : wire 1 x_frame ≡ x_head ++ x_tail
unfolding wire body to_u8 crc16_ccitt_false crc_from absorb shift_bits shift_bit
x_bytes = refl

x_frame-IsFrame : IsFrame x_frame
x_frame-IsFrame = omega arith

test_partial : next_frame (feed new x_head) ≡ (none, feed new x_head)
unfolding next_frame feed scan decode
test_partial = refl

test_resync : (next_frame (feed new (0xde ∷ 0xad ∷ 0xbe ∷ x_head ++ x_tail))).0 ≡ some x_frame
unfolding next_frame feed scan decode decode_body checked from_u8 crc16_ccitt_false crc_from absorb
    shift_bits shift_bit
test_resync = refl

scan_garbage_example : scan (0xde ∷ 0xad ∷ (wire 1 x_frame ++ (7 ∷ []))) ≡ (some x_frame, 7 ∷ [])
scan_garbage_example =
    scan_garbage (0xde ∷ 0xad ∷ []) 1 x_frame (7 ∷ []) (omega arith) x_frame-IsFrame

read_all-wires_example :
    read_all (x_head ∷ (x_tail ++ x_head) ∷ []) new ≡ (x_frame ∷ [], record { buf = x_head })
unfolding flatten
read_all-wires_example =
    read_all-wires (x_head ∷ (x_tail ++ x_head) ∷ []) (x_frame ∷ []) 1 x_frame x_head 1
      (0 ∷ 1 ∷ 0 ∷ 0 ∷ 0 ∷ b'x' ∷ 104 ∷ 103 ∷ []) (x_frame-IsFrame, tt) x_frame-IsFrame x_bytes
      (sym (ap (λ l. (l ++ []) ++ x_head) x_bytes))

read_all-flatten_example :
    read_all (x_head ∷ x_tail ∷ []) new ≡ drain (record { buf = flatten (x_head ∷ x_tail ∷ []) })
read_all-flatten_example = read_all-flatten (x_head ∷ x_tail ∷ [])
