-- ===== src/Proto/Crc.antt =====
-- crates/flip-proto/src/crc16.rs: CRC-16/CCITT-FALSE. A byte is a number below 2 ^ 8 and the `u16`
-- register a number below 2 ^ 16; `<<` drops what leaves the word by `% 2 ^ 16`.
pub mod Detect
use flip_link.Base.{ℕ, zero, suc, ◌*◌, ◌%◌, ◌^◌, List, foldl, bit_and, bit_xor}
use flip_link.Base.{◌==◌, if◌then◌else◌}

-- One round of the inner loop: `crc & 0x8000 != 0` selects the reduction by the polynomial.
unfoldable pub shift_bit : ℕ → ℕ
shift_bit crc =
    if bit_and crc 0x8000 == 0 then crc * 2 ^ 1 % 2 ^ 16 else bit_xor (crc * 2 ^ 1 % 2 ^ 16) 0x1021

-- `for _ in 0..n` of the inner loop.
unfoldable pub shift_bits : ℕ → ℕ → ℕ
shift_bits zero crc = crc
shift_bits (suc n) crc = shift_bits n (shift_bit crc)

-- The body of `for &b in data`.
unfoldable pub absorb : ℕ → ℕ → ℕ
absorb crc b = shift_bits 8 (bit_xor crc (b * 2 ^ 8 % 2 ^ 16))

unfoldable pub crc_from : ℕ → List ℕ → ℕ
crc_from = foldl absorb

unfoldable pub crc16_ccitt_false : List ℕ → ℕ
crc16_ccitt_false bytes = crc_from 0xffff bytes
