-- ===== src/Proto/Crc/Detect.antt =====
-- What the checksum of crates/flip-proto/src/crc16.rs promises: it is a u16, and one changed byte
-- changes it.
use flip_link.Base.{ℕ, zero, suc, ◌*◌, ◌%◌, ◌^◌, ◌≡◌, ◌≢◌, arith}
use flip_link.Base.{List, [], ◌∷◌, ◌++◌, bit_xor}
use flip_link.Base.Bits.{bit_and-two-pow, bit_xor-lt, bit_xor_step}
use flip_link.Base.Bits.{bit_xor-cancel_left, bit_xor-cancel_right}
use flip_link.Proto.Bytes.{IsByte, IsU16}
use flip_link.Proto.Crc.{shift_bit, shift_bits, absorb, crc_from, crc16_ccitt_false}

shift_bit-IsU16 : (c : ℕ) → IsU16 (shift_bit c)
unfolding shift_bit
shift_bit-IsU16 c = ground (arith, bit_xor-lt 16 (c * 2 ^ 1 % 2 ^ 16) 0x1021)

-- The polynomial is odd, so the lowest bit of the result tells which branch was taken.
shift_bit_injective : (c d : ℕ) → IsU16 c → IsU16 d → shift_bit c ≡ shift_bit d → c ≡ d
unfolding shift_bit
shift_bit_injective c d p q e = ground (
  arith,
  bit_and-two-pow 15 c,
  bit_and-two-pow 15 d,
  bit_xor_step (c * 2 ^ 1 % 2 ^ 16) 0x1021,
  bit_xor_step (d * 2 ^ 1 % 2 ^ 16) 0x1021,
  bit_xor-cancel_right (2 ^ 16) (c * 2 ^ 1 % 2 ^ 16) (d * 2 ^ 1 % 2 ^ 16) 0x1021,
)

shift_bits-IsU16 : (n c : ℕ) → IsU16 c → IsU16 (shift_bits n c)
unfolding shift_bits
shift_bits-IsU16 zero c h = h
shift_bits-IsU16 (suc n) c h = shift_bits-IsU16 n (shift_bit c) (shift_bit-IsU16 c)

shift_bits_injective : (n c d : ℕ) → IsU16 c → IsU16 d → shift_bits n c ≡ shift_bits n d → c ≡ d
unfolding shift_bits
shift_bits_injective zero c d p q e = e
shift_bits_injective (suc n) c d p q e =
    shift_bit_injective c d p q
      (shift_bits_injective n (shift_bit c) (shift_bit d) (shift_bit-IsU16 c) (shift_bit-IsU16 d) e)

mixed-IsU16 : (c b : ℕ) → IsU16 c → IsU16 (bit_xor c (b * 2 ^ 8 % 2 ^ 16))
mixed-IsU16 c b h = bit_xor-lt 16 c _ h (omega arith)

absorb-IsU16 : (c b : ℕ) → IsU16 c → IsU16 (absorb c b)
unfolding absorb
absorb-IsU16 c b h = shift_bits-IsU16 8 _ (mixed-IsU16 c b h)

absorb_injective_left : (c d b : ℕ) → IsU16 c → IsU16 d → absorb c b ≡ absorb d b → c ≡ d
unfolding absorb
absorb_injective_left c d b p q e =
    bit_xor-cancel_right (2 ^ 16) c d _ (omega arith) (omega arith)
      (shift_bits_injective 8 _ _ (mixed-IsU16 c b p) (mixed-IsU16 d b q) e)

absorb_injective_right :
    (c a b : ℕ) → IsU16 c → IsByte a → IsByte b → absorb c a ≡ absorb c b → a ≡ b
unfolding absorb
absorb_injective_right c a b h p q e =
    let shifted : a * 2 ^ 8 % 2 ^ 16 ≡ b * 2 ^ 8 % 2 ^ 16 =
      bit_xor-cancel_left (2 ^ 16) c _ _ (omega arith) (omega arith)
        (shift_bits_injective 8 _ _ (mixed-IsU16 c a h) (mixed-IsU16 c b h) e) in
    omega arith

crc_from-IsU16 : (c : ℕ) (bs : List ℕ) → IsU16 c → IsU16 (crc_from c bs)
unfolding crc_from
crc_from-IsU16 c [] h = h
crc_from-IsU16 c (b ∷ bs) h = crc_from-IsU16 (absorb c b) bs (absorb-IsU16 c b h)

crc_from_injective :
    (c d : ℕ) (bs : List ℕ) → IsU16 c → IsU16 d → crc_from c bs ≡ crc_from d bs → c ≡ d
unfolding crc_from
crc_from_injective c d [] p q e = e
crc_from_injective c d (b ∷ bs) p q e =
    absorb_injective_left c d b p q
      (crc_from_injective (absorb c b) (absorb d b) bs (absorb-IsU16 c b p) (absorb-IsU16 d b q) e)

crc_from_changed :
    (c : ℕ) (xs : List ℕ) (a b : ℕ) (ys : List ℕ)
    → IsU16 c
    → IsByte a
    → IsByte b
    → crc_from c (xs ++ (a ∷ ys)) ≡ crc_from c (xs ++ (b ∷ ys))
    → a ≡ b
unfolding crc_from
crc_from_changed c [] a b ys h p q e =
    absorb_injective_right c a b h p q
      (crc_from_injective (absorb c a) (absorb c b) ys (absorb-IsU16 c a h) (absorb-IsU16 c b h) e)
crc_from_changed c (x ∷ xs) a b ys h p q e =
    crc_from_changed (absorb c x) xs a b ys (absorb-IsU16 c x h) p q e

-- The checksum is a u16.
pub crc16_ccitt_false-IsU16 : (bs : List ℕ) → IsU16 (crc16_ccitt_false bs)
unfolding crc16_ccitt_false
crc16_ccitt_false-IsU16 bs = crc_from-IsU16 0xffff bs (omega arith)

-- Replacing one byte by a different byte, anywhere in a message of any length, changes the
-- checksum.
pub crc16_ccitt_false_detects_byte :
    (xs : List ℕ) (a b : ℕ) (ys : List ℕ)
    → IsByte a
    → IsByte b
    → a ≢ b
    → crc16_ccitt_false (xs ++ (a ∷ ys)) ≢ crc16_ccitt_false (xs ++ (b ∷ ys))
unfolding crc16_ccitt_false
crc16_ccitt_false_detects_byte xs a b ys p q ne e =
    ne (crc_from_changed 0xffff xs a b ys (omega arith) p q e)
