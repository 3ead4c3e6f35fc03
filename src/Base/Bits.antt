-- ===== src/Base/Bits.antt =====
-- `^` and `&` on the native numbers, digit by digit: the bounds, the cancellation laws and the
-- single-bit mask that the checksum needs.
use Prim.Native.Nat.{ℕ, zero, suc, ◌+◌, ◌-◌, ◌*◌, ◌/◌, ◌%◌, ◌^◌, ◌≤◌, ◌<◌, min}
use Prim.Native.Nat.{bit_and, bit_xor, digits, differ, bit_and-bitwise, bit_xor-bitwise}
use mathlib.Core.Path.{◌≡◌, refl, sym, ap, ◌∙◌}
use native.Mathlib.Nat.{pow-suc, div-div-eq-div-mul}
use native.Mathlib.Omega.{arith}

-- The library's operations count digits down from the first number: a count above it changes
-- nothing.
module _ (out : ℕ → ℕ) (op : ℕ → ℕ → ℕ) where
  one_more : (count x y : ℕ) → x ≤ count → digits out op (suc count) x y ≡ digits out op count x y
  one_more zero zero y le = refl
  one_more zero (suc x) y le = absurd (omega arith)
  one_more (suc count) zero y le = refl
  one_more (suc count) (suc x) y le =
      omega (arith, one_more count (suc x / 2) (y / 2) (omega arith))

  many_more : (k count x y : ℕ) → k + x ≡ count → digits out op count x y ≡ digits out op x x y
  many_more zero count x y e =
      let same : count ≡ x = omega arith in ap (λ m. digits out op m x y) same
  many_more (suc k) zero x y e = absurd (omega arith)
  many_more (suc k) (suc count) x y e =
      one_more count x y (omega arith) ∙ many_more k count x y (omega arith)

differ-mod : (x y : ℕ) → differ (x % 2) (y % 2) ≡ (x + y) % 2
differ-mod x y = omega (arith, bits (x % 2) (y % 2) (omega arith) (omega arith))
  where
    bits : (a b : ℕ) → a < 2 → b < 2 → differ a b ≡ (a + b) % 2
    bits zero b p q = omega arith
    bits (suc zero) zero p q = refl
    bits (suc zero) (suc zero) p q = refl
    bits (suc zero) (suc (suc b)) p q = absurd (omega arith)
    bits (suc (suc a)) b p q = absurd (omega arith)

-- One equation for the lowest digit of each operation.
pub bit_xor_step : (a b : ℕ) → bit_xor a b ≡ bit_xor (a / 2) (b / 2) * 2 + (a + b) % 2
bit_xor_step zero b = omega (arith, bit_xor-bitwise 0 b, bit_xor-bitwise 0 (b / 2))
bit_xor_step (suc a) b =
    let halved = many_more (λ c. c) differ (a - suc a / 2) a (suc a / 2) (b / 2) (omega arith) in
    omega (
      arith,
      halved,
      differ-mod (suc a) b,
      bit_xor-bitwise (suc a / 2) (b / 2),
      bit_xor-bitwise (suc a) b,
    )

and_step : (a b : ℕ) → bit_and a b ≡ bit_and (a / 2) (b / 2) * 2 + min (a % 2) (b % 2)
and_step zero b = omega (arith, bit_and-bitwise 0 (b / 2), bit_and-bitwise 0 b)
and_step (suc a) b =
    let halved = many_more (λ c. zero) min (a - suc a / 2) a (suc a / 2) (b / 2) (omega arith) in
    omega (arith, halved, bit_and-bitwise (suc a / 2) (b / 2), bit_and-bitwise (suc a) b)

-- Nothing is kept by the empty mask.
empty_mask : (n a : ℕ) → a ≤ n → bit_and a 0 ≡ 0
empty_mask zero a le = ground (arith, bit_and-bitwise 0 0)
empty_mask (suc n) a le = omega (arith, and_step a 0, empty_mask n (a / 2) (omega arith))

bit_and-double : (a m : ℕ) → bit_and a (m * 2) ≡ bit_and (a / 2) m * 2
bit_and-double a m =
    let half : m * 2 / 2 ≡ m = omega arith in
    omega (arith, and_step a (m * 2), ap (λ (t : ℕ). bit_and (a / 2) t) half)

-- A mask of the one bit `k` keeps that digit in its place.
pub bit_and-two-pow : (k a : ℕ) → bit_and a (2 ^ k) ≡ a / 2 ^ k % 2 * 2 ^ k
bit_and-two-pow zero a = ground (arith, and_step a 1, empty_mask (a / 2) (a / 2))
bit_and-two-pow (suc k) a =
    let m = 2 ^ k in
    let halves : a / (m * 2) ≡ a / 2 / m =
      ap (λ (t : ℕ). a / t) (omega arith) ∙ sym (div-div-eq-div-mul a 2 m) in
    rw (pow-suc 2 k) (rw (bit_and-double a m, bit_and-two-pow k (a / 2), halves) (omega arith))

-- `x ^ y` fits the width that both fit.
pub bit_xor-lt : (k a b : ℕ) → a < 2 ^ k → b < 2 ^ k → bit_xor a b < 2 ^ k
bit_xor-lt zero zero zero p q = omega (arith, bit_xor-bitwise 0 0)
bit_xor-lt zero zero (suc b) p q = absurd (omega arith)
bit_xor-lt zero (suc a) b p q = absurd (omega arith)
bit_xor-lt (suc k) a b p q = omega (
  arith,
  pow-suc 2 k,
  bit_xor_step a b,
  bit_xor-lt k (a / 2) (b / 2) (omega (arith, pow-suc 2 k)) (omega (arith, pow-suc 2 k)),
)

-- Either argument can be cancelled.
pub bit_xor-cancel_right : (n a b k : ℕ) → a ≤ n → b ≤ n → bit_xor a k ≡ bit_xor b k → a ≡ b
bit_xor-cancel_right zero a b k p q e = omega arith
bit_xor-cancel_right (suc n) a b k p q e = omega (
  arith,
  bit_xor_step a k,
  bit_xor_step b k,
  bit_xor-cancel_right n (a / 2) (b / 2) (k / 2) (omega arith) (omega arith)
      (omega (arith, bit_xor_step a k, bit_xor_step b k)),
)

pub bit_xor-cancel_left : (n k a b : ℕ) → a ≤ n → b ≤ n → bit_xor k a ≡ bit_xor k b → a ≡ b
bit_xor-cancel_left zero k a b p q e = omega arith
bit_xor-cancel_left (suc n) k a b p q e = omega (
  arith,
  bit_xor_step k a,
  bit_xor_step k b,
  bit_xor-cancel_left n (k / 2) (a / 2) (b / 2) (omega arith) (omega arith)
      (omega (arith, bit_xor_step k a, bit_xor_step k b)),
)
