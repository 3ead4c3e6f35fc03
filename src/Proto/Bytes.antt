-- ===== src/Proto/Bytes.antt =====
-- Little-endian words and byte slices, as the Rust standard library has them: `to_le_bytes`,
-- `from_le_bytes`, `&xs[a..b]` and `out[a..].copy_from_slice(bytes)`.
use flip_link.Base.{ℕ, zero, suc, ◌+◌, ◌-◌, ◌*◌, ◌/◌, ◌%◌, ◌^◌, ◌<◌, ◌≤◌, ◌≡◌, refl, ap, arith}
use flip_link.Base.{List, [], ◌∷◌, ◌++◌, length, take, drop}

abbrev pub Bytes : Type 0
Bytes = List ℕ

abbrev pub IsByte : ℕ → Type 0
IsByte b = b < 2 ^ 8

abbrev pub IsU16 : ℕ → Type 0
IsU16 n = n < 2 ^ 16

abbrev pub IsU32 : ℕ → Type 0
IsU32 n = n < 2 ^ 32

abbrev pub IsU64 : ℕ → Type 0
IsU64 n = n < 2 ^ 64

abbrev pub u16_to_le_bytes : ℕ → Bytes
u16_to_le_bytes n = n % 2 ^ 8 ∷ n / 2 ^ 8 % 2 ^ 8 ∷ []

abbrev pub u32_to_le_bytes : ℕ → Bytes
u32_to_le_bytes n = n % 2 ^ 8 ∷ n / 2 ^ 8 % 2 ^ 8 ∷ n / 2 ^ 16 % 2 ^ 8 ∷ n / 2 ^ 24 % 2 ^ 8 ∷ []

abbrev pub u16_from_le_bytes : ℕ → ℕ → ℕ
u16_from_le_bytes a b = a + b * 2 ^ 8

abbrev pub u32_from_le_bytes : ℕ → ℕ → ℕ → ℕ → ℕ
u32_from_le_bytes a b c d = a + b * 2 ^ 8 + c * 2 ^ 16 + d * 2 ^ 24

abbrev pub slice : Bytes → ℕ → ℕ → Bytes
slice xs a b = take (b - a) (drop a xs)

-- Overwrites the front of `out`; the callers never run past its end.
unfoldable pub overlay : Bytes → Bytes → Bytes
overlay [] out = out
overlay (b ∷ bs) [] = []
overlay (b ∷ bs) (o ∷ out) = b ∷ overlay bs out

unfoldable pub copy_at : ℕ → Bytes → Bytes → Bytes
copy_at zero bs out = overlay bs out
copy_at (suc i) bs [] = []
copy_at (suc i) bs (o ∷ out) = o ∷ copy_at i bs out

pub overlay_lem :
    (bs out : Bytes) → length bs ≤ length out → overlay bs out ≡ bs ++ drop (length bs) out
unfolding overlay
overlay_lem [] out h = refl
overlay_lem (b ∷ bs) [] h = absurd (omega arith)
overlay_lem (b ∷ bs) (o ∷ out) h = ap (λ l. b ∷ l) (overlay_lem bs out (omega arith))

pub copy_at-append :
    (xs : Bytes) (n : ℕ) (bs out : Bytes)
    → n ≡ length xs
    → copy_at n bs (xs ++ out) ≡ xs ++ overlay bs out
unfolding copy_at
copy_at-append [] zero bs out e = refl
copy_at-append [] (suc n) bs out e = absurd (omega arith)
copy_at-append (x ∷ xs) zero bs out e = absurd (omega arith)
copy_at-append (x ∷ xs) (suc n) bs out e =
    ap (λ l. x ∷ l) (copy_at-append xs n bs out (omega arith))

pub u16_to_le_bytes-from :
    (a b : ℕ) → IsByte a → IsByte b → u16_to_le_bytes (u16_from_le_bytes a b) ≡ a ∷ b ∷ []
u16_to_le_bytes-from a b p q = ground arith

u32_to_le_bytes-from :
    (a b c d : ℕ)
    → IsByte a
    → IsByte b
    → IsByte c
    → IsByte d
    → u32_to_le_bytes (u32_from_le_bytes a b c d) ≡ a ∷ b ∷ c ∷ d ∷ []
u32_to_le_bytes-from a b c d p q r s = ground arith

pub u16_from_le_bytes-to : (n : ℕ) → IsU16 n → u16_from_le_bytes (n % 2 ^ 8) (n / 2 ^ 8 % 2 ^ 8) ≡ n
u16_from_le_bytes-to n h = omega arith

u32_from_le_bytes-to :
    (n : ℕ)
    → IsU32 n
    → u32_from_le_bytes (n % 2 ^ 8) (n / 2 ^ 8 % 2 ^ 8) (n / 2 ^ 16 % 2 ^ 8) (n / 2 ^ 24 % 2 ^ 8)
      ≡ n
u32_from_le_bytes-to n h = omega arith
