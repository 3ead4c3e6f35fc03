-- ===== src/Firmware/Params.antt =====
-- What the instruments of firmware/src read from a request's parameters, and what they answer.
use flip_link.Base.{ℕ, ◌%◌, ◌^◌, Option, none, some, Text, pos}
use flip_link.Base.Results.{Result, and_then}
use flip_link.Proto.Value.{Value, get}

-- `Result<_, (u32, String)>`
abbrev pub Answer : Type 0 → Type 0
Answer A = Result A (ℕ × Text)

-- `as_u64` of both instruments.
abbrev pub as_u64 : Value → Option ℕ
as_u64 (Value.u64 n) = some n
as_u64 (Value.i64 (pos n)) = some n
as_u64 _ = none

abbrev pub get_u64 : Value → Text → Option ℕ
get_u64 v key = and_then (get v key) as_u64

-- `n as u32`
abbrev pub as_u32 : ℕ → ℕ
as_u32 n = n % 2 ^ 32
