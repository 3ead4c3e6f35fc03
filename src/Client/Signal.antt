-- ===== src/Client/Signal.antt =====
-- crates/flip-client/src/signal.rs: an infrared signal, its request's parameters and the samples of
-- a capture.
pub mod Agree
pub mod File
use flip_link.Base.{ℕ, ◌+◌, ◌^◌, ltb, if◌then◌else◌, List, [], ◌∷◌, ◌++◌, drop, codes}
use flip_link.Proto.Bytes.{Bytes, u32_from_le_bytes}
use flip_link.Proto.Value.{Value, Values, nil, cons, end, entry}

abbrev pub default_frequency : ℕ
default_frequency = 38000

abbrev pub default_duty_permille : ℕ
default_duty_permille = 330

pub record IrSignal : Type 0 where
  pub frequency : ℕ
  pub duty_permille : ℕ
  pub timings : List ℕ

-- `raw.into_iter().skip(1)`: the first sample is the silence before the signal.
unfoldable pub from_capture : List ℕ → IrSignal
from_capture raw = record {
  frequency = default_frequency;
  duty_permille = default_duty_permille;
  timings = drop 1 raw;
}

abbrev pub timing_values : List ℕ → Values
timing_values [] = nil
timing_values (t ∷ ts) = cons (Value.u64 t) (timing_values ts)

unfoldable pub to_transmit_params : IrSignal → Value
to_transmit_params s = Value.map (
    entry (codes "frequency") (Value.u64 s.frequency) (
      entry (codes "duty_permille") (Value.u64 s.duty_permille)
        (entry (codes "timings") (Value.array (timing_values s.timings)) end)))

-- `i32::from_le_bytes(…).max(0) as u64`: a number from 2 ^ 31 on is negative as an `i32`.
abbrev pub clamped : ℕ → ℕ
clamped n = if ltb n (2 ^ 31) then n else 0

-- `payload.chunks_exact(4)`: the samples in order, and how many; the bytes behind the last whole
-- sample are dropped.
unfoldable pub stream_samples : Bytes → List ℕ × ℕ
stream_samples (a ∷ b ∷ c ∷ d ∷ rest) =
    let (samples, count) = stream_samples rest in
    (clamped (u32_from_le_bytes a b c d) ∷ samples, count + 1)
stream_samples _ = ([], 0)

-- `out` after the call, and the count.
unfoldable pub decode_stream_data : Bytes → List ℕ → List ℕ × ℕ
decode_stream_data payload out =
    let (samples, count) = stream_samples payload in (out ++ samples, count)
