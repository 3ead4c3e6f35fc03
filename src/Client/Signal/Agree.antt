-- ===== src/Client/Signal/Agree.antt =====
-- An infrared signal of crates/flip-client/src/signal.rs, sent and captured by
-- firmware/src/ir_instrument.rs.
use flip_link.Base.{
  ℕ, zero, suc, ◌+◌, ◌*◌, ◌%◌, ◌/◌, ◌^◌, ◌<◌, ◌≤◌, ◌≡◌, refl, ap, arith, Bool, true, false, not,
  leb, ◌==◌,
}
use flip_link.Base.{List, [], ◌∷◌, ◌++◌, length, All, drop, drop-eq-cons, codes, none, some}
use flip_link.Base.Results.{ok}
use flip_link.Proto.Bytes.{IsU32}
use flip_link.Proto.Value.{Value, get, find, end, entry}
use flip_link.Firmware.Ir.Transmit.{
  tx_get_data, asked, timing_list, timings_of, checked_timings, transmit, published, max_edges,
}
use flip_link.Firmware.Ir.Capture.Queue.{sample_bytes}
use flip_link.Client.Signal.{
  IrSignal, to_transmit_params, timing_values, clamped, stream_samples, decode_stream_data,
}

-- A signal's edges: marks and spaces in turn, a mark first.
abbrev pub alternate : Bool → List ℕ → List (ℕ × Bool)
alternate level [] = []
alternate level (t ∷ ts) = (t, level) ∷ alternate (not level) ts

asked_lem :
    (timings : List ℕ) (i : ℕ) (t : ℕ) (rest : List ℕ) (count : ℕ)
    → drop i timings ≡ t ∷ rest
    → length rest < count
    → asked count (record { ptr = some timings; len = length timings; pos = i })
      ≡ (alternate (i % 2 == 0) (t ∷ rest), true)
unfolding asked tx_get_data
asked_lem timings i t rest zero e h = absurd (omega arith)
asked_lem timings i t [] (suc count) e h =
    let (a, b, c) = drop-eq-cons timings i 0 t [] e in
    let inside : leb (length timings) i ≡ false = ground arith in
    let ends : leb (length timings) (i + 1) ≡ true = ground arith in rw (inside, ends, a) refl
asked_lem timings i t (u ∷ rest) (suc count) e h =
    let (a, b, c) = drop-eq-cons timings i 0 t (u ∷ rest) e in
    let inside : leb (length timings) i ≡ false = ground arith in
    let goes_on : leb (length timings) (i + 1) ≡ false = ground arith in
    let next = asked_lem timings (suc i) u rest count b (omega arith) in
    let step : i + 1 ≡ suc i = omega arith in
    let turn : (suc i % 2 == 0) ≡ not (i % 2 == 0) = ground arith in
    rw (inside, goes_on, a, step, next, turn) refl

timing_list_back : (ts : List ℕ) → All IsU32 ts → timing_list (timing_values ts) ≡ ts
timing_list_back [] h = refl
timing_list_back (t ∷ ts) h = rw (timing_list_back ts h.1) (ap (λ (n : ℕ). n ∷ ts) (omega arith))

-- For a signal of 1 to 1024 timings whose numbers all fit 32 bits, and an infrared that is free: the
-- device's `transmit` of the client's parameters sends at the signal's frequency and duty cycle and
-- answers the count of timings, with no timings published any more; the infrared, asking that often or more, is given the timings in
-- order, marks and spaces in turn, a mark first, and is told the end.
pub ir_signal_sent :
    (s : IrSignal) (count : ℕ)
    → (s.frequency < 2 ^ 32) × (s.duty_permille < 2 ^ 32) × All IsU32 s.timings
    → 0 < length s.timings
    → length s.timings ≤ max_edges
    → length s.timings ≤ count
    → (transmit false (to_transmit_params s)
        ≡ ok (
          Value.map (entry (codes "sent") (Value.u64 (length s.timings)) end),
          record {
            frequency = s.frequency;
            duty_permille = s.duty_permille;
            tx = published s.timings;
            ptr_after = none;
          },
        ))
      × (asked count (published s.timings) ≡ (alternate true s.timings, true))
unfolding transmit timings_of checked_timings to_transmit_params get find
ir_signal_sent s count (a, b, c) p q r = (sends, gives s.timings p r)
  where
    sends :
        transmit false (to_transmit_params s)
        ≡ ok (
          Value.map (entry (codes "sent") (Value.u64 (length s.timings)) end),
          record {
            frequency = s.frequency;
            duty_permille = s.duty_permille;
            tx = published s.timings;
            ptr_after = none;
          },
        )
    sends =
        let list = timing_list_back s.timings c in
        let accepted : checked_timings false s.timings ≡ ok s.timings = ground arith in
        let freq : s.frequency % 2 ^ 32 ≡ s.frequency = omega arith in
        let duty : s.duty_permille % 2 ^ 32 ≡ s.duty_permille = omega arith in
        rw (list, accepted, freq, duty) refl

    gives :
        (ts : List ℕ)
        → 0 < length ts
        → length ts ≤ count
        → asked count (published ts) ≡ (alternate true ts, true)
    gives [] h g = absurd (omega arith)
    gives (t ∷ ts) h g = asked_lem (t ∷ ts) 0 t ts count refl (omega arith)

stream_samples_lem :
    (ds : List ℕ) → All (λ d. d < 2 ^ 31) ds → stream_samples (sample_bytes ds) ≡ (ds, length ds)
unfolding stream_samples
stream_samples_lem [] h = refl
stream_samples_lem (d ∷ ds) h =
    let whole : d % 2 ^ 8
          + d / 2 ^ 8 % 2 ^ 8 * 2 ^ 8
          + d / 2 ^ 16 % 2 ^ 8 * 2 ^ 16
          + d / 2 ^ 24 % 2 ^ 8 * 2 ^ 24
        ≡ d =
      omega arith in
    let small : clamped d ≡ d = ground arith in
    let size : length ds + 1 ≡ suc (length ds) = omega arith in
    rw (stream_samples_lem ds h.1, whole, small, size) refl

-- The client reads from the bytes of a device's frame the samples in it, when each is below 2 ^ 31
-- microseconds, appends them to what it has and counts them.
pub decode_stream_data-sample_bytes :
    (ds out : List ℕ)
    → All (λ d. d < 2 ^ 31) ds
    → decode_stream_data (sample_bytes ds) out ≡ (out ++ ds, length ds)
unfolding decode_stream_data
decode_stream_data-sample_bytes ds out h = rw (stream_samples_lem ds h) refl
