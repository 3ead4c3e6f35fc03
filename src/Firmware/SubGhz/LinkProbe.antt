-- ===== src/Firmware/SubGhz/LinkProbe.antt =====
-- `link_probe` of firmware/src/subghz_instrument.rs. The SDK's packet worker is a parameter: what its
-- calls answer, and a state of its own, on which a query, a read and a millisecond's delay act. A probe
-- returns its answer and the calls that it makes of the worker, in order.
pub mod Received
mod Tests
use flip_link.Base.{
  ℕ, zero, suc, ◌+◌, ◌-◌, ◌%◌, ◌^◌, min, Bool, true, false, not, ltb, ◌==◌, ◌||◌, if◌then◌else◌,
  List, [], ◌∷◌, ◌++◌, length, take, Text, codes,
}
use flip_link.Base.Results.{ok, err, ◌>>=◌}
use flip_link.Proto.Bytes.{Bytes}
use flip_link.Proto.Messages.{err_bad_params, err_busy, err_internal}
use flip_link.Proto.Value.{Value, end, entry}
use flip_link.Firmware.Params.{Answer}
use flip_link.Firmware.SubGhz.{
  max_link_probe_bytes, required_frequency, probe_payload, probe_timeout_ms,
}
use flip_link.Firmware.SubGhz.Transmit.{SubGhzState, is_some, saturate}

pub data WorkerCall : Type 0 where
  alloc start : Bool → WorkerCall
  set_callback stop free delay : WorkerCall
  write : Bytes → WorkerCall
  read : ℕ → WorkerCall

-- A worker with states in `S`: `written` is the state once the payload is written to it, `available`
-- how many bytes can be read, `gives` what a read of so many bytes gives and the state behind it, and
-- `waits` the state a millisecond later.
pub record Worker (S : Type 0) : Type 0 where
  pub is_present : Bool
  pub is_frequency_valid : ℕ → Bool
  pub is_frequency_allowed : ℕ → Bool
  pub allocates : Bool
  pub starts : Bool
  pub writes : Bool
  pub written : S
  pub available : S → ℕ
  pub gives : S → ℕ → Bytes × S
  pub waits : S → S
  pub callbacks : ℕ

pub record ProbeRequest : Type 0 where
  pub frequency : ℕ
  pub payload : Bytes
  pub timeout_ms : ℕ

unfoldable pub probe_request : Value → Answer ProbeRequest
probe_request params = required_frequency params >>= λ f. probe_payload params >>= λ p.
    probe_timeout_ms params >>= λ t. ok (record { frequency = f; payload = p; timeout_ms = t })

-- `read_total` and `rx_preview`.
pub record Reading : Type 0 where
  pub read_total : ℕ
  pub rx_preview : Bytes

-- What a read takes in: the preview has room for 60 bytes in all.
abbrev pub taken : Bytes → Reading → Reading
taken got r = record {
  read_total = saturate (r.read_total + length got);
  rx_preview =
      r.rx_preview ++ take (min (max_link_probe_bytes - length r.rx_preview) (length got)) got;
}

-- The bytes that a round gets, and the state behind it.
abbrev pub got_in : {S : Type 0} → Worker S → S → Bytes × S
got_in w s =
    let available = w.available s in
    if ltb 0 available then w.gives s (min available max_link_probe_bytes) else ([], s)

abbrev pub calls_in : {S : Type 0} → Worker S → S → List WorkerCall
calls_in w s =
    let available = w.available s in
    if ltb 0 available then read (min available max_link_probe_bytes) ∷ delay ∷ [] else delay ∷ []

abbrev pub round : {S : Type 0} → Worker S → S → Reading → Reading
round w s r = if ltb 0 (w.available s) then taken (got_in w s).0 r else r

-- The rounds from the state `s` on that the timeout still allows.
unfoldable pub rounds : {S : Type 0} → Worker S → ℕ → S → Reading → Reading × List WorkerCall
rounds w zero s r = (r, [])
rounds w (suc left) s r =
    let (last, calls) = rounds w left (w.waits (got_in w s).1) (round w s r) in
    (last, calls_in w s ++ calls)

abbrev pub ProbeOutcome : Type 0
ProbeOutcome = Answer Value × List WorkerCall

abbrev pub refuse_probe : ℕ → Text → List WorkerCall → ProbeOutcome
refuse_probe code message calls = (err (code, message), calls)

abbrev pub blank : Reading
blank = record { read_total = 0; rx_preview = [] }

abbrev pub probe_value : {S : Type 0} → Worker S → ProbeRequest → Reading → Value
probe_value w r reading = Value.map (
    entry (codes "written") (Value.u64 (length r.payload)) (
      entry (codes "read") (Value.u64 reading.read_total) (
        entry (codes "callbacks") (Value.u64 (w.callbacks % 2 ^ 32))
          (entry (codes "rx_preview") (Value.bytes reading.rx_preview) end))))

-- The worker is started: the write, the rounds, the stop, and the answer.
unfoldable pub run_probe : {S : Type 0} → Worker S → ProbeRequest → ProbeOutcome
run_probe w r =
    let (reading, calls) = rounds w r.timeout_ms w.written blank in
    let calls' =
      alloc true ∷ set_callback ∷ start true ∷ write r.payload ∷ (calls ++ (stop ∷ free ∷ [])) in
    if not w.writes
    then refuse_probe err_internal (codes "subghz link worker write failed") calls'
    else (ok (probe_value w r reading), calls')

unfoldable pub start_probe : {S : Type 0} → Worker S → ProbeRequest → ProbeOutcome
start_probe w r =
    if not w.allocates
    then refuse_probe err_internal (codes "subghz worker allocation failed") (alloc false ∷ [])
    else if not w.starts
    then refuse_probe err_busy (codes "subghz link worker unavailable")
        (alloc true ∷ set_callback ∷ start false ∷ free ∷ [])
    else run_probe w r

unfoldable pub open_probe : {S : Type 0} → Worker S → ProbeRequest → ProbeOutcome
open_probe w r =
    if not w.is_present
    then refuse_probe err_internal (codes "subghz internal device unavailable") []
    else if not (w.is_frequency_valid r.frequency)
    then refuse_probe err_bad_params (codes "invalid subghz frequency") []
    else if not (w.is_frequency_allowed r.frequency)
    then refuse_probe err_bad_params (codes "subghz link probe not allowed on this frequency") []
    else start_probe w r

unfoldable pub after_probe_request : {S : Type 0} → Worker S → Answer ProbeRequest → ProbeOutcome
after_probe_request w (err e) = (err e, [])
after_probe_request w (ok r) = open_probe w r

unfoldable pub link_probe : {S : Type 0} → Worker S → SubGhzState → Value → ProbeOutcome
link_probe w st params =
    if st.capture_active || is_some st.tx.ptr
    then refuse_probe err_busy (codes "subghz busy") []
    else after_probe_request w (probe_request params)
