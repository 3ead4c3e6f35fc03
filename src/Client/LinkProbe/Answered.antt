-- ===== src/Client/LinkProbe/Answered.antt =====
-- A link probe from the call of crates/flip-client/src/lib.rs to the worker of
-- firmware/src/subghz_instrument.rs and back.
use flip_link.Base.{
  ℕ, ◌+◌, ◌*◌, ◌/◌, ◌%◌, ◌^◌, ◌<◌, ◌≤◌, ◌≡◌, refl, sym, ap, ◌∙◌, arith, Bool, true, false, ltb,
  if◌then◌else◌, length, take, Option, none, some, codes,
}
use flip_link.Base.Results.{Result, ok, err, ◌>>◌}
use flip_link.Proto.Bytes.{Bytes}
use flip_link.Proto.Messages.{Req, Resp, AgentError}
use flip_link.Proto.Value.{Value}
use flip_link.Firmware.SubGhz.{max_link_probe_bytes}
use flip_link.Firmware.SubGhz.Transmit.{SubGhzState, saturate}
use flip_link.Firmware.SubGhz.LinkProbe.{Worker, link_probe}
use flip_link.Firmware.SubGhz.LinkProbe.Received.{IsFifo, arrived}
use flip_link.Client.SubGhz.{link_probe_params, link_probe_result, validate_probe_payload}
use flip_link.Client.SubGhz.Probed.{link_probe_lem}
use flip_link.Client.Daemon.{Socket, invoke}
use flip_link.Client.LinkProbe.{host_timeout, subghz_link_probe}

ok_behind :
    {A : Type 0} {E : Type 0} (t : Result (Unit {0}) E) (b : Bool) (e : E) (v w : A)
    → (t >> (if b then err e else ok v)) ≡ ok w
    → b ≡ false
ok_behind (ok _) true e v w h = absurd cc
ok_behind (ok _) false e v w h = refl
ok_behind (err x) b e v w h = absurd cc

-- An accepted timeout is 5 s at most.
accepted_timeout :
    (frequency : ℕ) (payload : Bytes) (timeout : ℕ) (v : Value)
    → link_probe_params frequency payload timeout ≡ ok v
    → timeout ≤ 5000000000
unfolding link_probe_params
accepted_timeout frequency payload timeout v h =
    let within = ok_behind (validate_probe_payload payload) _ _ _ _ h in ground arith

host_waits_longer :
    (frequency : ℕ) (payload : Bytes) (timeout : ℕ) (v : Value)
    → link_probe_params frequency payload timeout ≡ ok v
    → host_timeout timeout ≡ timeout + 3000000000
unfolding host_timeout
host_waits_longer frequency payload timeout v h =
    let short = accepted_timeout frequency payload timeout v h in
    let fits : ltb (timeout + 3000000000) (2 ^ 64 * 1000000000) ≡ true = ground arith in
    rw fits refl

-- When the client accepts the payload and the timeout, the frequency has 32 bits and is valid and
-- allowed, the Sub-GHz is free, the SDK gives a worker that starts and takes the payload, its buffer is
-- a queue and at most 60 bytes arrive in a millisecond, and the request of the client, which waits 3 s
-- longer than the timeout, gets the device's answer: the call returns the payload's length, the count
-- of all bytes that arrive before each of the rounds, one in each millisecond of the timeout, up to
-- 2 ^ 64 - 1, and the first 60 of those bytes.
pub subghz_link_probe_lem :
    (to_payload : Req → Bytes) (read_resp : Bytes → Option Resp)
    (read_error : Bytes → Option AgentError) (socket : ℕ → Socket) {S : Type 0} (w : Worker S)
    (arrives : ℕ → Bytes) (fifo : IsFifo S w arrives) (st : SubGhzState) (frequency : ℕ)
    (payload : Bytes) (timeout : ℕ) (v : Value) (r : Resp)
    → ((t : ℕ) → length (arrives t) ≤ max_link_probe_bytes)
    → frequency < 2 ^ 32
    → link_probe_params frequency payload timeout ≡ ok v
    → st.capture_active ≡ false
    → st.tx.ptr ≡ none
    → w.is_present ≡ true
    → w.is_frequency_valid frequency ≡ true
    → w.is_frequency_allowed frequency ≡ true
    → w.allocates ≡ true
    → w.starts ≡ true
    → w.writes ≡ true
    → (link_probe w st v).0 ≡ ok r.result
    → invoke to_payload read_resp read_error
        (codes "subghz")
        (codes "link_probe")
        v
        (socket (timeout + 3000000000))
      ≡ some (ok r)
    → subghz_link_probe to_payload read_resp read_error socket frequency payload timeout
      ≡ some (
          ok (
            ok (record {
              written = length payload;
              read = saturate (length (arrived arrives (timeout / 1000000) 0));
              callbacks = w.callbacks % 2 ^ 32;
              rx_preview = take max_link_probe_bytes (arrived arrives (timeout / 1000000) 0);
            })))
unfolding subghz_link_probe
subghz_link_probe_lem to_payload read_resp read_error socket w arrives fifo st frequency payload
      timeout v r keeps_up f accepted inactive free present valid allowed allocates starts writes
      answers invoked =
    let (a, given, read) =
      link_probe_lem w arrives fifo st frequency payload timeout v keeps_up f accepted inactive free
        present valid allowed allocates starts writes in
    let same : a ≡ r.result = cc in
    let waits = host_waits_longer frequency payload timeout v accepted in
    rw (accepted, waits, invoked) (ap (λ x. some (ok x)) (sym (ap link_probe_result same) ∙ read))
