-- ===== src/Client/SubGhz/Probed.antt =====
-- A link probe of crates/flip-client, run by firmware/src/subghz_instrument.rs and read back.
use flip_link.Base.{
  length-take_le, ℕ, ◌/◌, ◌%◌, ◌^◌, ◌<◌, ◌≤◌, ◌≡◌, refl, arith, true, false, leb, length, take,
  none,
}
use flip_link.Base.Results.{ok}
use flip_link.Proto.Bytes.{Bytes}
use flip_link.Proto.Value.{Value, get, find}
use flip_link.Firmware.SubGhz.{max_link_probe_bytes}
use flip_link.Firmware.SubGhz.Transmit.{SubGhzState, saturate}
use flip_link.Firmware.SubGhz.LinkProbe.{
  Worker, ProbeRequest, probe_request, Reading, probe_value, run_probe, start_probe, open_probe,
  after_probe_request, link_probe,
}
use flip_link.Firmware.SubGhz.LinkProbe.Received.{IsFifo, arrived, reading_lem}
use flip_link.Client.SubGhz.{link_probe_params, link_probe_result, required_u64, preview}
use flip_link.Client.SubGhz.Agree.{link_probe_params_agree}

-- The answer's map, read by the client.
result_lem :
    {S : Type 0} (w : Worker S) (r : ProbeRequest) (q : Reading)
    → length q.rx_preview ≤ max_link_probe_bytes
    → link_probe_result (probe_value w r q)
      ≡ ok (record {
        written = length r.payload;
        read = q.read_total;
        callbacks = w.callbacks % 2 ^ 32;
        rx_preview = q.rx_preview;
      })
unfolding link_probe_result required_u64 preview get find
result_lem w r q h =
    let fits : leb (length q.rx_preview) max_link_probe_bytes ≡ true = ground arith in rw fits refl

-- When the client accepts the payload and the timeout, the frequency has 32 bits and is valid and
-- allowed, the Sub-GHz is free, the SDK gives a worker that starts and takes the payload, its buffer is
-- a queue and at most 60 bytes arrive in a millisecond: the device answers, and the client reads in
-- the answer the payload's length, the count of all bytes that arrive before each of the timeout's
-- rounds, up to 2 ^ 64 - 1, and the first 60 of them.
pub link_probe_lem :
    {S : Type 0} (w : Worker S) (arrives : ℕ → Bytes) (fifo : IsFifo S w arrives) (st : SubGhzState)
    (frequency : ℕ) (payload : Bytes) (timeout : ℕ) (v : Value)
    → ((t : ℕ) → length (arrives t) ≤ max_link_probe_bytes)
    → frequency < 2 ^ 32
    → link_probe_params frequency payload timeout ≡ ok v
    → st.capture_active ≡ false
    → st.tx.ptr ≡ none
    → w.is_present ≡ true
    → w.is_frequency_valid frequency ≡ true
    → w.is_frequency_allowed frequency ≡ true
    → w.allocates ≡ true
    → w.starts ≡ true
    → w.writes ≡ true
    → (a : Value) × ((link_probe w st v).0 ≡ ok a)
      × (link_probe_result a
          ≡ ok (record {
            written = length payload;
            read = saturate (length (arrived arrives (timeout / 1000000) 0));
            callbacks = w.callbacks % 2 ^ 32;
            rx_preview = take max_link_probe_bytes (arrived arrives (timeout / 1000000) 0);
          }))
unfolding link_probe probe_request after_probe_request open_probe start_probe run_probe
link_probe_lem w arrives fifo st frequency payload timeout v keeps_up f accepted inactive free
      present valid allowed allocates starts writes =
    let (a, b, c, d) = link_probe_params_agree frequency payload timeout v f accepted in
    let r : ProbeRequest = record {
      frequency = frequency;
      payload = payload;
      timeout_ms = timeout / 1000000;
    } in
    let got = arrived arrives (timeout / 1000000) 0 in
    let q : Reading = record {
      read_total = saturate (length got);
      rx_preview = take max_link_probe_bytes got;
    } in
    (
      probe_value w r q,
      rw
          (
            inactive,
            free,
            a,
            b,
            c,
            reading_lem w arrives fifo (timeout / 1000000) keeps_up,
            present,
            valid,
            allowed,
            allocates,
            starts,
            writes,
          )
          refl,
      result_lem w r q (length-take_le max_link_probe_bytes got),
    )
