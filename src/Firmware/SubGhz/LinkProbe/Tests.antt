-- ===== src/Firmware/SubGhz/LinkProbe/Tests.antt =====
-- Link probes of firmware/src/subghz_instrument.rs on concrete workers.
use flip_link.Base.{
  ◌≡◌, refl, arith, true, false, none, [], ◌∷◌, length, take, codes, ◌==◌, if◌then◌else◌, ℕ, drop,
  suc, ◌++◌, ◌≤◌, if-either,
}
use flip_link.Base.Results.{ok}
use flip_link.Proto.Bytes.{Bytes}
use flip_link.Proto.Value.{Value, end, entry}
use flip_link.Firmware.SubGhz.{max_link_probe_bytes}
use flip_link.Firmware.SubGhz.Transmit.{SubGhzState}
use flip_link.Firmware.SubGhz.LinkProbe.{Worker, link_probe}
use flip_link.Firmware.SubGhz.LinkProbe.Received.{
  IsFifo, arrived, absent, after_calls, link_probe-released,
}
use flip_link.Client.SubGhz.{link_probe_params, link_probe_result, validate_probe_payload}
use flip_link.Client.SubGhz.Probed.{link_probe_lem}

abbrev arrives : ℕ → Bytes
arrives t = if t == 2 then 7 ∷ 8 ∷ [] else []

-- A worker that gets two bytes before its third round; its state is the millisecond and what waits.
abbrev worker : Worker (ℕ × Bytes)
worker = record {
  is_present = true;
  is_frequency_valid = λ f. true;
  is_frequency_allowed = λ f. true;
  allocates = true;
  starts = true;
  writes = true;
  written = (0, arrives 0);
  available = λ s. length s.1;
  gives = λ s n. (take n s.1, (s.0, drop n s.1));
  waits = λ s. (suc s.0, s.1 ++ arrives (suc s.0));
  callbacks = 1;
}

worker-IsFifo : IsFifo (ℕ × Bytes) worker arrives
worker-IsFifo = record {
  content = λ s. s.1;
  now = λ s. s.0;
  content_written = refl;
  now_written = refl;
  available_content = λ s. refl;
  gives_content = λ s n. refl;
  content_gives = λ s n. refl;
  now_gives = λ s n. refl;
  content_waits = λ s. refl;
  now_waits = λ s. refl;
}

keeps_up : (t : ℕ) → length (arrives t) ≤ max_link_probe_bytes
keeps_up t =
    if-either (λ (b : Bytes). length b ≤ max_link_probe_bytes) (t == 2) (7 ∷ 8 ∷ []) []
      (omega arith) (omega arith)

abbrev idle : SubGhzState
idle = record {
  capture_active = false;
  tx = record { ptr = none; len = 0; pos = 0; repeat = 0; repeat_pos = 0 };
}

abbrev params : Value
params = Value.map (
    entry (codes "frequency") (Value.u64 433920000) (
      entry (codes "payload") (Value.bytes (1 ∷ []))
        (entry (codes "timeout_ms") (Value.u64 100) end)))

releases : after_calls absent (link_probe worker idle params).1 ≡ absent
releases = link_probe-released worker idle params

accepted : link_probe_params 433920000 (1 ∷ []) 100000000 ≡ ok params
unfolding link_probe_params validate_probe_payload
accepted = refl

probes :
    (a : Value) × ((link_probe worker idle params).0 ≡ ok a)
    × (link_probe_result a
        ≡ ok (record { written = 1; read = 2; callbacks = 1; rx_preview = 7 ∷ 8 ∷ [] }))
unfolding arrived
probes =
    link_probe_lem worker arrives worker-IsFifo idle 433920000 (1 ∷ []) 100000000 params keeps_up
      (omega arith) accepted refl refl refl refl refl refl refl refl
