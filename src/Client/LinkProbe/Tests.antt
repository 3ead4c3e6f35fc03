-- ===== src/Client/LinkProbe/Tests.antt =====
-- A link probe of crates/flip-client/src/lib.rs on a concrete worker and socket.
use flip_link.Base.{
  ◌+◌, ◌≡◌, refl, arith, true, false, [], ◌∷◌, length, take, Option, none, some, ◌==◌,
  if◌then◌else◌, ℕ, codes, drop, suc, ◌++◌, ◌≤◌, if-either,
}
use flip_link.Base.Results.{ok, err}
use flip_link.Proto.Bytes.{Bytes, overlay}
use flip_link.Proto.Crc.{crc16_ccitt_false, crc_from, absorb, shift_bits, shift_bit}
use flip_link.Proto.Frame.{
  resp, decode, checked, decode_body, from_u8, to_u8, encode, fill_header, fill_payload,
}
use flip_link.Proto.Frame.Wire.{wire, body}
use flip_link.Proto.Messages.{Req, Resp}
use flip_link.Proto.Value.{Value, end, entry}
use flip_link.Core.Reader.{feed, next_frame, scan}
use flip_link.Core.Device.{send, received, await_frame, take_wanted, request_answer}
use flip_link.Core.Device.Await.{sent_frame}
use flip_link.Firmware.SubGhz.{max_link_probe_bytes}
use flip_link.Firmware.SubGhz.Transmit.{SubGhzState}
use flip_link.Firmware.SubGhz.LinkProbe.{Worker, link_probe}
use flip_link.Firmware.SubGhz.LinkProbe.Received.{IsFifo, arrived}
use flip_link.Client.SubGhz.{link_probe_params, validate_probe_payload, payload_empty}
use flip_link.Client.SubGhz.Probed.{link_probe_lem}
use flip_link.Client.Daemon.{Socket, invoke, exchange}
use flip_link.Client.LinkProbe.{subghz_link_probe}
use flip_link.Client.LinkProbe.Answered.{subghz_link_probe_lem}

abbrev arrives : ℕ → Bytes
arrives t = if t == 99 then 7 ∷ 8 ∷ [] else []

-- A worker that gets two bytes before its last round; its state is the millisecond and what waits.
abbrev worker : Worker (ℕ × Bytes)
worker = record {
  is_present = true;
  is_frequency_valid = λ f. true;
  is_frequency_allowed = λ f. true;
  allocates = true;
  starts = true;
  writes = true;
  written = (0, arrives 0);
  available = λ s. length s.1;
  gives = λ s n. (take n s.1, (s.0, drop n s.1));
  waits = λ s. (suc s.0, s.1 ++ arrives (suc s.0));
  callbacks = 1;
}

worker-IsFifo : IsFifo (ℕ × Bytes) worker arrives
worker-IsFifo = record {
  content = λ s. s.1;
  now = λ s. s.0;
  content_written = refl;
  now_written = refl;
  available_content = λ s. refl;
  gives_content = λ s n. refl;
  content_gives = λ s n. refl;
  now_gives = λ s n. refl;
  content_waits = λ s. refl;
  now_waits = λ s. refl;
}

keeps_up : (t : ℕ) → length (arrives t) ≤ max_link_probe_bytes
keeps_up t =
    if-either (λ (b : Bytes). length b ≤ max_link_probe_bytes) (t == 99) (7 ∷ 8 ∷ []) []
      (omega arith) (omega arith)

abbrev idle : SubGhzState
idle = record {
  capture_active = false;
  tx = record { ptr = none; len = 0; pos = 0; repeat = 0; repeat_pos = 0 };
}

abbrev params : Value
params = Value.map (
    entry (codes "frequency") (Value.u64 433920000) (
      entry (codes "payload") (Value.bytes (1 ∷ []))
        (entry (codes "timeout_ms") (Value.u64 100) end)))

accepted : link_probe_params 433920000 (1 ∷ []) 100000000 ≡ ok params
unfolding link_probe_params validate_probe_payload
accepted = refl

-- The device's answer, and a response that carries it.
answer : (a : Value) × ((link_probe worker idle params).0 ≡ ok a)
answer =
    let (a, given, read) =
      link_probe_lem worker arrives worker-IsFifo idle 433920000 (1 ∷ []) 100000000 params keeps_up
        (omega arith) accepted refl refl refl refl refl refl refl refl in
    (a, given)

abbrev response : Resp
response = record { ok = true; result = answer.0 }

abbrev to_payload : Req → Bytes
to_payload r = 1 ∷ 2 ∷ []

abbrev read_resp : Bytes → Option Resp
read_resp body = some response

-- It answers a host that waits 3.1 s.
abbrev socket : ℕ → Socket
socket timeout = record {
  connects = timeout == 3100000000;
  configures = true;
  writes = true;
  turns = received (wire 1 (sent_frame resp 1 (7 ∷ []))) ∷ [];
}

invoked :
    invoke to_payload read_resp
      (λ e. none)
      (codes "subghz")
      (codes "link_probe")
      params
      (socket (100000000 + 3000000000))
    ≡ some (ok response)
unfolding invoke exchange await_frame take_wanted feed next_frame scan decode decode_body checked
    from_u8 to_u8 wire body crc16_ccitt_false crc_from absorb shift_bits shift_bit encode
    fill_header fill_payload overlay send request_answer
invoked = refl

refuses_nothing :
    subghz_link_probe to_payload read_resp (λ e. none) socket 433920000 [] 100000000
    ≡ some (ok (err payload_empty))
unfolding subghz_link_probe link_probe_params validate_probe_payload
refuses_nothing = refl

subghz_link_probe_lem_example :
    subghz_link_probe to_payload read_resp (λ e. none) socket 433920000 (1 ∷ []) 100000000
    ≡ some (ok (ok (record { written = 1; read = 2; callbacks = 1; rx_preview = 7 ∷ 8 ∷ [] })))
unfolding arrived
subghz_link_probe_lem_example =
    subghz_link_probe_lem to_payload read_resp (λ e. none) socket worker arrives worker-IsFifo idle
      433920000 (1 ∷ []) 100000000 params response keeps_up (omega arith) accepted refl refl refl
      refl refl refl refl refl answer.1 invoked
