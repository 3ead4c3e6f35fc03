-- ===== src/Cli/Run/Tests.antt =====
-- Commands of crates/flip-cli/src/main.rs over a library that answers at once.
use flip_link.Base.{◌≡◌, refl, arith, true, [], ◌∷◌, none, some, codes}
use flip_link.Base.Results.{ok, err, ◌>>=◌}
use flip_link.Str.{digits, to_string, parse_uint, parse_digits, parse_i64, split_once}
use flip_link.Client.Capture.{timed_out}
use flip_link.Client.Daemon.{connected}
use flip_link.Client.Signal.{IrSignal}
use flip_link.Client.Signal.File as Ir
use flip_link.Client.SubGhz.{SubGhzSignal, ook650, from_str}
use flip_link.Client.SubGhz.File as Radio
use flip_link.Cli.Kv.{parse_params, parse_pairs, parse_value}
use flip_link.Cli.Shown.{caps_text, daemon_status_text}
use flip_link.Cli.Render.{render_value}
use flip_link.Cli.Run.{
  caps, daemon_status, ir_transmit, ir_capture, subghz_capture, subghz_transmit, invoke, Library,
  World, stored, transmit_ir, transmit_subghz, with_options, with_frequency, with_preset, run,
  cannot_read, read_ir_file,
}
use flip_link.Cli.Run.Recorded.{run_all, recorded_sent}

abbrev remote : IrSignal
remote = record { frequency = 38000; duty_permille = 330; timings = 9000 ∷ 4500 ∷ [] }

abbrev opener : SubGhzSignal
opener = record {
  frequency = 433920000;
  preset = ook650;
  edges = record { level = true; duration_us = 350 } ∷ [];
}

abbrev lib : Library
lib = record {
  caps_answer = ok (record {
    protocol = 1;
    instruments = record { id = codes "ir"; opcodes = codes "transmit" ∷ [] } ∷ [];
  });
  status_answer = record { daemon_running = true; device = connected 4 };
  log_path = codes "log";
  invokes = λ instrument opcode params. ok params;
  transmits_ir = λ s. ok 2;
  captures_ir = λ idle_gap duration. ok remote;
  transmits_subghz = λ s repeat. ok 1;
  captures_subghz = λ f preset idle_gap duration. ok opener;
  probes = λ f payload timeout. err timed_out;
  is_writable = λ path. true;
}

abbrev nothing : World
nothing = record { files = λ path. none; stdout = [] }

invokes_echo :
    run lib (invoke (codes "sys") (codes "echo") (codes "n=5" ∷ [])) nothing
    ≡ ok (record { files = λ path. none; stdout = codes "{n: 5}\n" })
unfolding run parse_params parse_pairs parse_value split_once parse_uint parse_digits parse_i64
    render_value to_string digits
invokes_echo = refl

shows_caps :
    run lib caps nothing
    ≡ ok (record { files = λ path. none; stdout = codes "protocol v1\nir\n  ir.transmit\n" })
unfolding run caps_text to_string digits
shows_caps = refl

shows_status :
    run lib daemon_status nothing
    ≡ ok (record {
      files = λ path. none;
      stdout = codes "daemon: running\ndevice: connected (4 instruments)\nlog:    log\n";
    })
unfolding run daemon_status_text to_string digits
shows_status = refl

misses_file :
    run lib (ir_transmit (codes "a.ir") none none) nothing ≡ err (cannot_read (codes "a.ir"))
unfolding run read_ir_file
misses_file = refl

recorded_sent_example :
    (run_all lib
        (ir_capture (some (codes "a")) none (some 500)
          ∷ ir_transmit (codes "a") (some 36000) none
          ∷ [])
        nothing
      ≡ transmit_ir lib
          (with_options remote (some 36000) none)
          (stored (codes "a") (Ir.to_file_string remote) nothing))
    × (run_all lib
          (subghz_capture 433920000 (codes "ook650") (some (codes "a")) none (some 500)
            ∷ subghz_transmit (codes "a") (some 36000) (some (codes "ook270")) 3
            ∷ [])
          nothing
        ≡ (with_preset (with_frequency opener (some 36000)) (some (codes "ook270")) >>= λ t.
            transmit_subghz lib t 3 (stored (codes "a") (Radio.to_file_string opener) nothing)))
unfolding from_str
recorded_sent_example =
    recorded_sent lib (codes "a") (codes "ook650") remote opener 433920000 ook650 none (some 500)
      (some 36000) none (some (codes "ook270")) 3 nothing refl
      (omega arith, omega arith, (omega arith, (omega arith, tt)), refl) refl
      (omega arith, ((omega arith, omega arith), tt), refl) refl refl
