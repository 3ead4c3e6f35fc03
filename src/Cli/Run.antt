-- ===== src/Cli/Run.antt =====
-- crates/flip-cli/src/main.rs: what the commands do once clap has parsed them, over a store of files.
-- A command gives the files and the printed lines after it, or its error. The calls of the library
-- are parameters with the signatures of crates/flip-client/src/lib.rs; their time limits, and the
-- progress that is printed to the error stream, are left out, and so is the command `status`.
pub mod Recorded
mod Tests
use flip_link.Base.{
  ℕ, ◌+◌, ◌/◌, ◌%◌, ltb, Bool, true, false, if◌then◌else◌, List, [], ◌∷◌, ◌++◌, length, Option,
  none, some, Text, codes, text_eq,
}
use flip_link.Base.Results.{Result, ok, err, ok_or, unwrap_or, ◌>>=◌}
use flip_link.Proto.Bytes.{Bytes}
use flip_link.Proto.Messages.{Caps}
use flip_link.Proto.Value.{Value}
use flip_link.Str.{to_string, is_empty}
use flip_link.Client.Capture.{ClientError}
use flip_link.Client.Daemon.{DaemonStatus}
use flip_link.Client.Signal.{IrSignal}
use flip_link.Client.Signal.File.{SignalError}
use flip_link.Client.Signal.File as Ir
use flip_link.Client.SubGhz.{
  SubGhzError, SubGhzPreset, SubGhzSignal, SubGhzLinkProbeResult, from_str,
}
use flip_link.Client.SubGhz.File as Radio
use flip_link.Client.SubGhz.Hex.{parse_probe_hex}
use flip_link.Cli.Kv.{KvError, parse_params}
use flip_link.Cli.Shown.{caps_text, daemon_status_text}
use flip_link.Cli.Render.{render_value, hex_preview}

-- `ir capture` and `subghz capture` have the idle gap and the duration in milliseconds.
pub data Cmd : Type 0 where
  caps daemon_status : Cmd
  invoke : Text → Text → List Text → Cmd
  ir_transmit : Text → Option ℕ → Option ℕ → Cmd
  ir_capture : Option Text → Option ℕ → Option ℕ → Cmd
  subghz_capture : ℕ → Text → Option Text → Option ℕ → Option ℕ → Cmd
  subghz_transmit : Text → Option ℕ → Option Text → ℕ → Cmd
  link_probe : ℕ → Option Text → Option Text → ℕ → Cmd

pub data CliError : Type 0 where
  cannot_read cannot_write : Text → CliError
  no_payload_source : CliError
  of_client : ClientError → CliError
  of_signal : SignalError → CliError
  of_subghz : SubGhzError → CliError
  of_params : KvError → CliError

-- What the library answers, and whether a file can be written.
pub record Library : Type 0 where
  pub caps_answer : Result Caps ClientError
  pub status_answer : DaemonStatus
  pub log_path : Text
  pub invokes : Text → Text → Value → Result Value ClientError
  pub transmits_ir : IrSignal → Result ℕ ClientError
  pub captures_ir : Option ℕ → Option ℕ → Result IrSignal ClientError
  pub transmits_subghz : SubGhzSignal → ℕ → Result ℕ ClientError
  pub captures_subghz : ℕ → SubGhzPreset → Option ℕ → Option ℕ → Result SubGhzSignal ClientError
  pub probes : ℕ → Bytes → ℕ → Result SubGhzLinkProbeResult ClientError
  pub is_writable : Text → Bool

pub record World : Type 0 where
  pub files : Text → Option Text
  pub stdout : Text

abbrev pub Ran : Type 0
Ran = Result World CliError

-- An error of a part as an error of the command.
abbrev pub map_err {ℓ κ μ} :
    {A : Type ℓ} {E : Type κ} {F : Type μ} → (E → F) → Result A E → Result A F
map_err f (ok a) = ok a
map_err f (err e) = err (f e)

abbrev pub print : Text → World → World
print t w = record { files = w.files; stdout = w.stdout ++ t }

abbrev pub println : Text → World → World
println t w = print (t ++ codes "\n") w

abbrev pub stored : Text → Text → World → World
stored path text w = record {
  files = λ p. if text_eq p path then some text else w.files p;
  stdout = w.stdout;
}

abbrev pub read_to_string : Text → World → Result Text CliError
read_to_string path w = ok_or (w.files path) (cannot_read path)

-- `IrSignal::read_file`, `SubGhzSignal::read_file`
unfoldable pub read_ir_file : Text → World → Result IrSignal CliError
read_ir_file path w = read_to_string path w >>= λ text. map_err of_signal (Ir.parse text)

unfoldable pub read_subghz_file : Text → World → Result SubGhzSignal CliError
read_subghz_file path w = read_to_string path w >>= λ text. map_err of_subghz (Radio.parse text)

-- The bytes of a text, for `into_bytes`.
unfoldable pub utf8 : Text → Bytes
utf8 [] = []
utf8 (c ∷ s) =
    (if ltb c 0x80
      then c ∷ []
      else if ltb c 0x800
      then (0xc0 + c / 64) ∷ (0x80 + c % 64) ∷ []
      else if ltb c 0x10000
      then (0xe0 + c / 4096) ∷ (0x80 + c / 64 % 64) ∷ (0x80 + c % 64) ∷ []
      else (0xf0 + c / 262144)
        ∷ (0x80 + c / 4096 % 64)
        ∷ (0x80 + c / 64 % 64)
        ∷ (0x80 + c % 64)
        ∷ [])
    ++ utf8 s

abbrev pub with_options : IrSignal → Option ℕ → Option ℕ → IrSignal
with_options s freq duty = record {
  frequency = unwrap_or freq s.frequency;
  duty_permille = unwrap_or duty s.duty_permille;
  timings = s.timings;
}

abbrev pub with_frequency : SubGhzSignal → Option ℕ → SubGhzSignal
with_frequency s freq = record {
  frequency = unwrap_or freq s.frequency;
  preset = s.preset;
  edges = s.edges;
}

abbrev pub with_preset : SubGhzSignal → Option Text → Result SubGhzSignal CliError
with_preset s none = ok s
with_preset s (some name) = do
  preset ← map_err of_subghz (from_str name)
  ok (record { frequency = s.frequency; preset = preset; edges = s.edges })

-- The match on `(data, hex)`; clap lets just one of them through.
abbrev pub payload_of : Option Text → Option Text → Result Bytes CliError
payload_of (some text) none = ok (utf8 text)
payload_of none (some digits) = map_err of_subghz (parse_probe_hex digits)
payload_of _ _ = err no_payload_source

module _ (lib : Library) where
  -- `write_file`
  unfoldable pub write_file : Text → Text → World → Ran
  write_file path text w =
      if lib.is_writable path then ok (stored path text w) else err (cannot_write path)

  -- To the file, or to the standard output without one.
  abbrev pub recorded : Option Text → Text → World → Ran
  recorded none text w = ok (print text w)
  recorded (some path) text w = write_file path text w

  abbrev pub transmitted : Text → ℕ → ℕ → World → World
  transmitted kind count sent =
      println
        (codes "transmitted " ++ (to_string count ++ (kind ++ (codes ": " ++ to_string sent))))

  -- `Ir::Transmit` from the signal on, and `SubGhz::Transmit`.
  unfoldable pub transmit_ir : IrSignal → World → Ran
  transmit_ir s w = do
    sent ← map_err of_client (lib.transmits_ir s)
    ok (transmitted (codes " edges") (length s.timings) sent w)

  unfoldable pub transmit_subghz : SubGhzSignal → ℕ → World → Ran
  transmit_subghz s repeat w = do
    sent ← map_err of_client (lib.transmits_subghz s repeat)
    ok (transmitted (codes " Sub-GHz edges") (length s.edges) sent w)

  unfoldable pub run_capture : Option ℕ → Option ℕ → Option Text → World → Ran
  run_capture idle_gap duration output w = do
    signal ← map_err of_client (lib.captures_ir idle_gap duration)
    recorded output (Ir.to_file_string signal) w

  unfoldable pub run_subghz_capture : ℕ → Text → Option ℕ → Option ℕ → Option Text → World → Ran
  run_subghz_capture freq preset idle_gap duration output w = do
    preset' ← map_err of_subghz (from_str preset)
    signal ← map_err of_client (lib.captures_subghz freq preset' idle_gap duration)
    recorded output (Radio.to_file_string signal) w

  abbrev pub preview_line : Bytes → World → World
  preview_line [] w = w
  preview_line (b ∷ bs) w = println (codes "rx preview: " ++ hex_preview (b ∷ bs)) w

  abbrev pub probed : SubGhzLinkProbeResult → World → World
  probed r w = preview_line r.rx_preview (
      println
        (codes "link probe wrote "
          ++ (to_string r.written
              ++ (codes " bytes; read "
                  ++ (to_string r.read ++ (codes " bytes; callbacks " ++ to_string r.callbacks)))))
        w)

  unfoldable pub run : Cmd → World → Ran
  run caps w = do c ← map_err of_client lib.caps_answer; ok (print (caps_text c) w)
  run daemon_status w = ok (print (daemon_status_text lib.log_path lib.status_answer) w)
  run (invoke instrument opcode args) w = do
    params ← map_err of_params (parse_params args)
    result ← map_err of_client (lib.invokes instrument opcode params)
    ok (println (render_value result) w)
  run (ir_transmit file freq duty) w =
      read_ir_file file w >>= λ s. transmit_ir (with_options s freq duty) w
  run (ir_capture output idle_gap duration) w = run_capture idle_gap duration output w
  run (subghz_capture freq preset output idle_gap duration) w =
      run_subghz_capture freq preset idle_gap duration output w
  run (subghz_transmit file freq preset repeat) w = do
    signal ← read_subghz_file file w
    signal' ← with_preset (with_frequency signal freq) preset
    transmit_subghz signal' repeat w
  run (link_probe freq given hex timeout) w = do
    payload ← payload_of given hex
    result ← map_err of_client (lib.probes freq payload timeout)
    ok (probed result w)
