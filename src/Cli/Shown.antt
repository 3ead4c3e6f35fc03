-- ===== src/Cli/Shown.antt =====
-- crates/flip-cli/src/main.rs: what the commands `caps` and `daemon status` print.
use flip_link.Base.{not, if◌then◌else◌, List, [], ◌∷◌, ◌++◌, Text, codes}
use flip_link.Proto.Messages.{Caps, Instrument}
use flip_link.Str.{to_string}
use flip_link.Client.Daemon.{DaemonStatus, DeviceStatus, connected, disconnected, unknown}

abbrev line : Text → Text
line t = t ++ codes "\n"

abbrev pub opcode_lines : Text → List Text → Text
opcode_lines id [] = []
opcode_lines id (op ∷ ops) = line (codes "  " ++ (id ++ (codes "." ++ op))) ++ opcode_lines id ops

abbrev pub instrument_lines : List Instrument → Text
instrument_lines [] = []
instrument_lines (i ∷ is) = line i.id ++ (opcode_lines i.id i.opcodes ++ instrument_lines is)

unfoldable pub caps_text : Caps → Text
caps_text c = line (codes "protocol v" ++ to_string c.protocol) ++ instrument_lines c.instruments

abbrev pub device_line : DeviceStatus → Text
device_line (connected n) =
    line (codes "device: connected (" ++ (to_string n ++ codes " instruments)"))
device_line disconnected = line (codes "device: disconnected")
device_line (unknown reason) = line (codes "device: unknown (" ++ (reason ++ codes ")"))

-- `print_daemon_status`; the path of the log is given.
unfoldable pub daemon_status_text : Text → DaemonStatus → Text
daemon_status_text log_path s =
    (if not s.daemon_running
      then line (codes "daemon: not running")
      else line (codes "daemon: running") ++ device_line s.device)
    ++ line (codes "log:    " ++ log_path)
