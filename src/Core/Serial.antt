-- ===== src/Core/Serial.antt =====
-- crates/flip-core/src/serial.rs: the choice of the serial port, and what a read makes of the port's
-- answer. The ports that the serialport crate finds, and the environment, are given.
pub mod Highest
mod Tests
use flip_link.Base.{
  ℕ, ◌+◌, Bool, true, false, leb, ltb, ◌==◌, ◌&&◌, ◌||◌, if◌then◌else◌, List, [], ◌∷◌, Option, none,
  some, Text, codes, map,
}
use flip_link.Base.Results.{Result, ok, err, ◌>>=◌}
use flip_link.Proto.Bytes.{Bytes}

-- A port with its USB vendor, if it is a USB port.
pub record SerialPortInfo : Type 0 where
  pub port_name : Text
  pub vid : Option ℕ

pub data SerialError : Type 0 where
  no_port cannot_list failed : SerialError

-- `to_lowercase`, as far as a search for ASCII letters can tell: no other code point's lower case has
-- the letters searched for side by side.
abbrev pub lower : ℕ → ℕ
lower c = if leb b'A' c && leb c b'Z' then c + 32 else c

unfoldable pub starts_with : Text → Text → Bool
starts_with s [] = true
starts_with [] (p ∷ ps) = false
starts_with (c ∷ s) (p ∷ ps) = c == p && starts_with s ps

unfoldable pub contains : Text → Text → Bool
contains [] word = starts_with [] word
contains (c ∷ s) word = starts_with (c ∷ s) word || contains s word

abbrev pub is_flip_vid : Option ℕ → Bool
is_flip_vid none = false
is_flip_vid (some vid) = vid == 0x0483

unfoldable pub is_flipper : SerialPortInfo → Bool
is_flipper p = contains (map lower p.port_name) (codes "flip") || is_flip_vid p.vid

abbrev pub flipper_names : List SerialPortInfo → List Text
flipper_names [] = []
flipper_names (p ∷ ps) = if is_flipper p then p.port_name ∷ flipper_names ps else flipper_names ps

-- The order of strings, and `sort`.
unfoldable pub text_leb : Text → Text → Bool
text_leb [] t = true
text_leb (c ∷ s) [] = false
text_leb (c ∷ s) (d ∷ t) = ltb c d || c == d && text_leb s t

unfoldable pub insert_sorted : Text → List Text → List Text
insert_sorted s [] = s ∷ []
insert_sorted s (t ∷ ts) =
    let rest = insert_sorted s ts in if text_leb s t then s ∷ t ∷ ts else t ∷ rest

unfoldable pub sort : List Text → List Text
sort [] = []
sort (s ∷ ss) = insert_sorted s (sort ss)

unfoldable pub list_flipper_ports :
    Result (List SerialPortInfo) SerialError → Result (List Text) SerialError
list_flipper_ports available = available >>= λ ports. ok (sort (flipper_names ports))

-- The match on the count of ports: none, one, or the last of several.
abbrev pub last_port : List Text → Result Text SerialError
last_port [] = err no_port
last_port (s ∷ []) = ok s
last_port (s ∷ t ∷ ts) = last_port (t ∷ ts)

-- `FLIP_PORT` of the environment comes first.
unfoldable pub pick_agent_port :
    Option Text → Result (List SerialPortInfo) SerialError → Result Text SerialError
pick_agent_port (some port) available = ok port
pick_agent_port none available = list_flipper_ports available >>= last_port

pub data PortRead : Type 0 where
  gave : Bytes → PortRead
  timed_out broke : PortRead

-- `SerialTransport::read`
unfoldable pub serial_read : PortRead → Result Bytes SerialError
serial_read (gave bytes) = ok bytes
serial_read timed_out = ok []
serial_read broke = err failed
