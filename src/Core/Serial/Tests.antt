-- ===== src/Core/Serial/Tests.antt =====
-- The choice of crates/flip-core/src/serial.rs among concrete ports.
use flip_link.Base.{◌≡◌, refl, true, List, [], ◌∷◌, ◌++◌, none, some, Text, codes}
use flip_link.Base.Results.{ok, err}
use flip_link.Core.Serial.{
  SerialPortInfo, no_port, is_flipper, flipper_names, contains, starts_with, pick_agent_port,
  list_flipper_ports, sort, serial_read, gave, timed_out,
}
use flip_link.Core.Serial.Highest.{IsHighest, pick_agent_port_lem, pick_agent_port_lower}

abbrev flipper : Text → SerialPortInfo
flipper name = record { port_name = name; vid = some 0x0483 }

abbrev stem : Text
stem = codes "/dev/ttyACM"

abbrev two_ports : List SerialPortInfo
two_ports =
    record { port_name = codes "/dev/ttyS0"; vid = none }
    ∷ flipper (stem ++ codes "9")
    ∷ flipper (stem ++ codes "10")
    ∷ []

named_in_capitals :
    is_flipper (record { port_name = codes "/dev/cu.usbmodemFLIP_Anu1"; vid = none }) ≡ true
unfolding is_flipper contains starts_with
named_in_capitals = refl

two_names : flipper_names two_ports ≡ (stem ++ codes "9") ∷ (stem ++ codes "10") ∷ []
unfolding is_flipper contains starts_with
two_names = refl

choices :
    (pick_agent_port none (ok []) ≡ err no_port)
    × (pick_agent_port (some stem) (ok []) ≡ ok stem)
    × (serial_read timed_out ≡ ok [])
    × (serial_read (gave (7 ∷ [])) ≡ ok (7 ∷ []))
unfolding pick_agent_port list_flipper_ports sort serial_read
choices = (refl, refl, refl, refl)

pick_agent_port_lem_example :
    IsHighest (flipper_names two_ports) (pick_agent_port none (ok two_ports))
pick_agent_port_lem_example = pick_agent_port_lem two_ports

pick_agent_port_lower_example : pick_agent_port none (ok two_ports) ≡ ok (stem ++ codes "9")
pick_agent_port_lower_example = pick_agent_port_lower stem two_ports two_names
