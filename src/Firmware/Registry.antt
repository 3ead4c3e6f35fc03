-- ===== src/Firmware/Registry.antt =====
-- firmware/src/registry.rs and the handlers of firmware/src/sys_instrument.rs: the table of the
-- instruments. A handler is named by a constructor; what it does is a parameter of `dispatch`, and
-- reads and changes a world of type `W`.
pub mod Served
use flip_link.Base.{
  ℕ, Bool, true, false, ◌||◌, if◌then◌else◌, List, [], ◌∷◌, ◌++◌, map, Option, none, some, Text,
  codes, text_eq,
}
use flip_link.Base.Results.{ok, err, and_then, unwrap_or}
use flip_link.Proto.Messages.{
  Caps, Instrument, protocol_version, err_unknown_instrument, err_unknown_opcode,
}
use flip_link.Proto.Value.{Value, end, entry}
use flip_link.Firmware.Params.{Answer}

pub data Handler : Type 0 where
  sys_version sys_echo ir_transmit subghz_transmit subghz_link_probe : Handler

pub record OpcodeEntry : Type 0 where
  pub opcode : Text
  pub handler : Handler

pub record InstrumentEntry : Type 0 where
  pub id : Text
  pub opcodes : List OpcodeEntry
  pub streaming_opcodes : List Text

-- The handlers of the `sys` instrument.
unfoldable pub version : Value → Answer Value
version params = ok (
    Value.map (
      entry (codes "protocol") (Value.u64 protocol_version)
        (entry (codes "fw") (Value.text (codes "flip-link 0.1")) end)))

unfoldable pub echo : Value → Answer Value
echo params = ok params

abbrev pub opcode_entry : Text → Handler → OpcodeEntry
opcode_entry opcode handler = record { opcode = opcode; handler = handler }

abbrev pub instruments : List InstrumentEntry
instruments =
    record {
      id = codes "sys";
      opcodes =
          opcode_entry (codes "version") sys_version ∷ opcode_entry (codes "echo") sys_echo ∷ [];
      streaming_opcodes = [];
    }
    ∷ record {
      id = codes "ir";
      opcodes = opcode_entry (codes "transmit") ir_transmit ∷ [];
      streaming_opcodes = codes "capture" ∷ [];
    }
    ∷ record {
      id = codes "subghz";
      opcodes =
          opcode_entry (codes "transmit") subghz_transmit
          ∷ opcode_entry (codes "link_probe") subghz_link_probe
          ∷ [];
      streaming_opcodes = codes "capture" ∷ [];
    }
    ∷ []

-- `INSTRUMENTS.iter().find(|i| i.id == instrument)`
abbrev pub entry_of : Text → List InstrumentEntry → Option InstrumentEntry
entry_of instrument [] = none
entry_of instrument (i ∷ is) = if text_eq i.id instrument then some i else entry_of instrument is

abbrev pub handler_of : Text → List OpcodeEntry → Option Handler
handler_of opcode [] = none
handler_of opcode (o ∷ os) =
    if text_eq o.opcode opcode then some o.handler else handler_of opcode os

abbrev pub contains : Text → List Text → Bool
contains t [] = false
contains t (u ∷ us) = text_eq u t || contains t us

module _ (table : List InstrumentEntry) where
  unfoldable pub find_in : Text → Text → Option Handler
  find_in instrument opcode = and_then (entry_of instrument table) λ i. handler_of opcode i.opcodes

  unfoldable pub has_instrument_in : Text → Bool
  has_instrument_in instrument =
      unwrap_or (and_then (entry_of instrument table) λ i. some true) false

  unfoldable pub is_streaming_in : Text → Text → Bool
  is_streaming_in instrument opcode =
      unwrap_or
        (and_then (entry_of instrument table) λ i. some (contains opcode i.streaming_opcodes)) false

  unfoldable pub build_caps_of : Caps
  build_caps_of = record {
    protocol = protocol_version;
    instruments =
        map
          (λ (i : InstrumentEntry). record {
            id = i.id;
            opcodes = map (λ (o : OpcodeEntry). o.opcode) i.opcodes ++ i.streaming_opcodes;
          })
          table;
  }

unfoldable pub find : Text → Text → Option Handler
unfolding find_in
find = find_in instruments

unfoldable pub has_instrument : Text → Bool
unfolding has_instrument_in
has_instrument = has_instrument_in instruments

unfoldable pub is_streaming : Text → Text → Bool
unfolding is_streaming_in
is_streaming = is_streaming_in instruments

unfoldable pub build_caps : Caps
unfolding build_caps_of
build_caps = build_caps_of instruments

abbrev pub call {ℓ} :
    {W : Type ℓ}
    → Option Handler
    → Bool
    → (Handler → Value → W → Answer Value × W)
    → Value
    → W
    → Answer Value × W
call (some handler) known run params w = run handler params w
call none false run params w = (err (err_unknown_instrument, codes "unknown instrument"), w)
call none true run params w = (err (err_unknown_opcode, codes "unknown opcode"), w)

unfoldable pub dispatch {ℓ} :
    {W : Type ℓ}
    → (Handler → Value → W → Answer Value × W)
    → Text
    → Text
    → Value
    → W
    → Answer Value × W
dispatch run instrument opcode params w =
    call (find instrument opcode) (has_instrument instrument) run params w
