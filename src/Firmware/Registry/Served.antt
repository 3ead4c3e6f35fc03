-- ===== src/Firmware/Registry/Served.antt =====
-- What the table of firmware/src/registry.rs advertises is what it serves.
use flip_link.Base.{
  ◌≡◌, inl, inr, refl, ap, ◌∙◌, Bool, true, false, ◌||◌, if◌then◌else◌, List, [], ◌∷◌, ◌++◌, map,
  Option, none, some, Text, text_eq, Bool-cases,
}
use flip_link.Proto.Messages.{Instrument}
use flip_link.Firmware.Registry.{
  OpcodeEntry, InstrumentEntry, instruments, handler_of, contains, find_in, is_streaming_in,
  build_caps_of, find, is_streaming, build_caps,
}

-- A client's reading of CAPS: the first instrument of that id lists the opcode.
abbrev pub lists : Text → Text → List Instrument → Bool
lists instrument opcode [] = false
lists instrument opcode (i ∷ is) =
    if text_eq i.id instrument then contains opcode i.opcodes else lists instrument opcode is

abbrev pub is_found {ℓ} : {A : Type ℓ} → Option A → Bool
is_found none = false
is_found (some a) = true

contains-append :
    (t : Text) (xs ys : List Text) → contains t (xs ++ ys) ≡ (contains t xs || contains t ys)
contains-append t [] ys = refl
contains-append t (x ∷ xs) ys = elim (Bool-cases (text_eq x t)) [
  | inl e ↦ rw e refl
  | inr e ↦ rw e (contains-append t xs ys)
]

contains-opcodes :
    (t : Text) (os : List OpcodeEntry)
    → contains t (map (λ (o : OpcodeEntry). o.opcode) os) ≡ is_found (handler_of t os)
contains-opcodes t [] = refl
contains-opcodes t (o ∷ os) = elim (Bool-cases (text_eq o.opcode t)) [
  | inl e ↦ rw e refl
  | inr e ↦ rw e (contains-opcodes t os)
]

lists-build_caps_of :
    (table : List InstrumentEntry) (instrument opcode : Text)
    → lists instrument opcode (build_caps_of table).instruments
      ≡ (is_found (find_in table instrument opcode) || is_streaming_in table instrument opcode)
unfolding build_caps_of find_in is_streaming_in
lists-build_caps_of [] instrument opcode = refl
lists-build_caps_of (i ∷ is) instrument opcode = elim (Bool-cases (text_eq i.id instrument)) [
  | inl e ↦ rw e (
      contains-append opcode (map (λ (o : OpcodeEntry). o.opcode) i.opcodes) i.streaming_opcodes
      ∙ ap (λ b. b || contains opcode i.streaming_opcodes) (contains-opcodes opcode i.opcodes))
  | inr e ↦ rw e (lists-build_caps_of is instrument opcode)
]

-- For every instrument and opcode: CAPS lists it just when `find` has a handler for it or it is a
-- streaming opcode.
pub lists-build_caps :
    (instrument opcode : Text)
    → lists instrument opcode build_caps.instruments
      ≡ (is_found (find instrument opcode) || is_streaming instrument opcode)
unfolding build_caps find is_streaming
lists-build_caps = lists-build_caps_of instruments
