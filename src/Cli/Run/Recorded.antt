-- ===== src/Cli/Run/Recorded.antt =====
-- A signal that the command line of crates/flip-cli/src/main.rs records in a file and sends from it.
use flip_link.Base.{
  ℕ, ◌≤◌, ◌≡◌, refl, true, false, List, [], ◌∷◌, All, Option, some, Text, text_eq_refl,
}
use flip_link.Base.Results.{ok, err, ◌>>=◌}
use flip_link.Str.{is_empty, max_u32, max_u64}
use flip_link.Client.Signal.{IrSignal}
use flip_link.Client.Signal.File as Ir
use flip_link.Client.Signal.File.RoundTrip.{parse-to_file_string}
use flip_link.Client.SubGhz.{SubGhzSignal, SubGhzPreset, from_str}
use flip_link.Client.SubGhz.File as Radio
use flip_link.Client.SubGhz.File.RoundTrip.{IsEdge, subghz_parse-to_file_string}
use flip_link.Cli.Run.{
  Cmd, ir_transmit, ir_capture, subghz_capture, subghz_transmit, Library, World, Ran, stored,
  read_ir_file, read_subghz_file, write_file, transmit_ir, transmit_subghz, run_capture,
  run_subghz_capture, with_options, with_frequency, with_preset, run,
}

-- The signals of the program with something in them.
abbrev pub IsIrSignal : IrSignal → Type 0
IsIrSignal s =
    (s.frequency ≤ max_u32)
    × (s.duty_permille ≤ max_u32)
    × All (λ t. t ≤ max_u64) s.timings
    × (is_empty s.timings ≡ false)

abbrev pub IsSubGhzSignal : SubGhzSignal → Type 0
IsSubGhzSignal s = (s.frequency ≤ max_u32) × All IsEdge s.edges × (is_empty s.edges ≡ false)

read_stored_ir :
    (path : Text) (s : IrSignal) (w : World)
    → IsIrSignal s
    → read_ir_file path (stored path (Ir.to_file_string s) w) ≡ ok s
unfolding read_ir_file
read_stored_ir path s w (f, d, h, e) = rw (text_eq_refl path, parse-to_file_string s f d h, e) refl

read_stored_subghz :
    (path : Text) (s : SubGhzSignal) (w : World)
    → IsSubGhzSignal s
    → read_subghz_file path (stored path (Radio.to_file_string s) w) ≡ ok s
unfolding read_subghz_file
read_stored_subghz path s w (f, h, e) =
    rw (text_eq_refl path, subghz_parse-to_file_string s f h, e) refl

-- Commands one after the other; an error ends them.
abbrev pub run_all : Library → List Cmd → World → Ran
run_all lib [] w = ok w
run_all lib (c ∷ cs) w = run lib c w >>= run_all lib cs

bind-ok : (r : Ran) → (r >>= λ w. ok w) ≡ r
bind-ok (ok w) = refl
bind-ok (err e) = refl

module _ (lib : Library) (path : Text) (writable : lib.is_writable path ≡ true) where
  ir_recorded :
      (s : IrSignal) (idle_gap duration freq duty : Option ℕ) (w : World)
      → IsIrSignal s
      → lib.captures_ir idle_gap duration ≡ ok s
      → run_all lib (ir_capture (some path) idle_gap duration ∷ ir_transmit path freq duty ∷ []) w
        ≡ transmit_ir lib (with_options s freq duty) (stored path (Ir.to_file_string s) w)
  unfolding run run_capture write_file
  ir_recorded s idle_gap duration freq duty w h e =
      rw (e, writable, read_stored_ir path s w h)
        (bind-ok (transmit_ir lib (with_options s freq duty) (stored path (Ir.to_file_string s) w)))

  subghz_recorded :
      (s : SubGhzSignal) (f : ℕ) (name : Text) (preset : SubGhzPreset)
      (idle_gap duration freq : Option ℕ) (to : Option Text) (repeat : ℕ) (w : World)
      → IsSubGhzSignal s
      → from_str name ≡ ok preset
      → lib.captures_subghz f preset idle_gap duration ≡ ok s
      → run_all lib
          (subghz_capture f name (some path) idle_gap duration
            ∷ subghz_transmit path freq to repeat
            ∷ [])
          w
        ≡ (with_preset (with_frequency s freq) to >>= λ s'.
            transmit_subghz lib s' repeat (stored path (Radio.to_file_string s) w))
  unfolding run run_subghz_capture write_file
  subghz_recorded s f name preset idle_gap duration freq to repeat w h p e =
      rw (p, e, writable, read_stored_subghz path s w h) (bind-ok _)

-- With a library that captures these two signals, of 32-bit and 64-bit numbers, edges in range and not
-- empty, and files that can be written: capturing into a file and then transmitting the file is
-- transmitting the captured signal, under the options of the command line, and leaves it in the file.
pub recorded_sent :
    (lib : Library) (path name : Text) (s : IrSignal) (t : SubGhzSignal) (f : ℕ)
    (preset : SubGhzPreset) (idle_gap duration freq duty : Option ℕ) (to : Option Text) (repeat : ℕ)
    (w : World)
    → lib.is_writable path ≡ true
    → IsIrSignal s
    → lib.captures_ir idle_gap duration ≡ ok s
    → IsSubGhzSignal t
    → from_str name ≡ ok preset
    → lib.captures_subghz f preset idle_gap duration ≡ ok t
    → (run_all lib (ir_capture (some path) idle_gap duration ∷ ir_transmit path freq duty ∷ []) w
        ≡ transmit_ir lib (with_options s freq duty) (stored path (Ir.to_file_string s) w))
      × (run_all lib
            (subghz_capture f name (some path) idle_gap duration
              ∷ subghz_transmit path freq to repeat
              ∷ [])
            w
          ≡ (with_preset (with_frequency t freq) to >>= λ t'.
              transmit_subghz lib t' repeat (stored path (Radio.to_file_string t) w)))
recorded_sent lib path name s t f preset idle_gap duration freq duty to repeat w writable h e k p
      q =
    (
      ir_recorded lib path writable s idle_gap duration freq duty w h e,
      subghz_recorded lib path writable t f name preset idle_gap duration freq to repeat w k p q,
    )
