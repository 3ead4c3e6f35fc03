-- ===== src/Firmware/Main.antt =====
-- firmware/src/main.rs: `main` with its setup and teardown, as the calls of the SDK that it makes in
-- order. Whether the semaphore was allocated and the USB configuration switched is given.
pub mod Releases
mod Tests
use flip_link.Base.{
  ℕ, Bool, true, false, ltb, ◌&&◌, if◌then◌else◌, List, [], ◌∷◌, ◌++◌, Option, none, some, ℤ, pos,
  negsuc,
}
use flip_link.Proto.Bytes.{Bytes}
use flip_link.Proto.Messages.{Req}
use flip_link.Firmware.Loop.{Instruments, Received, Reply, State, round, main_loop, max_idle}

pub data Config : Type 0 where
  previous dual : Config

-- A stored pointer is null or not.
pub data SdkCall : Type 0 where
  open_gui alloc_view_port set_view_port_callbacks add_view_port update_view_port : SdkCall
  remove_view_port free_view_port close_gui alloc_rx free_rx free_sem unlock : SdkCall
  alloc_sem store_rx store_sem set_callbacks : Bool → SdkCall
  set_config : Config → SdkCall

-- What `main` does: a call, or the replies of its loop.
pub data Act : Type 0 where
  sdk : SdkCall → Act
  serves : List Reply → Act

abbrev pub calls : List SdkCall → List Act
calls [] = []
calls (c ∷ cs) = sdk c ∷ calls cs

abbrev pub setup_gui : List SdkCall
setup_gui =
    open_gui ∷ alloc_view_port ∷ set_view_port_callbacks ∷ add_view_port ∷ update_view_port ∷ []

abbrev pub setup_buffers : Bool → List SdkCall
setup_buffers has_sem = alloc_rx ∷ store_rx true ∷ alloc_sem has_sem ∷ store_sem has_sem ∷ []

abbrev pub switch_usb : List SdkCall
switch_usb = set_callbacks true ∷ unlock ∷ set_config dual ∷ []

abbrev pub usb_teardown : List SdkCall
usb_teardown = set_callbacks false ∷ unlock ∷ set_config previous ∷ store_rx false ∷ free_rx ∷ []

abbrev pub tx_teardown : Bool → List SdkCall
tx_teardown has_sem = store_sem false ∷ (if has_sem then free_sem ∷ [] else [])

abbrev pub gui_teardown : List SdkCall
gui_teardown = remove_view_port ∷ free_view_port ∷ close_gui ∷ []

abbrev pub teardown : Bool → List SdkCall
teardown has_sem = usb_teardown ++ (tx_teardown has_sem ++ gui_teardown)

module _ {W : Type 0} (device : Instruments W) (from_payload : Bytes → Option Req) where
  -- Whether the outer loop is over after these rounds.
  unfoldable pub is_over : List (Bool × Received) → State W → Bool
  is_over [] s = false
  is_over ((running, received) ∷ inputs) s =
      let rest = is_over inputs (round device from_payload received s).0 in
      if running && ltb s.idle max_idle then rest else true

  -- The result is there once `main` has returned.
  unfoldable pub main : Bool → Bool → List (Bool × Received) → W → List Act × Option ℤ
  main has_sem switched inputs w =
      let start : State W = record { acc = []; idle = 0; world = w } in
      let begun = calls (setup_gui ++ (setup_buffers has_sem ++ switch_usb)) in
      let served = serves (main_loop device from_payload inputs start).1 in
      let ended = calls (teardown has_sem) in
      if switched
      then (if is_over inputs start
          then (begun ++ (served ∷ ended), some (pos 0))
          else (begun ++ (served ∷ []), none))
      else (begun ++ ended, some (negsuc 0))
