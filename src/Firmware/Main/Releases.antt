-- ===== src/Firmware/Main/Releases.antt =====
-- `main` of firmware/src/main.rs gives back what it takes, and no interrupt meets a freed buffer.
use flip_link.Base.{Bool, true, false, not, ◌&&◌, if◌then◌else◌, List, [], ◌∷◌, Option, none, some}
use flip_link.Base.Results.{and_then}
use flip_link.Proto.Bytes.{Bytes}
use flip_link.Firmware.Loop.{State}
use flip_link.Firmware.Main.{
  previous, dual, SdkCall, open_gui, alloc_view_port, set_view_port_callbacks, add_view_port,
  update_view_port, remove_view_port, free_view_port, close_gui, alloc_rx, free_rx, free_sem,
  unlock, alloc_sem, store_rx, store_sem, set_callbacks, set_config, Act, sdk, serves,
}

-- What is allocated, opened, published and set.
pub record Hardware : Type 0 where
  pub gui : Bool
  pub view_port : Bool
  pub is_shown : Bool
  pub rx : Bool
  pub rx_stored : Bool
  pub sem : Bool
  pub sem_stored : Bool
  pub callbacks : Bool
  pub is_dual : Bool

abbrev pub at_rest : Hardware
at_rest = record {
  gui = false;
  view_port = false;
  is_shown = false;
  rx = false;
  rx_stored = false;
  sem = false;
  sem_stored = false;
  callbacks = false;
  is_dual = false;
}

-- While `main` serves.
abbrev pub serving : Bool → Hardware
serving has_sem = record {
  gui = true;
  view_port = true;
  is_shown = true;
  rx = true;
  rx_stored = true;
  sem = has_sem;
  sem_stored = has_sem;
  callbacks = true;
  is_dual = true;
}

abbrev when : Bool → Hardware → Option Hardware
when allowed h = if allowed then some h else none

-- A call where it is allowed. While the callbacks are set the interrupts may run at any time, so
-- they are set only over a published buffer, which stays published and is not freed meanwhile; the
-- same holds of the semaphore. What is freed was allocated and is not published.
abbrev pub after_call : SdkCall → Hardware → Option Hardware
after_call open_gui h = when (not h.gui) (record h { gui = true })
after_call alloc_view_port h = when (not h.view_port) (record h { view_port = true })
after_call set_view_port_callbacks h = when h.view_port h
after_call add_view_port h =
    when (h.gui && (h.view_port && not h.is_shown)) (record h { is_shown = true })
after_call update_view_port h = when h.view_port h
after_call remove_view_port h = when h.is_shown (record h { is_shown = false })
after_call free_view_port h = when (h.view_port && not h.is_shown) (record h { view_port = false })
after_call close_gui h = when (h.gui && not h.is_shown) (record h { gui = false })
after_call alloc_rx h = when (not h.rx) (record h { rx = true })
after_call (store_rx true) h = when h.rx (record h { rx_stored = true })
after_call (store_rx false) h = when (not h.callbacks) (record h { rx_stored = false })
after_call free_rx h = when (h.rx && (not h.rx_stored && not h.callbacks)) (record h { rx = false })
after_call (alloc_sem got) h = when (not h.sem) (record h { sem = got })
after_call (store_sem true) h = when h.sem (record h { sem_stored = true })
after_call (store_sem false) h = when (not h.callbacks) (record h { sem_stored = false })
after_call free_sem h =
    when (h.sem && (not h.sem_stored && not h.callbacks)) (record h { sem = false })
after_call (set_callbacks true) h = when h.rx_stored (record h { callbacks = true })
after_call (set_callbacks false) h = some (record h { callbacks = false })
after_call unlock h = some h
after_call (set_config dual) h = when h.callbacks (record h { is_dual = true })
after_call (set_config previous) h = some (record h { is_dual = false })

-- Serving needs the callbacks and the dual configuration.
abbrev pub after_act : Act → Hardware → Option Hardware
after_act (sdk c) h = after_call c h
after_act (serves replies) h = when (h.callbacks && h.is_dual) h

abbrev pub after_all : List Act → Hardware → Option Hardware
after_all [] h = some h
after_all (a ∷ acts) h = and_then (after_act a h) (after_all acts)

-- The state in which the loop begins.
abbrev pub begun : {W : Type 0} → W → State W
begun w = record { acc = []; idle = 0; world = w }
