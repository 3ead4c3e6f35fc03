-- ===== src/Daemon/Owner.antt =====
-- crates/flip-daemon/src/device_conn.rs: `run`, which connects, pumps and waits for a command. The
-- count of pokes in the channel `wake` is its state beside the router; what the port, the clients and
-- the clock do is a list of cycles of its loop.
pub mod Idle
mod Tests
use flip_link.Base.{ℕ, ◌+◌, Bool, true, false, ◌==◌, if◌then◌else◌, List, [], ◌∷◌}
use flip_link.Core.Device.{Turn}
use flip_link.Daemon.Router.{Router}
use flip_link.Daemon.Device.{Attempt, cycle}
use flip_link.Daemon.Pump.{Round, Pumped, pump}

-- A cycle: its attempts to connect, the rounds of the session and the routers that its deliveries
-- meet, and how many commands poke the owner meanwhile, and change the router how.
pub record Cycle : Type 0 where
  pub attempts : List Attempt
  pub rounds : List Round
  pub routers : ℕ → Router
  pub pokes : ℕ
  pub changes : Router → Router

pub record Owner : Type 0 where
  pub router : Router
  pub pokes : ℕ

-- How a cycle ends: with its session, or without a device. Then `wake.recv()` returns at once when a
-- poke is there, and waits for a command when none is.
pub data Outcome : Type 0 where
  served : Pumped → Outcome
  went_on waited : Outcome

-- `wake.recv()`, then `while wake.try_recv().is_ok() {}`
abbrev pub idle : ℕ → Outcome
idle pokes = if pokes == 0 then waited else went_on

abbrev after_connect : Cycle → Owner → Bool × Router → Owner × Outcome
after_connect c o (true, g) =
    (record { router = c.changes g; pokes = o.pokes + c.pokes }, served (pump c.routers c.rounds))
after_connect c o (false, g) =
    (record { router = c.changes g; pokes = 0 }, idle (o.pokes + c.pokes))

unfoldable pub run_cycle : Cycle → Owner → Owner × Outcome
run_cycle c o = after_connect c o (cycle c.attempts o.router)

unfoldable pub run : List Cycle → Owner → Owner × List Outcome
run [] o = (o, [])
run (c ∷ cs) o = let now = run_cycle c o in let later = run cs now.0 in (later.0, now.1 ∷ later.1)
