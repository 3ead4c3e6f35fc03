-- ===== src/Daemon/Pump.antt =====
-- crates/flip-daemon/src/device_conn.rs: `pump`, the session with a connected device. What the port
-- and the clients' queue give is a list of rounds of its loop. The clients register and unregister
-- meanwhile: the router that the n-th delivery meets is given.
pub mod Delivered
mod Tests
use flip_link.Base.{
  ℕ, zero, suc, ◌+◌, Bool, true, false, ltb, if◌then◌else◌, List, [], ◌∷◌, ◌++◌, length, Option,
  none, some,
}
use flip_link.Proto.Bytes.{Bytes}
use flip_link.Proto.Frame.{Frame}
use flip_link.Core.Reader.{FrameReader, feed, drain}
use flip_link.Daemon.Router.{Router, Channel, deliver}
use flip_link.Daemon.Device.{Write, pause, write_all, write_outbound_frame}

-- A round: the frames that `try_recv` gives, whether the port takes each write, and what the read
-- gives; `none` is a read that fails.
pub record Round : Type 0 where
  pub queued : List Bytes
  pub takes : ℕ → Bool
  pub got : Option Bytes

abbrev pub outbound_writes : List Bytes → List Write
outbound_writes [] = []
outbound_writes (f ∷ fs) = write_outbound_frame f ++ outbound_writes fs

-- The writes up to the first that fails, from the i-th on, and whether none did.
unfoldable pub taken_writes : (ℕ → Bool) → ℕ → List Write → List Write × Bool
taken_writes takes i [] = ([], true)
taken_writes takes i (pause ∷ ws) = let rest = taken_writes takes i ws in (pause ∷ rest.0, rest.1)
taken_writes takes i (write_all c ∷ ws) =
    let rest = taken_writes takes (suc i) ws in
    if takes i then (write_all c ∷ rest.0, rest.1) else ([], false)

-- What the session has done, and whether an error ended it.
pub record Pumped : Type 0 where
  pub writes : List Write
  pub delivered : List (Channel × Frame)
  pub ended : Bool

abbrev pub also : Option (Channel × Frame) → List (Channel × Frame) → List (Channel × Frame)
also none later = later
also (some d) later = d ∷ later

abbrev pub before : List Write → List (Channel × Frame) → Pumped → Pumped
before ws ds p = record { writes = ws ++ p.writes; delivered = ds ++ p.delivered; ended = p.ended }

module _ (routers : ℕ → Router) where
  -- The frames into the channels, the first of them as the n-th delivery.
  unfoldable pub deliver_each : ℕ → List Frame → List (Channel × Frame)
  deliver_each n [] = []
  deliver_each n (f ∷ fs) =
      let later = deliver_each (suc n) fs in also (deliver f (routers n)) later

  -- The second half of a round; `go_on` is the loop.
  abbrev pub after_read : Option Bytes → FrameReader → ℕ → (FrameReader → ℕ → Pumped) → Pumped
  after_read none r n go_on = record { writes = []; delivered = []; ended = true }
  after_read (some bytes) r n go_on =
      let (fs, r') = drain (feed r bytes) in
      if ltb 0 (length bytes)
      then before [] (deliver_each n fs) (go_on r' (n + length fs))
      else go_on r n

  unfoldable pub pump_from : List Round → FrameReader → ℕ → Pumped
  pump_from [] r n = record { writes = []; delivered = []; ended = false }
  pump_from (x ∷ xs) r n =
      let (ws, fine) = taken_writes x.takes 0 (outbound_writes x.queued) in
      let rest = after_read x.got r n (λ r' n'. pump_from xs r' n') in
      if fine then before ws [] rest else record { writes = ws; delivered = []; ended = true }

  unfoldable pub pump : List Round → Pumped
  pump rounds = pump_from rounds (record { buf = [] }) 0
