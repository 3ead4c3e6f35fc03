-- ===== src/Daemon/Device.antt =====
-- crates/flip-daemon/src/device_conn.rs: the owner of the device's port. What the port and the clock
-- do is given as a list with one entry for each attempt to connect: whether it can open the port, what
-- the serialization of HELLO gives, whether the write succeeds, and the turns of the wait for CAPS.
pub mod Chunks
use flip_link.Base.{ℕ, zero, suc, ◌+◌, Bool, true, false, ◌==◌, if◌then◌else◌}
use flip_link.Base.{List, [], ◌∷◌, ◌++◌, length, replicate, take, drop, Option, none, some}
use flip_link.Proto.Bytes.{Bytes}
use flip_link.Proto.Frame.{Frame, to_u8, caps, hello, encode, header_size}
use flip_link.Core.Reader.{new}
use flip_link.Core.Device.{Turn, Awaited, found, gave_up, waiting, await_frame}
use flip_link.Daemon.Router.{Router, set_caps}

abbrev pub max_retries : ℕ
max_retries = 5

abbrev pub outbound_write_chunk : ℕ
outbound_write_chunk = 64

-- `bytes.chunks(64)`: each round takes a byte at least, so their count is enough fuel.
unfoldable pub chunks : ℕ → Bytes → List Bytes
chunks zero bytes = []
chunks (suc fuel) [] = []
chunks (suc fuel) (b ∷ bs) =
    take outbound_write_chunk (b ∷ bs) ∷ chunks fuel (drop outbound_write_chunk (b ∷ bs))

pub data Write : Type 0 where
  pause : Write
  write_all : Bytes → Write

abbrev pub paced : List Bytes → List Write
paced [] = []
paced (c ∷ cs) = pause ∷ write_all c ∷ paced cs

-- A pause before each chunk but the first.
abbrev pub paced_first : List Bytes → List Write
paced_first [] = []
paced_first (c ∷ cs) = write_all c ∷ paced cs

unfoldable pub write_outbound_frame : Bytes → List Write
write_outbound_frame bytes = paced_first (chunks (length bytes) bytes)

abbrev pub is_caps : Frame → Bool
is_caps f = to_u8 f.typ == to_u8 caps

-- The router, if CAPS came.
abbrev pub cached : Awaited → Router → Option Router
cached (found f) g = some (set_caps f.payload g)
cached (gave_up e) g = none
cached waiting g = none

pub record Attempt : Type 0 where
  pub opens : Bool
  pub hello_body : Option Bytes
  pub writes : Bool
  pub turns : List Turn

-- HELLO with the number 0, in a buffer of its size.
abbrev pub hello_frame : Bytes → Option (ℕ × Bytes)
hello_frame body = encode hello 0 0 body (replicate (header_size + length body + 2) 0)

-- The write of the encoded HELLO, and the wait.
abbrev pub wait_for_caps : Attempt → Option (ℕ × Bytes) → Router → Option Router
wait_for_caps a none g = none
wait_for_caps a (some frame) g =
    if a.writes then cached (await_frame is_caps a.turns new).0 g else none

abbrev pub with_hello : Attempt → Option Bytes → Router → Option Router
with_hello a none g = none
with_hello a (some body) g = wait_for_caps a (hello_frame body) g

unfoldable pub cache_caps : Attempt → Router → Option Router
cache_caps a g = with_hello a a.hello_body g

unfoldable pub connect_and_cache : Attempt → Router → Option Router
connect_and_cache a g = if a.opens then cache_caps a g else none

abbrev pub or_next : Option Router → Router → Bool × Router → Bool × Router
or_next (some g) before later = (true, g)
or_next none before later = later

-- The attempts of a cycle, `left` of them: whether one connected, and the router after.
unfoldable pub connect : ℕ → List Attempt → Router → Bool × Router
connect zero attempts g = (false, g)
connect (suc left) [] g = (false, g)
connect (suc left) (a ∷ attempts) g =
    let later = connect left attempts g in or_next (connect_and_cache a g) g later

-- A cycle of `run` up to the session or the idle wait: without a device the CAPS are dropped.
unfoldable pub cycle : List Attempt → Router → Bool × Router
cycle attempts g =
    let (connected, g') = connect max_retries attempts g in
    if connected then (true, g') else (false, set_caps [] g')
