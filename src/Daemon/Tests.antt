-- ===== src/Daemon/Tests.antt =====
-- The theorems on the router of crates/flip-daemon at concrete states.
use flip_link.Base.{
  ℕ, zero, suc, ◌<◌, ◌^◌, ◌≡◌, ◌≢◌, refl, sym, ap, arith, some, none, [], ◌∷◌, length, replicate,
  get_or,
}
use flip_link.Base.{true, false, ◌⊎◌}
use flip_link.Proto.Bytes.{Bytes}
use flip_link.Proto.Frame.{Frame, resp}
use flip_link.Daemon.Device.{Attempt, cycle}
use flip_link.Daemon.Device.Chunks.{cycle_lem}
use flip_link.Daemon.Router.{
  Router, new, register, unregister, deliver, register_all, set_caps, IsRouter,
}
use flip_link.Daemon.Router.Routing.{numbered, register_lem, register_all-deliver, register_wraps}

abbrev reply : ℕ → Frame
reply seq = record { typ = resp; flags = 0; seq = seq; payload = 1 ∷ [] }

other_number : (register 7 new).0 ≢ 9
unfolding register
other_number = omega arith

registers :
    (0 < (register 7 new).0)
    × ((register 7 new).0 < 2 ^ 16)
    × IsRouter (register 7 new).1
    × (deliver (numbered (register 7 new).0 (reply 0)) (register 7 new).1
        ≡ some (7, numbered (register 7 new).0 (reply 0)))
    × (deliver (reply 9) (register 7 new).1 ≡ deliver (reply 9) new)
    × (deliver
          (numbered (register 7 new).0 (reply 0))
          (unregister (register 7 new).0 (register 7 new).1)
        ≡ none)
registers = register_lem 7 new (reply 0) (reply 9) (omega arith) other_number

-- The last two numbers, and the first again.
abbrev near_the_end : Router
near_the_end = record { next_seq = 65534; routes = []; caps_payload = [] }

test_numbers : (register_all (7 ∷ 8 ∷ 9 ∷ []) near_the_end).0 ≡ 65534 ∷ 65535 ∷ 1 ∷ []
unfolding register_all register
test_numbers = refl

third_number : 1 ≡ get_or (register_all (7 ∷ 8 ∷ 9 ∷ []) near_the_end).0 2 0
third_number = ap (λ l. get_or l 2 0) (sym test_numbers)

register_all-deliver_example :
    deliver (reply 1) (register_all (7 ∷ 8 ∷ 9 ∷ []) near_the_end).1 ≡ some (9, reply 1)
register_all-deliver_example =
    register_all-deliver (7 ∷ 8 ∷ 9 ∷ []) near_the_end 2 (reply 1) (omega arith) (omega arith)
      (omega arith) third_number

length-replicate : (n : ℕ) → length {A = ℕ} (replicate n 7) ≡ n
length-replicate zero = refl
length-replicate (suc n) = ap suc (length-replicate n)

register_wraps_example :
    ((register 8 (register_all (replicate 65535 7) new).1).0
      ≡ get_or (register_all (replicate 65535 7) new).0 0 0)
    × (deliver (reply 1) (register 8 (register_all (replicate 65535 7) new).1).1
        ≡ some (8, reply 1))
register_wraps_example =
    register_wraps (replicate 65535 7) new 8 (reply 1) (omega arith) (length-replicate 65535) refl

abbrev closed : Attempt
closed = record { opens = false; hello_body = none; writes = true; turns = [] }

cycles :
    (((cycle (closed ∷ []) new).0 ≡ true)
      × ((payload : Bytes) × ((cycle (closed ∷ []) new).1 ≡ set_caps payload new)))
    ⊎ (cycle (closed ∷ []) new ≡ (false, set_caps [] new))
cycles = cycle_lem (closed ∷ []) new
