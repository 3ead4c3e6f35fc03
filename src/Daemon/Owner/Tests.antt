-- ===== src/Daemon/Owner/Tests.antt =====
-- The owner of the device in crates/flip-daemon/src/device_conn.rs over concrete cycles.
use flip_link.Base.{◌≡◌, refl, true, false, [], ◌∷◌, none, some}
use flip_link.Proto.Frame.{Frame, caps}
use flip_link.Proto.Frame.Wire.{wire, body}
use flip_link.Proto.Crc.{crc16_ccitt_false, crc_from, absorb, shift_bits, shift_bit}
use flip_link.Proto.Frame.{decode, decode_body, from_u8, to_u8}
use flip_link.Proto.Frame as Frame
use flip_link.Core.Device.{received, expired, await_frame, take_wanted}
use flip_link.Core.Device.Await.{sent_frame}
use flip_link.Core.Reader.{feed, next_frame, scan}
use flip_link.Daemon.Router.{new}
use flip_link.Daemon.Device.{Attempt, cycle, connect, connect_and_cache, cache_caps}
use flip_link.Daemon.Pump.{pump}
use flip_link.Daemon.Owner.{Cycle, Owner, served, run}
use flip_link.Daemon.Owner.Idle.{Fails, idles, run_idles}

abbrev caps_frame : Frame
caps_frame = sent_frame caps 0 (7 ∷ [])

abbrev closed : Attempt
closed = record { opens = false; hello_body = some (0 ∷ []); writes = true; turns = [] }

abbrev answering : Attempt
answering = record {
  opens = true;
  hello_body = some (0 ∷ []);
  writes = true;
  turns = received (wire 1 caps_frame) ∷ expired ∷ [];
}

-- The device answers the second attempt; a command comes in the session, which a read ends.
abbrev connects : Cycle
connects = record {
  attempts = closed ∷ answering ∷ [];
  rounds = record { queued = []; takes = λ i. true; got = none } ∷ [];
  routers = λ n. new;
  pokes = 1;
  changes = λ g. g;
}

abbrev fails : Cycle
fails = record {
  attempts = closed ∷ [];
  rounds = [];
  routers = λ n. new;
  pokes = 0;
  changes = λ g. g;
}

abbrev start : Owner
start = record { router = new; pokes = 0 }

finds_device : (cycle connects.attempts new).0 ≡ true
unfolding Frame.encode cycle connect connect_and_cache cache_caps await_frame take_wanted feed
    next_frame scan decode decode_body Frame.checked from_u8 to_u8 wire body crc16_ccitt_false
    crc_from absorb shift_bits shift_bit
finds_device = refl

fails-Fails : Fails fails
unfolding cycle connect connect_and_cache
fails-Fails g = refl

run_idles_example :
    (run (connects ∷ fails ∷ fails ∷ []) start).1
    ≡ served (pump connects.routers connects.rounds) ∷ idles 1 (fails ∷ fails ∷ [])
run_idles_example =
    run_idles connects (fails ∷ fails ∷ []) start finds_device (fails-Fails, (fails-Fails, tt))
      (refl, (refl, tt))
