-- ===== src/Daemon/Pump/Tests.antt =====
-- A session of `pump` of crates/flip-daemon/src/device_conn.rs on concrete rounds.
use flip_link.Base.{
  ℕ, ◌≡◌, refl, sym, ap, ◌∙◌, arith, append-nil, take-append-drop, true, false, not, List, [], ◌∷◌,
  ◌++◌, take, drop, flatten, some,
}
use flip_link.Proto.Frame.{Frame, resp}
use flip_link.Proto.Frame.Stream.{decode-nil}
use flip_link.Proto.Frame.Wire.{wire}
use flip_link.Core.Reader.Chunks.{wires}
use flip_link.Core.Device.Await.{sent_frame}
use flip_link.Daemon.Router.{Router, new, register, lookup}
use flip_link.Daemon.Device.{write_outbound_frame, chunks}
use flip_link.Daemon.Device.Chunks.{on_wire}
use flip_link.Daemon.Pump.{Round, taken_writes, pump}
use flip_link.Daemon.Pump.Delivered.{routed_frames, arrivals, queued_bytes, IsSent, pump_lem}

abbrev reply : Frame
reply = sent_frame resp 1 (0xf6 ∷ [])

-- The last write fails.
abbrev rounds : List Round
rounds =
    record { queued = (1 ∷ 2 ∷ []) ∷ []; takes = λ i. true; got = some (take 5 (wire 1 reply)) }
    ∷ record { queued = []; takes = λ i. true; got = some [] }
    ∷ record { queued = []; takes = λ i. true; got = some (drop 5 (wire 1 reply)) }
    ∷ record { queued = (3 ∷ []) ∷ []; takes = λ i. false; got = some (wire 1 reply) }
    ∷ []

-- The client 7 registers while the first half of its reply is there.
abbrev routers : ℕ → Router
routers n = (register 7 new).1

arrives : flatten (arrivals rounds) ≡ wires (reply ∷ []) ++ []
unfolding flatten taken_writes write_outbound_frame chunks
arrives =
    let w = wire 1 reply in
    ap (λ l. take 5 w ++ l) (append-nil (drop 5 w))
    ∙ take-append-drop 5 w
    ∙ sym (append-nil w)
    ∙ sym (append-nil (w ++ []))

goes_to_client : routed_frames routers 0 (reply ∷ []) ≡ (7, reply) ∷ []
unfolding register lookup
goes_to_client = refl

pump_lem_example :
    ((pump routers rounds).delivered ≡ routed_frames routers 0 (reply ∷ []))
    × IsSent
        (on_wire (pump routers rounds).writes)
        (queued_bytes rounds)
        (not (pump routers rounds).ended)
pump_lem_example = pump_lem routers rounds (reply ∷ []) [] (omega arith, tt) decode-nil arrives
