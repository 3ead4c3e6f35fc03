-- ===== src/Client/LinkProbe.antt =====
-- crates/flip-client/src/lib.rs: `subghz_link_probe`. Durations are nanoseconds; the connection is
-- given for the time that the host waits.
pub mod Answered
mod Tests
use flip_link.Base.{ℕ, ◌+◌, ◌*◌, ◌^◌, ltb, if◌then◌else◌, Option, none, some, codes}
use flip_link.Base.Results.{Result, ok, err}
use flip_link.Proto.Bytes.{Bytes}
use flip_link.Proto.Messages.{Req, Resp, AgentError}
use flip_link.Proto.Value.{Value}
use flip_link.Core.Device.{LinkError}
use flip_link.Client.SubGhz.{
  SubGhzError, SubGhzLinkProbeResult, link_probe_params, link_probe_result,
}
use flip_link.Client.Daemon.{Socket, invoke}

-- `checked_add` fails beyond the seconds of a u64.
unfoldable pub host_timeout : ℕ → ℕ
host_timeout timeout =
    let later = timeout + 3000000000 in
    if ltb later (2 ^ 64 * 1000000000) then later else 8000000000

-- The inner error is that of the parameters or of the result.
abbrev pub Probed : Type 0
Probed = Option (Result (Result SubGhzLinkProbeResult SubGhzError) LinkError)

abbrev pub read_result : Option (Result Resp LinkError) → Probed
read_result none = none
read_result (some (err e)) = some (err e)
read_result (some (ok r)) = some (ok (link_probe_result r.result))

module _ (to_payload : Req → Bytes) (read_resp : Bytes → Option Resp)
    (read_error : Bytes → Option AgentError) (socket : ℕ → Socket) where
  abbrev pub probe : ℕ → Result Value SubGhzError → Probed
  probe timeout (err e) = some (ok (err e))
  probe timeout (ok params) = read_result (
      invoke to_payload read_resp read_error (codes "subghz") (codes "link_probe") params
        (socket (host_timeout timeout)))

  unfoldable pub subghz_link_probe : ℕ → Bytes → ℕ → Probed
  subghz_link_probe frequency payload timeout =
      probe timeout (link_probe_params frequency payload timeout)
