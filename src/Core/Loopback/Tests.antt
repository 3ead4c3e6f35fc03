-- ===== src/Core/Loopback/Tests.antt =====
-- The loopbacks of crates/flip-core/src/mock.rs on concrete frames.
use flip_link.Base.{◌≡◌, refl, arith, ap, Option, none, some, true, [], ◌∷◌, codes}
use flip_link.Base.Results.{ok}
use flip_link.Proto.Bytes.{Bytes}
use flip_link.Proto.Frame.{ping, req}
use flip_link.Proto.Frame.Wire.{wire, body}
use flip_link.Proto.Messages.{Caps, Req, Resp, AgentError}
use flip_link.Proto.Value.{Value}
use flip_link.Core.Device.Await.{sent_frame}
use flip_link.Core.Loopback.{Written}
use flip_link.Core.Loopback.Answered.{reads_whole, reads}
use flip_link.Core.Loopback.Echoed.{
  pinged, ping_call, pinged_lem, ping_echoes, requested, requested_lem, request_call,
  request_echoes,
}

abbrev two_bytes : Bytes
two_bytes = 1 ∷ 2 ∷ []

read_empty : (reads (512 ∷ []) (pinged 5 two_bytes).1).1.out ≡ []
unfolding wire body
read_empty =
    let written = pinged_lem 5 two_bytes (omega arith) (omega arith) (omega arith) in
    let out = ap (λ (w : Written). w.1.out) written in
    reads_whole 512 (pinged 5 two_bytes).1 (rw out (omega arith))

pings_come_back :
    ((pinged 5 two_bytes).0 ≡ ok tt)
    × ((ping_call 5 two_bytes (512 ∷ [])).1 ≡ wire 1 (sent_frame ping 5 two_bytes))
    × ((ping_call 5 two_bytes (512 ∷ [])).0 ≡ some (ok two_bytes))
pings_come_back =
    ping_echoes 5 two_bytes (512 ∷ []) (omega arith) (omega arith) (omega arith) read_empty

abbrev echo_two : Req
echo_two = record { instrument = codes "sys"; opcode = codes "echo"; params = Value.bool true }

abbrev no_caps : Caps → Bytes
no_caps c = 0xf6 ∷ []

abbrev to_req : Req → Bytes
to_req r = 0xa0 ∷ []

abbrev read_req : Bytes → Option Req
read_req payload = some echo_two

abbrev to_resp : Resp → Bytes
to_resp r = 0xf5 ∷ []

abbrev read_resp : Bytes → Option Resp
read_resp payload = some (record { ok = true; result = Value.bool true })

abbrev read_error : Bytes → Option AgentError
read_error payload = none

resp_read_empty : (reads (64 ∷ []) (requested no_caps read_req to_resp 5 (0xa0 ∷ [])).1).1.out ≡ []
unfolding wire body
resp_read_empty =
    let written =
      requested_lem no_caps read_req to_resp echo_two 5 (0xa0 ∷ []) (omega arith) (omega arith) refl
        (omega arith) (omega arith) in
    let out = ap (λ (w : Written). w.1.out) written in
    reads_whole 64 (requested no_caps read_req to_resp 5 (0xa0 ∷ [])).1 (rw out (omega arith))

-- The echo gives back what it was asked for.
echoes :
    ((requested no_caps read_req to_resp 5 (0xa0 ∷ [])).0 ≡ ok tt)
    × ((request_call no_caps read_req to_resp to_req read_resp read_error echo_two 5 (64 ∷ [])).1
        ≡ wire 1 (sent_frame req 5 (0xa0 ∷ [])))
    × ((request_call no_caps read_req to_resp to_req read_resp read_error echo_two 5 (64 ∷ [])).0
        ≡ some (ok (record { ok = true; result = Value.bool true })))
echoes =
    request_echoes no_caps read_req to_resp to_req read_resp read_error echo_two 5 (64 ∷ [])
      (omega arith) (omega arith) refl (omega arith) (omega arith) refl (omega arith)
      resp_read_empty
