-- ===== src/Core/Device/Tests.antt =====
-- The calls of crates/flip-core/src/device.rs on a link that is given concrete frames.
use flip_link.Base.{◌≡◌, refl, arith, Option, none, some, true, [], ◌∷◌, ◌++◌, map, codes}
use flip_link.Proto.Bytes.{Bytes}
use flip_link.Proto.Frame.{Frame, req, resp}
use flip_link.Proto.Frame.Stream.{decode-nil}
use flip_link.Proto.Frame.Wire.{wire, IsFrame}
use flip_link.Proto.Messages.{Req, Resp, AgentError}
use flip_link.Proto.Value.{Value}
use flip_link.Core.Reader.{drain, read_all}
use flip_link.Core.Reader.Chunks.{reader, wires, drain-wires}
use flip_link.Core.Device.{received, request, request_answer, of_seq}
use flip_link.Core.Device.Await.{first, sent_frame, request_lem}

abbrev answer : Frame
answer = record { typ = resp; flags = 0; seq = 5; payload = 1 ∷ [] }

answer-IsFrame : IsFrame answer
answer-IsFrame = omega arith

-- The answer is buffered, and nothing more arrives.
found_answer :
    first (of_seq 5) (
      (drain (reader (wires (answer ∷ []) ++ []))).0
      ++ (read_all [] (drain (reader (wires (answer ∷ []) ++ []))).1).0)
    ≡ some answer
unfolding read_all
found_answer = rw (drain-wires (answer ∷ []) [] (answer-IsFrame, tt) decode-nil) refl

abbrev no_body : Req → Bytes
no_body r = 0xf6 ∷ []

abbrev fine : Bytes → Option Resp
fine payload = some (record { ok = true; result = Value.null })

abbrev unread : Bytes → Option AgentError
unread payload = none

request_lem_example :
    ((request no_body fine unread
        (codes "sys")
        (codes "echo")
        Value.null
        (map received [])
        (record { reader = reader (wires (answer ∷ []) ++ []); next_seq = 5 })).0
      ≡ some (request_answer no_body fine unread answer))
    × ((request no_body fine unread
          (codes "sys")
          (codes "echo")
          Value.null
          (map received [])
          (record { reader = reader (wires (answer ∷ []) ++ []); next_seq = 5 })).1
        ≡ wire 1 (sent_frame req 5 (0xf6 ∷ [])))
request_lem_example =
    request_lem no_body fine unread (codes "sys") (codes "echo") Value.null []
      (wires (answer ∷ []) ++ []) 5 answer (omega arith) found_answer
