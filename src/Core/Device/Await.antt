-- ===== src/Core/Device/Await.antt =====
-- What the waiting loop of crates/flip-core/src/device.rs finds.
use flip_link.Base.{
  ℕ, zero, suc, ◌<◌, ◌≡◌, refl, sym, ◌∙◌, arith, Bool, if◌then◌else◌, Bool-cases, inl, inr,
}
use flip_link.Base.{List, [], ◌∷◌, ◌++◌, length, map, Option, Option-cases, none, some}
use flip_link.Proto.Bytes.{Bytes}
use flip_link.Base.{◌+◌, ◌≤◌, replicate, length-replicate, drop, take-append_length, Text}
use flip_link.Base.Results.{ok}
use flip_link.Proto.Frame.{Frame, MsgType, req, ping, header_size, max_payload}
use flip_link.Proto.Frame.Wire.{wire, frame_size, length-wire, encode-wire}
use flip_link.Proto.Messages.{Req, Resp, AgentError}
use flip_link.Proto.Value.{Value}
use flip_link.Core.Reader.{FrameReader, feed, drain, read_all}
use flip_link.Core.Reader.Stream.{scan_shrinks}
use flip_link.Core.Reader.Chunks.{reader, scan_cases, next_frame-scan, drain_idle, drain_found}
use flip_link.Core.Device.{
  received, Awaited, found, waiting, take_wanted, after_frames, await_frame, of_seq, call,
  alloc_seq, send, is_pong, send_ping, request, request_answer,
}

-- The first frame that is wanted.
abbrev pub first : (Frame → Bool) → List Frame → Option Frame
first wanted [] = none
first wanted (f ∷ fs) = if wanted f then some f else first wanted fs

abbrev pub outcome : Option Frame → Awaited
outcome none = waiting
outcome (some f) = found f

module _ (wanted : Frame → Bool) where
  -- Over one buffer the loop finds the first wanted frame, or goes through all of them.
  take_wanted_lem :
      (fuel : ℕ) (buf : Bytes)
      → length buf < fuel
      → ((take_wanted wanted fuel (reader buf)).0 ≡ first wanted (drain (reader buf)).0)
        × (first wanted (drain (reader buf)).0 ≡ none
            → take_wanted wanted fuel (reader buf) ≡ (none, (drain (reader buf)).1))
  unfolding take_wanted
  take_wanted_lem zero buf h = absurd (omega arith)
  take_wanted_lem (suc fuel) buf h = elim (scan_cases buf) [
    | inl (rest, e) ↦ rw (next_frame-scan buf rest none e, drain_idle buf rest e) (refl, λ q. refl)
    | inr (f, rest, e) ↦
        let shorter = scan_shrinks buf f rest e in
        let (a, b) = take_wanted_lem fuel rest (omega arith) in
        elim (Bool-cases (wanted f)) [
          | inl w ↦
              rw (next_frame-scan buf rest (some f) e, drain_found buf rest f e, w)
                (refl, λ q. absurd cc)
          | inr w ↦ rw (next_frame-scan buf rest (some f) e, drain_found buf rest f e, w) (a, b)
        ]
  ]

  first-append_none :
      (fs gs : List Frame) → first wanted fs ≡ none → first wanted (fs ++ gs) ≡ first wanted gs
  first-append_none [] gs e = refl
  first-append_none (f ∷ fs) gs e = elim (Bool-cases (wanted f)) [
    | inl w ↦ absurd ground arith
    | inr w ↦ rw w (first-append_none fs gs (ground arith))
  ]

  first-append_some :
      (fs gs : List Frame) (f : Frame) → first wanted fs ≡ some f → first wanted (fs ++ gs) ≡ some f
  first-append_some [] gs f e = absurd cc
  first-append_some (g ∷ fs) gs f e = elim (Bool-cases (wanted g)) [
    | inl w ↦ ground arith
    | inr w ↦ rw w (first-append_some fs gs f (ground arith))
  ]

  found_lem :
      (t : Option Frame × FrameReader) (f : Frame) (go_on : FrameReader → Awaited × FrameReader)
      → t.0 ≡ some f
      → (after_frames t go_on).0 ≡ found f
  found_lem (none, r) f go_on e = absurd cc
  found_lem (some g, r) f go_on e = cc

  await_from :
      (chunks : List Bytes) (buf : Bytes)
      → (await_frame wanted (map received chunks) (reader buf)).0
        ≡ outcome
            (first wanted ((drain (reader buf)).0 ++ (read_all chunks (drain (reader buf)).1).0))
  unfolding await_frame read_all feed
  await_from [] buf =
      let (a, b) = take_wanted_lem (suc (length buf)) buf (omega arith) in
      elim (Option-cases (first wanted (drain (reader buf)).0)) [
        | inl e ↦ rw (b e, first-append_none (drain (reader buf)).0 [] e) refl
        | inr (f, e) ↦
            rw (first-append_some (drain (reader buf)).0 [] f e)
              (found_lem (take_wanted wanted (suc (length buf)) (reader buf)) f _ (a ∙ e))
      ]
  await_from (c ∷ chunks) buf =
      let (a, b) = take_wanted_lem (suc (length buf)) buf (omega arith) in
      let later = read_all (c ∷ chunks) (drain (reader buf)).1 in
      elim (Option-cases (first wanted (drain (reader buf)).0)) [
        | inl e ↦
            rw (b e, first-append_none (drain (reader buf)).0 later.0 e)
              (await_from chunks ((drain (reader buf)).1.buf ++ c))
        | inr (f, e) ↦
            rw (first-append_some (drain (reader buf)).0 later.0 f e)
              (found_lem (take_wanted wanted (suc (length buf)) (reader buf)) f _ (a ∙ e))
      ]

-- The waiting loop on pieces that arrive before the deadline: it finds the first wanted frame of all
-- that a `FrameReader` reads from what is buffered and the pieces, and waits on when there is none.
pub await_frame-received :
    (wanted : Frame → Bool) (chunks : List Bytes) (buf : Bytes)
    → (await_frame wanted (map received chunks) (reader buf)).0
      ≡ outcome
          (first wanted ((drain (reader buf)).0 ++ (read_all chunks (drain (reader buf)).1).0))
await_frame-received wanted chunks buf = await_from wanted chunks buf

abbrev pub sent_frame : MsgType → ℕ → Bytes → Frame
sent_frame typ seq body = record { typ = typ; flags = 0; seq = seq; payload = body }

pub send_lem :
    (typ : MsgType) (seq : ℕ) (body : Bytes)
    → length body ≤ max_payload
    → send typ seq body ≡ ok (wire 1 (sent_frame typ seq body))
unfolding send
send_lem typ seq body h =
    let f = sent_frame typ seq body in
    let out = replicate (header_size + length body + 2) 0 in
    let room : length out ≡ header_size + length body + 2 =
      length-replicate (header_size + length body + 2) 0 in
    let bytes = encode-wire f out h (omega arith) in
    let cut =
      take-append_length (wire 1 f) (drop (frame_size f) out) (frame_size f)
        (sym (length-wire 1 f)) in
    rw (bytes, cut) refl

-- For a body that fits a frame: `request` writes the one frame with the link's next number and the
-- body, and when the first frame with that number in what is buffered or arrives in time is `f`, it
-- returns what `f` says: the response, the device's error, or an error for any other type.
pub request_lem :
    (to_payload : Req → Bytes) (read_resp : Bytes → Option Resp)
    (read_error : Bytes → Option AgentError) (instrument opcode : Text) (params : Value)
    (chunks : List Bytes) (buf : Bytes) (seq : ℕ) (f : Frame)
    → length (to_payload (record { instrument = instrument; opcode = opcode; params = params }))
      ≤ max_payload
    → first (of_seq seq) ((drain (reader buf)).0 ++ (read_all chunks (drain (reader buf)).1).0)
      ≡ some f
    → ((request to_payload read_resp read_error instrument opcode params
          (map received chunks)
          (record { reader = reader buf; next_seq = seq })).0
        ≡ some (request_answer to_payload read_resp read_error f))
      × ((request to_payload read_resp read_error instrument opcode params
            (map received chunks)
            (record { reader = reader buf; next_seq = seq })).1
          ≡ wire 1 (
              sent_frame req seq (
                to_payload (record { instrument = instrument; opcode = opcode; params = params }))))
unfolding request alloc_seq call
request_lem to_payload read_resp read_error instrument opcode params chunks buf seq f h e =
    let body = to_payload (record { instrument = instrument; opcode = opcode; params = params }) in
    let awaited = await_frame-received (of_seq seq) chunks buf in
    rw (send_lem req seq body h, awaited, e) (refl, refl)

-- For a payload that the ping's buffer holds: `ping` writes the one PING frame with the link's next
-- number and the payload, and when the first PONG with that number is `f`, it returns `f`'s payload.
pub send_ping_lem :
    (payload : Bytes) (chunks : List Bytes) (buf : Bytes) (seq : ℕ) (f : Frame)
    → length payload ≤ 1087
    → first (is_pong seq) ((drain (reader buf)).0 ++ (read_all chunks (drain (reader buf)).1).0)
      ≡ some f
    → ((send_ping payload (map received chunks) (record { reader = reader buf; next_seq = seq })).0
        ≡ some (ok f.payload))
      × ((send_ping payload
            (map received chunks)
            (record { reader = reader buf; next_seq = seq })).1
          ≡ wire 1 (sent_frame ping seq payload))
unfolding send_ping alloc_seq call
send_ping_lem payload chunks buf seq f h e =
    let awaited = await_frame-received (is_pong seq) chunks buf in
    let g = sent_frame ping seq payload in
    let out : Bytes = replicate 1100 0 in
    let room : length out ≡ 1100 = length-replicate {A = ℕ} 1100 0 in
    let bytes = encode-wire g out (omega arith) (omega arith) in
    let cut =
      take-append_length (wire 1 g) (drop (frame_size g) out) (frame_size g)
        (sym (length-wire 1 g)) in
    rw (bytes, cut, awaited, e) (refl, refl)
