-- ===== src/Firmware/Loop/Handled.antt =====
-- The frames that the loop of firmware/src/main.rs handles are those of the reader of
-- crates/flip-core/src/transport.rs.
use flip_link.Base.{
  ℕ, zero, suc, ◌+◌, ◌<◌, ◌≤◌, ◌≡◌, refl, ap, arith, ◌==◌, List, [], ◌∷◌, ◌++◌, length, drop,
  Option, Bool-cases, inl, inr, ltb, length-append, false,
}
use flip_link.Proto.Bytes.{Bytes}
use flip_link.Proto.Frame.{Frame, decode}
use flip_link.Proto.Frame.Stream.{DecodeResult-cases, decode-nil}
use flip_link.Proto.Messages.{Req}
use flip_link.Core.Reader.{FrameReader, drain, feed}
use flip_link.Core.Reader.Stream.{scan_frame, scan_need_more, scan_resync, scan_shrinks, scan_keeps}
use flip_link.Core.Reader.Chunks.{reader, scan_cases, drain_idle, drain_found, drain_of_scan}
use flip_link.Firmware.Loop.{
  Instruments, Reply, Drained, handle, after_decode, drain_acc, gather, Received, overflow, nothing,
  chunk, State, round, max_frame,
}

module _ {W : Type 0} (device : Instruments W) (from_payload : Bytes → Option Req) where
  -- The frames handled one after the other.
  unfoldable pub handle_all : List Frame → W → W × List Reply
  handle_all [] w = (w, [])
  handle_all (f ∷ fs) w =
      let one = handle device from_payload f w in
      let rest = handle_all fs one.0 in (rest.0, one.1 ++ rest.1)

  -- What is left in the reader, and what the handling of its frames gives.
  abbrev pub handled : List Frame × FrameReader → W → Drained device from_payload
  handled r w = let out = handle_all r.0 w in (r.1.buf, out.0, out.1)

  drain_acc_lem :
      (fuel : ℕ) (acc : Bytes) (w : W)
      → length acc < fuel
      → drain_acc device from_payload fuel acc w ≡ handled (drain (reader acc)) w
  unfolding drain_acc after_decode handle_all
  drain_acc_lem zero acc w h = absurd (omega arith)
  drain_acc_lem (suc fuel) [] w h =
      rw (decode-nil, drain_idle [] [] (scan_need_more [] decode-nil)) refl
  drain_acc_lem (suc fuel) (b ∷ bs) w h = elim (DecodeResult-cases (decode (b ∷ bs))) [
    | inl e ↦ rw (e, drain_idle (b ∷ bs) (b ∷ bs) (scan_need_more (b ∷ bs) e)) refl
    | inr (inl e) ↦
        let next = drain_acc_lem fuel bs w (omega arith) in
        let not_empty : (length (b ∷ bs) == 0) ≡ false = ground arith in
        rw (e, not_empty, drain_of_scan (b ∷ bs) bs (scan_resync b bs e)) next
    | inr (inr (f, n, e)) ↦
        let found = scan_frame (b ∷ bs) f n e in
        let shorter = scan_shrinks (b ∷ bs) f (drop n (b ∷ bs)) found in
        let next =
          drain_acc_lem fuel (drop n (b ∷ bs)) (handle device from_payload f w).0 (omega arith) in
        rw (e, drain_found (b ∷ bs) (drop n (b ∷ bs)) f found, next) refl
  ]

  pub gather_lem :
      (acc : Bytes) (w : W)
      → length acc ≤ max_frame
      → gather device from_payload acc w ≡ handled (drain (reader acc)) w
  unfolding gather
  gather_lem acc w h =
      let short : ltb max_frame (length acc) ≡ false = ground arith in
      rw short (drain_acc_lem (suc (length acc)) acc w (omega arith))

-- What the loop keeps of a buffer is no longer than the buffer.
drain_shorter :
    (fuel : ℕ) (buf : Bytes) → length buf < fuel → length (drain (reader buf)).1.buf ≤ length buf
drain_shorter zero buf h = absurd (omega arith)
drain_shorter (suc fuel) buf h = elim (scan_cases buf) [
  | inl (rest, e) ↦ rw (drain_idle buf rest e) (omega (arith, (scan_keeps buf rest e).0))
  | inr (f, rest, e) ↦
      let shorter = scan_shrinks buf f rest e in
      let after = drain_shorter fuel rest (omega arith) in
      rw (drain_found buf rest f e) (omega arith)
]

gather-bounded :
    {W : Type 0} (device : Instruments W) (from_payload : Bytes → Option Req) (acc : Bytes) (w : W)
    → length (gather device from_payload acc w).0 ≤ max_frame
unfolding gather
gather-bounded device from_payload acc w = elim (Bool-cases (ltb max_frame (length acc))) [
  | inl long ↦ rw long (omega arith)
  | inr short ↦
      let fits : length acc ≤ max_frame = ground arith in
      let shorter = drain_shorter (suc (length acc)) acc (omega arith) in
      rw (short, drain_acc_lem device from_payload (suc (length acc)) acc w (omega arith))
        (omega arith)
]

-- For any instruments: a chunk that keeps the gathered bytes within 16 KiB is handled as the frames
-- that a `FrameReader` with the same bytes gives, in order, behind what the captures send; the bytes
-- kept are those that the reader keeps.
pub round-chunk :
    {W : Type 0} (device : Instruments W) (from_payload : Bytes → Option Req) (s : State W)
    (bytes : Bytes)
    → length s.acc + length bytes ≤ max_frame
    → (round device from_payload (chunk bytes) s).0.acc ≡ (drain (feed (reader s.acc) bytes)).1.buf
      × ((round device from_payload (chunk bytes) s).0.world
          ≡ (handle_all device from_payload
              (drain (feed (reader s.acc) bytes)).0
              (device.drain_captures s.world).0).0)
      × ((round device from_payload (chunk bytes) s).1
          ≡ (device.drain_captures s.world).1
            ++ (handle_all device from_payload
                (drain (feed (reader s.acc) bytes)).0
                (device.drain_captures s.world).0).1)
unfolding round feed
round-chunk device from_payload s bytes h =
    let same =
      gather_lem device from_payload (s.acc ++ bytes) (device.drain_captures s.world).0
        (omega (arith, length-append s.acc bytes)) in
    (
      ap (λ d. d.0) same,
      ap (λ d. d.1) same,
      ap (λ d. (device.drain_captures s.world).1 ++ d.2) same,
    )

-- The gathered bytes never exceed 16 KiB between two rounds, whatever arrives.
pub round-bounded :
    {W : Type 0} (device : Instruments W) (from_payload : Bytes → Option Req) (s : State W)
    (r : Received)
    → length s.acc ≤ max_frame
    → length (round device from_payload r s).0.acc ≤ max_frame
unfolding round
round-bounded device from_payload s overflow h = omega arith
round-bounded device from_payload s nothing h = h
round-bounded device from_payload s (chunk bytes) h =
    gather-bounded device from_payload (s.acc ++ bytes) (device.drain_captures s.world).0
