-- ===== src/Daemon/Pump/Delivered.antt =====
-- What `pump` of crates/flip-daemon/src/device_conn.rs writes and delivers.
use flip_link.Base.{
  ℕ, suc, ◌+◌, ◌≡◌, refl, sym, ap, ◌∙◌, arith, Bool, true, not, ltb, Bool-cases, inl, inr,
  if◌then◌else◌, List, [], ◌∷◌, ◌++◌, append_assoc, append-nil, flatten, length, All, Option, none,
  some,
}
use flip_link.Proto.Bytes.{Bytes}
use flip_link.Proto.Frame.{Frame, decode, need_more}
use flip_link.Proto.Frame.Stream.{decode-nil}
use flip_link.Proto.Frame.Wire.{IsFrame}
use flip_link.Core.Reader.{FrameReader, new, feed, drain, read_all}
use flip_link.Core.Reader.Chunks.{reader, drain_again, read_all-flatten, wires, drain-wires}
use flip_link.Daemon.Router.{Router, Channel, routed, lookup, deliver}
use flip_link.Daemon.Device.{Write, pause, write_all, write_outbound_frame}
use flip_link.Daemon.Device.Chunks.{on_wire, write_outbound_frame_lem}
use flip_link.Daemon.Pump.{
  also, Round, outbound_writes, taken_writes, deliver_each, after_read, pump_from, pump,
}

on_wire-append : (ws us : List Write) → on_wire (ws ++ us) ≡ on_wire ws ++ on_wire us
on_wire-append [] us = refl
on_wire-append (pause ∷ ws) us = on_wire-append ws us
on_wire-append (write_all c ∷ ws) us =
    ap (λ l. c ++ l) (on_wire-append ws us) ∙ sym (append_assoc c (on_wire ws) (on_wire us))

outbound_writes-on_wire : (fs : List Bytes) → on_wire (outbound_writes fs) ≡ flatten fs
unfolding flatten
outbound_writes-on_wire [] = refl
outbound_writes-on_wire (f ∷ fs) =
    on_wire-append (write_outbound_frame f) (outbound_writes fs)
    ∙ ap (λ l. l ++ on_wire (outbound_writes fs)) (write_outbound_frame_lem f).0
    ∙ ap (λ l. f ++ l) (outbound_writes-on_wire fs)

-- These bytes are the first of those, and all of them unless an error came between.
abbrev pub IsSent : Bytes → Bytes → Bool → Type 0
IsSent sent bytes fine = (rest : Bytes) × (sent ++ rest ≡ bytes) × (fine ≡ true → rest ≡ [])

taken_writes-IsSent :
    (takes : ℕ → Bool) (i : ℕ) (ws : List Write)
    → IsSent (on_wire (taken_writes takes i ws).0) (on_wire ws) (taken_writes takes i ws).1
unfolding taken_writes
taken_writes-IsSent takes i [] = ([], refl, λ e. refl)
taken_writes-IsSent takes i (pause ∷ ws) = taken_writes-IsSent takes i ws
taken_writes-IsSent takes i (write_all c ∷ ws) = elim (Bool-cases (takes i)) [
  | inl e ↦
      let (rest, same, whole) = taken_writes-IsSent takes (suc i) ws in
      rw e (
        rest,
        append_assoc c (on_wire (taken_writes takes (suc i) ws).0) rest ∙ ap (λ l. c ++ l) same,
        whole,
      )
  | inr e ↦ rw e (c ++ on_wire ws, refl, λ k. absurd cc)
]

-- The frames of the clients' queue, and the pieces that are read until an error ends the session.
abbrev pub queued_bytes : List Round → Bytes
queued_bytes [] = []
queued_bytes (x ∷ xs) = flatten x.queued ++ queued_bytes xs

abbrev got_then : Option Bytes → List Bytes → List Bytes
got_then none later = []
got_then (some bytes) later = bytes ∷ later

abbrev pub arrivals : List Round → List Bytes
arrivals [] = []
arrivals (x ∷ xs) =
    if (taken_writes x.takes 0 (outbound_writes x.queued)).1
    then got_then x.got (arrivals xs)
    else []

-- What goes into the channels by the tables of routes at the times of the deliveries.
abbrev to_owner : Option Channel → Frame → List (Channel × Frame)
to_owner none f = []
to_owner (some tx) f = (tx, f) ∷ []

abbrev pub routed_frames : (ℕ → Router) → ℕ → List Frame → List (Channel × Frame)
routed_frames routers n [] = []
routed_frames routers n (f ∷ fs) =
    to_owner (lookup f.seq (routers n).routes) f ++ routed_frames routers (suc n) fs

also-routed :
    (o : Option Channel) (f : Frame) (later : List (Channel × Frame))
    → also (routed o f) later ≡ to_owner o f ++ later
also-routed none f later = refl
also-routed (some tx) f later = refl

deliver_each_lem :
    (routers : ℕ → Router) (n : ℕ) (fs : List Frame)
    → deliver_each routers n fs ≡ routed_frames routers n fs
unfolding deliver_each deliver
deliver_each_lem routers n [] = refl
deliver_each_lem routers n (f ∷ fs) =
    let owner = lookup f.seq (routers n).routes in
    also-routed owner f (deliver_each routers (suc n) fs)
    ∙ ap (λ l. to_owner owner f ++ l) (deliver_each_lem routers (suc n) fs)

routed_frames-append :
    (routers : ℕ → Router) (n : ℕ) (fs gs : List Frame)
    → routed_frames routers n (fs ++ gs)
      ≡ routed_frames routers n fs ++ routed_frames routers (n + length fs) gs
routed_frames-append routers n [] gs =
    let same : n ≡ n + 0 = omega arith in ap (λ k. routed_frames routers k gs) same
routed_frames-append routers n (f ∷ fs) gs =
    let owner = to_owner (lookup f.seq (routers n).routes) f in
    let same : suc n + length fs ≡ n + suc (length fs) = omega arith in
    ap (λ l. owner ++ l)
      (routed_frames-append routers (suc n) fs gs
        ∙ ap (λ k. routed_frames routers (suc n) fs ++ routed_frames routers k gs) same)
    ∙ sym (
        append_assoc owner (routed_frames routers (suc n) fs)
          (routed_frames routers (n + suc (length fs)) gs))

module _ (routers : ℕ → Router) where
  -- What the loop delivers from this buffer on, when it holds no whole frame.
  abbrev Delivers : List Round → Bytes → ℕ → Type 0
  Delivers xs buf n =
      drain (reader buf) ≡ ([], reader buf)
      → (pump_from routers xs (reader buf) n).delivered
        ≡ routed_frames routers n (read_all (arrivals xs) (reader buf)).0

  read_delivered :
      (got : Option Bytes) (xs : List Round) (buf : Bytes) (n : ℕ)
      → drain (reader buf) ≡ ([], reader buf)
      → ((buf' : Bytes) (n' : ℕ) → Delivers xs buf' n')
      → (after_read routers got (reader buf) n (λ r' n'. pump_from routers xs r' n')).delivered
        ≡ routed_frames routers n (read_all (got_then got (arrivals xs)) (reader buf)).0
  unfolding read_all feed
  read_delivered none xs buf n idle again = refl
  read_delivered (some []) xs buf n idle again = rw (append-nil buf, idle) (again buf n idle)
  read_delivered (some (b ∷ bytes)) xs buf n idle again =
      let (fs, r) = drain (reader (buf ++ (b ∷ bytes))) in
      let now : ltb 0 (length (b ∷ bytes)) ≡ true = ground arith in
      let later =
        again r.buf (n + length fs)
          (drain_again (suc (length (buf ++ (b ∷ bytes)))) (buf ++ (b ∷ bytes)) (omega arith)) in
      rw now (
        ap (λ l. l ++ (pump_from routers xs r (n + length fs)).delivered)
          (deliver_each_lem routers n fs)
        ∙ ap (λ l. routed_frames routers n fs ++ l) later
        ∙ sym (routed_frames-append routers n fs (read_all (arrivals xs) r).0))

  pump_from-delivered : (xs : List Round) (buf : Bytes) (n : ℕ) → Delivers xs buf n
  unfolding pump_from read_all
  pump_from-delivered [] buf n idle = refl
  pump_from-delivered (x ∷ xs) buf n idle =
      elim (Bool-cases (taken_writes x.takes 0 (outbound_writes x.queued)).1) [
        | inl e ↦ rw e (read_delivered x.got xs buf n idle (pump_from-delivered xs))
        | inr e ↦ rw e refl
      ]

  -- The bytes of the queue and of the rest of it behind a read.
  read-IsSent :
      (got : Option Bytes) (xs : List Round) (r : FrameReader) (n : ℕ)
      → ((r' : FrameReader) (n' : ℕ)
          → IsSent
              (on_wire (pump_from routers xs r' n').writes)
              (queued_bytes xs)
              (not (pump_from routers xs r' n').ended))
      → IsSent
          (on_wire (after_read routers got r n (λ r' n'. pump_from routers xs r' n')).writes)
          (queued_bytes xs)
          (not (after_read routers got r n (λ r' n'. pump_from routers xs r' n')).ended)
  read-IsSent none xs r n again = (queued_bytes xs, refl, λ e. absurd cc)
  read-IsSent (some bytes) xs r n again = elim (Bool-cases (ltb 0 (length bytes))) [
    | inl e ↦ let (fs, r') = drain (feed r bytes) in rw e (again r' (n + length fs))
    | inr e ↦ rw e (again r n)
  ]

  pump_from-IsSent :
      (xs : List Round) (r : FrameReader) (n : ℕ)
      → IsSent
          (on_wire (pump_from routers xs r n).writes)
          (queued_bytes xs)
          (not (pump_from routers xs r n).ended)
  unfolding pump_from
  pump_from-IsSent [] r n = ([], refl, λ e. refl)
  pump_from-IsSent (x ∷ xs) r n =
      let written = taken_writes x.takes 0 (outbound_writes x.queued) in
      let all = outbound_writes-on_wire x.queued in
      let (rest, same, whole) = taken_writes-IsSent x.takes 0 (outbound_writes x.queued) in
      let (left, more, behind) = read-IsSent x.got xs r n (pump_from-IsSent xs) in
      let later = after_read routers x.got r n (λ r' n'. pump_from routers xs r' n') in
      let all_written : written.1 ≡ true → on_wire written.0 ≡ flatten x.queued = λ e.
        sym (append-nil (on_wire written.0))
        ∙ ap (λ l. on_wire written.0 ++ l) (sym (whole e))
        ∙ same
        ∙ all in
      elim (Bool-cases written.1) [
        | inl e ↦ rw e (
          left,
          ap (λ l. l ++ left) (on_wire-append written.0 later.writes)
              ∙ append_assoc (on_wire written.0) (on_wire later.writes) left
              ∙ ap (λ l. on_wire written.0 ++ l) more
              ∙ ap (λ l. l ++ queued_bytes xs) (all_written e),
          behind,
        )
        | inr e ↦ rw e (
          rest ++ queued_bytes xs,
          sym (append_assoc (on_wire written.0) rest (queued_bytes xs))
              ∙ ap (λ l. l ++ queued_bytes xs) (same ∙ all),
          λ k. absurd cc,
        )
      ]

-- For any rounds and any routers that the deliveries meet, when the port gives the encodings of these
-- frames and then a part of one more, in any pieces, before a read or a write fails: each frame goes,
-- in this order, to the client that holds its number at the time of its delivery, and to nobody when
-- none does; the port gets the bytes of the clients' frames in the order of the queue, all of them
-- when no error ended the session, and otherwise a front of them.
pub pump_lem :
    (routers : ℕ → Router) (rounds : List Round) (fs : List Frame) (part : Bytes)
    → All IsFrame fs
    → decode part ≡ need_more
    → flatten (arrivals rounds) ≡ wires fs ++ part
    → ((pump routers rounds).delivered ≡ routed_frames routers 0 fs)
      × IsSent
          (on_wire (pump routers rounds).writes)
          (queued_bytes rounds)
          (not (pump routers rounds).ended)
unfolding pump
pump_lem routers rounds fs part h wait e = (
  pump_from-delivered routers rounds [] 0 (drain-wires [] [] tt decode-nil)
      ∙ ap (λ (r : List Frame × FrameReader). routed_frames routers 0 r.0)
          (read_all-flatten (arrivals rounds)
            ∙ ap (λ l. drain (reader l)) e
            ∙ drain-wires fs part h wait),
  pump_from-IsSent routers rounds new 0,
)
