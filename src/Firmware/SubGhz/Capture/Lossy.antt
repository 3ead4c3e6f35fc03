-- ===== src/Firmware/SubGhz/Capture/Lossy.antt =====
-- The events of a capture of firmware/src/subghz_instrument.rs, and what they leave once an edge was
-- dropped.
use flip_link.Base.{
  batches, ℕ, zero, suc, ◌+◌, ◌%◌, ◌^◌, ◌<◌, ◌≤◌, ◌≡◌, refl, ap, arith, true, false, ltb, ◌==◌,
  if◌then◌else◌, Bool-cases, inl, inr,
}
use flip_link.Base.{
  List, [], ◌∷◌, ◌++◌, length, take, drop, map, Option, none, some, length-drop, map-append,
  take-min, drop-min,
}
use flip_link.Proto.Bytes.{Bytes}
use flip_link.Firmware.Stream.{StreamBuffer, IsStreamBuffer, data_frames, Sent, stream_data}
use flip_link.Firmware.SubGhz.{TxEdge, capture_cap}
use flip_link.Firmware.SubGhz.Capture.{
  Capture, record_bytes, pushed, rx_capture_isr, empty_stream, batch, drain_stream, drain_capture,
  after_batch, flush,
}
use flip_link.Firmware.SubGhz.Capture.Records.{
  records, whole_records_lem, whole_records_nil, batch-records,
}

pub data EdgeEvent : Type 0 where
  edge : TxEdge → EdgeEvent
  drain : EdgeEvent

-- The edges that the interrupts of a run offer, less those of no duration, which they skip.
abbrev pub offered : List EdgeEvent → List TxEdge
offered [] = []
offered (edge e ∷ es) = if e.duration_us == 0 then offered es else e ∷ offered es
offered (drain ∷ es) = offered es

abbrev pub edge_event : StreamBuffer → EdgeEvent → Capture → Capture × List Sent
edge_event sb (edge e) c = (rx_capture_isr sb e c, [])
edge_event sb drain c = drain_capture sb c

-- Interrupts and rounds of the main loop, in the order in which they happen.
unfoldable pub run_edges : StreamBuffer → List EdgeEvent → Capture → Capture × List Sent
run_edges sb [] c = (c, [])
run_edges sb (e ∷ es) c =
    let now = edge_event sb e c in let later = run_edges sb es now.0 in (later.0, now.1 ++ later.1)

-- The statics of a capture that runs.
abbrev pub running : ℕ → Bytes → ℕ → Capture
running seq inside dropped = record {
  stream = some inside;
  active = true;
  device = true;
  seq = seq;
  dropped = dropped;
}

abbrev payloads_of : Option Bytes → List Bytes
payloads_of none = []
payloads_of (some records) = records ∷ []

pub offered_some :
    (e : TxEdge) (es : List EdgeEvent)
    → (e.duration_us == 0) ≡ false
    → offered (edge e ∷ es) ≡ e ∷ offered es
offered_some e es z = rw z refl

pub offered_none :
    (e : TxEdge) (es : List EdgeEvent)
    → (e.duration_us == 0) ≡ true
    → offered (edge e ∷ es) ≡ offered es
offered_none e es z = rw z refl

-- What a run leaves and sends once an edge was dropped.
abbrev pub IsLossy : ℕ → Capture × List Sent → Type 0
IsLossy seq out =
    (inside : Bytes) × (dropped : ℕ) × (payloads : List Bytes) × (out
      ≡ (running seq inside dropped, data_frames seq payloads))
    × (0 < dropped)
    × (dropped < 2 ^ 32)

-- One more event in front.
pub IsLossy-behind :
    (seq : ℕ) (payloads : List Bytes) (later : Capture × List Sent)
    → IsLossy seq later
    → IsLossy seq (later.0, data_frames seq payloads ++ later.1)
IsLossy-behind seq payloads later (inside, dropped, more, e, p, few) = (
  inside,
  dropped,
  payloads ++ more,
  rw (e, map-append (stream_data seq) payloads more) refl,
  p,
  few,
)

module _ (sb : StreamBuffer) (seq : ℕ) where
  drained :
      (found : Option Bytes)
      → elim found as (λ x. List Sent) [ none ↦ [] | some records ↦ stream_data seq records ∷ [] ]
        ≡ data_frames seq (payloads_of found)
  drained none = refl
  drained (some records) = refl

  pub edge_dropped :
      (e : TxEdge) (inside : Bytes) (dropped : ℕ)
      → (e.duration_us == 0) ≡ false
      → 0 < dropped
      → dropped + 1 < 2 ^ 32
      → (inside' : Bytes) × (dropped' : ℕ) × (rx_capture_isr sb e (running seq inside dropped)
          ≡ running seq inside' dropped')
        × (0 < dropped')
        × (dropped' ≤ dropped + 1)
  unfolding rx_capture_isr pushed
  edge_dropped e inside dropped z p few =
      let sent = sb.accepts inside 5 in
      let inside' = inside ++ take sent (record_bytes e) in
      elim (Bool-cases (sent == 5)) [
        | inl t ↦ (inside', dropped, rw (z, t) refl, p, omega arith)
        | inr t ↦ (inside', (dropped + 1) % 2 ^ 32, rw (z, t) refl, omega arith, omega arith)
      ]

  pub isr_skips :
      (e : TxEdge) (c : Capture) (inside : Bytes)
      → (e.duration_us == 0) ≡ true
      → c.stream ≡ some inside
      → rx_capture_isr sb e c ≡ c
  unfolding rx_capture_isr
  isr_skips e c inside z s = rw (s, z) refl

  drain_once :
      (inside : Bytes) (dropped : ℕ)
      → drain_capture sb (running seq inside dropped) ≡ (
        running seq (batch sb inside).1 dropped,
        data_frames seq (payloads_of (batch sb inside).0),
      )
  unfolding drain_capture drain_stream
  drain_once inside dropped =
      ap (λ (l : List Sent). (running seq (batch sb inside).1 dropped, l))
        (drained (batch sb inside).0)

  pub run-IsLossy :
      (es : List EdgeEvent) (inside : Bytes) (dropped : ℕ)
      → 0 < dropped
      → dropped + length (offered es) < 2 ^ 32
      → IsLossy seq (run_edges sb es (running seq inside dropped))
  unfolding run_edges
  run-IsLossy [] inside dropped p few = (inside, dropped, [], refl, p, omega arith)
  run-IsLossy (drain ∷ es) inside dropped p few =
      let later = run-IsLossy es (batch sb inside).1 dropped p few in
      rw (drain_once inside dropped) (
        IsLossy-behind seq (payloads_of (batch sb inside).0)
          (run_edges sb es (running seq (batch sb inside).1 dropped)) later)
  run-IsLossy (edge e ∷ es) inside dropped p few = elim (Bool-cases (e.duration_us == 0)) [
    | inl z ↦
        let size = ap length (offered_none e es z) in
        rw (isr_skips e (running seq inside dropped) inside z refl)
          (run-IsLossy es inside dropped p (omega arith))
    | inr z ↦
        let size = ap length (offered_some e es z) in
        let (inside', dropped', now, p', more) = edge_dropped e inside dropped z p (omega arith) in
        rw now (run-IsLossy es inside' dropped' p' (omega arith))
  ]

  pub flush_any :
      (fuel : ℕ) (inside : Bytes)
      → (inside' : Bytes) × (payloads : List Bytes) × (flush sb seq fuel inside
          ≡ (inside', data_frames seq payloads))
  unfolding flush
  flush_any zero inside = (inside, [], refl)
  flush_any (suc fuel) inside = after (batch sb inside).0 (flush_any fuel (batch sb inside).1)
    where
      after :
          (found : Option Bytes)
          → ((inside' : Bytes) × (payloads : List Bytes) × (flush sb seq fuel (batch sb inside).1
                ≡ (inside', data_frames seq payloads)))
          → (inside' : Bytes) × (payloads : List Bytes) × (after_batch seq found
                (batch sb inside).1
                (flush sb seq fuel (batch sb inside).1)
              ≡ (inside', data_frames seq payloads))
      after none rest = ((batch sb inside).1, [], refl)
      after (some records) (inside', payloads, e) = (inside', records ∷ payloads, rw e refl)

module _ (sb : StreamBuffer) (h : IsStreamBuffer capture_cap sb) (seq : ℕ) where
  pub flush_lem :
      (fuel : ℕ) (q : List TxEdge)
      → length q < fuel
      → flush sb seq fuel (records q) ≡ ([], data_frames seq (map records (batches 49 fuel q)))
  unfolding flush
  flush_lem zero q g = absurd (omega arith)
  flush_lem (suc fuel) [] g = rw (batch-records sb h [], whole_records_nil) refl
  flush_lem (suc fuel) (e ∷ es) g =
      let rest = flush_lem fuel (drop 49 es) (omega (arith, length-drop 49 es)) in
      rw (batch-records sb h (e ∷ es), whole_records_lem e (take 49 es), rest) refl

  pub empty_stream_lem :
      (fuel : ℕ) (inside : Bytes) → length inside < fuel → empty_stream sb fuel inside ≡ []
  unfolding empty_stream
  empty_stream_lem zero inside g = absurd (omega arith)
  empty_stream_lem (suc fuel) [] g = rw (h.gives_eq [] 128, take-min 128 [], drop-min 128 []) refl
  empty_stream_lem (suc fuel) (b ∷ bs) g =
      let rest = empty_stream_lem fuel (drop 127 bs) (omega (arith, length-drop 127 bs)) in
      let some_given : ltb 0 (length (take 128 (b ∷ bs))) ≡ true = ground arith in
      rw (h.gives_eq (b ∷ bs) 128, take-min 128 (b ∷ bs), drop-min 128 (b ∷ bs), some_given, rest)
        refl
