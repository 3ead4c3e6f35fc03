-- ===== src/Client/SubGhz/Sent.antt =====
-- A Sub-GHz signal of crates/flip-client/src/subghz.rs, sent by firmware/src/subghz_instrument.rs.
use flip_link.Base.{
  ℕ, ◌+◌, ◌*◌, ◌%◌, ◌<◌, ◌≤◌, ◌≡◌, ◌^◌, refl, ap, ◌∙◌, arith, true, false, leb, none, All, List, [],
  ◌∷◌, ◌++◌, length, map, flatten, replicate, codes, suc, if◌then◌else◌,
}
use native.Mathlib.Nat.{mul-le-mul}
use flip_link.Base.Results.{ok}
use flip_link.Proto.Value.{Value, end, entry}
use flip_link.Firmware.SubGhz.{max_edges}
use flip_link.Firmware.SubGhz.Transmit.{
  Radio, begin, reset, load_preset, set_frequency, flush_tx, start_async_tx, yielded, delay_ms,
  stop_async_tx, idle, sleep, finish, SubGhzState, TxRequest, tx_request, transmit, timeout_ms,
  saturate, LevelDuration, level_duration_reset, yields, published, unpublished, put_away, Outcome,
  wait, after_request, open_tx, start_tx, finish_tx,
}
use flip_link.Firmware.SubGhz.Transmit.Yield.{sent, yields-published}
use flip_link.Firmware.SubGhz.Transmit.Release.{wait-le}
use flip_link.Client.SubGhz.{SubGhzEdge, SubGhzSignal, to_transmit_params}
use flip_link.Client.SubGhz.Agree.{IsEdge, tx_edge, on_device, transmit_params_agree}

-- The request that the device reads from the client's parameters.
abbrev pub requested : SubGhzSignal → ℕ → TxRequest
requested s repeat = record {
  frequency = s.frequency;
  preset = on_device s.preset;
  edges = map tx_edge s.edges;
  repeat = repeat;
}

-- What the firmware's checks ask of a signal.
abbrev pub IsSendable : SubGhzSignal → ℕ → Type 0
IsSendable s repeat =
    (s.frequency < 2 ^ 32)
    × All IsEdge s.edges
    × (0 < length s.edges)
    × (length s.edges ≤ max_edges)
    × (0 < repeat)
    × (repeat ≤ 100)

tx_request-to_transmit_params :
    (s : SubGhzSignal) (repeat : ℕ)
    → IsSendable s repeat
    → tx_request (to_transmit_params s repeat) ≡ ok (requested s repeat)
unfolding tx_request
tx_request-to_transmit_params s repeat (a, b, c, d, e, f) =
    let (x, y, z, w) = transmit_params_agree s repeat a b c d e f in rw (x, y, z, w) refl

length-map : (es : List _) → length (map tx_edge es) ≡ length es
length-map [] = refl
length-map (e ∷ es) = ap suc (length-map es)

total : (n repeat : ℕ) → n ≤ max_edges → repeat ≤ 100 → saturate (n * repeat) ≡ n * repeat
total n repeat h g = let bound : n * repeat ≤ 4096 * 100 = mul-le-mul h g in omega arith

-- What the radio is to be given for an edge: the level, 2 for high and 1 for low, and how long.
abbrev pub edge_level : SubGhzEdge → LevelDuration
edge_level e = record { duration = e.duration_us; level = if e.level then 2 else 1 }

map-sent : (es : List SubGhzEdge) → All IsEdge es → map sent (map tx_edge es) ≡ map edge_level es
map-sent [] h = refl
map-sent (e ∷ es) (h, hs) =
    let fits : e.duration_us % 2 ^ 30 ≡ e.duration_us = omega arith in
    rw (fits, map-sent es hs) refl

-- A request that the radio takes, of which it is done before the timeout.
taken_lem :
    (radio : Radio) (st : SubGhzState) (params : Value) (r : TxRequest)
    → st.capture_active ≡ false
    → st.tx.ptr ≡ none
    → tx_request params ≡ ok r
    → radio.is_present ≡ true
    → radio.is_frequency_valid r.frequency ≡ true
    → radio.begins ≡ true
    → radio.starts ≡ true
    → wait radio.is_complete (timeout_ms r.edges r.repeat) 0 < timeout_ms r.edges r.repeat
    → transmit radio st params ≡ (
      ok (Value.map (entry (codes "sent") (Value.u64 (saturate (length r.edges * r.repeat))) end)),
      record {
        capture_active = st.capture_active;
        tx = unpublished (yields radio.asks (published r)).1;
      },
      begin true
          ∷ reset
          ∷ load_preset r.preset
          ∷ set_frequency r.frequency
          ∷ flush_tx
          ∷ start_async_tx true
          ∷ yielded (yields radio.asks (published r)).0
          ∷ delay_ms (wait radio.is_complete (timeout_ms r.edges r.repeat) 0)
          ∷ stop_async_tx
          ∷ put_away,
    )
unfolding transmit after_request open_tx start_tx finish_tx
taken_lem radio st params r a b c d e f g h =
    let in_time : leb (timeout_ms r.edges r.repeat)
          (wait radio.is_complete (timeout_ms r.edges r.repeat) 0)
        ≡ false =
      ground arith in
    simp (a, b, c, d, e, f, g, in_time) refl

-- For a signal that keeps the firmware's limits, on a device that captures nothing and sends
-- nothing, and a radio that takes the frequency, is done `w` milliseconds after the start, before the
-- timeout, and has then asked the callback `more` times beyond the edges: the firmware's `transmit`
-- of the client's parameters answers that the signal's edges were sent, times `repeat`, and leaves no
-- edges published. It begins the radio, resets it, loads the signal's preset, sets the signal's
-- frequency and starts; the callback gives the signal's edges in order, each with its level and its
-- duration, `repeat` times, and after them only the reset; and within `w` milliseconds the sending is
-- stopped and the radio put to idle, to sleep and ended.
pub subghz_signal_sent :
    (radio : Radio) (st : SubGhzState) (s : SubGhzSignal) (repeat w more : ℕ)
    → IsSendable s repeat
    → (st.capture_active ≡ false) × (st.tx.ptr ≡ none)
    → (radio.is_present ≡ true)
      × (radio.is_frequency_valid s.frequency ≡ true)
      × (radio.begins ≡ true)
      × (radio.starts ≡ true)
    → radio.is_complete w ≡ true
    → w < timeout_ms (map tx_edge s.edges) repeat
    → radio.asks ≡ repeat * length s.edges + more
    → ((transmit radio st (to_transmit_params s repeat)).0
        ≡ ok (Value.map (entry (codes "sent") (Value.u64 (length s.edges * repeat)) end)))
      × ((transmit radio st (to_transmit_params s repeat)).1.tx.ptr ≡ none)
      × ((waited : ℕ) × (waited ≤ w)
          × ((transmit radio st (to_transmit_params s repeat)).2
              ≡ begin true
                ∷ reset
                ∷ load_preset (on_device s.preset)
                ∷ set_frequency s.frequency
                ∷ flush_tx
                ∷ start_async_tx true
                ∷ yielded (
                    flatten (replicate repeat (map edge_level s.edges))
                    ++ replicate more level_duration_reset)
                ∷ delay_ms waited
                ∷ stop_async_tx
                ∷ idle
                ∷ sleep
                ∷ finish
                ∷ []))
subghz_signal_sent radio st s repeat w more h (a, b) (c, d, e, f) g l asks =
    let r = requested s repeat in
    let limit = timeout_ms (map tx_edge s.edges) repeat in
    let soon = wait-le radio.is_complete limit 0 w (omega arith) g (omega arith) in
    let whole =
      taken_lem radio st (to_transmit_params s repeat) r a b
        (tx_request-to_transmit_params s repeat h) c d e f (omega arith) in
    let size =
      ap (λ (n : ℕ). saturate (n * repeat)) (length-map s.edges)
      ∙ total (length s.edges) repeat h.3 h.5 in
    let some_edges : 0 < length (map tx_edge s.edges) = rw (length-map s.edges) h.2 in
    let count : radio.asks ≡ repeat * length (map tx_edge s.edges) + more =
      rw (length-map s.edges) asks in
    let levels : (yields radio.asks (published r)).0
        ≡ flatten (replicate repeat (map edge_level s.edges))
          ++ replicate more level_duration_reset =
      ap (λ n. (yields n (published r)).0) count
      ∙ yields-published r more some_edges
      ∙ ap (λ l. flatten (replicate repeat l) ++ replicate more level_duration_reset)
          (map-sent s.edges h.1) in
    (
      ap (λ (o : Outcome). o.0) whole
          ∙ ap (λ (n : ℕ). ok (Value.map (entry (codes "sent") (Value.u64 n) end))) size,
      ap (λ (o : Outcome). o.1.tx.ptr) whole,
      (wait radio.is_complete limit 0, soon, ap (λ (o : Outcome). o.2) whole ∙ rw levels refl),
    )
