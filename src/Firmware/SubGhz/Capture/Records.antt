-- ===== src/Firmware/SubGhz/Capture/Records.antt =====
-- The records in the capture buffer of firmware/src/subghz_instrument.rs: 8192 bytes hold 1638 of
-- them and two bytes more.
use flip_link.Base.{
  ℕ, zero, suc, ◌+◌, ◌-◌, ◌*◌, ◌%◌, ◌^◌, ◌<◌, ◌≡◌, ◌≢◌, refl, ap, ◌∙◌, arith, min, true, false, leb,
  ◌==◌,
}
use flip_link.Base.{
  List, [], ◌∷◌, ◌++◌, length, take, drop, none, some, take-min, drop-min, take-all, length-append,
}
use flip_link.Proto.Bytes.{Bytes}
use flip_link.Firmware.Stream.{StreamBuffer, IsStreamBuffer, Sent, stream_data}
use flip_link.Firmware.SubGhz.{TxEdge, capture_cap, edge_record_size}
use flip_link.Firmware.SubGhz.Capture.{
  Capture, with_stream, record_bytes, whole_records, pushed, rx_capture_isr, batch, drain_stream,
  drain_capture,
}

abbrev pub records : List TxEdge → Bytes
records [] = []
records (e ∷ es) = record_bytes e ++ records es

pub length-records : (q : List TxEdge) → length (records q) ≡ 5 * length q
length-records [] = refl
length-records (e ∷ es) = omega (arith, length-records es)

records-append : (q es : List TxEdge) → records (q ++ es) ≡ records q ++ records es
records-append [] es = refl
records-append (x ∷ q) es = ap (λ l. record_bytes x ++ l) (records-append q es)

take-records : (j n : ℕ) (q : List TxEdge) → n ≡ 5 * j → take n (records q) ≡ records (take j q)
take-records zero n q e = let z : n ≡ 0 = omega arith in rw z refl
take-records (suc j) n [] e = let z : n ≡ suc (n - 1) = omega arith in rw z refl
take-records (suc j) n (d ∷ ds) e =
    let z : n ≡ suc (suc (suc (suc (suc (5 * j))))) = omega arith in
    rw (z, take-records j (5 * j) ds refl) refl

drop-records : (j n : ℕ) (q : List TxEdge) → n ≡ 5 * j → drop n (records q) ≡ records (drop j q)
drop-records zero n q e = let z : n ≡ 0 = omega arith in rw z refl
drop-records (suc j) n [] e = let z : n ≡ suc (n - 1) = omega arith in rw z refl
drop-records (suc j) n (d ∷ ds) e =
    let z : n ≡ suc (suc (suc (suc (suc (5 * j))))) = omega arith in
    rw (z, drop-records j (5 * j) ds refl) refl

-- The frame with the first records, if any.
abbrev pub frame_of : ℕ → List TxEdge → List Sent
frame_of seq [] = []
frame_of seq (e ∷ es) = stream_data seq (records (take 50 (e ∷ es))) ∷ []

pub whole_records_lem :
    (e : TxEdge) (es : List TxEdge) → whole_records (records (e ∷ es)) ≡ some (records (e ∷ es))
unfolding whole_records
whole_records_lem e es =
    let size = length-records (e ∷ es) in
    let n = length (records (e ∷ es)) in
    let long : leb 5 (n - n % 5) ≡ true = ground (arith, size) in
    rw (long, take-all (n - n % 5) (records (e ∷ es)) (omega (arith, size))) refl

pub whole_records_nil : whole_records [] ≡ none
unfolding whole_records
whole_records_nil = refl

module _ (sb : StreamBuffer) (h : IsStreamBuffer capture_cap sb) where
  pub batch-records :
      (q : List TxEdge)
      → batch sb (records q) ≡ (whole_records (records (take 50 q)), records (drop 50 q))
  unfolding batch
  batch-records q =
      let given = h.gives_eq (records q) 250 in
      let front = take-min 250 (records q) ∙ take-records 50 250 q refl in
      let back = drop-min 250 (records q) ∙ drop-records 50 250 q refl in
      rw (given, front, back) refl

  pub drain_lem :
      (c : Capture) (q : List TxEdge)
      → drain_stream sb (records q) c ≡ (with_stream c (records (drop 50 q)), frame_of c.seq q)
  unfolding drain_stream
  drain_lem c [] = rw (batch-records [], whole_records_nil) refl
  drain_lem c (e ∷ es) = rw (batch-records (e ∷ es), whole_records_lem e (take 49 es)) refl

-- For a stream buffer as the SDK documents it, while a capture runs over fewer than 1638 whole
-- records `q`: an edge `e` of a duration that is not 0 is appended as one record; an edge `skipped` of
-- duration 0 changes nothing; a drain sends the first 50 records at most in one frame and keeps the
-- others.
pub records_kept :
    (sb : StreamBuffer) (c : Capture) (q : List TxEdge) (e skipped : TxEdge)
    → IsStreamBuffer capture_cap sb
    → c.stream ≡ some (records q)
    → c.active ≡ true
    → length q < 1638
    → 0 < e.duration_us
    → skipped.duration_us ≡ 0
    → (rx_capture_isr sb e c ≡ with_stream c (records (q ++ (e ∷ []))))
      × (rx_capture_isr sb skipped c ≡ c)
      × (drain_capture sb c ≡ (with_stream c (records (drop 50 q)), frame_of c.seq q))
unfolding rx_capture_isr pushed drain_capture
records_kept sb c q e skipped h s a l p z =
    let some_time : (e.duration_us == 0) ≡ false = ground arith in
    let size = length-records q in
    let fits : min 5 (capture_cap - length (records q)) ≡ 5 = ground arith in
    let running : Capture = record {
      stream = some (records q);
      active = true;
      device = c.device;
      seq = c.seq;
      dropped = c.dropped;
    } in
    (
      rw (s, some_time, h.accepts_eq (records q) 5, fits, records-append q (e ∷ [])) refl,
      rw (s, z) refl,
      rw (s, a) (drain_lem sb h running q),
    )

-- When 1638 records wait, the next edge that is not skipped puts its first two bytes behind them and
-- counts as dropped: the buffer is full, and no longer holds whole records only.
pub records_cut :
    (sb : StreamBuffer) (c : Capture) (q : List TxEdge) (e : TxEdge)
    → IsStreamBuffer capture_cap sb
    → c.stream ≡ some (records q)
    → length q ≡ 1638
    → 0 < e.duration_us
    → (rx_capture_isr sb e c ≡ record {
      stream = some (records q ++ take 2 (record_bytes e));
      active = c.active;
      device = c.device;
      seq = c.seq;
      dropped = (c.dropped + 1) % 2 ^ 32;
    })
      × (length (records q ++ take 2 (record_bytes e)) ≡ capture_cap)
      × (capture_cap % edge_record_size ≢ 0)
unfolding rx_capture_isr pushed
records_cut sb c q e h s l p =
    let some_time : (e.duration_us == 0) ≡ false = ground arith in
    let size = length-records q in
    let cut : min 5 (capture_cap - length (records q)) ≡ 2 = ground arith in
    (
      rw (s, some_time, h.accepts_eq (records q) 5, cut) refl,
      omega (arith, size, length-append (records q) (take 2 (record_bytes e))),
      omega arith,
    )
