-- ===== src/Firmware/SubGhz/Capture/Kept.antt =====
-- The runs of a capture of firmware/src/subghz_instrument.rs: they keep all edges until one is dropped.
use flip_link.Base.{
  ℕ, ◌+◌, ◌^◌, ◌<◌, ◌≤◌, ◌≡◌, refl, sym, subst, ap, ◌∙◌, arith, false, ltb, ◌==◌, Bool-cases, ◌⊎◌,
  inl, inr,
}
use flip_link.Base.{
  List, [], ◌∷◌, ◌++◌, length, take, drop, map, flatten, take-append-drop, append-nil, append_assoc,
  length-append, length-drop, map-append,
}
use flip_link.Firmware.Stream.{StreamBuffer, IsStreamBuffer, data_frames, Sent, stream_data}
use flip_link.Firmware.SubGhz.{TxEdge, capture_cap}
use flip_link.Firmware.SubGhz.Capture.{Capture, record_bytes, rx_capture_isr, drain_capture}
use flip_link.Firmware.SubGhz.Capture.Records.{
  records, frame_of, drain_lem, records_kept, records_cut,
}
use flip_link.Firmware.SubGhz.Capture.Lossy.{
  EdgeEvent, edge, drain, offered, run_edges, running, offered_some, offered_none, IsLossy,
  IsLossy-behind, run-IsLossy, isr_skips,
}

-- What a run leaves and sends while no edge was dropped: the edges sent and those that wait are
-- these.
abbrev pub IsLossless : ℕ → List TxEdge → Capture × List Sent → Type 0
IsLossless seq all out =
    (fs : List (List TxEdge)) × (waiting : List TxEdge) × (out
      ≡ (running seq (records waiting) 0, data_frames seq (map records fs)))
    × (flatten fs ++ waiting ≡ all)

-- The edges of the next frame, if one is sent.
abbrev next : List TxEdge → List (List TxEdge)
next [] = []
next (e ∷ es) = take 50 (e ∷ es) ∷ []

frame_of-next :
    (seq : ℕ) (q : List TxEdge) → frame_of seq q ≡ data_frames seq (map records (next q))
frame_of-next seq [] = refl
frame_of-next seq (e ∷ es) = refl

flatten-next :
    (q : List TxEdge) (fs : List (List TxEdge)) → flatten (next q ++ fs) ≡ take 50 q ++ flatten fs
unfolding flatten
flatten-next [] fs = refl
flatten-next (e ∷ es) fs = refl

no_edge : TxEdge
no_edge = record { level = false; duration_us = 0 }

module _ (sb : StreamBuffer) (h : IsStreamBuffer capture_cap sb) (seq : ℕ) where
  drain_kept :
      (q : List TxEdge)
      → drain_capture sb (running seq (records q) 0)
        ≡ (running seq (records (drop 50 q)) 0, data_frames seq (map records (next q)))
  unfolding drain_capture
  drain_kept q =
      drain_lem sb h (running seq (records q) 0) q
      ∙ ap (λ (l : List Sent). (running seq (records (drop 50 q)) 0, l)) (frame_of-next seq q)

  edge_kept :
      (q : List TxEdge) (e : TxEdge)
      → (e.duration_us == 0) ≡ false
      → length q < 1638
      → rx_capture_isr sb e (running seq (records q) 0) ≡ running seq (records (q ++ (e ∷ []))) 0
  unfolding no_edge
  edge_kept q e z l =
      (records_kept sb (running seq (records q) 0) q e no_edge h refl refl l (ground arith) refl).0

  edge_cut :
      (q : List TxEdge) (e : TxEdge)
      → (e.duration_us == 0) ≡ false
      → length q ≡ 1638
      → rx_capture_isr sb e (running seq (records q) 0)
        ≡ running seq (records q ++ take 2 (record_bytes e)) 1
  edge_cut q e z l = (records_cut sb (running seq (records q) 0) q e h refl l (ground arith)).0

  unfoldable pub Ran : List TxEdge → Capture × List Sent → Type 0
  Ran all out = IsLossless seq all out ⊎ IsLossy seq out

  Ran-drain :
      (q more : List TxEdge) (later : Capture × List Sent)
      → Ran (drop 50 q ++ more) later
      → Ran (q ++ more) (later.0, data_frames seq (map records (next q)) ++ later.1)
  unfolding Ran
  Ran-drain q more later (inl (fs, waiting, e, same)) =
      let sent = data_frames seq (map records (next q)) in
      inl (
        next q ++ fs,
        waiting,
        rw
            (
              e,
              map-append records (next q) fs,
              map-append (stream_data seq) (map records (next q)) (map records fs),
            )
            refl,
        ap (λ l. l ++ waiting) (flatten-next q fs)
            ∙ append_assoc (take 50 q) (flatten fs) waiting
            ∙ ap (λ l. take 50 q ++ l) same
            ∙ sym (append_assoc (take 50 q) (drop 50 q) more)
            ∙ ap (λ l. l ++ more) (take-append-drop 50 q),
      )
  Ran-drain q more later (inr lossy) = inr (IsLossy-behind seq (map records (next q)) later lossy)

  -- Interrupts and drains in any order: all edges are sent or wait, or some were dropped.
  pub run_lem :
      (es : List EdgeEvent) (q : List TxEdge)
      → length q ≤ 1638
      → length (offered es) + 1 < 2 ^ 32
      → Ran (q ++ offered es) (run_edges sb es (running seq (records q) 0))
  unfolding run_edges Ran flatten
  run_lem [] q room few = inl ([], q, refl, sym (append-nil q))
  run_lem (drain ∷ es) q room few =
      let later = run_lem es (drop 50 q) (omega (arith, length-drop 50 q)) few in
      rw (drain_kept q)
        (Ran-drain q (offered es) (run_edges sb es (running seq (records (drop 50 q)) 0)) later)
  run_lem (edge e ∷ es) q room few = elim (Bool-cases (e.duration_us == 0)) [
    | inl z ↦
        let size = ap length (offered_none e es z) in
        rw (isr_skips sb seq e (running seq (records q) 0) (records q) z refl, offered_none e es z)
          (run_lem es q room (omega arith))
    | inr z ↦
        let size = ap length (offered_some e es z) in
        elim (Bool-cases (ltb (length q) 1638)) [
          | inl l ↦
              let fits : length q < 1638 = ground arith in
              let kept =
                run_lem es (q ++ (e ∷ [])) (omega (arith, length-append q (e ∷ [])))
                  (omega arith) in
              let out = run_edges sb es (running seq (records (q ++ (e ∷ []))) 0) in
              rw (edge_kept q e z (ground arith), offered_some e es z)
                (subst (λ all. Ran all out) (append_assoc q (e ∷ []) (offered es)) kept)
          | inr l ↦ rw (edge_cut q e z (ground arith)) (
              inr (
                run-IsLossy sb seq es (records q ++ take 2 (record_bytes e)) 1 (omega arith)
                  (omega arith)))
        ]
  ]
