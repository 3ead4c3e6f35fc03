-- ===== src/Core/Loopback/Answered.antt =====
-- The loop of the loopbacks of crates/flip-core/src/mock.rs over whole frames, and what a link reads
-- of their answers.
use flip_link.Base.{
  ℕ, zero, suc, ◌<◌, ◌≤◌, ◌+◌, ◌≡◌, refl, sym, subst, ap, ◌∙◌, arith, List, [], ◌∷◌, ◌++◌, All,
  flatten, length, take-append_length, drop, replicate, length-replicate, append_assoc, append-nil,
  inl, inr, none, some,
}
use flip_link.Base.Results.{ok}
use flip_link.Proto.Bytes.{Bytes}
use flip_link.Proto.Frame.{Frame, MsgType, header_size, max_payload, encode}
use flip_link.Proto.Frame.Wire.{wire, frame_size, length-wire, encode-wire, IsFrame}
use flip_link.Proto.Frame.Stream.{decode-nil}
use flip_link.Core.Device.Await.{sent_frame}
use flip_link.Core.Reader.{FrameReader, new, feed, drain, read_all}
use flip_link.Core.Reader.Stream.{scan_shrinks}
use flip_link.Core.Reader.Chunks.{
  reader, scan_cases, next_frame-scan, drain_idle, drain_found, wires, drain-wires,
  read_all-flatten,
}
use flip_link.Core.Loopback.{Loopback, Reply, serve, write_all, pop, read, new_loopback, extended}

-- The loopback over these bytes.
abbrev pub loopback : Bytes → FrameReader → Loopback
loopback out r = record { out = out; reader = r }

module _ (added : Frame → Bytes) where
  -- What the frames add to `out`, in their order.
  abbrev pub added_all : List Frame → Bytes
  added_all [] = []
  added_all (f ∷ fs) = added f ++ added_all fs

module _ (reply : Reply) (added : Frame → Bytes) (Fits : Frame → Type 0)
    (answered : (f : Frame) (out : Bytes) → Fits f → reply f out ≡ ok (out ++ added f)) where
  serve_lem :
      (fuel : ℕ) (buf out : Bytes)
      → length buf < fuel
      → All Fits (drain (reader buf)).0
      → serve reply fuel out (reader buf)
        ≡ (ok tt, loopback (out ++ added_all added (drain (reader buf)).0) (drain (reader buf)).1)
  unfolding serve
  serve_lem zero buf out h k = absurd (omega arith)
  serve_lem (suc fuel) buf out h k = elim (scan_cases buf) [
    | inl (rest, e) ↦
        rw (next_frame-scan buf rest none e, drain_idle buf rest e, append-nil out) refl
    | inr (f, rest, e) ↦
        let shorter = scan_shrinks buf f rest e in
        let fits : All Fits (f ∷ (drain (reader rest)).0) =
          subst (λ (d : List Frame × FrameReader). All Fits d.0) (drain_found buf rest f e) k in
        let rest_answered = serve_lem fuel rest (out ++ added f) (omega arith) fits.1 in
        rw
          (
            next_frame-scan buf rest (some f) e,
            drain_found buf rest f e,
            answered f out fits.0,
            rest_answered,
            append_assoc out (added f) (added_all added (drain (reader rest)).0),
          )
          refl
  ]

  -- Whole frames that are written, and nothing before them: every frame is answered.
  pub write_all-wires :
      (fs : List Frame)
      → All IsFrame fs
      → All Fits fs
      → write_all reply (wires fs) new_loopback ≡ (ok tt, loopback (added_all added fs) new)
  unfolding write_all feed
  write_all-wires fs h k =
      let all =
        ap (λ b. drain (reader b)) (sym (append-nil (wires fs))) ∙ drain-wires fs [] h decode-nil in
      let fits = subst (λ (d : List Frame × FrameReader). All Fits d.0) (sym all) k in
      serve_lem (suc (length (wires fs))) (wires fs) [] (omega arith) fits
      ∙ ap (λ (d : List Frame × FrameReader). (ok tt, loopback (added_all added d.0) d.1)) all

-- The reads of a link with buffers of these sizes.
abbrev pub reads : List ℕ → Loopback → List Bytes × Loopback
reads [] l = ([], l)
reads (n ∷ sizes) l = ((read n l).0 ∷ (reads sizes (read n l).1).0, (reads sizes (read n l).1).1)

pop_lem : (n : ℕ) (out : Bytes) → (pop n out).0 ++ (pop n out).1 ≡ out
unfolding pop
pop_lem zero out = refl
pop_lem (suc n) [] = refl
pop_lem (suc n) (b ∷ out) = ap (λ bs. b ∷ bs) (pop_lem n out)

reads_lem :
    (sizes : List ℕ) (l : Loopback) → flatten (reads sizes l).0 ++ (reads sizes l).1.out ≡ l.out
unfolding read flatten
reads_lem [] l = refl
reads_lem (n ∷ sizes) l =
    append_assoc (read n l).0 (flatten (reads sizes (read n l).1).0)
      (reads sizes (read n l).1).1.out
    ∙ ap (λ bs. (read n l).0 ++ bs) (reads_lem sizes (read n l).1)
    ∙ pop_lem n l.out

pop_whole : (n : ℕ) (out : Bytes) → length out ≤ n → (pop n out).1 ≡ []
unfolding pop
pop_whole zero [] h = refl
pop_whole zero (b ∷ out) h = absurd (omega arith)
pop_whole (suc n) [] h = refl
pop_whole (suc n) (b ∷ out) h = pop_whole n out (omega arith)

-- One read with a buffer that is long enough empties the loopback.
pub reads_whole : (n : ℕ) (l : Loopback) → length l.out ≤ n → (reads (n ∷ []) l).1.out ≡ []
unfolding read
reads_whole n l h = pop_whole n l.out h

-- A link that reads a loopback empty gets the frames that `out` holds.
pub reads-wires :
    (sizes : List ℕ) (l : Loopback) (fs : List Frame)
    → All IsFrame fs
    → l.out ≡ wires fs
    → (reads sizes l).1.out ≡ []
    → (read_all (reads sizes l).0 (reader [])).0 ≡ fs
reads-wires sizes l fs h e done =
    let got : flatten (reads sizes l).0 ≡ wires fs ++ [] =
      sym (append-nil (flatten (reads sizes l).0))
      ∙ ap (λ bs. flatten (reads sizes l).0 ++ bs) (sym done)
      ∙ reads_lem sizes l
      ∙ e
      ∙ sym (append-nil (wires fs)) in
    ap (λ (d : List Frame × FrameReader). d.0)
      (read_all-flatten (reads sizes l).0
        ∙ ap (λ b. drain (reader b)) got
        ∙ drain-wires fs [] h decode-nil)

pub extended_lem :
    (typ : MsgType) (seq size : ℕ) (body out : Bytes)
    → length body ≤ max_payload
    → header_size + length body + 2 ≤ size
    → extended out (encode typ 0 seq body (replicate size 0))
      ≡ ok (out ++ wire 1 (sent_frame typ seq body))
extended_lem typ seq size body out h k =
    let f = sent_frame typ seq body in
    let enc : Bytes = replicate size 0 in
    let room : length enc ≡ size = length-replicate {A = ℕ} size 0 in
    let bytes = encode-wire f enc h (omega arith) in
    let cut =
      take-append_length (wire 1 f) (drop (frame_size f) enc) (frame_size f)
        (sym (length-wire 1 f)) in
    rw (bytes, cut) refl
