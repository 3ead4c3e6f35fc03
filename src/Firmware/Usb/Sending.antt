-- ===== src/Firmware/Usb/Sending.antt =====
-- What firmware/src/main.rs sends over USB, and what a host reads of it.
use flip_link.Base.{
  flatten-append, ℕ, zero, suc, ◌+◌, ◌≤◌, ◌<◌, ◌≡◌, refl, sym, subst, ap, ◌∙◌, arith, Bool, true,
  false, Bool-cases, ◌⊎◌, inl, inr, List, [], ◌∷◌, ◌++◌, length, take, drop, replicate, flatten,
  All, append_assoc, append-nil, take-append-drop, length-drop, length-take_le, take-append_length,
  length-replicate,
}
use flip_link.Proto.Bytes.{Bytes}
use flip_link.Proto.Frame.{Frame, MsgType, caps, resp, header_size, max_payload}
use flip_link.Proto.Frame.Wire.{wire, frame_size, length-wire, encode-wire, IsFrame}
use flip_link.Proto.Frame.Stream.{decode-nil}
use flip_link.Core.Reader.{new, drain, read_all}
use flip_link.Core.Reader.Chunks.{reader, wires, drain-wires, read_all-flatten}
use flip_link.Core.Device.Await.{sent_frame}
use flip_link.Firmware.Loop.{Reply}
use flip_link.Firmware.Usb.{
  chunk_size, send_from, cdc_send_all, framed, Bodies, stream_message, reply_bytes,
}

abbrev pub Fits : Bytes → Type 0
Fits chunk = (0 < length chunk) × (length chunk ≤ chunk_size)

-- Either all bytes were sent, or a wait for the semaphore did not end in time.
abbrev pub IsSentUpTo : (ℕ → Bool) → Bytes → Type 0
IsSentUpTo acquires rest = (rest ≡ []) ⊎ ((i : ℕ) × (acquires i ≡ false))

send_from_lem :
    (acquires : ℕ → Bool) (i fuel : ℕ) (bytes : Bytes)
    → length bytes ≤ fuel
    → All Fits (send_from acquires i fuel bytes)
      × ((rest : Bytes) × ((flatten (send_from acquires i fuel bytes) ++ rest ≡ bytes)
            × IsSentUpTo acquires rest))
unfolding send_from flatten
send_from_lem acquires i zero [] h = (tt, ([], (refl, inl refl)))
send_from_lem acquires i zero (b ∷ bytes) h = absurd (omega arith)
send_from_lem acquires i (suc fuel) [] h = (tt, ([], (refl, inl refl)))
send_from_lem acquires i (suc fuel) (b ∷ bytes) h = elim (Bool-cases (acquires i)) [
  | inl e ↦
      let (fits, (rest, (whole, k))) =
        send_from_lem acquires (suc i) fuel (drop 63 bytes) (omega (arith, length-drop 63 bytes)) in
      let later = flatten (send_from acquires (suc i) fuel (drop 63 bytes)) in
      rw e (
        ((omega arith, omega (arith, length-take_le 63 bytes)), fits),
        (
          rest,
          (
            ap (λ l. b ∷ l)
                (append_assoc (take 63 bytes) later rest
                  ∙ ap (λ l. take 63 bytes ++ l) whole
                  ∙ take-append-drop 63 bytes),
            k,
          ),
        ),
      )
  | inr e ↦ rw e (tt, (b ∷ bytes, (refl, inr (i, e))))
]

-- Whatever the waits for the semaphore give: chunks of 1 to 64 bytes are sent, which together are the
-- bytes, less a rest at the end; there is a rest only if a wait did not end in time.
pub cdc_send_all_lem :
    (acquires : ℕ → Bool) (bytes : Bytes)
    → All Fits (cdc_send_all acquires bytes)
      × ((rest : Bytes) × ((flatten (cdc_send_all acquires bytes) ++ rest ≡ bytes)
            × IsSentUpTo acquires rest))
unfolding cdc_send_all
cdc_send_all_lem acquires bytes = send_from_lem acquires 0 (length bytes) bytes (omega arith)

sent_whole :
    (acquires : ℕ → Bool) (bytes : Bytes)
    → ((i : ℕ) → acquires i ≡ true)
    → flatten (cdc_send_all acquires bytes) ≡ bytes
sent_whole acquires bytes always =
    let (fits, (rest, (whole, k))) = cdc_send_all_lem acquires bytes in
    elim k [
      | inl e ↦
          sym (append-nil _) ∙ ap (λ l. flatten (cdc_send_all acquires bytes) ++ l) (sym e) ∙ whole
      | inr (i, e) ↦ absurd (cc (always i, e))
    ]

framed_lem :
    (typ : MsgType) (seq : ℕ) (body : Bytes)
    → length body ≤ max_payload
    → framed typ seq body ≡ wire 1 (sent_frame typ seq body)
unfolding framed
framed_lem typ seq body h =
    let f = sent_frame typ seq body in
    let enc : Bytes = replicate (header_size + length body + 2) 0 in
    let room : length enc ≡ header_size + length body + 2 =
      length-replicate {A = ℕ} (header_size + length body + 2) 0 in
    let cut =
      take-append_length (wire 1 f) (drop (frame_size f) enc) (frame_size f)
        (sym (length-wire 1 f)) in
    rw (encode-wire f enc h (omega arith), cut) refl

module _ (b : Bodies) where
  -- The frame that a reply is sent as; the bytes of a PONG are encoded already.
  abbrev pub SentAs : Reply → Frame → Type 0
  SentAs (Reply.raw bytes) f = bytes ≡ wire 1 f
  SentAs (Reply.caps seq c) f = f ≡ sent_frame caps seq (b.of_caps c)
  SentAs (Reply.resp seq v) f =
      f ≡ sent_frame resp seq (b.of_resp (record { ok = true; result = v }))
  SentAs (Reply.stream s) f =
      f ≡ sent_frame (stream_message b s).0 (stream_message b s).1 (stream_message b s).2

  abbrev pub AreSentAs : List Reply → List Frame → Type 0
  AreSentAs [] [] = Unit {0}
  AreSentAs (r ∷ rs) (f ∷ fs) = SentAs r f × AreSentAs rs fs
  AreSentAs _ _ = ⊥

  -- The chunks of the replies, one behind the other.
  abbrev pub send_all : (ℕ → Bool) → List Reply → List Bytes
  send_all acquires [] = []
  send_all acquires (r ∷ rs) = cdc_send_all acquires (reply_bytes b r) ++ send_all acquires rs

  framed_as :
      (typ : MsgType) (seq : ℕ) (body : Bytes) (f : Frame)
      → f ≡ sent_frame typ seq body
      → length f.payload ≤ max_payload
      → framed typ seq body ≡ wire 1 f
  framed_as typ seq body f e h =
      framed_lem typ seq body (subst (λ (g : Frame). length g.payload ≤ max_payload) e h)
      ∙ ap (wire 1) (sym e)

  reply_bytes_lem : (r : Reply) (f : Frame) → SentAs r f → IsFrame f → reply_bytes b r ≡ wire 1 f
  unfolding reply_bytes
  reply_bytes_lem (Reply.raw bytes) f e h = e
  reply_bytes_lem (Reply.caps seq c) f e h = framed_as caps seq (b.of_caps c) f e h.payload_fits
  reply_bytes_lem (Reply.resp seq v) f e h =
      framed_as resp seq (b.of_resp (record { ok = true; result = v })) f e h.payload_fits
  reply_bytes_lem (Reply.stream s) f e h =
      framed_as (stream_message b s).0 (stream_message b s).1 (stream_message b s).2 f e
        h.payload_fits

  send_all-wires :
      (acquires : ℕ → Bool) (rs : List Reply) (fs : List Frame)
      → ((i : ℕ) → acquires i ≡ true)
      → AreSentAs rs fs
      → All IsFrame fs
      → flatten (send_all acquires rs) ≡ wires fs
  unfolding flatten
  send_all-wires acquires [] [] always s h = refl
  send_all-wires acquires [] (f ∷ fs) always s h = absurd s
  send_all-wires acquires (r ∷ rs) [] always s h = absurd s
  send_all-wires acquires (r ∷ rs) (f ∷ fs) always (s, ss) (h, hs) =
      flatten-append (cdc_send_all acquires (reply_bytes b r)) (send_all acquires rs)
      ∙ ap (λ l. l ++ flatten (send_all acquires rs))
          (sent_whole acquires (reply_bytes b r) always ∙ reply_bytes_lem r f s h)
      ∙ ap (λ l. wire 1 f ++ l) (send_all-wires acquires rs fs always ss hs)

-- When each wait for the semaphore ends in time, and the frames of the replies have numbers and
-- payloads that fit the format: the host reads these frames, in their order, from what the device
-- sends, in whatever pieces it arrives, and nothing is left.
pub replies_read :
    (b : Bodies) (acquires : ℕ → Bool) (rs : List Reply) (fs : List Frame) (pieces : List Bytes)
    → ((i : ℕ) → acquires i ≡ true)
    → AreSentAs b rs fs
    → All IsFrame fs
    → flatten pieces ≡ flatten (send_all b acquires rs)
    → read_all pieces new ≡ (fs, new)
replies_read b acquires rs fs pieces always s h e =
    read_all-flatten pieces
    ∙ ap (λ l. drain (reader l))
        (e ∙ send_all-wires b acquires rs fs always s h ∙ sym (append-nil (wires fs)))
    ∙ drain-wires fs [] h decode-nil
