-- ===== src/Firmware/Usb/Served.antt =====
-- The frames of a host, from the USB interrupts of firmware/src/main.rs to the handling of each.
use flip_link.Base.{
  ℕ, ◌≤◌, ◌≡◌, refl, sym, ap, ◌∙◌, arith, Bool, true, false, ltb, ◌==◌, ◌||◌, Bool-cases,
  if◌then◌else◌, inl, inr, List, [], ◌∷◌, ◌++◌, length, length-take_le, append_assoc, append-nil,
  flatten, All, All-append, Option,
}
use flip_link.Proto.Bytes.{Bytes}
use flip_link.Proto.Frame.{Frame}
use flip_link.Proto.Messages.{Req}
use flip_link.Proto.Frame.Wire.{IsFrame}
use flip_link.Core.Reader.{new, read_all}
use flip_link.Core.Reader.Chunks.{wires}
use flip_link.Firmware.Usb.Sending.{AreSentAs, send_all, replies_read}
use flip_link.Core.Reader.Prefix.{Fit}
use flip_link.Firmware.Stream.{StreamBuffer, IsStreamBuffer, receive}
use flip_link.Firmware.Loop.{
  Instruments, handle, Received, overflow, nothing, chunk, main_loop, max_idle,
}
use flip_link.Firmware.Loop.Handled.{handle_all}
use flip_link.Firmware.Loop.Served.{IsHeard, bytes_of, running, limit, served_lem}
use flip_link.Firmware.Usb.{
  Bodies, Rx, Phase, receiving, checking, emptying, Event, usb, turn, chunk_size, stored,
  received_in, access, listen,
}
use flip_link.Firmware.Usb.Heard.{arrived, heard_of, has_overflow, held, Keeps, heard_in_order}

-- A chunk has 64 bytes at most, also one that the loop holds.
IsShort : Received → Type 0
IsShort overflow = Unit {0}
IsShort nothing = Unit {0}
IsShort (chunk bytes) = length bytes ≤ 64

HoldsShort : Phase → Type 0
HoldsShort p = length (held p) ≤ 64

module _ (sb : StreamBuffer) {cap : ℕ} (documented : IsStreamBuffer cap sb) where
  given_short : (inside : Bytes) → length (receive sb inside chunk_size).0 ≤ 64
  given_short inside = omega (
    arith,
    length-take_le (sb.gives inside chunk_size) inside,
    documented.gives_eq inside chunk_size,
  )

  received-IsShort : (given : Bytes) → length given ≤ 64 → All IsShort (received_in sb given ∷ [])
  unfolding IsShort
  received-IsShort [] h = (tt, tt)
  received-IsShort (b ∷ given) h = (h, tt)

  access-IsShort :
      (p : Phase) (r : Rx)
      → HoldsShort p
      → HoldsShort (access sb p r).0 × All IsShort (access sb p r).2
  unfolding access HoldsShort IsShort
  access-IsShort receiving r h = (given_short r.inside, tt)
  access-IsShort (checking given) r h = elim (Bool-cases r.overflowed) [
    | inl o ↦ rw o (omega arith, (tt, tt))
    | inr o ↦ rw o (omega arith, received-IsShort given h)
  ]
  access-IsShort emptying r h = elim (Bool-cases (length (receive sb r.inside chunk_size).0 == 0)) [
    | inl z ↦ rw z (omega arith, tt)
    | inr z ↦ rw z (omega arith, tt)
  ]

  listen-IsShort :
      (events : List Event) (p : Phase) (r : Rx)
      → HoldsShort p
      → All IsShort (listen sb events p r).2
  unfolding listen
  listen-IsShort [] p r h = tt
  listen-IsShort (usb bytes ∷ events) p r h =
      listen-IsShort events p (if ltb 0 (length bytes) then stored sb bytes r else r) h
  listen-IsShort (turn ∷ events) p r h =
      let (holds, now) = access-IsShort p r h in
      All-append IsShort (access sb p r).2 (listen sb events (access sb p r).0 (access sb p r).1).2
        now (listen-IsShort events (access sb p r).0 (access sb p r).1 holds)

-- Without an overflow each round heard what it was given.
all-IsHeard : (rs : List Received) → All IsShort rs → has_overflow rs ≡ false → All IsHeard rs
unfolding IsShort
all-IsHeard [] h e = tt
all-IsHeard (overflow ∷ rs) h e = absurd cc
all-IsHeard (nothing ∷ rs) h e = (tt, all-IsHeard rs h.1 e)
all-IsHeard (chunk bytes ∷ rs) h e = (h.0, all-IsHeard rs h.1 e)

heard_of-bytes_of :
    (rs : List Received) (heard : Bytes)
    → has_overflow rs ≡ false
    → heard_of heard rs ≡ heard ++ bytes_of rs
heard_of-bytes_of [] heard e = sym (append-nil heard)
heard_of-bytes_of (overflow ∷ rs) heard e = absurd cc
heard_of-bytes_of (nothing ∷ rs) heard e = heard_of-bytes_of rs heard e
heard_of-bytes_of (chunk bytes ∷ rs) heard e =
    heard_of-bytes_of rs (heard ++ bytes) e ∙ append_assoc heard bytes (bytes_of rs)

abbrev pub empty : Rx
empty = record { inside = []; overflowed = false }

-- The bytes heard are all that arrived, once the loop has caught up.
caught_up :
    (met : Bool) (all heard : Bytes) (p : Phase) (r : Rx)
    → Keeps met all heard p r
    → met ≡ false
    → p ≡ receiving
    → r ≡ empty
    → heard ≡ all
caught_up met all heard receiving r (inl o) clear at nothing_left =
    let clear_flag = ap (λ (x : Rx). x.overflowed) nothing_left in absurd cc
caught_up met all heard receiving r (inr (lost, e, inl no_loss)) clear at nothing_left =
    let nothing_inside = ap (λ (x : Rx). x.inside) nothing_left in
    sym (append-nil heard)
    ∙ sym (ap (λ l. heard ++ l) nothing_inside)
    ∙ sym (ap (λ l. l ++ (heard ++ r.inside)) no_loss)
    ∙ sym e
caught_up met all heard receiving r (inr (lost, e, inr m)) clear at nothing_left = absurd cc
caught_up met all heard emptying r h clear at nothing_left = absurd cc
caught_up met all heard (checking given) r h clear at nothing_left = absurd cc

-- For a buffer as the SDK documents it, instruments over a world where nothing is captured, which
-- the handling of these frames leaves so, and frames that leave room for a chunk in 16 KiB: when their
-- encodings arrive by interrupts in any pieces, between any accesses of the loop, no overflow is met in
-- fewer rounds than end the loop, and the loop has caught up with them, then `main`'s loop has handled
-- each frame once, in order; the replies and the world are those of this handling, and no byte is kept.
pub requests_served :
    {W : Type 0} (device : Instruments W) (from_payload : Bytes → Option Req) (P : W → Type 0)
    (Q : Frame → Type 0) (sb : StreamBuffer) (cap : ℕ) (events : List Event) (gs : List Frame)
    (w : W)
    → ((v : W) → P v → device.drain_captures v ≡ (v, []))
    → ((f : Frame) (v : W) → Q f → P v → P (handle device from_payload f v).0)
    → IsStreamBuffer cap sb
    → P w
    → All Q gs
    → All (Fit limit) gs
    → arrived events ≡ wires gs
    → has_overflow (listen sb events receiving empty).2 ≡ false
    → (listen sb events receiving empty).0 ≡ receiving
    → (listen sb events receiving empty).1 ≡ empty
    → length (listen sb events receiving empty).2 ≤ max_idle
    → (idle : ℕ) × (main_loop device from_payload
          (running (listen sb events receiving empty).2)
          (record { acc = []; idle = 0; world = w })
        ≡ (
          record { acc = []; idle = idle; world = (handle_all device from_payload gs w).0 },
          (handle_all device from_payload gs w).1,
        ))
requests_served device from_payload P Q sb cap events gs w quiet keeps documented p q fit e clear at
      nothing_left few =
    let out = listen sb events receiving empty in
    let keeps_all = heard_in_order sb cap events documented in
    let met : (has_overflow out.2 || false) ≡ false = rw clear refl in
    let all =
      caught_up (has_overflow out.2 || false) (arrived events) (heard_of [] out.2) out.0 out.1
        keeps_all met at nothing_left in
    served_lem device from_payload P Q quiet keeps out.2 gs w
      (all-IsHeard out.2
        (listen-IsShort sb documented events receiving empty (unfold HoldsShort in omega arith))
        clear)
      few p q fit (sym (heard_of-bytes_of out.2 [] clear) ∙ all ∙ e)

-- For a buffer as the SDK documents it, instruments over a world where nothing is captured, which the
-- handling of these requests leaves so, and requests that leave room for a chunk in 16 KiB: when their
-- encodings arrive by interrupts in any pieces, between any accesses of the loop, no overflow is met in
-- fewer rounds than end the loop, Back is not pressed, the loop has caught up with them, each wait for the semaphore ends in
-- time, and the replies have frames whose numbers and payloads fit the format, then the host reads from
-- what the device sends, in whatever pieces it arrives, the frames of the replies that the handling of
-- each request once, in order, gives, and nothing else.
pub device_answers :
    {W : Type 0} (device : Instruments W) (from_payload : Bytes → Option Req) (P : W → Type 0)
    (Q : Frame → Type 0) (sb : StreamBuffer) (cap : ℕ) (events : List Event) (gs : List Frame)
    (w : W) (b : Bodies) (acquires : ℕ → Bool) (answers : List Frame) (pieces : List Bytes)
    → ((v : W) → P v → device.drain_captures v ≡ (v, []))
    → ((f : Frame) (v : W) → Q f → P v → P (handle device from_payload f v).0)
    → IsStreamBuffer cap sb
    → P w
    → All Q gs
    → All (Fit limit) gs
    → arrived events ≡ wires gs
    → has_overflow (listen sb events receiving empty).2 ≡ false
    → (listen sb events receiving empty).0 ≡ receiving
    → (listen sb events receiving empty).1 ≡ empty
    → length (listen sb events receiving empty).2 ≤ max_idle
    → ((i : ℕ) → acquires i ≡ true)
    → AreSentAs b (handle_all device from_payload gs w).1 answers
    → All IsFrame answers
    → flatten pieces
      ≡ flatten (
          send_all b acquires
            (main_loop device from_payload
              (running (listen sb events receiving empty).2)
              (record { acc = []; idle = 0; world = w })).1)
    → read_all pieces new ≡ (answers, new)
device_answers device from_payload P Q sb cap events gs w b acquires answers pieces quiet keeps
      documented p q fit e clear at nothing_left few always sent frames arrives =
    let (idle, served) =
      requests_served device from_payload P Q sb cap events gs w quiet keeps documented p q fit e
        clear at nothing_left few in
    let replies = handle_all device from_payload gs w in
    replies_read b acquires replies.1 answers pieces always sent frames
      (arrives ∙ ap (λ r. flatten (send_all b acquires r.1)) served)
