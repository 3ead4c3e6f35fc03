-- ===== src/Proto/Frame/Stream.antt =====
-- `decode` of crates/flip-proto/src/frame.rs on the buffer of a byte stream: what it says of a
-- part of a frame, of a buffer that grows, and of a frame with a changed byte.
use flip_link.Base.{ℕ, ◌+◌, ◌-◌, ◌<◌, ◌≤◌, ◌≡◌, refl, sym, ap, ◌∙◌, arith}
use flip_link.Base.{[], ◌∷◌, ◌++◌, length, take, drop, length-append, get_or-append_lt}
use flip_link.Base.{take-append_le, drop-append_le, append-nil, ◌≢◌, length-drop, ◌⊎◌, inl, inr}
use flip_link.Proto.Bytes.{Bytes, IsByte, slice, u32_from_le_bytes}
use flip_link.Proto.Frame.{Frame, DecodeResult, frame, need_more, resync}
use flip_link.Proto.Frame.Wire.{wire, IsFrame, frame_size, length-wire}
use flip_link.Proto.Frame.RoundTrip.{decode-wire}
use flip_link.Proto.Frame.{decode, decode_body, checked, at, header_size, crc_size}

slice-append :
    (buf more : Bytes) (a b : ℕ) → a ≤ b → b ≤ length buf → slice (buf ++ more) a b ≡ slice buf a b
slice-append buf more a b p q =
    ap (take (b - a)) (drop-append_le a buf more (omega arith))
    ∙ take-append_le (b - a) (drop a buf) more (omega (arith, length-drop a buf))

at-append : (buf more : Bytes) (i : ℕ) → i < length buf → at (buf ++ more) i ≡ at buf i
at-append buf more i h = get_or-append_lt buf more i 0 h

decode_body-append :
    (buf more : Bytes) (size : ℕ)
    → header_size + size + crc_size ≤ length buf
    → decode_body (buf ++ more) size ≡ decode_body buf size
unfolding decode_body
decode_body-append buf more size h = rw (
  at-append buf more (header_size + size) (omega arith),
  at-append buf more (header_size + size + 1) (omega arith),
  at-append buf more 3 (omega arith),
  at-append buf more 4 (omega arith),
  at-append buf more 5 (omega arith),
  at-append buf more 6 (omega arith),
  slice-append buf more 2 (header_size + size) (omega arith) (omega arith),
  slice-append buf more header_size (header_size + size) (omega arith) (omega arith),
)

-- Bytes that arrive later change no answer but `need_more`.
pub decode-append : (buf more : Bytes) → decode buf ≢ need_more → decode (buf ++ more) ≡ decode buf
unfolding decode
decode-append buf more h = ground (
  arith,
  length-append buf more,
  at-append buf more 0,
  at-append buf more 1,
  at-append buf more 7,
  at-append buf more 8,
  at-append buf more 9,
  at-append buf more 10,
  decode_body-append buf more (u32_from_le_bytes (at buf 7) (at buf 8) (at buf 9) (at buf 10)),
)

pub decode_bounds :
    (buf : Bytes) (f : Frame) (n : ℕ) → decode buf ≡ frame f n → (0 < n) × (n ≤ length buf)
unfolding decode decode_body checked
decode_bounds buf f n e = ground arith

pub decode-nil : decode [] ≡ need_more
unfolding decode
decode-nil = refl

pub decode-bad_magic :
    (x : ℕ) (xs : Bytes) → IsByte x → x ≢ 0xa6 → 0 < length xs → decode (x ∷ xs) ≡ resync
unfolding decode
decode-bad_magic x xs b ne h = ground arith

pub DecodeResult-cases :
    (r : DecodeResult)
    → (r ≡ need_more) ⊎ ((r ≡ resync) ⊎ ((f : Frame) × (n : ℕ) × (r ≡ frame f n)))
DecodeResult-cases (frame f n) = inr (inr (f, n, refl))
DecodeResult-cases need_more = inl refl
DecodeResult-cases resync = inr (inl refl)

-- Every proper prefix of a frame on the wire, the empty one included, is answered `need_more`.
pub decode_prefix :
    (v : ℕ) (f : Frame) (front : Bytes) (x : ℕ) (back : Bytes)
    → IsFrame f
    → wire v f ≡ front ++ (x ∷ back)
    → decode front ≡ need_more
decode_prefix v f front x back ok e = elim (DecodeResult-cases (decode front)) [
  | inl more ↦ more
  | inr (inl bad) ↦ cc (settled resync bad (λ p. cc))
  | inr (inr (g, n, found)) ↦ absurd (
      ground (
        arith,
        settled (frame g n) found (λ p. cc),
        decode_bounds front g n found,
        length-append front (x ∷ back),
        length-wire v f,
        ap length e,
      ))
]
  where
    whole : decode (front ++ (x ∷ back)) ≡ frame f (frame_size f)
    whole = ap decode (sym e ∙ sym (append-nil (wire v f))) ∙ decode-wire v f [] ok

    settled : (r : DecodeResult) → decode front ≡ r → r ≢ need_more → r ≡ frame f (frame_size f)
    settled r is h = sym is ∙ sym (decode-append front (x ∷ back) (λ p. h (sym is ∙ p))) ∙ whole
