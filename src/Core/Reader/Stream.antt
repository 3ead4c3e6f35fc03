-- ===== src/Core/Reader/Stream.antt =====
-- One call of `next_frame` of crates/flip-core/src/transport.rs, on any buffer and on one that
-- starts with garbage and a frame.
use flip_link.Base.{ℕ, ◌<◌, ◌≤◌, ◌≡◌, ◌≢◌, sym, ap, ◌∙◌, arith}
use flip_link.Base.{
  [], ◌∷◌, ◌++◌, length, drop, All, Option, none, some, length-append, length-drop,
}
use flip_link.Base.{drop-append_le, drop-append_length, inl, inr}
use flip_link.Proto.Bytes.{Bytes, IsByte}
use flip_link.Proto.Frame.{Frame, frame, need_more, resync, decode}
use flip_link.Proto.Frame.Wire.{wire, IsFrame, frame_size, length-wire}
use flip_link.Proto.Frame.RoundTrip.{decode-wire}
use flip_link.Proto.Frame.Stream.{
  decode-append, decode_bounds, decode-nil, decode-bad_magic, DecodeResult-cases,
}
use flip_link.Core.Reader.{scan}

-- The three answers of `decode`, as steps of the loop.
pub scan_frame :
    (buf : Bytes) (f : Frame) (n : ℕ) → decode buf ≡ frame f n → scan buf ≡ (some f, drop n buf)
unfolding scan
scan_frame [] f n e = cc (e, decode-nil)
scan_frame (b ∷ bs) f n e = rw (e, scan)

pub scan_need_more : (buf : Bytes) → decode buf ≡ need_more → scan buf ≡ (none, buf)
unfolding scan
scan_need_more [] e = rw (e, scan)
scan_need_more (b ∷ bs) e = rw (e, scan)

pub scan_resync : (b : ℕ) (bs : Bytes) → decode (b ∷ bs) ≡ resync → scan (b ∷ bs) ≡ scan bs
unfolding scan
scan_resync b bs e = rw (e, scan)

-- Later bytes do not change a frame that is found, and join the bytes behind it.
pub scan-append_some :
    (buf more : Bytes) (f : Frame) (rest : Bytes)
    → scan buf ≡ (some f, rest)
    → scan (buf ++ more) ≡ (some f, rest ++ more)
scan-append_some [] more f rest e = cc (e, scan_need_more [] decode-nil)
scan-append_some (b ∷ bs) more f rest e = elim (DecodeResult-cases (decode (b ∷ bs))) [
  | inl wait ↦ cc (e, scan_need_more (b ∷ bs) wait)
  | inr (inl bad) ↦
      scan_resync b (bs ++ more) (decode-append (b ∷ bs) more (λ p. cc) ∙ bad)
      ∙ scan-append_some bs more f rest (sym (scan_resync b bs bad) ∙ e)
  | inr (inr (g, n, found)) ↦
      let whole = decode-append (b ∷ bs) more (λ p. cc) ∙ found in
      scan_frame ((b ∷ bs) ++ more) g n whole
      ∙ ap (λ l. (some g, l)) (drop-append_le n (b ∷ bs) more (decode_bounds (b ∷ bs) g n found).1)
      ∙ ap (λ (r : Option Frame × Bytes). (r.0, r.1 ++ more))
          (sym (scan_frame (b ∷ bs) g n found) ∙ e)
]

-- Where no frame is found, the bytes that are kept stand for the whole buffer.
pub scan-append_none :
    (buf more rest : Bytes) → scan buf ≡ (none, rest) → scan (buf ++ more) ≡ scan (rest ++ more)
scan-append_none [] more rest e =
    let same : [] ≡ rest = cc (e, scan_need_more [] decode-nil) in ap (λ l. scan (l ++ more)) same
scan-append_none (b ∷ bs) more rest e = elim (DecodeResult-cases (decode (b ∷ bs))) [
  | inl wait ↦
      let same : b ∷ bs ≡ rest = cc (e, scan_need_more (b ∷ bs) wait) in
      ap (λ l. scan (l ++ more)) same
  | inr (inl bad) ↦
      scan_resync b (bs ++ more) (decode-append (b ∷ bs) more (λ p. cc) ∙ bad)
      ∙ scan-append_none bs more rest (sym (scan_resync b bs bad) ∙ e)
  | inr (inr (g, n, found)) ↦ cc (e, scan_frame (b ∷ bs) g n found)
]

-- What a call keeps: less than before with a frame, no more than before without.
pub scan_shrinks :
    (buf : Bytes) (f : Frame) (rest : Bytes) → scan buf ≡ (some f, rest) → length rest < length buf
scan_shrinks [] f rest e = cc (e, scan_need_more [] decode-nil)
scan_shrinks (b ∷ bs) f rest e = elim (DecodeResult-cases (decode (b ∷ bs))) [
  | inl wait ↦ cc (e, scan_need_more (b ∷ bs) wait)
  | inr (inl bad) ↦ omega (arith, scan_shrinks bs f rest (sym (scan_resync b bs bad) ∙ e))
  | inr (inr (g, n, found)) ↦
      let same : drop n (b ∷ bs) ≡ rest = cc (e, scan_frame (b ∷ bs) g n found) in
      rw (← same) (omega (arith, length-drop n (b ∷ bs), decode_bounds (b ∷ bs) g n found))
]

pub scan_keeps :
    (buf rest : Bytes)
    → scan buf ≡ (none, rest)
    → (length rest ≤ length buf) × (scan rest ≡ (none, rest))
scan_keeps [] rest e =
    let same : [] ≡ rest = cc (e, scan_need_more [] decode-nil) in
    rw (← same) (omega arith, scan_need_more [] decode-nil)
scan_keeps (b ∷ bs) rest e = elim (DecodeResult-cases (decode (b ∷ bs))) [
  | inl wait ↦
      let same : b ∷ bs ≡ rest = cc (e, scan_need_more (b ∷ bs) wait) in
      rw (← same) (omega arith, scan_need_more (b ∷ bs) wait)
  | inr (inl bad) ↦
      let (shorter, again) = scan_keeps bs rest (sym (scan_resync b bs bad) ∙ e) in
      (omega arith, again)
  | inr (inr (g, n, found)) ↦ cc (e, scan_frame (b ∷ bs) g n found)
]

-- Garbage that holds no low byte of the magic number is dropped, and the frame behind it found.
pub scan_garbage :
    (garbage : Bytes) (v : ℕ) (f : Frame) (rest : Bytes)
    → All (λ x. IsByte x × (x ≢ 0xa6)) garbage
    → IsFrame f
    → scan (garbage ++ (wire v f ++ rest)) ≡ (some f, rest)
scan_garbage [] v f rest h ok =
    scan_frame (wire v f ++ rest) f (frame_size f) (decode-wire v f rest ok)
    ∙ ap (λ l. (some f, l))
        (drop-append_length (wire v f) rest (frame_size f) (sym (length-wire v f)))
scan_garbage (x ∷ xs) v f rest ((is_byte, ne), h) ok =
    scan_resync x (xs ++ (wire v f ++ rest)) (
      decode-bad_magic x _ is_byte ne (
        omega (
          arith,
          length-append xs (wire v f ++ rest),
          length-append (wire v f) rest,
          length-wire v f,
        )))
    ∙ scan_garbage xs v f rest h ok
