-- ===== src/Core/Reader/Chunks.antt =====
-- The reading loop over crates/flip-core/src/transport.rs: what it reads depends on the bytes
-- alone, and not on the pieces in which they arrive.
use flip_link.Base.{ℕ, zero, suc, ◌<◌, ◌≡◌, refl, sym, ap, ◌∙◌, arith, List, [], ◌∷◌, ◌++◌}
use flip_link.Base.{
  length, Option, none, some, append_assoc, append-nil, flatten, ◌⊎◌, inl, inr, All,
}
use flip_link.Proto.Bytes.{Bytes}
use flip_link.Proto.Frame.{Frame, decode, need_more}
use flip_link.Proto.Frame.Stream.{decode-nil, decode_prefix}
use flip_link.Proto.Frame.Wire.{wire, IsFrame}
use flip_link.Core.Reader.{FrameReader, new, scan, next_frame, feed, drain_from, drain, read_all}
use flip_link.Core.Reader.Stream.{
  scan-append_some, scan-append_none, scan_need_more, scan_shrinks, scan_keeps, scan_garbage,
}

-- The reader over a buffer, and the frames of one reading put in front of another's.
abbrev pub reader : Bytes → FrameReader
reader b = record { buf = b }

abbrev pub also : List Frame → List Frame × FrameReader → List Frame × FrameReader
also fs r = (fs ++ r.0, r.1)

pub scan_cases :
    (buf : Bytes)
    → ((rest : Bytes) × (scan buf ≡ (none, rest)))
      ⊎ ((f : Frame) × (rest : Bytes) × (scan buf ≡ (some f, rest)))
scan_cases buf = by (scan buf) refl
  where
    by :
        (r : Option Frame × Bytes)
        → scan buf ≡ r
        → ((rest : Bytes) × (scan buf ≡ (none, rest)))
          ⊎ ((f : Frame) × (rest : Bytes) × (scan buf ≡ (some f, rest)))
    by (none, rest) e = inl (rest, e)
    by (some f, rest) e = inr (f, rest, e)

pub next_frame-scan :
    (buf rest : Bytes) (found : Option Frame)
    → scan buf ≡ (found, rest)
    → next_frame (reader buf) ≡ (found, reader rest)
unfolding next_frame
next_frame-scan buf rest found e = ap (λ (r : Option Frame × Bytes). (r.0, reader r.1)) e

-- One round of the loop over what `next_frame` answered.
abbrev round : ℕ → Option Frame × FrameReader → List Frame × FrameReader
round fuel r = elim r.0 [ none ↦ ([], r.1) | some f ↦ also (f ∷ []) (drain_from fuel r.1) ]

drain_from_idle :
    (fuel : ℕ) (buf rest : Bytes)
    → scan buf ≡ (none, rest)
    → drain_from (suc fuel) (reader buf) ≡ ([], reader rest)
unfolding drain_from
drain_from_idle fuel buf rest e = ap (round fuel) (next_frame-scan buf rest none e)

drain_from_found :
    (fuel : ℕ) (buf rest : Bytes) (f : Frame)
    → scan buf ≡ (some f, rest)
    → drain_from (suc fuel) (reader buf) ≡ also (f ∷ []) (drain_from fuel (reader rest))
unfolding drain_from
drain_from_found fuel buf rest f e = ap (round fuel) (next_frame-scan buf rest (some f) e)

-- Fuel above the buffer's length is enough: more of it changes nothing.
drain_from_fuel :
    (n m : ℕ) (buf : Bytes)
    → length buf < n
    → length buf < m
    → drain_from n (reader buf) ≡ drain_from m (reader buf)
drain_from_fuel zero m buf p q = absurd (omega arith)
drain_from_fuel (suc n) zero buf p q = absurd (omega arith)
drain_from_fuel (suc n) (suc m) buf p q = elim (scan_cases buf) [
  | inl (rest, e) ↦ drain_from_idle n buf rest e ∙ sym (drain_from_idle m buf rest e)
  | inr (f, rest, e) ↦
      let shorter = scan_shrinks buf f rest e in
      drain_from_found n buf rest f e
      ∙ ap (also (f ∷ [])) (drain_from_fuel n m rest (omega arith) (omega arith))
      ∙ sym (drain_from_found m buf rest f e)
]

pub drain_idle :
    (buf rest : Bytes) → scan buf ≡ (none, rest) → drain (reader buf) ≡ ([], reader rest)
unfolding drain
drain_idle buf rest e = drain_from_idle (length buf) buf rest e

pub drain_found :
    (buf rest : Bytes) (f : Frame)
    → scan buf ≡ (some f, rest)
    → drain (reader buf) ≡ also (f ∷ []) (drain (reader rest))
unfolding drain
drain_found buf rest f e =
    drain_from_found (length buf) buf rest f e
    ∙ ap (also (f ∷ [])) (
        drain_from_fuel (length buf) (suc (length rest)) rest (scan_shrinks buf f rest e)
          (omega arith))

pub drain_of_scan : (a b : Bytes) → scan a ≡ scan b → drain (reader a) ≡ drain (reader b)
drain_of_scan a b same = elim (scan_cases b) [
  | inl (rest, e) ↦ drain_idle a rest (same ∙ e) ∙ sym (drain_idle b rest e)
  | inr (f, rest, e) ↦ drain_found a rest f (same ∙ e) ∙ sym (drain_found b rest f e)
]

-- Reading a buffer and then what follows it is reading both at once.
drain-append :
    (n : ℕ) (buf more : Bytes)
    → length buf < n
    → drain (reader (buf ++ more))
      ≡ also (drain (reader buf)).0 (drain (feed (drain (reader buf)).1 more))
unfolding feed
drain-append zero buf more h = absurd (omega arith)
drain-append (suc n) buf more h = elim (scan_cases buf) [
  | inl (rest, e) ↦
      rw (drain_idle buf rest e)
        (drain_of_scan (buf ++ more) (rest ++ more) (scan-append_none buf more rest e))
  | inr (f, rest, e) ↦
      drain_found (buf ++ more) (rest ++ more) f (scan-append_some buf more f rest e)
      ∙ ap (also (f ∷ [])) (drain-append n rest more (omega (arith, scan_shrinks buf f rest e)))
      ∙ rw (drain_found buf rest f e)
]

-- Nothing is left to find in what the loop keeps.
pub drain_again :
    (n : ℕ) (buf : Bytes)
    → length buf < n
    → drain (drain (reader buf)).1 ≡ ([], (drain (reader buf)).1)
drain_again zero buf h = absurd (omega arith)
drain_again (suc n) buf h = elim (scan_cases buf) [
  | inl (rest, e) ↦ rw (drain_idle buf rest e) (drain_idle rest rest (scan_keeps buf rest e).1)
  | inr (f, rest, e) ↦
      rw (drain_found buf rest f e) (drain_again n rest (omega (arith, scan_shrinks buf f rest e)))
]

read_all_from :
    (chunks : List Bytes) (buf : Bytes)
    → drain (reader buf) ≡ ([], reader buf)
    → read_all chunks (reader buf) ≡ drain (reader (buf ++ flatten chunks))
unfolding read_all feed flatten
read_all_from [] buf idle = sym (ap (λ l. drain (reader l)) (append-nil buf) ∙ idle)
read_all_from (chunk ∷ chunks) buf idle =
    let (fs, r) = drain (reader (buf ++ chunk)) in
    let n = suc (length (buf ++ chunk)) in
    ap (also fs) (read_all_from chunks r.buf (drain_again n (buf ++ chunk) (omega arith)))
    ∙ sym (drain-append n (buf ++ chunk) (flatten chunks) (omega arith))
    ∙ ap (λ l. drain (reader l)) (append_assoc buf chunk (flatten chunks))

-- However a stream of bytes is cut into pieces, the loop reads from the pieces what it reads from
-- the whole stream: the same frames, in the same order, and the same bytes left.
pub read_all-flatten :
    (chunks : List Bytes) → read_all chunks new ≡ drain (record { buf = flatten chunks })
read_all-flatten chunks = read_all_from chunks [] (drain_idle [] [] (scan_need_more [] decode-nil))

-- The bytes of the frames, one behind the other.
abbrev pub wires : List Frame → Bytes
wires [] = []
wires (f ∷ fs) = wire 1 f ++ wires fs

pub drain-wires :
    (fs : List Frame) (rest : Bytes)
    → All IsFrame fs
    → decode rest ≡ need_more
    → drain (reader (wires fs ++ rest)) ≡ (fs, reader rest)
drain-wires [] rest h wait = drain_idle rest rest (scan_need_more rest wait)
drain-wires (f ∷ fs) rest (ok, h) wait =
    ap (λ l. drain (reader l)) (append_assoc (wire 1 f) (wires fs) rest)
    ∙ drain_found _ (wires fs ++ rest) f (scan_garbage [] 1 f (wires fs ++ rest) tt ok)
    ∙ ap (also (f ∷ [])) (drain-wires fs rest h wait)

-- A stream that holds the encodings of these frames and then a proper part of one more frame is
-- read, in whatever pieces it arrives, as these frames in this order, and the part is kept.
pub read_all-wires :
    (chunks : List Bytes) (fs : List Frame) (v : ℕ) (g : Frame) (front : Bytes) (x : ℕ)
    (back : Bytes)
    → All IsFrame fs
    → IsFrame g
    → wire v g ≡ front ++ (x ∷ back)
    → flatten chunks ≡ wires fs ++ front
    → read_all chunks new ≡ (fs, record { buf = front })
read_all-wires chunks fs v g front x back h ok part e =
    read_all-flatten chunks
    ∙ ap (λ l. drain (reader l)) e
    ∙ drain-wires fs front h (decode_prefix v g front x back ok part)
