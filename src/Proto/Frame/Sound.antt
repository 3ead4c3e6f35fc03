-- ===== src/Proto/Frame/Sound.antt =====
-- What `decode` of crates/flip-proto/src/frame.rs accepts: only the frames that `encode` writes,
-- but with any version byte.
use flip_link.Base.{ℕ, ◌+◌, ◌<◌, ◌≤◌, ◌≡◌, refl, sym, ap, ◌∙◌, subst, arith}
use flip_link.Base.{[], ◌∷◌, ◌++◌, length, take, drop, All}
use flip_link.Base.{take-append-drop, length-take, append_assoc, ◌↔◌, ◌≢◌, Option-cases, inl, inr}
use flip_link.Base.{All-append_left, All-append_right, length-drop}
use flip_link.Proto.Bytes.{Bytes, IsByte, u16_to_le_bytes, u16_from_le_bytes, u32_from_le_bytes}
use flip_link.Proto.Bytes.{u16_to_le_bytes-from}
use flip_link.Proto.Crc.{crc16_ccitt_false}
use flip_link.Proto.Frame.{Frame, frame, to_u8, from_u8}
use flip_link.Proto.Frame.{decode, checked, max_payload, header_size}
use flip_link.Proto.Frame.Wire.{body, wire, IsFrame, frame_size}
use flip_link.Proto.Frame.Accept.{accept, buffer, decode-accept}
use flip_link.Proto.Frame.RoundTrip.{decode-wire, to_u8-from_u8}

-- The parts of a buffer that `decode` answers with a frame.
data IsAccepted (buf : Bytes) (f : Frame) (n : ℕ) : Type 0 where
  parts :
      (v t fl s0 s1 l0 l1 l2 l3 c0 c1 : ℕ) (p rest : Bytes)
      → buf ≡ buffer v t fl s0 s1 l0 l1 l2 l3 p c0 c1 0xa6 0xf1 rest
      → u32_from_le_bytes l0 l1 l2 l3 ≡ length p
      → length p ≤ max_payload
      → accept v t fl s0 s1 l0 l1 l2 l3 p c0 c1 ≡ frame f n
      → IsAccepted buf f n

split_two : (xs : Bytes) → 2 ≤ length xs → (a : ℕ) × (b : ℕ) × (ys : Bytes) × (xs ≡ a ∷ b ∷ ys)
split_two [] h = absurd (omega arith)
split_two (a ∷ []) h = absurd (omega arith)
split_two (a ∷ b ∷ ys) h = (a, b, ys, refl)

-- What the tests of `decode` say of a buffer that gets through them.
decode_passed :
    (m0 m1 v t fl s0 s1 l0 l1 l2 l3 : ℕ) (rest : Bytes) (f : Frame) (n : ℕ)
    → IsByte m0
    → IsByte m1
    → decode (m0 ∷ m1 ∷ v ∷ t ∷ fl ∷ s0 ∷ s1 ∷ l0 ∷ l1 ∷ l2 ∷ l3 ∷ rest) ≡ frame f n
    → (m0 ≡ 0xa6)
      × (m1 ≡ 0xf1)
      × (u32_from_le_bytes l0 l1 l2 l3 ≤ max_payload)
      × (u32_from_le_bytes l0 l1 l2 l3 + 2 ≤ length rest)
unfolding decode
decode_passed m0 m1 v t fl s0 s1 l0 l1 l2 l3 rest f n b0 b1 e = ground arith

same_front : {m0 m1 : ℕ} → m0 ≡ 0xa6 → m1 ≡ 0xf1 → (xs : Bytes) → m0 ∷ m1 ∷ xs ≡ 0xa6 ∷ 0xf1 ∷ xs
same_front p q xs = cc

decode_short : (buf : Bytes) (f : Frame) (n : ℕ) → length buf < header_size → decode buf ≢ frame f n
unfolding decode
decode_short buf f n h e = ground arith

decode_parts :
    (buf : Bytes) (f : Frame) (n : ℕ) → All IsByte buf → decode buf ≡ frame f n → IsAccepted buf f n
decode_parts (m0 ∷ m1 ∷ v ∷ t ∷ fl ∷ s0 ∷ s1 ∷ l0 ∷ l1 ∷ l2 ∷ l3 ∷ rest) f n b e =
    let size = u32_from_le_bytes l0 l1 l2 l3 in
    let (is0, is1, fits, room) =
      decode_passed m0 m1 v t fl s0 s1 l0 l1 l2 l3 rest f n b.0 b.1.0 e in
    let (c0, c1, tail, cut) = split_two (drop size rest) (omega (arith, length-drop size rest)) in
    let p = take size rest in
    let size_p : size ≡ length p = sym (length-take size rest (omega arith)) in
    let whole : m0 ∷ m1 ∷ v ∷ t ∷ fl ∷ s0 ∷ s1 ∷ l0 ∷ l1 ∷ l2 ∷ l3 ∷ rest
        ≡ buffer v t fl s0 s1 l0 l1 l2 l3 p c0 c1 0xa6 0xf1 tail =
      same_front is0 is1 _
      ∙ (ap (λ l. 0xa6 ∷ 0xf1 ∷ v ∷ t ∷ fl ∷ s0 ∷ s1 ∷ l0 ∷ l1 ∷ l2 ∷ l3 ∷ l)
          (sym (take-append-drop size rest) ∙ ap (λ l. p ++ l) cut)) in
    parts v t fl s0 s1 l0 l1 l2 l3 c0 c1 p tail whole size_p (omega arith) (
      sym (decode-accept v t fl s0 s1 l0 l1 l2 l3 p c0 c1 tail size_p (omega arith))
      ∙ ap decode (sym whole)
      ∙ e)
decode_parts buf f n b e = absurd (decode_short buf f n (omega arith) e)

checked_inv :
    (want got tb fl s : ℕ) (p : Bytes) (total : ℕ) (f : Frame) (n : ℕ)
    → checked want got tb fl s p total ≡ frame f n
    → (want ≡ got)
      × (tb ≡ to_u8 f.typ)
      × (fl ≡ f.flags)
      × (s ≡ f.seq)
      × (p ≡ f.payload)
      × (total ≡ n)
unfolding checked
checked_inv want got tb fl s p total f n e = elim (Option-cases (from_u8 tb)) [
  | inl missing ↦ ground arith
  | inr (typ, found) ↦ ground (arith, to_u8-from_u8 tb typ found)
]

module _ (v t fl s0 s1 l0 l1 l2 l3 c0 c1 : ℕ) (p rest : Bytes) (f : Frame)
    (bytes : All IsByte (buffer v t fl s0 s1 l0 l1 l2 l3 p c0 c1 0xa6 0xf1 rest))
    (size : u32_from_le_bytes l0 l1 l2 l3 ≡ length p) (small : length p ≤ max_payload)
    (is_typ : t ≡ to_u8 f.typ) (is_flags : fl ≡ f.flags) (is_seq : u16_from_le_bytes s0 s1 ≡ f.seq)
    (is_payload : p ≡ f.payload) where
  abbrev tail_bytes : All IsByte (p ++ (c0 ∷ c1 ∷ rest))
  tail_bytes = bytes.1.1.1.1.1.1.1.1.1.1.1

  rebuilt_body : v ∷ t ∷ fl ∷ s0 ∷ s1 ∷ l0 ∷ l1 ∷ l2 ∷ l3 ∷ p ≡ body v f
  unfolding body
  rebuilt_body = ground arith

  rebuilt_crc : (crc : ℕ) → u16_from_le_bytes c0 c1 ≡ crc → c0 ∷ c1 ∷ [] ≡ u16_to_le_bytes crc
  rebuilt_crc crc e =
      let last = All-append_right IsByte p (c0 ∷ c1 ∷ rest) tail_bytes in
      sym (u16_to_le_bytes-from c0 c1 last.0 last.1.0) ∙ ap u16_to_le_bytes e

  rebuilt :
      u16_from_le_bytes c0 c1 ≡ crc16_ccitt_false (v ∷ t ∷ fl ∷ s0 ∷ s1 ∷ l0 ∷ l1 ∷ l2 ∷ l3 ∷ p)
      → buffer v t fl s0 s1 l0 l1 l2 l3 p c0 c1 0xa6 0xf1 rest ≡ wire v f ++ rest
  unfolding wire
  rebuilt e =
      let whole = v ∷ t ∷ fl ∷ s0 ∷ s1 ∷ l0 ∷ l1 ∷ l2 ∷ l3 ∷ p in
      ap (λ l. 0xa6 ∷ 0xf1 ∷ l)
        (ap (λ l. whole ++ (l ++ rest)) (rebuilt_crc _ e)
          ∙ sym (append_assoc whole (u16_to_le_bytes (crc16_ccitt_false whole)) rest)
          ∙ ap (λ l. (l ++ u16_to_le_bytes (crc16_ccitt_false l)) ++ rest) rebuilt_body)

  rebuilt-IsFrame : IsFrame f
  rebuilt-IsFrame = record {
    flags_byte = ground arith;
    seq_u16 = ground arith;
    payload_bytes =
        subst (All IsByte) is_payload (All-append_left IsByte p (c0 ∷ c1 ∷ rest) tail_bytes);
    payload_fits = ground arith;
  }

decode_sound :
    (buf : Bytes) (f : Frame) (n : ℕ)
    → All IsByte buf
    → decode buf ≡ frame f n
    → (v : ℕ) × (rest : Bytes) × (buf ≡ wire v f ++ rest) × (n ≡ frame_size f) × IsFrame f
unfolding accept
decode_sound buf f n b e = from_parts (decode_parts buf f n b e)
  where
    from_parts :
        IsAccepted buf f n
        → (v : ℕ) × (rest : Bytes) × (buf ≡ wire v f ++ rest) × (n ≡ frame_size f) × IsFrame f
    from_parts (parts v t fl s0 s1 l0 l1 l2 l3 c0 c1 p rest whole size small acc) =
        let bytes = subst (All IsByte) whole b in
        let (crc, is_typ, is_flags, is_seq, is_payload, total) =
          checked_inv _ _ t fl _ p _ f n acc in
        (
          v,
          rest,
          whole
              ∙ rebuilt v t fl s0 s1 l0 l1 l2 l3 c0 c1 p rest f bytes size small is_typ is_flags
                  is_seq is_payload crc,
          ground arith,
          rebuilt-IsFrame v t fl s0 s1 l0 l1 l2 l3 c0 c1 p rest f bytes size small is_typ is_flags
              is_seq is_payload,
        )

-- Over a buffer of bytes, `decode` answers a frame exactly when the buffer starts with that frame
-- as `encode` writes it, but for the version byte, which may be any; the count is the frame's size.
pub decode_iff :
    (buf : Bytes) (f : Frame) (n : ℕ)
    → All IsByte buf
    → (decode buf ≡ frame f n)
      ↔ ((v : ℕ) × (rest : Bytes) × (buf ≡ wire v f ++ rest) × (n ≡ frame_size f) × IsFrame f)
decode_iff buf f n b = (
  decode_sound buf f n b,
  λ found.
      let (v, rest, whole, total, ok) = found in
      ap decode whole ∙ decode-wire v f rest ok ∙ ap (frame f) (sym total),
)
