-- ===== src/Proto/Frame/Tamper.antt =====
-- `decode` of crates/flip-proto/src/frame.rs on a frame with one changed byte.
use flip_link.Base.{ℕ, ◌/◌, ◌%◌, ◌^◌, ◌<◌, ◌≤◌, ◌≡◌, refl, ◌≢◌, ◌⊎◌, sym, ap, ◌∙◌, arith}
use flip_link.Base.{[], ◌∷◌, ◌++◌, length, length-append}
use flip_link.Proto.Bytes.{Bytes, IsByte, u32_from_le_bytes, u16_from_le_bytes, u16_to_le_bytes}
use flip_link.Proto.Bytes.{u16_from_le_bytes-to}
use flip_link.Proto.Crc.{crc16_ccitt_false}
use flip_link.Proto.Crc.Detect.{crc16_ccitt_false-IsU16, crc16_ccitt_false_detects_byte}
use flip_link.Proto.Frame.{Frame, resync, to_u8, decode, checked, max_payload}
use flip_link.Proto.Frame.Wire.{body, IsFrame}
use flip_link.Proto.Frame.Accept.{accept, buffer, decode-accept}

decode-bad_crc :
    (v t fl s0 s1 l0 l1 l2 l3 : ℕ) (p : Bytes) (c0 c1 : ℕ) (rest : Bytes)
    → u32_from_le_bytes l0 l1 l2 l3 ≡ length p
    → length p ≤ max_payload
    → u16_from_le_bytes c0 c1 ≢ crc16_ccitt_false (v ∷ t ∷ fl ∷ s0 ∷ s1 ∷ l0 ∷ l1 ∷ l2 ∷ l3 ∷ p)
    → decode (buffer v t fl s0 s1 l0 l1 l2 l3 p c0 c1 0xa6 0xf1 rest) ≡ resync
unfolding accept checked
decode-bad_crc v t fl s0 s1 l0 l1 l2 l3 p c0 c1 rest size small bad =
    decode-accept v t fl s0 s1 l0 l1 l2 l3 p c0 c1 rest size small ∙ ground arith

-- The frame `f` on the wire with `changed` in place of the bytes under the checksum.
unfoldable pub tampered : ℕ → Frame → Bytes → Bytes → Bytes
tampered v f changed rest =
    0xa6 ∷ 0xf1 ∷ (changed ++ (u16_to_le_bytes (crc16_ccitt_false (body v f)) ++ rest))

-- The changed bytes still have the length field of `f` and a payload of that length.
decode-tampered_parts :
    (v : ℕ) (f : Frame) (changed rest : Bytes) (v' t' fl' s0' s1' : ℕ) (p' : Bytes)
    → length f.payload ≤ max_payload
    → changed
      ≡ v'
        ∷ t'
        ∷ fl'
        ∷ s0'
        ∷ s1'
        ∷ length f.payload % 2 ^ 8
        ∷ length f.payload / 2 ^ 8 % 2 ^ 8
        ∷ 0
        ∷ 0
        ∷ p'
    → length p' ≡ length f.payload
    → crc16_ccitt_false (body v f) ≢ crc16_ccitt_false changed
    → decode (tampered v f changed rest) ≡ resync
unfolding tampered
decode-tampered_parts v f changed rest v' t' fl' s0' s1' p' small e same differs =
    let crc = crc16_ccitt_false (body v f) in
    ap (λ l. decode (0xa6 ∷ 0xf1 ∷ (l ++ (u16_to_le_bytes crc ++ rest)))) e
    ∙ decode-bad_crc v' t' fl' s0' s1' _ _ 0 0 p' _ _ rest (omega arith) (omega arith) (λ q.
      differs (
        sym (u16_from_le_bytes-to crc (crc16_ccitt_false-IsU16 (body v f)))
        ∙ q
        ∙ ap crc16_ccitt_false (sym e)))

-- A frame on the wire with one byte changed to another byte, in the version, the type, the flags,
-- the sequence number or the payload, is answered `resync`, whatever follows it.
pub decode-tampered :
    (v : ℕ) (f : Frame) (front : Bytes) (a b : ℕ) (back rest : Bytes)
    → IsFrame f
    → IsByte a
    → IsByte b
    → a ≢ b
    → body v f ≡ front ++ (a ∷ back)
    → (length front < 5) ⊎ (9 ≤ length front)
    → decode (tampered v f (front ++ (b ∷ back)) rest) ≡ resync
unfolding body
decode-tampered v f front a b back rest ok p q ne e place = by_place front e place differs
  where
    differs : crc16_ccitt_false (body v f) ≢ crc16_ccitt_false (front ++ (b ∷ back))
    differs h =
        crc16_ccitt_false_detects_byte front a b back p q ne (ap crc16_ccitt_false (sym e) ∙ h)

    by_place :
        (xs : Bytes)
        → body v f ≡ xs ++ (a ∷ back)
        → (length xs < 5) ⊎ (9 ≤ length xs)
        → crc16_ccitt_false (body v f) ≢ crc16_ccitt_false (xs ++ (b ∷ back))
        → decode (tampered v f (xs ++ (b ∷ back)) rest) ≡ resync
    by_place [] e place d =
        decode-tampered_parts v f _ rest b (to_u8 f.typ) f.flags (f.seq % 2 ^ 8)
          (f.seq / 2 ^ 8 % 2 ^ 8) f.payload ok.payload_fits (cc) refl d
    by_place (x0 ∷ []) e place d =
        decode-tampered_parts v f _ rest v b f.flags (f.seq % 2 ^ 8) (f.seq / 2 ^ 8 % 2 ^ 8)
          f.payload ok.payload_fits (cc) refl d
    by_place (x0 ∷ x1 ∷ []) e place d =
        decode-tampered_parts v f _ rest v (to_u8 f.typ) b (f.seq % 2 ^ 8) (f.seq / 2 ^ 8 % 2 ^ 8)
          f.payload ok.payload_fits (cc) refl d
    by_place (x0 ∷ x1 ∷ x2 ∷ []) e place d =
        decode-tampered_parts v f _ rest v (to_u8 f.typ) f.flags b (f.seq / 2 ^ 8 % 2 ^ 8) f.payload
          ok.payload_fits (cc) refl d
    by_place (x0 ∷ x1 ∷ x2 ∷ x3 ∷ []) e place d =
        decode-tampered_parts v f _ rest v (to_u8 f.typ) f.flags (f.seq % 2 ^ 8) b f.payload
          ok.payload_fits (cc) refl d
    by_place (x0 ∷ x1 ∷ x2 ∷ x3 ∷ x4 ∷ x5 ∷ x6 ∷ x7 ∷ x8 ∷ xs) e place d =
        decode-tampered_parts v f _ rest v (to_u8 f.typ) f.flags (f.seq % 2 ^ 8)
          (f.seq / 2 ^ 8 % 2 ^ 8) (xs ++ (b ∷ back)) ok.payload_fits (cc)
          (omega (arith, ap length e, length-append xs (b ∷ back), length-append xs (a ∷ back))) d
    by_place xs e place d = absurd (omega arith)
