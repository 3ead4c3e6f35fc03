-- ===== src/Proto/Frame/Wire.antt =====
-- What `encode` of crates/flip-proto/src/frame.rs writes, as one list of bytes.
use flip_link.Base.{ℕ, ◌+◌, ◌-◌, ◌/◌, ◌%◌, ◌^◌, ◌<◌, ◌≤◌, ◌≡◌, refl, sym, ap, ◌∙◌, arith}
use flip_link.Base.{[], ◌∷◌, ◌++◌, length, drop, All, Option, none, some, length-append}
use flip_link.Base.{take-append_length, append_assoc, drop-drop, length-drop, ◌↔◌, ◌⊎◌}
use flip_link.Proto.Bytes.{
  Bytes, IsByte, IsU16, u16_to_le_bytes, overlay, copy_at, slice, u32_to_le_bytes,
}
use flip_link.Proto.Bytes.{overlay_lem, copy_at-append}
use flip_link.Proto.Crc.{crc16_ccitt_false}
use flip_link.Proto.Frame.{
  Frame, to_u8, fill_header, fill_payload, encode, max_payload, header_size, crc_size,
}

-- The bytes under the checksum, for any value of the version byte.
unfoldable pub body : ℕ → Frame → Bytes
body version f =
    version
    ∷ to_u8 f.typ
    ∷ f.flags
    ∷ f.seq % 2 ^ 8
    ∷ f.seq / 2 ^ 8 % 2 ^ 8
    ∷ length f.payload % 2 ^ 8
    ∷ length f.payload / 2 ^ 8 % 2 ^ 8
    ∷ 0
    ∷ 0
    ∷ f.payload

unfoldable pub wire : ℕ → Frame → Bytes
wire version f =
    0xa6 ∷ 0xf1 ∷ (body version f ++ u16_to_le_bytes (crc16_ccitt_false (body version f)))

-- The values that a `Frame` of the program can have, with a payload that fits.
pub record IsFrame (f : Frame) : Type 0 where
  pub flags_byte : IsByte f.flags
  pub seq_u16 : IsU16 f.seq
  pub payload_bytes : All IsByte f.payload
  pub payload_fits : length f.payload ≤ max_payload

abbrev pub frame_size : Frame → ℕ
frame_size f = header_size + length f.payload + crc_size

pub length-wire : (v : ℕ) (f : Frame) → length (wire v f) ≡ frame_size f
unfolding wire body
length-wire v f =
    omega (arith, length-append f.payload (u16_to_le_bytes (crc16_ccitt_false (body v f))))

-- The two late writes, over a front that is there already.
write_next :
    (front : Bytes) (n : ℕ) (bs out : Bytes)
    → n ≡ length front
    → length bs ≤ length out
    → copy_at n bs (front ++ out) ≡ front ++ (bs ++ drop (length bs) out)
write_next front n bs out e h =
    copy_at-append front n bs out e ∙ ap (λ l. front ++ l) (overlay_lem bs out h)

-- The header with the version, the type and the other fields of `f` in front of the payload.
header : Frame → Bytes
header f =
    0xa6
    ∷ 0xf1
    ∷ 1
    ∷ to_u8 f.typ
    ∷ f.flags
    ∷ f.seq % 2 ^ 8
    ∷ f.seq / 2 ^ 8 % 2 ^ 8
    ∷ length f.payload % 2 ^ 8
    ∷ length f.payload / 2 ^ 8 % 2 ^ 8
    ∷ 0
    ∷ 0
    ∷ []

small_length :
    (n : ℕ)
    → n ≤ max_payload
    → u32_to_le_bytes (n % 2 ^ 32) ≡ n % 2 ^ 8 ∷ n / 2 ^ 8 % 2 ^ 8 ∷ 0 ∷ 0 ∷ []
small_length n h = ground arith

fill_header_lem :
    (f : Frame) (o0 o1 o2 o3 o4 o5 o6 o7 o8 o9 o10 : ℕ) (out : Bytes)
    → length f.payload ≤ max_payload
    → fill_header f.typ f.flags f.seq
        (length f.payload)
        (o0 ∷ o1 ∷ o2 ∷ o3 ∷ o4 ∷ o5 ∷ o6 ∷ o7 ∷ o8 ∷ o9 ∷ o10 ∷ out)
      ≡ header f ++ out
unfolding fill_header overlay header
fill_header_lem f o0 o1 o2 o3 o4 o5 o6 o7 o8 o9 o10 out small = ground arith

slice_of_body :
    (f : Frame) (rest : Bytes)
    → slice (header f ++ (f.payload ++ rest)) 2 (header_size + length f.payload) ≡ body 1 f
unfolding header body
slice_of_body f rest =
    take-append_length (body 1 f) rest (header_size + length f.payload - 2) (omega arith)

fill_payload_lem :
    (f : Frame) (out : Bytes)
    → length f.payload + 2 ≤ length out
    → fill_payload f.payload (header f ++ out) ≡ wire 1 f ++ drop (length f.payload + 2) out
unfolding fill_payload header wire body
fill_payload_lem f out h =
    let rest = drop (length f.payload) out in
    let crc = u16_to_le_bytes (crc16_ccitt_false (body 1 f)) in
    let tail : drop 2 rest ≡ drop (length f.payload + 2) out =
      drop-drop out (length f.payload) 2 (length f.payload + 2) refl in
    rw (write_next (header f) header_size f.payload out refl (omega arith)) (
      rw (slice_of_body f rest) (
        write_next (header f ++ f.payload) (header_size + length f.payload) crc rest (omega arith)
          (omega (arith, length-drop (length f.payload) out))
        ∙ ap (λ l. header f ++ l)
            (ap (λ l. f.payload ++ (crc ++ l)) tail ∙ sym (append_assoc f.payload crc _))))

-- The call of `encode` that writes the frame `f`.
abbrev pub encode_frame : Frame → Bytes → Option (ℕ × Bytes)
encode_frame f out = encode f.typ f.flags f.seq f.payload out

encode_fits :
    (f : Frame) (out : Bytes)
    → length f.payload ≤ max_payload
    → frame_size f ≤ length out
    → encode_frame f out
      ≡ some (
        frame_size f,
        fill_payload f.payload (fill_header f.typ f.flags f.seq (length f.payload) out),
      )
unfolding encode
encode_fits f out small h = ground arith

-- A payload of at most 65535 bytes and a slice with room for 13 bytes more: `encode` returns that
-- size, writes the frame with version 1 at the front of the slice, and keeps the bytes behind it.
pub encode-wire :
    (f : Frame) (out : Bytes)
    → length f.payload ≤ max_payload
    → frame_size f ≤ length out
    → encode_frame f out ≡ some (frame_size f, wire 1 f ++ drop (frame_size f) out)
encode-wire f (o0 ∷ o1 ∷ o2 ∷ o3 ∷ o4 ∷ o5 ∷ o6 ∷ o7 ∷ o8 ∷ o9 ∷ o10 ∷ out) small h =
    encode_fits f (o0 ∷ o1 ∷ o2 ∷ o3 ∷ o4 ∷ o5 ∷ o6 ∷ o7 ∷ o8 ∷ o9 ∷ o10 ∷ out) small h
    ∙ rw (fill_header_lem f o0 o1 o2 o3 o4 o5 o6 o7 o8 o9 o10 out small) (
        rw (fill_payload_lem f out (omega arith)) (
          ap (λ l. some (frame_size f, wire 1 f ++ l))
            (drop-drop (o0 ∷ o1 ∷ o2 ∷ o3 ∷ o4 ∷ o5 ∷ o6 ∷ o7 ∷ o8 ∷ o9 ∷ o10 ∷ out) 11
              (length f.payload + 2) (frame_size f) (omega arith))))
encode-wire f out small h = absurd (omega arith)

-- `encode` refuses a slice that is too short, and a payload of more than 65535 bytes unless its
-- length reaches 2 ^ 32.
encode-eq-none :
    (f : Frame) (out : Bytes)
    → length f.payload < 2 ^ 32
    → (encode_frame f out ≡ none) ↔ ((max_payload < length f.payload) ⊎ (length out < frame_size f))
unfolding encode
encode-eq-none f out h = ground arith
