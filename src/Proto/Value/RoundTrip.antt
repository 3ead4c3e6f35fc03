-- ===== src/Proto/Value/RoundTrip.antt =====
-- `Encode`, then `Decode`, of crates/flip-proto/src/value.rs.
use flip_link.Base.{ℕ, zero, suc, ◌<◌, ◌^◌, ◌≡◌, refl, ◌∙◌, ap, arith, length, some, Bool}
use flip_link.Base.{◌++◌, append_assoc, length-append, Text, ℤ, pos, negsuc}
use flip_link.Proto.Bytes.{Bytes, IsU64}
use flip_link.Proto.Value.{Value, Values, Entries, nil, cons, end, entry}
use flip_link.Proto.Value.Cbor.{
  Minicbor, Kind, IsI64, IsText, IsUnsignedKind, IsSignedKind, WritesAreRead, ReadsTake,
}
use flip_link.Proto.Value.Codec.{
  Decoded, ok, ◌>>=◌, take_read, count, count_entries, encode, encode_values, encode_entries,
  decode_items, decode_pairs, decode_array, decode_map, decode_kind, decode_type, decode_fuel,
  decode,
}

unfoldable mutual
  -- What Rust's types say of a value: the widths of its numbers and of its lengths.
  pub IsValue : Value → Type 0
  IsValue Value.null = Unit
  IsValue (Value.bool b) = Unit
  IsValue (Value.u64 n) = IsU64 n
  IsValue (Value.i64 n) = IsI64 n
  IsValue (Value.text s) = IsText s
  IsValue (Value.bytes b) = length b < 2 ^ 64
  IsValue (Value.array vs) = IsU64 (count vs) × AreValues vs
  IsValue (Value.map es) = IsU64 (count_entries es) × AreEntries es

  pub AreValues : Values → Type 0
  AreValues nil = Unit
  AreValues (cons v vs) = IsValue v × AreValues vs

  pub AreEntries : Entries → Type 0
  AreEntries end = Unit
  AreEntries (entry k v es) = IsText k × IsValue v × AreEntries es

unfoldable mutual
  -- CBOR has one form for the numbers from 0 on: they come back as `U64`.
  pub norm : Value → Value
  norm (Value.i64 (pos n)) = Value.u64 n
  norm (Value.array vs) = Value.array (norm_values vs)
  norm (Value.map es) = Value.map (norm_entries es)
  norm v = v

  pub norm_values : Values → Values
  norm_values nil = nil
  norm_values (cons v vs) = cons (norm v) (norm_values vs)

  pub norm_entries : Entries → Entries
  norm_entries end = end
  norm_entries (entry k v es) = entry k (norm v) (norm_entries es)

module _ (m : Minicbor) (one : Bytes → Decoded Value) (fuel : ℕ) where
  unsigned_kind :
      (k : Kind) (b : Bytes)
      → IsUnsignedKind k
      → decode_kind m one fuel k b ≡ (take_read (m.dec_u64 b) >>= λ n r. ok (Value.u64 n) r)
  unfolding decode_kind
  unsigned_kind k b h =
      elim k
          as (λ k.
            IsUnsignedKind k
            → decode_kind m one fuel k b
              ≡ (take_read (m.dec_u64 b) >>= λ n r. ok (Value.u64 n) r)) [
                | Kind.u8_kind ↦ λ h. refl
                | Kind.u16_kind ↦ λ h. refl
                | Kind.u32_kind ↦ λ h. refl
                | Kind.u64_kind ↦ λ h. refl
                | _ ↦ λ h. absurd h
              ]
        h

  signed_kind :
      (k : Kind) (b : Bytes)
      → IsSignedKind k
      → decode_kind m one fuel k b ≡ (take_read (m.dec_i64 b) >>= λ n r. ok (Value.i64 n) r)
  unfolding decode_kind
  signed_kind k b h =
      elim k
          as (λ k.
            IsSignedKind k
            → decode_kind m one fuel k b
              ≡ (take_read (m.dec_i64 b) >>= λ n r. ok (Value.i64 n) r)) [
                | Kind.i8_kind ↦ λ h. refl
                | Kind.i16_kind ↦ λ h. refl
                | Kind.i32_kind ↦ λ h. refl
                | Kind.i64_kind ↦ λ h. refl
                | _ ↦ λ h. absurd h
              ]
        h

-- The scalars: the type ahead, then the read.
module _ (m : Minicbor) (laws : WritesAreRead m) (one : Bytes → Decoded Value) (fuel : ℕ)
    (r : Bytes) where
  open laws use {
    null_type, null_read, bool_type, bool_read, u64_type, u64_read, i64_unsigned, i64_type,
    i64_read, str_type, str_read, bytes_type, bytes_read,
  }

  read-null :
      decode_type m one fuel (m.datatype (m.enc_null ++ r)) (m.enc_null ++ r) ≡ ok Value.null r
  unfolding decode_type decode_kind
  read-null = rw (null_type r, null_read r) refl

  read-bool :
      (b : Bool)
      → decode_type m one fuel (m.datatype (m.enc_bool b ++ r)) (m.enc_bool b ++ r)
        ≡ ok (Value.bool b) r
  unfolding decode_type decode_kind
  read-bool b = rw (bool_type b r, bool_read b r) refl

  read-u64 :
      (n : ℕ)
      → IsU64 n
      → decode_type m one fuel (m.datatype (m.enc_u64 n ++ r)) (m.enc_u64 n ++ r)
        ≡ ok (Value.u64 n) r
  unfolding decode_type
  read-u64 n h =
      let (k, e, u) = u64_type n r h in
      rw (e, unsigned_kind m one fuel k (m.enc_u64 n ++ r) u, u64_read n r h) refl

  read-i64 :
      (n : ℤ)
      → IsI64 n
      → decode_type m one fuel (m.datatype (m.enc_i64 n ++ r)) (m.enc_i64 n ++ r)
        ≡ ok (norm (Value.i64 n)) r
  unfolding decode_type norm
  read-i64 (pos n) h = rw (i64_unsigned n h) (read-u64 n (omega arith))
  read-i64 (negsuc n) h =
      let (k, e, u) = i64_type n r h in
      rw (e, signed_kind m one fuel k (m.enc_i64 (negsuc n) ++ r) u, i64_read n r h) refl

  read-str :
      (s : Text)
      → IsText s
      → decode_type m one fuel (m.datatype (m.enc_str s ++ r)) (m.enc_str s ++ r)
        ≡ ok (Value.text s) r
  unfolding decode_type decode_kind
  read-str s h = rw (str_type s r h, str_read s r h) refl

  read-bytes :
      (b : Bytes)
      → length b < 2 ^ 64
      → decode_type m one fuel (m.datatype (m.enc_bytes b ++ r)) (m.enc_bytes b ++ r)
        ≡ ok (Value.bytes b) r
  unfolding decode_type decode_kind
  read-bytes b h = rw (bytes_type b r h, bytes_read b r h) refl

module _ (m : Minicbor) (laws : WritesAreRead m) (takes : ReadsTake m) where
  mutual
    unfolding encode decode_fuel norm IsValue decode_type decode_kind decode_array decode_map
        decode_items decode_pairs

    value_back :
        (v : Value) (fuel : ℕ) (r : Bytes)
        → IsValue v
        → length (encode m v ++ r) < fuel
        → decode_fuel m fuel (encode m v ++ r) ≡ ok (norm v) r
    value_back v zero r h g = absurd (omega arith)
    value_back Value.null (suc fuel) r h g = read-null m laws (decode_fuel m fuel) fuel r
    value_back (Value.bool b) (suc fuel) r h g = read-bool m laws (decode_fuel m fuel) fuel r b
    value_back (Value.u64 n) (suc fuel) r h g = read-u64 m laws (decode_fuel m fuel) fuel r n h
    value_back (Value.i64 n) (suc fuel) r h g = read-i64 m laws (decode_fuel m fuel) fuel r n h
    value_back (Value.text s) (suc fuel) r h g = read-str m laws (decode_fuel m fuel) fuel r s h
    value_back (Value.bytes b) (suc fuel) r h g = read-bytes m laws (decode_fuel m fuel) fuel r b h
    value_back (Value.array vs) (suc fuel) r h g =
        let body = encode_values m vs ++ r in
        let n = count vs in
        let shape = append_assoc (m.enc_array n) (encode_values m vs) r in
        let read = laws.array_read n body h.0 in
        let less = takes.array_takes (m.enc_array n ++ body) (some n) body read in
        let back = values_back vs fuel r h.1 (omega (arith, ap length shape)) in
        rw (shape, laws.array_type n body h.0, read, back) refl
    value_back (Value.map es) (suc fuel) r h g =
        let body = encode_entries m es ++ r in
        let n = count_entries es in
        let shape = append_assoc (m.enc_map n) (encode_entries m es) r in
        let read = laws.map_read n body h.0 in
        let less = takes.map_takes (m.enc_map n ++ body) (some n) body read in
        let back = entries_back es fuel r h.1 (omega (arith, ap length shape)) in
        rw (shape, laws.map_type n body h.0, read, back) refl

    values_back :
        (vs : Values) (fuel : ℕ) (r : Bytes)
        → AreValues vs
        → length (encode_values m vs ++ r) < fuel
        → decode_items m (decode_fuel m fuel) (count vs) (encode_values m vs ++ r)
          ≡ ok (norm_values vs) r
    values_back nil fuel r h g = refl
    values_back (cons v vs) fuel r h g =
        let shape = append_assoc (encode m v) (encode_values m vs) r in
        let first =
          value_back v fuel (encode_values m vs ++ r) h.0 (omega (arith, ap length shape)) in
        let back =
          values_back vs fuel r h.1 (
            omega (arith, ap length shape, length-append (encode m v) (encode_values m vs ++ r))) in
        rw (shape, first, back) refl

    entries_back :
        (es : Entries) (fuel : ℕ) (r : Bytes)
        → AreEntries es
        → length (encode_entries m es ++ r) < fuel
        → decode_pairs m (decode_fuel m fuel) (count_entries es) (encode_entries m es ++ r)
          ≡ ok (norm_entries es) r
    entries_back end fuel r h g = refl
    entries_back (entry k v es) fuel r h g =
        let tail = encode_entries m es ++ r in
        let shape = append_assoc (m.enc_str k) (encode m v ++ encode_entries m es) r in
        let inner = append_assoc (encode m v) (encode_entries m es) r in
        let read = laws.str_read k (encode m v ++ tail) h.0 in
        let less =
          takes.str_takes (m.enc_str k ++ (encode m v ++ tail)) k (encode m v ++ tail) read in
        let whole = shape ∙ ap (λ t. m.enc_str k ++ t) inner in
        let first = value_back v fuel tail h.1 (omega (arith, ap length whole)) in
        let back =
          entries_back es fuel r h.2
            (omega (arith, ap length whole, length-append (encode m v) tail)) in
        rw (whole, read, first, back) refl

-- For an encoder and a decoder that keep the crate's laws, `decode` reads an encoded value back,
-- whatever bytes follow it: it returns the value, with each signed number from 0 on as the
-- unsigned one, and exactly the bytes that follow.
pub decode-encode_value :
    (m : Minicbor)
    → WritesAreRead m
    → ReadsTake m
    → (v : Value) (r : Bytes) → IsValue v
    → decode m (encode m v ++ r) ≡ ok (norm v) r
unfolding decode
decode-encode_value m laws takes v r h =
    value_back m laws takes v (suc (length (encode m v ++ r))) r h (omega arith)
