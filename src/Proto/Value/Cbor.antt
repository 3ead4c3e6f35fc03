-- ===== src/Proto/Value/Cbor.antt =====
-- The part of the `minicbor` crate that crates/flip-proto/src/value.rs calls: the encoder's writes,
-- as the bytes that each appends, and the decoder's reads of the bytes ahead, `none` for its error.
use flip_link.Base.{ℕ, ◌<◌, ◌^◌, ◌≡◌, Bool, Option, some, Text, ℤ, pos, negsuc}
use flip_link.Base.{◌++◌, length, All}
use flip_link.Proto.Bytes.{Bytes, IsU64}

-- minicbor's `Type`; `other` stands for those that the code treats alike (floats, tags, …).
pub data Kind : Type 0 where
  null_kind bool_kind u8_kind u16_kind u32_kind u64_kind i8_kind i16_kind i32_kind i64_kind : Kind
  string_kind bytes_kind array_kind array_indef_kind map_kind map_indef_kind break_kind : Kind
  other_kind : Kind

pub record Minicbor : Type 0 where
  pub enc_null : Bytes
  pub enc_bool : Bool → Bytes
  pub enc_u64 : ℕ → Bytes
  pub enc_i64 : ℤ → Bytes
  pub enc_str : Text → Bytes
  pub enc_bytes : Bytes → Bytes
  pub enc_array : ℕ → Bytes
  pub enc_map : ℕ → Bytes
  pub datatype : Bytes → Option Kind
  pub dec_null : Bytes → Option Bytes
  pub dec_bool : Bytes → Option (Bool × Bytes)
  pub dec_u64 : Bytes → Option (ℕ × Bytes)
  pub dec_i64 : Bytes → Option (ℤ × Bytes)
  pub dec_str : Bytes → Option (Text × Bytes)
  pub dec_bytes : Bytes → Option (Bytes × Bytes)
  pub dec_array : Bytes → Option (Option ℕ × Bytes)
  pub dec_map : Bytes → Option (Option ℕ × Bytes)
  pub skip : Bytes → Option Bytes

-- An `i64`: from -2 ^ 63 to 2 ^ 63 - 1.
abbrev pub IsI64 : ℤ → Type 0
IsI64 (pos n) = n < 2 ^ 63
IsI64 (negsuc n) = n < 2 ^ 63

-- A Unicode text: the code points of Rust's `char`s are below this bound.
abbrev pub IsText : Text → Type 0
IsText s = All (λ c. c < 0x110000) s × (length s < 2 ^ 32)

abbrev pub IsUnsignedKind : Kind → Type 0
IsUnsignedKind u8_kind = Unit {0}
IsUnsignedKind u16_kind = Unit {0}
IsUnsignedKind u32_kind = Unit {0}
IsUnsignedKind u64_kind = Unit {0}
IsUnsignedKind _ = ⊥

abbrev pub IsSignedKind : Kind → Type 0
IsSignedKind i8_kind = Unit {0}
IsSignedKind i16_kind = Unit {0}
IsSignedKind i32_kind = Unit {0}
IsSignedKind i64_kind = Unit {0}
IsSignedKind _ = ⊥

-- What the crate documents: each write is read back by the read of the same name, the type ahead
-- is that of the write, and a signed write of a number that is not negative is CBOR's unsigned one.
pub record WritesAreRead (m : Minicbor) : Type 0 where
  pub null_type : (r : Bytes) → m.datatype (m.enc_null ++ r) ≡ some null_kind
  pub null_read : (r : Bytes) → m.dec_null (m.enc_null ++ r) ≡ some r
  pub bool_type : (b : Bool) (r : Bytes) → m.datatype (m.enc_bool b ++ r) ≡ some bool_kind
  pub bool_read : (b : Bool) (r : Bytes) → m.dec_bool (m.enc_bool b ++ r) ≡ some (b, r)
  pub u64_type :
      (n : ℕ) (r : Bytes)
      → IsU64 n
      → (k : Kind) × (m.datatype (m.enc_u64 n ++ r) ≡ some k) × IsUnsignedKind k
  pub u64_read : (n : ℕ) (r : Bytes) → IsU64 n → m.dec_u64 (m.enc_u64 n ++ r) ≡ some (n, r)
  pub i64_unsigned : (n : ℕ) → n < 2 ^ 63 → m.enc_i64 (pos n) ≡ m.enc_u64 n
  pub i64_type :
      (n : ℕ) (r : Bytes)
      → n < 2 ^ 63
      → (k : Kind) × (m.datatype (m.enc_i64 (negsuc n) ++ r) ≡ some k) × IsSignedKind k
  pub i64_read :
      (n : ℕ) (r : Bytes) → n < 2 ^ 63 → m.dec_i64 (m.enc_i64 (negsuc n) ++ r) ≡ some (negsuc n, r)
  pub str_type :
      (s : Text) (r : Bytes) → IsText s → m.datatype (m.enc_str s ++ r) ≡ some string_kind
  pub str_read : (s : Text) (r : Bytes) → IsText s → m.dec_str (m.enc_str s ++ r) ≡ some (s, r)
  pub bytes_type :
      (b : Bytes) (r : Bytes)
      → length b < 2 ^ 64
      → m.datatype (m.enc_bytes b ++ r) ≡ some bytes_kind
  pub bytes_read :
      (b : Bytes) (r : Bytes) → length b < 2 ^ 64 → m.dec_bytes (m.enc_bytes b ++ r) ≡ some (b, r)
  pub array_type : (n : ℕ) (r : Bytes) → IsU64 n → m.datatype (m.enc_array n ++ r) ≡ some array_kind
  pub array_read :
      (n : ℕ) (r : Bytes) → IsU64 n → m.dec_array (m.enc_array n ++ r) ≡ some (some n, r)
  pub map_type : (n : ℕ) (r : Bytes) → IsU64 n → m.datatype (m.enc_map n ++ r) ≡ some map_kind
  pub map_read : (n : ℕ) (r : Bytes) → IsU64 n → m.dec_map (m.enc_map n ++ r) ≡ some (some n, r)

-- What a read takes from the bytes ahead: at least the item's first byte.
abbrev pub Takes : {A : Type 0} → (Bytes → Option (A × Bytes)) → Type 0
Takes {A} read = (b : Bytes) (a : A) (r : Bytes) → read b ≡ some (a, r) → length r < length b

pub record ReadsTake (m : Minicbor) : Type 0 where
  pub null_takes : (b r : Bytes) → m.dec_null b ≡ some r → length r < length b
  pub bool_takes : Takes m.dec_bool
  pub u64_takes : Takes m.dec_u64
  pub i64_takes : Takes m.dec_i64
  pub str_takes : Takes m.dec_str
  pub bytes_takes : Takes m.dec_bytes
  pub array_takes : Takes m.dec_array
  pub map_takes : Takes m.dec_map
  pub skip_takes : (b r : Bytes) → m.skip b ≡ some r → length r < length b
