-- ===== src/Proto/Value/Codec.antt =====
-- `Encode` and `Decode` of crates/flip-proto/src/value.rs, over the crate `minicbor` as a parameter.
-- `decode` calls itself for the items of a container: fuel counts the depth and, in the loops up
-- to a break, the rounds. `stuck` is no result of the program: the fuel ran out.
use flip_link.Base.{ℕ, zero, suc, Option, none, some, ◌++◌, [], length}
use flip_link.Proto.Bytes.{Bytes}
use flip_link.Proto.Value.{Value, Values, Entries, nil, cons, end, entry}
use flip_link.Proto.Value.Cbor.{Minicbor, Kind}

pub data Decoded {ℓ} (A : Type ℓ) : Type ℓ where
  ok : A → Bytes → Decoded A
  err : Decoded A
  stuck : Decoded A

infixl 5 ◌>>=◌
abbrev pub ◌>>=◌ {ℓ κ} : {A : Type ℓ} {B : Type κ} → Decoded A → (A → Bytes → Decoded B) → Decoded B
ok a r >>= f = f a r
err >>= f = err
stuck >>= f = stuck

-- A read of the decoder that fails with its error.
abbrev pub take_read {ℓ} : {A : Type ℓ} → Option (A × Bytes) → Decoded A
take_read none = err
take_read (some (a, r)) = ok a r

-- A read that gives nothing but the bytes behind it.
abbrev pub read_skip {ℓ} : {A : Type ℓ} → Option Bytes → A → Decoded A
read_skip none a = err
read_skip (some r) a = ok a r

-- The round of `while d.datatype()? != Type::Break { … }`: what is behind the loop, or the body.
abbrev pub until_break {ℓ} : {A : Type ℓ} → Option Kind → Decoded A → Decoded A → Decoded A
until_break none done body = err
until_break (some Kind.break_kind) done body = done
until_break (some k) done body = body

abbrev pub count : Values → ℕ
count nil = 0
count (cons v vs) = suc (count vs)

abbrev pub count_entries : Entries → ℕ
count_entries end = 0
count_entries (entry k v es) = suc (count_entries es)

module _ (m : Minicbor) where
  open m use {
    enc_null, enc_bool, enc_u64, enc_i64, enc_str, enc_bytes, enc_array, enc_map, datatype,
    dec_null, dec_bool, dec_u64, dec_i64, dec_str, dec_bytes, dec_array, dec_map, skip,
  }

  unfoldable mutual
    pub encode : Value → Bytes
    encode Value.null = enc_null
    encode (Value.bool b) = enc_bool b
    encode (Value.u64 n) = enc_u64 n
    encode (Value.i64 n) = enc_i64 n
    encode (Value.text s) = enc_str s
    encode (Value.bytes b) = enc_bytes b
    encode (Value.array vs) = enc_array (count vs) ++ encode_values vs
    encode (Value.map es) = enc_map (count_entries es) ++ encode_entries es

    pub encode_values : Values → Bytes
    encode_values nil = []
    encode_values (cons v vs) = encode v ++ encode_values vs

    pub encode_entries : Entries → Bytes
    encode_entries end = []
    encode_entries (entry k v es) = enc_str k ++ (encode v ++ encode_entries es)

  module _ (one : Bytes → Decoded Value) where
    -- `for _ in 0..n { out.push(Value::decode(d, ctx)?) }`
    unfoldable pub decode_items : ℕ → Bytes → Decoded Values
    decode_items zero b = ok nil b
    decode_items (suc n) b = one b >>= λ v r. decode_items n r >>= λ vs r'. ok (cons v vs) r'

    unfoldable pub decode_pairs : ℕ → Bytes → Decoded Entries
    decode_pairs zero b = ok end b
    decode_pairs (suc n) b = take_read (dec_str b) >>= λ k r1.
        one r1 >>= λ v r2. decode_pairs n r2 >>= λ es r'. ok (entry k v es) r'

    unfoldable pub items_to_break : ℕ → Bytes → Decoded Values
    items_to_break zero b = stuck
    items_to_break (suc fuel) b =
        until_break (datatype b) (read_skip (skip b) nil)
          (one b >>= λ v r. items_to_break fuel r >>= λ vs r'. ok (cons v vs) r')

    unfoldable pub pairs_to_break : ℕ → Bytes → Decoded Entries
    pairs_to_break zero b = stuck
    pairs_to_break (suc fuel) b = until_break (datatype b) (read_skip (skip b) end) (
        take_read (dec_str b) >>= λ key r1.
        one r1 >>= λ v r2. pairs_to_break fuel r2 >>= λ es r'. ok (entry key v es) r')

    -- The length that `d.array()` or `d.map()` answers: known, or up to a break.
    unfoldable pub decode_array : ℕ → Option ℕ → Bytes → Decoded Value
    decode_array fuel (some n) b = decode_items n b >>= λ vs r. ok (Value.array vs) r
    decode_array fuel none b = items_to_break fuel b >>= λ vs r. ok (Value.array vs) r

    unfoldable pub decode_map : ℕ → Option ℕ → Bytes → Decoded Value
    decode_map fuel (some n) b = decode_pairs n b >>= λ es r. ok (Value.map es) r
    decode_map fuel none b = pairs_to_break fuel b >>= λ es r. ok (Value.map es) r

    -- `match d.datatype()? { … }`
    unfoldable pub decode_kind : ℕ → Kind → Bytes → Decoded Value
    decode_kind fuel Kind.null_kind b = read_skip (dec_null b) Value.null
    decode_kind fuel Kind.bool_kind b = take_read (dec_bool b) >>= λ x r. ok (Value.bool x) r
    decode_kind fuel Kind.u8_kind b = take_read (dec_u64 b) >>= λ n r. ok (Value.u64 n) r
    decode_kind fuel Kind.u16_kind b = take_read (dec_u64 b) >>= λ n r. ok (Value.u64 n) r
    decode_kind fuel Kind.u32_kind b = take_read (dec_u64 b) >>= λ n r. ok (Value.u64 n) r
    decode_kind fuel Kind.u64_kind b = take_read (dec_u64 b) >>= λ n r. ok (Value.u64 n) r
    decode_kind fuel Kind.i8_kind b = take_read (dec_i64 b) >>= λ n r. ok (Value.i64 n) r
    decode_kind fuel Kind.i16_kind b = take_read (dec_i64 b) >>= λ n r. ok (Value.i64 n) r
    decode_kind fuel Kind.i32_kind b = take_read (dec_i64 b) >>= λ n r. ok (Value.i64 n) r
    decode_kind fuel Kind.i64_kind b = take_read (dec_i64 b) >>= λ n r. ok (Value.i64 n) r
    decode_kind fuel Kind.string_kind b = take_read (dec_str b) >>= λ s r. ok (Value.text s) r
    decode_kind fuel Kind.bytes_kind b = take_read (dec_bytes b) >>= λ x r. ok (Value.bytes x) r
    decode_kind fuel Kind.array_kind b = take_read (dec_array b) >>= decode_array fuel
    decode_kind fuel Kind.array_indef_kind b = take_read (dec_array b) >>= decode_array fuel
    decode_kind fuel Kind.map_kind b = take_read (dec_map b) >>= decode_map fuel
    decode_kind fuel Kind.map_indef_kind b = take_read (dec_map b) >>= decode_map fuel
    decode_kind fuel Kind.break_kind b = err
    decode_kind fuel Kind.other_kind b = err

    -- `d.datatype()?`
    unfoldable pub decode_type : ℕ → Option Kind → Bytes → Decoded Value
    decode_type fuel none b = err
    decode_type fuel (some k) b = decode_kind fuel k b

  unfoldable pub decode_fuel : ℕ → Bytes → Decoded Value
  decode_fuel zero b = stuck
  decode_fuel (suc fuel) b = decode_type (decode_fuel fuel) fuel (datatype b) b

  -- An item takes a byte at least, so the bytes ahead bound the depth and the rounds.
  unfoldable pub decode : Bytes → Decoded Value
  decode b = decode_fuel (suc (length b)) b
