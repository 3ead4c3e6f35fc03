-- ===== src/Proto/Value/Tests.antt =====
-- The value codec of crates/flip-proto/src/value.rs over a small encoding that keeps the laws.
use flip_link.Base.{
  ◌⊎◌, ℕ, ◌<◌, ◌≡◌, refl, ap, arith, length, Option, none, some, Bool, true, false,
}
use flip_link.Base.{[], ◌∷◌, ◌++◌, ℤ, pos, negsuc, take, drop, codes, length-drop}
use flip_link.Base.{take-append_length, drop-append_length, if◌then◌else◌, ◌==◌}
use flip_link.Proto.Bytes.{Bytes}
use flip_link.Proto.Value.{Value, nil, cons, end, entry}
use flip_link.Proto.Value.Cbor.{Minicbor, Kind, WritesAreRead, ReadsTake}
use flip_link.Proto.Value.Codec.{ok, err, encode, decode}
use flip_link.Proto.Value.Total.{decode-Settled}
use flip_link.Proto.Value.RoundTrip.{norm, IsValue, decode-encode_value}

-- A tag, then each number as one element, and a length before what is counted.
abbrev tag_kind : ℕ → Kind
tag_kind t =
    if t == 0
    then Kind.null_kind
    else if t == 1
    then Kind.bool_kind
    else if t == 2
    then Kind.u64_kind
    else if t == 3
    then Kind.i64_kind
    else if t == 4
    then Kind.string_kind
    else if t == 5
    then Kind.bytes_kind
    else if t == 6
    then Kind.array_kind
    else if t == 7
    then Kind.map_kind
    else Kind.other_kind

abbrev tag_ahead : Bytes → Option Kind
tag_ahead [] = none
tag_ahead (t ∷ r) = some (tag_kind t)

abbrev counted : Bytes → Option (Bytes × Bytes)
counted (t ∷ n ∷ r) = some (take n r, drop n r)
counted _ = none

abbrev number : Bytes → Option (ℕ × Bytes)
number (t ∷ n ∷ r) = some (n, r)
number _ = none

abbrev negative : Bytes → Option (ℤ × Bytes)
negative (t ∷ n ∷ r) = some (negsuc n, r)
negative _ = none

abbrev flag : Bytes → Option (Bool × Bytes)
flag (t ∷ n ∷ r) = some (n == 1, r)
flag _ = none

abbrev size : Bytes → Option (Option ℕ × Bytes)
size (t ∷ n ∷ r) = some (some n, r)
size _ = none

abbrev next : Bytes → Option Bytes
next [] = none
next (t ∷ r) = some r

abbrev signed : ℤ → Bytes
signed (pos n) = 2 ∷ n ∷ []
signed (negsuc n) = 3 ∷ n ∷ []

abbrev toy : Minicbor
toy = record {
  enc_null = 0 ∷ [];
  enc_bool = λ b. 1 ∷ (if b then 1 else 0) ∷ [];
  enc_u64 = λ n. 2 ∷ n ∷ [];
  enc_i64 = signed;
  enc_str = λ s. 4 ∷ length s ∷ s;
  enc_bytes = λ b. 5 ∷ length b ∷ b;
  enc_array = λ n. 6 ∷ n ∷ [];
  enc_map = λ n. 7 ∷ n ∷ [];
  datatype = tag_ahead;
  dec_null = next;
  dec_bool = flag;
  dec_u64 = number;
  dec_i64 = negative;
  dec_str = counted;
  dec_bytes = counted;
  dec_array = size;
  dec_map = size;
  skip = next;
}

counted_back : (t : ℕ) (s r : Bytes) → counted (t ∷ length s ∷ (s ++ r)) ≡ some (s, r)
counted_back t s r =
    rw (take-append_length s r (length s) refl, drop-append_length s r (length s) refl) refl

toy-WritesAreRead : WritesAreRead toy
toy-WritesAreRead = record {
  null_type = λ r. refl;
  null_read = λ r. refl;
  bool_type = λ b r. refl;
  bool_read = λ b r. elim b as (λ b. flag (1 ∷ (if b then 1 else 0) ∷ r) ≡ some (b, r)) [
    | true ↦ refl
    | false ↦ refl
  ];
  u64_type = λ n r h. (Kind.u64_kind, refl, tt);
  u64_read = λ n r h. refl;
  i64_unsigned = λ n h. refl;
  i64_type = λ n r h. (Kind.i64_kind, refl, tt);
  i64_read = λ n r h. refl;
  str_type = λ s r h. refl;
  str_read = λ s r h. counted_back 4 s r;
  bytes_type = λ b r h. refl;
  bytes_read = λ b r h. counted_back 5 b r;
  array_type = λ n r h. refl;
  array_read = λ n r h. refl;
  map_type = λ n r h. refl;
  map_read = λ n r h. refl;
}

next_takes : (b r : Bytes) → next b ≡ some r → length r < length b
next_takes [] r e = absurd cc
next_takes (t ∷ s) r e = let same : s ≡ r = cc in omega (arith, ap length same)

number_takes : (b : Bytes) (a : ℕ) (r : Bytes) → number b ≡ some (a, r) → length r < length b
number_takes [] a r e = absurd cc
number_takes (t ∷ []) a r e = absurd cc
number_takes (t ∷ n ∷ s) a r e = let same : s ≡ r = cc in omega (arith, ap length same)

negative_takes : (b : Bytes) (a : ℤ) (r : Bytes) → negative b ≡ some (a, r) → length r < length b
negative_takes [] a r e = absurd cc
negative_takes (t ∷ []) a r e = absurd cc
negative_takes (t ∷ n ∷ s) a r e = let same : s ≡ r = cc in omega (arith, ap length same)

flag_takes : (b : Bytes) (a : Bool) (r : Bytes) → flag b ≡ some (a, r) → length r < length b
flag_takes [] a r e = absurd cc
flag_takes (t ∷ []) a r e = absurd cc
flag_takes (t ∷ n ∷ s) a r e = let same : s ≡ r = cc in omega (arith, ap length same)

size_takes : (b : Bytes) (a : Option ℕ) (r : Bytes) → size b ≡ some (a, r) → length r < length b
size_takes [] a r e = absurd cc
size_takes (t ∷ []) a r e = absurd cc
size_takes (t ∷ n ∷ s) a r e = let same : s ≡ r = cc in omega (arith, ap length same)

counted_takes : (b a r : Bytes) → counted b ≡ some (a, r) → length r < length b
counted_takes [] a r e = absurd cc
counted_takes (t ∷ []) a r e = absurd cc
counted_takes (t ∷ n ∷ s) a r e =
    let same : drop n s ≡ r = cc in omega (arith, ap length same, length-drop n s)

toy-ReadsTake : ReadsTake toy
toy-ReadsTake = record {
  null_takes = next_takes;
  bool_takes = flag_takes;
  u64_takes = number_takes;
  i64_takes = negative_takes;
  str_takes = counted_takes;
  bytes_takes = counted_takes;
  array_takes = size_takes;
  map_takes = size_takes;
  skip_takes = next_takes;
}

-- `{"n": [7, -1, true], "b": h'00ff'}`
abbrev sample : Value
sample = Value.map (
    entry (codes "n")
      (Value.array
        (cons (Value.i64 (pos 7)) (cons (Value.i64 (negsuc 0)) (cons (Value.bool true) nil))))
      (entry (codes "b") (Value.bytes (0 ∷ 0xff ∷ [])) end))

sample-IsValue : IsValue sample
unfolding IsValue
sample-IsValue = ground arith

decode-encode_value_example : decode toy (encode toy sample ++ (9 ∷ [])) ≡ ok (norm sample) (9 ∷ [])
decode-encode_value_example =
    decode-encode_value toy toy-WritesAreRead toy-ReadsTake sample (9 ∷ []) sample-IsValue

test_norm : norm (Value.i64 (pos 7)) ≡ Value.u64 7
unfolding norm
test_norm = refl

abbrev cut_short : Bytes
cut_short = 6 ∷ 2 ∷ 2 ∷ 5 ∷ []

decode-Settled_example :
    (decode toy cut_short ≡ err)
    ⊎ ((v : Value) × (r : Bytes) × (decode toy cut_short ≡ ok v r) × (length r < length cut_short))
decode-Settled_example = decode-Settled toy toy-ReadsTake cut_short
