-- ===== src/Proto/Value/Total.antt =====
-- `Value::decode` of crates/flip-proto/src/value.rs ends on every input.
use flip_link.Base.{◌⊎◌, ℕ, zero, suc, ◌+◌, ◌<◌, ◌≤◌, ◌≡◌, refl, arith, length, Option, none, some}
use flip_link.Base.{Option-cases, inl, inr}
use flip_link.Proto.Bytes.{Bytes}
use flip_link.Proto.Value.{Value}
use flip_link.Proto.Value.Cbor.{Minicbor, Kind, ReadsTake, Takes}
use flip_link.Proto.Value.Codec.{
  Decoded, ok, err, stuck, ◌>>=◌, take_read, read_skip, until_break, decode_items, decode_pairs,
  items_to_break, pairs_to_break, decode_array, decode_map, decode_kind, decode_type, decode_fuel,
  decode,
}

-- An answer that is no lack of fuel, and that takes at least `k` of the bytes ahead.
abbrev Settled {ℓ} : {A : Type ℓ} → ℕ → Bytes → Decoded A → Type 0
Settled k b (ok a r) = k + length r ≤ length b
Settled k b err = Unit
Settled k b stuck = ⊥

take_read-Settled :
    {A : Type 0} (read : Bytes → Option (A × Bytes)) (b : Bytes)
    → Takes read
    → Settled 1 b (take_read (read b))
take_read-Settled read b h = elim (Option-cases (read b)) [
  | inl e ↦ rw e tt
  | inr ((a, r), e) ↦ rw e (omega (arith, h b a r e))
]

-- What follows a settled answer may take nothing more.
bind-Settled :
    {A B : Type 0} (j k : ℕ) (b : Bytes) (x : Decoded A) (f : A → Bytes → Decoded B)
    → Settled j b x
    → k ≤ j
    → ((a : A) (r : Bytes) → j + length r ≤ length b → Settled 0 r (f a r))
    → Settled k b (x >>= f)
bind-Settled {B = B} j k b (ok a r) f h le g = weaken (f a r) (g a r h)
  where
    weaken : (y : Decoded B) → Settled 0 r y → Settled k b y
    weaken (ok c s) q = omega arith
    weaken err q = tt
    weaken stuck q = absurd q
bind-Settled j k b err f h le g = tt
bind-Settled j k b stuck f h le g = absurd h

read_skip-Settled :
    {A : Type 0} (k : ℕ) (o : Option Bytes) (b : Bytes) (a : A)
    → k ≤ 1
    → ((r : Bytes) → o ≡ some r → length r < length b)
    → Settled k b (read_skip o a)
read_skip-Settled k none b a le h = tt
read_skip-Settled k (some r) b a le h = omega (arith, h r refl)

until_break-Settled :
    {A : Type 0} (o : Option Kind) (b : Bytes) (done body : Decoded A)
    → Settled 0 b done
    → Settled 0 b body
    → Settled 0 b (until_break o done body)
until_break-Settled none b done body h g = tt
until_break-Settled (some k) b done body h g =
    elim k as (λ k. Settled 0 b (until_break (some k) done body)) [ Kind.break_kind ↦ h | _ ↦ g ]

module _ (m : Minicbor) (takes : ReadsTake m) where
  open takes use {
    null_takes, bool_takes, u64_takes, i64_takes, str_takes, bytes_takes, array_takes, map_takes,
    skip_takes,
  }

  module _ (one : Bytes → Decoded Value) (n : ℕ)
      (one_ok : (b : Bytes) → length b < n → Settled 1 b (one b)) where
    decode_items-Settled : (k : ℕ) (b : Bytes) → length b < n → Settled 0 b (decode_items m one k b)
    unfolding decode_items
    decode_items-Settled zero b h = omega arith
    decode_items-Settled (suc k) b h =
        bind-Settled 1 0 b (one b) _ (one_ok b h) (omega arith) λ v r q.
          bind-Settled 0 0 r (decode_items m one k r) _ (decode_items-Settled k r (omega arith))
            (omega arith) λ vs s p. omega arith

    decode_pairs-Settled : (k : ℕ) (b : Bytes) → length b < n → Settled 0 b (decode_pairs m one k b)
    unfolding decode_pairs
    decode_pairs-Settled zero b h = omega arith
    decode_pairs-Settled (suc k) b h =
        bind-Settled 1 0 b (take_read (m.dec_str b)) _ (take_read-Settled m.dec_str b str_takes)
          (omega arith)
          λ key r q. bind-Settled 1 0 r (one r) _ (one_ok r (omega arith)) (omega arith) λ v s p.
            bind-Settled 0 0 s (decode_pairs m one k s) _ (decode_pairs-Settled k s (omega arith))
              (omega arith) λ es t w. omega arith

    items_to_break-Settled :
        (fuel : ℕ) (b : Bytes)
        → length b < n
        → length b < fuel
        → Settled 0 b (items_to_break m one fuel b)
    unfolding items_to_break
    items_to_break-Settled zero b h g = absurd (omega arith)
    items_to_break-Settled (suc fuel) b h g =
        until_break-Settled (m.datatype b) b _ _
          (read_skip-Settled 0 (m.skip b) b _ (omega arith) (skip_takes b))
          (bind-Settled 1 0 b (one b) _ (one_ok b h) (omega arith) λ v r q.
            bind-Settled 0 0 r (items_to_break m one fuel r) _
              (items_to_break-Settled fuel r (omega arith) (omega arith)) (omega arith)
              λ vs s p. omega arith)

    pairs_to_break-Settled :
        (fuel : ℕ) (b : Bytes)
        → length b < n
        → length b < fuel
        → Settled 0 b (pairs_to_break m one fuel b)
    unfolding pairs_to_break
    pairs_to_break-Settled zero b h g = absurd (omega arith)
    pairs_to_break-Settled (suc fuel) b h g =
        until_break-Settled (m.datatype b) b _ _
          (read_skip-Settled 0 (m.skip b) b _ (omega arith) (skip_takes b))
          (bind-Settled 1 0 b (take_read (m.dec_str b)) _ (take_read-Settled m.dec_str b str_takes)
            (omega arith)
            λ key r q. bind-Settled 1 0 r (one r) _ (one_ok r (omega arith)) (omega arith) λ v s p.
              bind-Settled 0 0 s (pairs_to_break m one fuel s) _
                (pairs_to_break-Settled fuel s (omega arith) (omega arith)) (omega arith)
                λ es t w. omega arith)

    decode_array-Settled :
        (fuel : ℕ) (size : Option ℕ) (b : Bytes)
        → length b < n
        → length b < fuel
        → Settled 0 b (decode_array m one fuel size b)
    unfolding decode_array
    decode_array-Settled fuel none b h g =
        bind-Settled 0 0 b (items_to_break m one fuel b) _ (items_to_break-Settled fuel b h g)
          (omega arith) λ vs r q. omega arith
    decode_array-Settled fuel (some k) b h g =
        bind-Settled 0 0 b (decode_items m one k b) _ (decode_items-Settled k b h) (omega arith)
          λ vs r q. omega arith

    decode_map-Settled :
        (fuel : ℕ) (size : Option ℕ) (b : Bytes)
        → length b < n
        → length b < fuel
        → Settled 0 b (decode_map m one fuel size b)
    unfolding decode_map
    decode_map-Settled fuel none b h g =
        bind-Settled 0 0 b (pairs_to_break m one fuel b) _ (pairs_to_break-Settled fuel b h g)
          (omega arith) λ vs r q. omega arith
    decode_map-Settled fuel (some k) b h g =
        bind-Settled 0 0 b (decode_pairs m one k b) _ (decode_pairs-Settled k b h) (omega arith)
          λ vs r q. omega arith

    -- A read of one scalar, whose value goes into a constructor.
    scalar-Settled :
        {A : Type 0} (read : Bytes → Option (A × Bytes)) (wrap : A → Value) (b : Bytes)
        → Takes read
        → Settled 1 b (take_read (read b) >>= λ a r. ok (wrap a) r)
    scalar-Settled read wrap b h =
        bind-Settled 1 1 b (take_read (read b)) _ (take_read-Settled read b h) (omega arith)
          λ a r q. omega arith

    decode_kind-Settled :
        (fuel : ℕ) (k : Kind) (b : Bytes)
        → length b ≤ n
        → length b ≤ fuel
        → Settled 1 b (decode_kind m one fuel k b)
    unfolding decode_kind
    decode_kind-Settled fuel k b h g = elim k as (λ k. Settled 1 b (decode_kind m one fuel k b)) [
      | Kind.null_kind ↦
          read_skip-Settled 1 (m.dec_null b) b Value.null (omega arith) (null_takes b)
      | Kind.bool_kind ↦ scalar-Settled m.dec_bool Value.bool b bool_takes
      | Kind.u8_kind ↦ scalar-Settled m.dec_u64 Value.u64 b u64_takes
      | Kind.u16_kind ↦ scalar-Settled m.dec_u64 Value.u64 b u64_takes
      | Kind.u32_kind ↦ scalar-Settled m.dec_u64 Value.u64 b u64_takes
      | Kind.u64_kind ↦ scalar-Settled m.dec_u64 Value.u64 b u64_takes
      | Kind.i8_kind ↦ scalar-Settled m.dec_i64 Value.i64 b i64_takes
      | Kind.i16_kind ↦ scalar-Settled m.dec_i64 Value.i64 b i64_takes
      | Kind.i32_kind ↦ scalar-Settled m.dec_i64 Value.i64 b i64_takes
      | Kind.i64_kind ↦ scalar-Settled m.dec_i64 Value.i64 b i64_takes
      | Kind.string_kind ↦ scalar-Settled m.dec_str Value.text b str_takes
      | Kind.bytes_kind ↦ scalar-Settled m.dec_bytes Value.bytes b bytes_takes
      | Kind.array_kind ↦ array
      | Kind.array_indef_kind ↦ array
      | Kind.map_kind ↦ entries
      | Kind.map_indef_kind ↦ entries
      | Kind.break_kind ↦ tt
      | Kind.other_kind ↦ tt
    ]
      where
        after :
            (size : Option ℕ) (r : Bytes)
            → 1 + length r ≤ length b
            → Settled 0 r (decode_array m one fuel size r)
        after size r q = decode_array-Settled fuel size r (omega arith) (omega arith)

        after_map :
            (size : Option ℕ) (r : Bytes)
            → 1 + length r ≤ length b
            → Settled 0 r (decode_map m one fuel size r)
        after_map size r q = decode_map-Settled fuel size r (omega arith) (omega arith)

        array : Settled 1 b (take_read (m.dec_array b) >>= decode_array m one fuel)
        array =
            bind-Settled 1 1 b (take_read (m.dec_array b)) (decode_array m one fuel)
              (take_read-Settled m.dec_array b array_takes) (omega arith) after

        entries : Settled 1 b (take_read (m.dec_map b) >>= decode_map m one fuel)
        entries =
            bind-Settled 1 1 b (take_read (m.dec_map b)) (decode_map m one fuel)
              (take_read-Settled m.dec_map b map_takes) (omega arith) after_map

    decode_type-Settled :
        (fuel : ℕ) (k : Option Kind) (b : Bytes)
        → length b ≤ n
        → length b ≤ fuel
        → Settled 1 b (decode_type m one fuel k b)
    unfolding decode_type
    decode_type-Settled fuel none b h g = tt
    decode_type-Settled fuel (some k) b h g = decode_kind-Settled fuel k b h g

  decode_fuel-Settled :
      (fuel : ℕ) (b : Bytes) → length b < fuel → Settled 1 b (decode_fuel m fuel b)
  unfolding decode_fuel
  decode_fuel-Settled zero b h = absurd (omega arith)
  decode_fuel-Settled (suc fuel) b h =
      decode_type-Settled (decode_fuel m fuel) fuel (λ c q. decode_fuel-Settled fuel c q) fuel
        (m.datatype b) b (omega arith) (omega arith)

-- For reads that take a byte at least when they succeed, `decode` of any bytes ends: it returns an
-- error, or a value and fewer bytes than there were.
pub decode-Settled :
    (m : Minicbor)
    → ReadsTake m
    → (b : Bytes)
    → (decode m b ≡ err)
      ⊎ ((v : Value) × (r : Bytes) × (decode m b ≡ ok v r) × (length r < length b))
unfolding decode
decode-Settled m takes b =
    answer (decode_fuel m (suc (length b)) b)
      (decode_fuel-Settled m takes (suc (length b)) b (omega arith))
  where
    answer :
        (x : Decoded Value)
        → Settled 1 b x
        → (x ≡ err) ⊎ ((v : Value) × (r : Bytes) × (x ≡ ok v r) × (length r < length b))
    answer (ok v r) h = inr (v, r, refl, omega arith)
    answer err h = inl refl
    answer stuck h = absurd h
