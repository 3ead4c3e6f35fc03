-- ===== src/Proto/Value.antt =====
-- crates/flip-proto/src/value.rs: the dynamic CBOR value. A text is the list of its code points.
-- The vectors of `Array` and `Map` are lists of their own, since a type may not nest in `List`.
pub mod Cbor
pub mod Codec
pub mod Total
pub mod RoundTrip
mod Tests
use flip_link.Base.{ℕ, zero, suc, Bool, Option, none, some, Text, text_eq, ℤ, if◌then◌else◌}
use flip_link.Base.{List, [], ◌∷◌}
use flip_link.Proto.Bytes.{Bytes}

mutual
  pub data Value : Type 0 where
    null : Value
    bool : Bool → Value
    u64 : ℕ → Value
    i64 : ℤ → Value
    text : Text → Value
    bytes : Bytes → Value
    array : Values → Value
    map : Entries → Value

  pub data Values : Type 0 where
    nil : Values
    cons : Value → Values → Values

  pub data Entries : Type 0 where
    end : Entries
    entry : Text → Value → Entries → Entries

abbrev pub value_list : Values → List Value
value_list nil = []
value_list (cons v vs) = v ∷ value_list vs

abbrev pub values : List Value → Values
values [] = nil
values (v ∷ vs) = cons v (values vs)

-- `m.iter().find(|(k, _)| k == key).map(|(_, v)| v)`
unfoldable pub find : Entries → Text → Option Value
find end key = none
find (entry k v es) key = if text_eq k key then some v else find es key

unfoldable pub get : Value → Text → Option Value
unfolding find
get (map es) key = find es key
get _ key = none
