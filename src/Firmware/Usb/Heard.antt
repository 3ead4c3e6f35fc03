-- ===== src/Firmware/Usb/Heard.antt =====
-- What the loop of firmware/src/main.rs hears of the bytes that the USB interrupts store.
use flip_link.Base.{
  zero, suc, take-all, take-append-drop, ℕ, ◌-◌, ◌≤◌, ◌≡◌, refl, sym, ap, ◌∙◌, arith, Bool, true,
  false, ltb, ◌==◌, ◌||◌, Bool-cases, if◌then◌else◌, ◌⊎◌, inl, inr, List, [], ◌∷◌, ◌++◌, length,
  take, drop, append_assoc, append-nil,
}
use flip_link.Proto.Bytes.{Bytes}
use flip_link.Firmware.Stream.{StreamBuffer, IsStreamBuffer, receive}
use flip_link.Firmware.Loop.{Received, overflow, nothing, chunk}
use flip_link.Firmware.Usb.{
  Rx, Phase, receiving, checking, emptying, Event, usb, turn, chunk_size, stored, received_in,
  access, listen,
}

-- All bytes of the interrupts, in order.
abbrev pub arrived : List Event → Bytes
arrived [] = []
arrived (usb bytes ∷ events) = bytes ++ arrived events
arrived (turn ∷ events) = arrived events

-- The bytes of the chunks behind the last overflow, with those heard before.
abbrev pub heard_of : Bytes → List Received → Bytes
heard_of heard [] = heard
heard_of heard (overflow ∷ rs) = heard_of [] rs
heard_of heard (nothing ∷ rs) = heard_of heard rs
heard_of heard (chunk bytes ∷ rs) = heard_of (heard ++ bytes) rs

abbrev pub has_overflow : List Received → Bool
has_overflow [] = false
has_overflow (overflow ∷ rs) = true
has_overflow (nothing ∷ rs) = has_overflow rs
has_overflow (chunk bytes ∷ rs) = has_overflow rs

has_overflow-append :
    (xs ys : List Received) (met : Bool)
    → (has_overflow (xs ++ ys) || met) ≡ (has_overflow ys || (has_overflow xs || met))
has_overflow-append [] ys met = refl
has_overflow-append (overflow ∷ xs) ys met = elim (Bool-cases (has_overflow ys)) [
  | inl e ↦ rw e refl
  | inr e ↦ rw e refl
]
has_overflow-append (nothing ∷ xs) ys met = has_overflow-append xs ys met
has_overflow-append (chunk bytes ∷ xs) ys met = has_overflow-append xs ys met

heard_of-append :
    (xs ys : List Received) (heard : Bytes)
    → heard_of heard (xs ++ ys) ≡ heard_of (heard_of heard xs) ys
heard_of-append [] ys heard = refl
heard_of-append (overflow ∷ xs) ys heard = heard_of-append xs ys []
heard_of-append (nothing ∷ xs) ys heard = heard_of-append xs ys heard
heard_of-append (chunk bytes ∷ xs) ys heard = heard_of-append xs ys (heard ++ bytes)

some_given :
    (n b : ℕ) (inside : Bytes) → n ≡ suc (n - 1) → (length (take n (b ∷ inside)) == 0) ≡ true → ⊥
some_given zero b inside one e = absurd (omega arith)
some_given (suc n) b inside one e = absurd ground arith

-- What the loop has taken from the buffer and not yet given to a round.
abbrev pub held : Phase → Bytes
held (checking given) = given
held receiving = []
held emptying = []

-- Of all bytes `all`, a front is lost, and the rest is heard, held or inside; nothing is lost unless
-- an overflow was met.
abbrev pub IsSuffix : Bool → Bytes → Bytes → Type 0
IsSuffix met all rest = (lost : Bytes) × (all ≡ lost ++ rest) × ((lost ≡ []) ⊎ (met ≡ true))

abbrev pub Keeps : Bool → Bytes → Bytes → Phase → Rx → Type 0
Keeps met all heard emptying r = (heard ≡ []) × (met ≡ true)
Keeps met all heard receiving r = (r.overflowed ≡ true) ⊎ IsSuffix met all (heard ++ r.inside)
Keeps met all heard (checking given) r =
    (r.overflowed ≡ true) ⊎ IsSuffix met all (heard ++ (given ++ r.inside))

module _ (sb : StreamBuffer) where
  -- An interrupt stores all its bytes, or sets the flag.
  stored_lem :
      (bytes : Bytes) (r : Rx)
      → ((stored sb bytes r).overflowed ≡ true) ⊎ ((stored sb bytes r).inside ≡ r.inside ++ bytes)
  unfolding stored
  stored_lem bytes r = elim (Bool-cases (sb.accepts r.inside (length bytes) == length bytes)) [
    | inl e ↦
        let all : length bytes ≤ sb.accepts r.inside (length bytes) = ground arith in
        inr (ap (λ l. r.inside ++ l) (take-all (sb.accepts r.inside (length bytes)) bytes all))
    | inr e ↦ inl (rw e refl)
  ]

  stored_overflowed :
      (bytes : Bytes) (r : Rx) → r.overflowed ≡ true → (stored sb bytes r).overflowed ≡ true
  unfolding stored
  stored_overflowed bytes r o = ground (arith, o)

  -- What was inside is a suffix, and so it is with the bytes of an interrupt behind it.
  stored_suffix :
      (met : Bool) (all front bytes : Bytes) (r : Rx)
      → (r.overflowed ≡ true) ⊎ IsSuffix met all (front ++ r.inside)
      → ((stored sb bytes r).overflowed ≡ true)
        ⊎ IsSuffix met (all ++ bytes) (front ++ (stored sb bytes r).inside)
  stored_suffix met all front bytes r (inl o) = inl (stored_overflowed bytes r o)
  stored_suffix met all front bytes r (inr (lost, e, k)) = elim (stored_lem bytes r) [
    | inl o ↦ inl o
    | inr i ↦ inr (
      lost,
      ap (λ l. l ++ bytes) e
          ∙ append_assoc lost (front ++ r.inside) bytes
          ∙ ap (λ l. lost ++ l) (append_assoc front r.inside bytes)
          ∙ ap (λ l. lost ++ (front ++ l)) (sym i),
      k,
    )
  ]

  stored-Keeps :
      (met : Bool) (all heard bytes : Bytes) (p : Phase) (r : Rx)
      → Keeps met all heard p r
      → Keeps met (all ++ bytes) heard p (stored sb bytes r)
  stored-Keeps met all heard bytes receiving r h = stored_suffix met all heard bytes r h
  stored-Keeps met all heard bytes emptying r h = h
  stored-Keeps met all heard bytes (checking given) r h =
      let regroup = append_assoc heard given in
      elim (stored_suffix met all (heard ++ given) bytes r (rw (regroup r.inside) h)) [
        | inl o ↦ inl o
        | inr s ↦ inr (rw⁻¹ (regroup (stored sb bytes r).inside) s)
      ]

  usb-Keeps :
      (met : Bool) (all heard bytes : Bytes) (p : Phase) (r : Rx)
      → Keeps met all heard p r
      → Keeps met (all ++ bytes) heard p (if ltb 0 (length bytes) then stored sb bytes r else r)
  usb-Keeps met all heard [] p r h = rw (append-nil all) h
  usb-Keeps met all heard (b ∷ bytes) p r h =
      let some_bytes : ltb 0 (length (b ∷ bytes)) ≡ true = ground arith in
      rw some_bytes (stored-Keeps met all heard (b ∷ bytes) p r h)

  checked_suffix :
      (met : Bool) (all heard given : Bytes) (r : Rx)
      → Keeps met all heard (checking given) r
      → r.overflowed ≡ false
      → IsSuffix
          (has_overflow (received_in sb given ∷ []) || met)
          all
          (heard_of heard (received_in sb given ∷ []) ++ r.inside)
  checked_suffix met all heard given r (inl o) clear = absurd cc
  checked_suffix met all heard [] r (inr s) clear = s
  checked_suffix met all heard (b ∷ given) r (inr s) clear =
      rw (append_assoc heard (b ∷ given) r.inside) s

  module _ {cap : ℕ} (documented : IsStreamBuffer cap sb) where
    -- A receive gives a front of what is inside, and nothing only when nothing is inside.
    given_all :
        (inside : Bytes)
        → (take (sb.gives inside chunk_size) inside ++ drop (sb.gives inside chunk_size) inside)
          ≡ inside
    given_all inside = take-append-drop (sb.gives inside chunk_size) inside

    emptied :
        (inside : Bytes)
        → (length (receive sb inside chunk_size).0 == 0) ≡ true
        → (receive sb inside chunk_size).1 ≡ []
    emptied [] e = rw (documented.gives_eq [] chunk_size) refl
    emptied (b ∷ inside) e =
        let gives = documented.gives_eq (b ∷ inside) chunk_size in
        let one : sb.gives (b ∷ inside) chunk_size ≡ suc (sb.gives (b ∷ inside) chunk_size - 1) =
          omega arith in
        absurd (some_given (sb.gives (b ∷ inside) chunk_size) b inside one e)

    access-Keeps :
        (met : Bool) (all heard : Bytes) (p : Phase) (r : Rx)
        → Keeps met all heard p r
        → Keeps
            (has_overflow (access sb p r).2 || met)
            all
            (heard_of heard (access sb p r).2)
            (access sb p r).0
            (access sb p r).1
    unfolding access
    access-Keeps met all heard receiving r (inl o) = inl o
    access-Keeps met all heard receiving r (inr (lost, e, k)) =
        inr (lost, rw (given_all r.inside) e, k)
    access-Keeps met all heard (checking given) r h = elim (Bool-cases r.overflowed) [
      | inl o ↦ rw o (refl, refl)
      | inr o ↦ rw o (inr (checked_suffix met all heard given r h o))
    ]
    access-Keeps met all heard emptying r (e, m) =
        elim (Bool-cases (length (receive sb r.inside chunk_size).0 == 0)) [
          | inl z ↦ rw z (inr (all, rw (e, emptied r.inside z) (sym (append-nil all)), inr m))
          | inr z ↦ rw z (e, m)
        ]

    listen-Keeps :
        (events : List Event) (met : Bool) (all heard : Bytes) (p : Phase) (r : Rx)
        → Keeps met all heard p r
        → Keeps
            (has_overflow (listen sb events p r).2 || met)
            (all ++ arrived events)
            (heard_of heard (listen sb events p r).2)
            (listen sb events p r).0
            (listen sb events p r).1
    unfolding listen
    listen-Keeps [] met all heard p r h = rw (append-nil all) h
    listen-Keeps (usb bytes ∷ events) met all heard p r h =
        rw⁻¹ (append_assoc all bytes (arrived events)) (
          listen-Keeps events met (all ++ bytes) heard p
            (if ltb 0 (length bytes) then stored sb bytes r else r)
            (usb-Keeps met all heard bytes p r h))
    listen-Keeps (turn ∷ events) met all heard p r h =
        let now = (access sb p r).2 in
        let later = (listen sb events (access sb p r).0 (access sb p r).1).2 in
        rw (has_overflow-append now later met, heard_of-append now later heard)
          (listen-Keeps events (has_overflow now || met) all (heard_of heard now) (access sb p r).0
            (access sb p r).1 (access-Keeps met all heard p r h))

-- For a buffer as the SDK documents it, and any order of interrupts and of the loop's accesses to the
-- buffer and the flag, from the empty buffer on: unless the overflow flag is set, or the loop stands
-- in the loop that empties the buffer, the bytes of the chunks that the rounds have received since the
-- last overflow, with what is held and inside, are the bytes of the interrupts in order, less a front;
-- the front is empty unless a round met an overflow.
pub heard_in_order :
    (sb : StreamBuffer) (cap : ℕ) (events : List Event)
    → IsStreamBuffer cap sb
    → Keeps
        (has_overflow (listen sb events receiving (record { inside = []; overflowed = false })).2
          || false)
        (arrived events)
        (heard_of [] (listen sb events receiving (record { inside = []; overflowed = false })).2)
        (listen sb events receiving (record { inside = []; overflowed = false })).0
        (listen sb events receiving (record { inside = []; overflowed = false })).1
heard_in_order sb cap events documented =
    listen-Keeps sb documented events false [] [] receiving
      (record { inside = []; overflowed = false }) (inr ([], refl, inl refl))
