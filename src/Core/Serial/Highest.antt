-- ===== src/Core/Serial/Highest.antt =====
-- Which port crates/flip-core/src/serial.rs picks.
use flip_link.Base.{
  ◌≡◌, refl, sym, subst, arith, Bool, true, false, if◌then◌else◌, Bool-cases, ◌⊎◌, inl, inr, List,
  [], ◌∷◌, ◌++◌, All, none, Text, codes,
}
use flip_link.Base.Results.{Result, ok, err}
use flip_link.Core.Serial.{
  SerialPortInfo, SerialError, no_port, flipper_names, text_leb, insert_sorted, sort, last_port,
  list_flipper_ports, pick_agent_port,
}

text_leb_total : (s t : Text) → text_leb s t ≡ false → text_leb t s ≡ true
unfolding text_leb
text_leb_total [] t e = absurd cc
text_leb_total (c ∷ s) [] e = refl
text_leb_total (c ∷ s) (d ∷ t) e = ground (arith, text_leb_total s t)

text_leb_trans : (s t u : Text) → text_leb s t ≡ true → text_leb t u ≡ true → text_leb s u ≡ true
unfolding text_leb
text_leb_trans [] t u e k = refl
text_leb_trans (c ∷ s) [] u e k = absurd cc
text_leb_trans (c ∷ s) (d ∷ t) [] e k = absurd cc
text_leb_trans (c ∷ s) (d ∷ t) (f ∷ u) e k = ground (arith, text_leb_trans s t u)

text_leb_refl : (s : Text) → text_leb s s ≡ true
unfolding text_leb
text_leb_refl [] = refl
text_leb_refl (c ∷ s) = ground (arith, text_leb_refl s)

abbrev pub Before : Text → Text → Type 0
Before s t = text_leb s t ≡ true

abbrev In : Text → List Text → Type 0
In s [] = ⊥
In s (t ∷ ts) = (s ≡ t) ⊎ In s ts

-- Each text is before those behind it.
abbrev IsSorted : List Text → Type 0
IsSorted [] = Unit {0}
IsSorted (s ∷ ss) = All (λ t. Before s t) ss × IsSorted ss

All-insert_sorted :
    (P : Text → Type 0) (s : Text) (ts : List Text) → P s → All P ts → All P (insert_sorted s ts)
unfolding insert_sorted
All-insert_sorted P s [] p h = (p, tt)
All-insert_sorted P s (t ∷ ts) p (q, h) = elim (Bool-cases (text_leb s t)) [
  | inl e ↦ rw e (p, (q, h))
  | inr e ↦ rw e (q, All-insert_sorted P s ts p h)
]

above :
    (s t : Text) (ts : List Text) → Before s t → All (λ u. Before t u) ts → All (λ u. Before s u) ts
above s t [] e h = tt
above s t (u ∷ ts) e (k, h) = (text_leb_trans s t u e k, above s t ts e h)

insert_sorted-IsSorted : (s : Text) (ts : List Text) → IsSorted ts → IsSorted (insert_sorted s ts)
unfolding insert_sorted
insert_sorted-IsSorted s [] h = (tt, tt)
insert_sorted-IsSorted s (t ∷ ts) (h, k) = elim (Bool-cases (text_leb s t)) [
  | inl e ↦ rw e ((e, above s t ts e h), (h, k))
  | inr e ↦ rw e (
    All-insert_sorted (λ u. Before t u) s ts (text_leb_total s t e) h,
    insert_sorted-IsSorted s ts k,
  )
]

sort-IsSorted : (ss : List Text) → IsSorted (sort ss)
unfolding sort
sort-IsSorted [] = tt
sort-IsSorted (s ∷ ss) = insert_sorted-IsSorted s (sort ss) (sort-IsSorted ss)

chosen :
    (P : Text → Type 0) (b : Bool) (s t : Text) (ts rest : List Text)
    → (All P rest → P s × All P ts)
    → All P (if b then s ∷ t ∷ ts else t ∷ rest)
    → P s × (P t × All P ts)
chosen P true s t ts rest back h = h
chosen P false s t ts rest back (q, h) = let both = back h in (both.0, (q, both.1))

All-insert_sorted_inv :
    (P : Text → Type 0) (s : Text) (ts : List Text) → All P (insert_sorted s ts) → P s × All P ts
unfolding insert_sorted
All-insert_sorted_inv P s [] h = h
All-insert_sorted_inv P s (t ∷ ts) h =
    chosen P (text_leb s t) s t ts (insert_sorted s ts) (All-insert_sorted_inv P s ts) h

All-sort : (P : Text → Type 0) (ss : List Text) → All P ss → All P (sort ss)
unfolding sort
All-sort P [] h = tt
All-sort P (s ∷ ss) (p, h) = All-insert_sorted P s (sort ss) p (All-sort P ss h)

All-sort_inv : (P : Text → Type 0) (ss : List Text) → All P (sort ss) → All P ss
unfolding sort
All-sort_inv P [] h = tt
All-sort_inv P (s ∷ ss) h =
    let both = All-insert_sorted_inv P s (sort ss) h in (both.0, All-sort_inv P ss both.1)

All-at : (P : Text → Type 0) (s : Text) (ss : List Text) → All P ss → In s ss → P s
All-at P s [] h i = elim i [ ]
All-at P s (t ∷ ts) (p, h) (inl e) = subst P (sym e) p
All-at P s (t ∷ ts) (p, h) (inr i) = All-at P s ts h i

All_mono : (P Q : Text → Type 0) (ss : List Text) → ((s : Text) → P s → Q s) → All P ss → All Q ss
All_mono P Q [] f h = tt
All_mono P Q (s ∷ ss) f (p, h) = (f s p, All_mono P Q ss f h)

All-In : (ss : List Text) → All (λ s. In s ss) ss
All-In [] = tt
All-In (s ∷ ss) =
    (inl refl, All_mono (λ t. In t ss) (λ t. In t (s ∷ ss)) ss (λ t i. inr i) (All-In ss))

nil-insert_sorted :
    (b : Bool) (s t : Text) (ts rest : List Text) → (if b then s ∷ t ∷ ts else t ∷ rest) ≡ [] → ⊥
nil-insert_sorted true s t ts rest e = absurd cc
nil-insert_sorted false s t ts rest e = absurd cc

insert_sorted-nil : (s : Text) (ts : List Text) → insert_sorted s ts ≡ [] → ⊥
unfolding insert_sorted
insert_sorted-nil s [] e = absurd cc
insert_sorted-nil s (t ∷ ts) e = nil-insert_sorted (text_leb s t) s t ts (insert_sorted s ts) e

sort_nil : (ss : List Text) → sort ss ≡ [] → ss ≡ []
unfolding sort
sort_nil [] e = refl
sort_nil (s ∷ ss) e = absurd (insert_sorted-nil s (sort ss) e)

-- The greatest of these names, in the order of texts; an error where there is none.
abbrev pub IsHighest : List Text → Result Text SerialError → Type 0
IsHighest names (err e) = (names ≡ []) × (e ≡ no_port)
IsHighest names (ok s) = In s names × All (λ t. Before t s) names

IsHighest-behind :
    (s t : Text) (ts : List Text) (r : Result Text SerialError)
    → All (Before s) (t ∷ ts)
    → IsHighest (t ∷ ts) r
    → IsHighest (s ∷ t ∷ ts) r
IsHighest-behind s t ts (ok u) h (i, k) = (inr i, (All-at (Before s) u (t ∷ ts) h i, k))
IsHighest-behind s t ts (err e) h (n, k) = absurd cc

last_port-IsHighest : (ss : List Text) → IsSorted ss → IsHighest ss (last_port ss)
last_port-IsHighest [] h = (refl, refl)
last_port-IsHighest (s ∷ []) h = (inl refl, (text_leb_refl s, tt))
last_port-IsHighest (s ∷ t ∷ ts) (h, k) =
    IsHighest-behind s t ts (last_port (t ∷ ts)) h (last_port-IsHighest (t ∷ ts) k)

IsHighest-sort :
    (ss : List Text) (r : Result Text SerialError) → IsHighest (sort ss) r → IsHighest ss r
IsHighest-sort ss (ok s) (i, h) = (
  All-at (λ t. In t ss) s (sort ss) (All-sort (λ t. In t ss) ss (All-In ss)) i,
  All-sort_inv (λ t. Before t s) ss h,
)
IsHighest-sort ss (err e) (n, k) = (sort_nil ss n, k)

-- Without `FLIP_PORT`, the port picked among any that were found is a candidate (its name has
-- "flip" in it in either case, or it is a USB port of the vendor 0x0483), and no candidate's name
-- comes after it in the order of strings; with no candidate, and only then, the result is the
-- error that there is no port.
pub pick_agent_port_lem :
    (available : List SerialPortInfo)
    → IsHighest (flipper_names available) (pick_agent_port none (ok available))
unfolding pick_agent_port list_flipper_ports
pick_agent_port_lem available =
    let names = flipper_names available in
    IsHighest-sort names (last_port (sort names))
      (last_port-IsHighest (sort names) (sort-IsSorted names))

nine_behind : (stem : Text) → text_leb (stem ++ codes "9") (stem ++ codes "10") ≡ false
unfolding text_leb
nine_behind [] = refl
nine_behind (c ∷ stem) = ground (arith, nine_behind stem)

-- When the names of the two candidate ports are the same but for the numbers 9 and 10 at their end,
-- the port picked without `FLIP_PORT` is the lower-numbered one, with 9.
pub pick_agent_port_lower :
    (stem : Text)
    → (available : List SerialPortInfo)
    → flipper_names available ≡ (stem ++ codes "9") ∷ (stem ++ codes "10") ∷ []
    → pick_agent_port none (ok available) ≡ ok (stem ++ codes "9")
unfolding pick_agent_port list_flipper_ports sort insert_sorted
pick_agent_port_lower stem available e = rw e (rw (nine_behind stem) refl)
