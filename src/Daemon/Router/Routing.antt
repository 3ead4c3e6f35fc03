-- ===== src/Daemon/Router/Routing.antt =====
-- Which client gets a device's frame, in crates/flip-daemon/src/router.rs.
use flip_link.Base.{
  ℕ, zero, suc, ◌+◌, ◌-◌, ◌%◌, ◌^◌, ◌<◌, ◌≤◌, ◌≡◌, ◌≢◌, refl, sym, ap, ◌∙◌, arith, eq→==, true,
  false, ◌==◌, if◌then◌else◌,
}
use flip_link.Base.{List, [], ◌∷◌, length, get_or, Option, none, some, Bool-cases, inl, inr}
use flip_link.Proto.Frame.{Frame}
use flip_link.Daemon.Router.{
  Channel, Routes, lookup, remove, insert, Router, after, routed, register, unregister, deliver,
  IsRouter, register_all,
}

pub lookup-remove_same : (seq : ℕ) (r : Routes) → lookup seq (remove seq r) ≡ none
unfolding lookup remove
lookup-remove_same seq [] = refl
lookup-remove_same seq ((s, tx) ∷ r) = elim (Bool-cases (s == seq)) [
  | inl e ↦ rw e (lookup-remove_same seq r)
  | inr e ↦ rw (e, e) (lookup-remove_same seq r)
]

lookup-remove_other :
    (seq other : ℕ) (r : Routes) → seq ≢ other → lookup other (remove seq r) ≡ lookup other r
unfolding lookup remove
lookup-remove_other seq other [] n = refl
lookup-remove_other seq other ((s, tx) ∷ r) n = elim (Bool-cases (s == seq)) [
  | inl e ↦
      let differs : (s == other) ≡ false = ground arith in
      rw (e, differs) (lookup-remove_other seq other r n)
  | inr e ↦ rw e (ap (λ o. if s == other then some tx else o) (lookup-remove_other seq other r n))
]

lookup-insert_same : (seq : ℕ) (tx : Channel) (r : Routes) → lookup seq (insert seq tx r) ≡ some tx
unfolding lookup
lookup-insert_same seq tx r = let same : (seq == seq) ≡ true = eq→== seq seq refl in rw same refl

lookup-insert_other :
    (seq other : ℕ) (tx : Channel) (r : Routes)
    → seq ≢ other
    → lookup other (insert seq tx r) ≡ lookup other r
unfolding lookup
lookup-insert_other seq other tx r n =
    let differs : (seq == other) ≡ false = ground arith in
    rw differs (lookup-remove_other seq other r n)

-- What is delivered is what the lookup finds, under any name of the frame's number.
deliver_lem :
    (f : Frame) (g : Router) (s : ℕ) (o : Option Channel)
    → f.seq ≡ s
    → lookup s g.routes ≡ o
    → deliver f g ≡ routed o f
unfolding deliver
deliver_lem f g s o e l =
    ap (λ (n : ℕ). routed (lookup n g.routes) f) e ∙ ap (λ (x : Option Channel). routed x f) l

abbrev pub numbered : ℕ → Frame → Frame
numbered seq f = record { typ = f.typ; flags = f.flags; seq = seq; payload = f.payload }

-- From a state whose next number is in range: `register` gives a number from 1 to 65535 and keeps
-- the next one in range; a frame of that number is then delivered to the client, a frame of another
-- number as before, and after `unregister` of the number a frame of it goes nowhere.
pub register_lem :
    (tx : Channel) (g : Router) (f other : Frame)
    → IsRouter g
    → (register tx g).0 ≢ other.seq
    → (0 < (register tx g).0)
      × ((register tx g).0 < 2 ^ 16)
      × IsRouter (register tx g).1
      × (deliver (numbered (register tx g).0 f) (register tx g).1
          ≡ some (tx, numbered (register tx g).0 f))
      × (deliver other (register tx g).1 ≡ deliver other g)
      × (deliver (numbered (register tx g).0 f) (unregister (register tx g).0 (register tx g).1)
          ≡ none)
unfolding register deliver unregister
register_lem tx g f other h n = (
  omega arith,
  omega arith,
  omega arith,
  deliver_lem (numbered g.next_seq f) (register tx g).1 g.next_seq (some tx) refl
      (lookup-insert_same g.next_seq tx g.routes),
  deliver_lem other (register tx g).1 other.seq (lookup other.seq g.routes) refl
      (lookup-insert_other g.next_seq other.seq tx g.routes n),
  deliver_lem (numbered g.next_seq f) (unregister (register tx g).0 (register tx g).1) g.next_seq
      none refl (lookup-remove_same g.next_seq (insert g.next_seq tx g.routes)),
)

after_lem : (s : ℕ) → 0 < s → s < 2 ^ 16 → after s ≡ s % 65535 + 1
after_lem s p q = ground arith

-- The number of the client that registers behind `i` others.
abbrev pub nth_seq : ℕ → ℕ → ℕ
nth_seq start i = (start - 1 + i) % 65535 + 1

nth_seq-after : (s i : ℕ) → 0 < s → s < 2 ^ 16 → nth_seq (after s) i ≡ nth_seq s (suc i)
nth_seq-after s i p q = omega (arith, after_lem s p q)

after-IsRouter : (tx : Channel) (g : Router) → IsRouter g → IsRouter (register tx g).1
unfolding register
after-IsRouter tx g h = omega arith

next_lem :
    (txs : List Channel) (g : Router)
    → IsRouter g
    → (register_all txs g).1.next_seq ≡ nth_seq g.next_seq (length txs)
unfolding register_all register
next_lem [] g h = omega arith
next_lem (tx ∷ txs) g h =
    next_lem txs (register tx g).1 (after-IsRouter tx g h)
    ∙ nth_seq-after g.next_seq (length txs) h.0 h.1

seqs_lem :
    (txs : List Channel) (g : Router) (i : ℕ)
    → IsRouter g
    → i < length txs
    → get_or (register_all txs g).0 i 0 ≡ nth_seq g.next_seq i
unfolding register_all register
seqs_lem [] g i h l = absurd (omega arith)
seqs_lem (tx ∷ txs) g zero h l = omega arith
seqs_lem (tx ∷ txs) g (suc i) h l =
    seqs_lem txs (register tx g).1 i (after-IsRouter tx g h) (omega arith)
    ∙ nth_seq-after g.next_seq i h.0 h.1

-- Clients that register later leave a route alone unless they get its number.
kept :
    (txs : List Channel) (g : Router) (s : ℕ)
    → IsRouter g
    → ((i : ℕ) → i < length txs → nth_seq g.next_seq i ≢ s)
    → lookup s (register_all txs g).1.routes ≡ lookup s g.routes
unfolding register_all register
kept [] g s h n = refl
kept (tx ∷ txs) g s h n =
    let first : g.next_seq ≢ s = λ e. n 0 (omega arith) (omega arith) in
    kept txs (register tx g).1 s (after-IsRouter tx g h)
      (λ i l e. n (suc i) (omega arith) (sym (nth_seq-after g.next_seq i h.0 h.1) ∙ e))
    ∙ lookup-insert_other g.next_seq s tx g.routes first

routes_lem :
    (txs : List Channel) (g : Router) (i : ℕ)
    → IsRouter g
    → length txs ≤ 65535
    → i < length txs
    → lookup (nth_seq g.next_seq i) (register_all txs g).1.routes ≡ some (get_or txs i 0)
unfolding register_all register
routes_lem [] g i h m l = absurd (omega arith)
routes_lem (tx ∷ txs) g zero h m l =
    let first : nth_seq g.next_seq 0 ≡ g.next_seq = omega arith in
    rw first (
      kept txs (register tx g).1 g.next_seq (after-IsRouter tx g h)
        (λ i q e. absurd (omega (arith, nth_seq-after g.next_seq i h.0 h.1)))
      ∙ lookup-insert_same g.next_seq tx g.routes)
routes_lem (tx ∷ txs) g (suc i) h m l =
    rw⁻¹ (nth_seq-after g.next_seq i h.0 h.1)
      (routes_lem txs (register tx g).1 i (after-IsRouter tx g h) (omega arith) (omega arith))

-- From a state whose next number is in range, when at most 65535 clients register one after the
-- other: each frame whose number is the one that client `i` was given is delivered to client `i`.
pub register_all-deliver :
    (txs : List Channel) (g : Router) (i : ℕ) (f : Frame)
    → IsRouter g
    → length txs ≤ 65535
    → i < length txs
    → f.seq ≡ get_or (register_all txs g).0 i 0
    → deliver f (register_all txs g).1 ≡ some (get_or txs i 0, f)
register_all-deliver txs g i f h m l e =
    deliver_lem f (register_all txs g).1 (nth_seq g.next_seq i) (some (get_or txs i 0))
      (e ∙ seqs_lem txs g i h l) (routes_lem txs g i h m l)

-- When 65535 clients are registered, the next one is given the number of the first, and a frame of
-- that number is delivered to it alone: the first client's route is gone.
pub register_wraps :
    (txs : List Channel) (g : Router) (tx : Channel) (f : Frame)
    → IsRouter g
    → length txs ≡ 65535
    → f.seq ≡ g.next_seq
    → ((register tx (register_all txs g).1).0 ≡ get_or (register_all txs g).0 0 0)
      × (deliver f (register tx (register_all txs g).1).1 ≡ some (tx, f))
unfolding register deliver
register_wraps txs g tx f h l e =
    let many = register_all txs g in
    let last = next_lem txs g h in
    let back : many.1.next_seq ≡ g.next_seq = omega arith in
    let first : get_or many.0 0 0 ≡ g.next_seq = seqs_lem txs g 0 h (omega arith) ∙ omega arith in
    (
      back ∙ sym first,
      deliver_lem f (register tx many.1).1 many.1.next_seq (some tx) (e ∙ sym back)
          (lookup-insert_same many.1.next_seq tx many.1.routes),
    )
