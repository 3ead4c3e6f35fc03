-- ===== src/Daemon/Router.antt =====
-- crates/flip-daemon/src/router.rs: the state behind the daemon's lock. A client's channel is a
-- number, and what is sent into the channels is the list of what each receives.
pub mod Routing
use flip_link.Base.{
  ℕ, zero, suc, ◌+◌, ◌-◌, ◌%◌, ◌^◌, ◌<◌, ◌≤◌, ◌≡◌, ◌≢◌, refl, sym, ap, ◌∙◌, arith, max, ==_iff,
  Bool, true, false, ◌==◌, if◌then◌else◌,
}
use flip_link.Base.{List, [], ◌∷◌, ◌++◌, Option, none, some, Bool-cases, inl, inr}
use flip_link.Proto.Bytes.{Bytes}
use flip_link.Proto.Frame.{Frame}

abbrev pub Channel : Type 0
Channel = ℕ

-- `HashMap<u16, Sender<OwnedFrame>>`
abbrev pub Routes : Type 0
Routes = List (ℕ × Channel)

unfoldable pub lookup : ℕ → Routes → Option Channel
lookup seq [] = none
lookup seq ((s, tx) ∷ routes) = if s == seq then some tx else lookup seq routes

unfoldable pub remove : ℕ → Routes → Routes
remove seq [] = []
remove seq ((s, tx) ∷ routes) =
    let rest = remove seq routes in if s == seq then rest else (s, tx) ∷ rest

abbrev pub insert : ℕ → Channel → Routes → Routes
insert seq tx routes = (seq, tx) ∷ remove seq routes

pub record Router : Type 0 where
  pub next_seq : ℕ
  pub routes : Routes
  pub caps_payload : Bytes

abbrev pub new : Router
new = record { next_seq = 1; routes = []; caps_payload = [] }

-- `wrapping_add(1).max(1)`
abbrev pub after : ℕ → ℕ
after seq = max ((seq + 1) % 2 ^ 16) 1

unfoldable pub register : Channel → Router → ℕ × Router
register reply_to g = (
  g.next_seq,
  record {
    next_seq = after g.next_seq;
    routes = insert g.next_seq reply_to g.routes;
    caps_payload = g.caps_payload;
  },
)

unfoldable pub unregister : ℕ → Router → Router
unregister seq g = record {
  next_seq = g.next_seq;
  routes = remove seq g.routes;
  caps_payload = g.caps_payload;
}

abbrev pub routed : Option Channel → Frame → Option (Channel × Frame)
routed none f = none
routed (some tx) f = some (tx, f)

-- The channel that the frame goes into, if any.
unfoldable pub deliver : Frame → Router → Option (Channel × Frame)
deliver f g = routed (lookup f.seq g.routes) f

unfoldable pub set_caps : Bytes → Router → Router
set_caps payload g = record { next_seq = g.next_seq; routes = g.routes; caps_payload = payload }

unfoldable pub caps : Router → Bytes
caps g = g.caps_payload

-- The number that the daemon's own HELLO has is never given out.
abbrev pub IsRouter : Router → Type 0
IsRouter g = (0 < g.next_seq) × (g.next_seq < 2 ^ 16)

-- The numbers that clients get when they register one after the other, and the state after.
unfoldable pub register_all : List Channel → Router → List ℕ × Router
register_all [] g = ([], g)
register_all (tx ∷ txs) g =
    let (seq, g') = register tx g in let (seqs, last) = register_all txs g' in (seq ∷ seqs, last)
