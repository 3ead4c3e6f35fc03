-- ===== src/Daemon/Device/Chunks.antt =====
-- How crates/flip-daemon/src/device_conn.rs writes a frame, and what it knows of the device.
use flip_link.Base.{
  length-take_le, ℕ, zero, suc, ◌<◌, ◌≤◌, ◌≡◌, refl, ap, ◌∙◌, arith, Bool, true, false, ◌⊎◌, inl,
  inr,
}
use flip_link.Base.{
  List, [], ◌∷◌, ◌++◌, length, take, drop, All, Option, Bool-cases, none, some, take-append-drop,
  length-drop,
}
use flip_link.Proto.Bytes.{Bytes}
use flip_link.Core.Device.{Awaited, found, gave_up, waiting, await_frame}
use flip_link.Core.Reader.{new}
use flip_link.Daemon.Router.{Router, set_caps}
use flip_link.Daemon.Device.{
  outbound_write_chunk, chunks, Write, pause, write_all, paced, paced_first, write_outbound_frame,
  Attempt, hello_frame, wait_for_caps, with_hello, is_caps, cached, cache_caps, connect_and_cache,
  connect, cycle, max_retries,
}

-- The bytes that the writes put on the wire, and each write's size.
abbrev pub on_wire : List Write → Bytes
on_wire [] = []
on_wire (pause ∷ ws) = on_wire ws
on_wire (write_all c ∷ ws) = c ++ on_wire ws

abbrev pub Fits : Write → Type 0
Fits pause = Unit {0}
Fits (write_all c) = (0 < length c) × (length c ≤ outbound_write_chunk)

-- Two writes never follow each other without a pause.
abbrev pub Paced : List Write → Type 0
Paced [] = Unit {0}
Paced (pause ∷ ws) = Paced ws
Paced (write_all c ∷ write_all d ∷ ws) = ⊥
Paced (write_all c ∷ ws) = Paced ws

paced_after : (c : Bytes) (cs : List Bytes) → Paced (paced cs) → Paced (write_all c ∷ paced cs)
paced_after c [] h = tt
paced_after c (d ∷ ds) h = h

paced_lem :
    (fuel : ℕ) (bytes : Bytes)
    → length bytes ≤ fuel
    → (on_wire (paced (chunks fuel bytes)) ≡ bytes)
      × All Fits (paced (chunks fuel bytes))
      × Paced (paced (chunks fuel bytes))
unfolding chunks
paced_lem zero [] h = (refl, tt, tt)
paced_lem zero (b ∷ bs) h = absurd (omega arith)
paced_lem (suc fuel) [] h = (refl, tt, tt)
paced_lem (suc fuel) (b ∷ bs) h =
    let (x, y, z) = paced_lem fuel (drop 63 bs) (omega (arith, length-drop 63 bs)) in
    (
      ap (λ l. b ∷ (take 63 bs ++ l)) x ∙ ap (λ l. b ∷ l) (take-append-drop 63 bs),
      (tt, ((omega arith, omega (arith, length-take_le 63 bs)), y)),
      paced_after (take 64 (b ∷ bs)) (chunks fuel (drop 63 bs)) z,
    )

-- The first chunk needs no pause.
first_lem :
    (cs : List Bytes) (bytes : Bytes)
    → (on_wire (paced cs) ≡ bytes) × All Fits (paced cs) × Paced (paced cs)
    → (on_wire (paced_first cs) ≡ bytes) × All Fits (paced_first cs) × Paced (paced_first cs)
first_lem [] bytes h = h
first_lem (c ∷ cs) bytes (x, y, z) = (x, y.1, z)

-- The writes of an outbound frame put exactly its bytes on the wire, in chunks of 1 to 64 bytes with
-- a pause between any two.
pub write_outbound_frame_lem :
    (bytes : Bytes)
    → (on_wire (write_outbound_frame bytes) ≡ bytes)
      × All Fits (write_outbound_frame bytes)
      × Paced (write_outbound_frame bytes)
unfolding write_outbound_frame
write_outbound_frame_lem bytes =
    first_lem (chunks (length bytes) bytes) bytes (paced_lem (length bytes) bytes (omega arith))

Cached : Router → Bool × Router → Type 0
Cached g out =
    ((out.0 ≡ true) × ((payload : Bytes) × (out.1 ≡ set_caps payload g))) ⊎ (out ≡ (false, g))

cached_lem :
    (a : Awaited) (g : Router)
    → (cached a g ≡ none) ⊎ ((payload : Bytes) × (cached a g ≡ some (set_caps payload g)))
cached_lem (found f) g = inr (f.payload, refl)
cached_lem (gave_up e) g = inl refl
cached_lem waiting g = inl refl

wait_lem :
    (a : Attempt) (frame : Option (ℕ × Bytes)) (g : Router)
    → (wait_for_caps a frame g ≡ none)
      ⊎ ((payload : Bytes) × (wait_for_caps a frame g ≡ some (set_caps payload g)))
wait_lem a none g = inl refl
wait_lem a (some frame) g = elim (Bool-cases a.writes) [
  | inl e ↦ rw e (cached_lem (await_frame is_caps a.turns new).0 g)
  | inr e ↦ inl (rw e refl)
]

hello_lem :
    (a : Attempt) (body : Option Bytes) (g : Router)
    → (with_hello a body g ≡ none)
      ⊎ ((payload : Bytes) × (with_hello a body g ≡ some (set_caps payload g)))
hello_lem a none g = inl refl
hello_lem a (some body) g = wait_lem a (hello_frame body) g

attempt_lem :
    (a : Attempt) (g : Router)
    → (connect_and_cache a g ≡ none)
      ⊎ ((payload : Bytes) × (connect_and_cache a g ≡ some (set_caps payload g)))
unfolding connect_and_cache cache_caps
attempt_lem a g = elim (Bool-cases a.opens) [
  | inl e ↦ rw e (hello_lem a a.hello_body g)
  | inr e ↦ inl (rw e refl)
]

connect_lem : (left : ℕ) (attempts : List Attempt) (g : Router) → Cached g (connect left attempts g)
unfolding connect Cached
connect_lem zero attempts g = inr refl
connect_lem (suc left) [] g = inr refl
connect_lem (suc left) (a ∷ attempts) g = elim (attempt_lem a g) [
  | inl e ↦ rw e (connect_lem left attempts g)
  | inr (payload, e) ↦ rw e (inl (refl, (payload, refl)))
]

-- A cycle of connecting, whatever its attempts give: it connects, and only the cached CAPS of the
-- router change; or it does not, and the CAPS are dropped and nothing else changes.
pub cycle_lem :
    (attempts : List Attempt) (g : Router)
    → (((cycle attempts g).0 ≡ true)
        × ((payload : Bytes) × ((cycle attempts g).1 ≡ set_caps payload g)))
      ⊎ (cycle attempts g ≡ (false, set_caps [] g))
unfolding cycle Cached
cycle_lem attempts g = elim (connect_lem max_retries attempts g) [
  | inl (a, (payload, e)) ↦ rw a (inl (refl, (payload, e)))
  | inr e ↦ rw e (inr refl)
]
