-- ===== src/Daemon/Owner/Idle.antt =====
-- When the owner of the device in crates/flip-daemon/src/device_conn.rs waits for a command.
use flip_link.Base.{
  ℕ, ◌+◌, ◌≡◌, refl, ap, arith, true, false, inl, inr, List, [], ◌∷◌, All, length, replicate,
}
use flip_link.Daemon.Router.{Router, set_caps}
use flip_link.Daemon.Device.{cycle}
use flip_link.Daemon.Device.Chunks.{cycle_lem}
use flip_link.Daemon.Pump.{pump}
use flip_link.Daemon.Owner.{Cycle, Owner, Outcome, served, waited, idle, run_cycle, run}

-- No attempt of the cycle connects, whatever the router is.
abbrev pub Fails : Cycle → Type 0
Fails c = (g : Router) → (cycle c.attempts g).0 ≡ false

-- No command comes in the cycle.
abbrev pub IsQuiet : Cycle → Type 0
IsQuiet c = c.pokes ≡ 0

unconnected : (c : Cycle) (g : Router) → Fails c → cycle c.attempts g ≡ (false, set_caps [] g)
unconnected c g f = elim (cycle_lem c.attempts g) [
  | inl (yes', more) ↦ let no' = f g in absurd cc
  | inr e ↦ e
]

failed_lem :
    (c : Cycle) (o : Owner)
    → Fails c
    → IsQuiet c
    → run_cycle c o
      ≡ (record { router = c.changes (set_caps [] o.router); pokes = 0 }, idle o.pokes)
unfolding run_cycle
failed_lem c o f q =
    let same : o.pokes + c.pokes ≡ o.pokes = omega arith in rw (unconnected c o.router f, same) refl

quiet_lem :
    (cs : List Cycle) (o : Owner)
    → All Fails cs
    → All IsQuiet cs
    → o.pokes ≡ 0
    → (run cs o).1 ≡ replicate (length cs) waited
unfolding run
quiet_lem [] o f q e = refl
quiet_lem (c ∷ cs) o (f, fs) (q, qs) e =
    let none_there : idle o.pokes ≡ waited = rw e refl in
    let next : Owner = record { router = c.changes (set_caps [] o.router); pokes = 0 } in
    rw (failed_lem c o f q, none_there) (ap (λ l. waited ∷ l) (quiet_lem cs next fs qs refl))

-- How cycles without a device end, when this many pokes are there before them.
abbrev pub idles : ℕ → List Cycle → List Outcome
idles pokes [] = []
idles pokes (c ∷ cs) = idle pokes ∷ replicate (length cs) waited

idles_lem :
    (cs : List Cycle) (o : Owner) → All Fails cs → All IsQuiet cs → (run cs o).1 ≡ idles o.pokes cs
unfolding run
idles_lem [] o f q = refl
idles_lem (c ∷ cs) o (f, fs) (q, qs) =
    let next : Owner = record { router = c.changes (set_caps [] o.router); pokes = 0 } in
    rw (failed_lem c o f q) (ap (λ l. idle o.pokes ∷ l) (quiet_lem cs next fs qs refl))

-- When a cycle connects, and in the cycles behind its session no attempt does and no command comes
-- before the wait: the owner waits for a command once in each of these cycles, so that it does not
-- try on by itself, except that it does not wait in the first of them if a command came before, as
-- those do that the session served.
pub run_idles :
    (c : Cycle) (cs : List Cycle) (o : Owner)
    → (cycle c.attempts o.router).0 ≡ true
    → All Fails cs
    → All IsQuiet cs
    → (run (c ∷ cs) o).1 ≡ served (pump c.routers c.rounds) ∷ idles (o.pokes + c.pokes) cs
unfolding run run_cycle
run_idles c cs o connected f q =
    let next : Owner = record {
      router = c.changes (cycle c.attempts o.router).1;
      pokes = o.pokes + c.pokes;
    } in
    rw connected (ap (λ l. served (pump c.routers c.rounds) ∷ l) (idles_lem cs next f q))
