-- ===== src/Client/Daemon/Connect/Settles.antt =====
-- How long `connect` of crates/flip-client/src/daemon.rs waits, and what it returns.
use flip_link.Base.{
  ℕ, ◌+◌, ◌-◌, ◌*◌, ◌<◌, ◌≤◌, ◌≡◌, refl, subst, arith, Bool, true, false, leb, Bool-cases, ◌⊎◌, inl,
  inr, List, [], ◌∷◌, length, Option, some,
}
use flip_link.Base.Results.{Result, ok, err}
use flip_link.Client.Daemon.Connect.{
  System, Command, ConnectError, did_not_come_up, spawn_daemon, Attempt, wait_up, connect,
  after_spawn,
}

-- The clock does not go back, and a sleep of 100 ms lasts that long.
abbrev pub IsPaced : ℕ → List Attempt → Type 0
IsPaced earliest [] = Unit {0}
IsPaced earliest (a ∷ rest) = (earliest ≤ a.now) × IsPaced (a.now + 100) rest

-- A round before the deadline, the first to connect.
abbrev pub ComesUp : ℕ → List Attempt → Type 0
ComesUp deadline [] = ⊥
ComesUp deadline (a ∷ rest) =
    (a.connects ≡ true) ⊎ ((a.connects ≡ false) × (a.now < deadline) × ComesUp deadline rest)

-- A round at the deadline or later, and none connected until then.
abbrev pub StaysDown : ℕ → List Attempt → Type 0
StaysDown deadline [] = ⊥
StaysDown deadline (a ∷ rest) =
    (a.connects ≡ false) × ((deadline ≤ a.now) ⊎ ((a.now < deadline) × StaysDown deadline rest))

abbrev pub Waited : ℕ → List Attempt → Option (Result (Unit {0}) ConnectError) → Type 0
Waited deadline rest r =
    ((r ≡ some (ok tt)) × ComesUp deadline rest)
    ⊎ ((r ≡ some (err did_not_come_up)) × StaysDown deadline rest)

Waited-later :
    (deadline : ℕ) (a : Attempt) (rest : List Attempt) (r : Option (Result (Unit {0}) ConnectError))
    → a.connects ≡ false
    → a.now < deadline
    → Waited deadline rest r
    → Waited deadline (a ∷ rest) r
Waited-later deadline a rest r c h (inl (e, up)) = inl (e, inr (c, h, up))
Waited-later deadline a rest r c h (inr (e, down)) = inr (e, (c, inr (h, down)))

module _ (deadline : ℕ) where
  wait_up-Waited :
      (earliest n : ℕ) (rest : List Attempt)
      → IsPaced earliest rest
      → n < length rest
      → deadline ≤ earliest + 100 * n
      → Waited deadline rest (wait_up deadline rest)
  unfolding wait_up
  wait_up-Waited earliest n [] p more h = absurd (omega arith)
  wait_up-Waited earliest n (a ∷ rest) (p, ps) more h = elim (Bool-cases a.connects) [
    | inl c ↦ inl (rw c refl, inl c)
    | inr c ↦ elim (Bool-cases (leb deadline a.now)) [
      | inl l ↦ inr (rw (c, l) refl, (c, inl (ground arith)))
      | inr l ↦
          let early : a.now < deadline = ground arith in
          let behind = wait_up-Waited (a.now + 100) (n - 1) rest ps (omega arith) (omega arith) in
          subst (Waited deadline (a ∷ rest)) (rw (c, l) refl)
            (Waited-later deadline a rest (wait_up deadline rest) c early behind)
    ]
  ]

abbrev pub AfterSpawn :
    ℕ
    → List Attempt
    → Option (Result (Unit {0}) ConnectError)
    → Result Command ConnectError
    → Type 0
AfterSpawn spawned_at rest r (ok command) = Waited (spawned_at + 5000) rest r
AfterSpawn spawned_at rest r (err e) = r ≡ some (err e)

abbrev pub Connected :
    System → Bool → ℕ → List Attempt → Option (Result (Unit {0}) ConnectError) → Type 0
Connected s true spawned_at rest r = r ≡ some (ok tt)
Connected s false spawned_at rest r = AfterSpawn spawned_at rest r (spawn_daemon s)

after_spawn-AfterSpawn :
    (spawned_at : ℕ) (rest : List Attempt) (r : Result Command ConnectError)
    → IsPaced spawned_at rest
    → 50 < length rest
    → AfterSpawn spawned_at rest (after_spawn spawned_at rest r) r
after_spawn-AfterSpawn spawned_at rest (ok command) p more =
    wait_up-Waited (spawned_at + 5000) spawned_at 50 rest p more (omega arith)
after_spawn-AfterSpawn spawned_at rest (err e) p more = refl

-- When the clock does not go back and each sleep of the loop lasts its 100 ms, `connect` returns
-- within 51 rounds: at once when the socket is there, with the error when the daemon cannot be
-- started, and otherwise with success when a round before the deadline of 5 s connects, or the first
-- at it or behind it, and with the error that the daemon did not come up when none does.
pub connect_settles :
    (s : System) (at_once : Bool) (spawned_at : ℕ) (rest : List Attempt)
    → IsPaced spawned_at rest
    → 50 < length rest
    → Connected s at_once spawned_at rest (connect s at_once spawned_at rest)
unfolding connect
connect_settles s true spawned_at rest p more = refl
connect_settles s false spawned_at rest p more =
    after_spawn-AfterSpawn spawned_at rest (spawn_daemon s) p more
