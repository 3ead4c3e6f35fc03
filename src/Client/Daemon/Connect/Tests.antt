-- ===== src/Client/Daemon/Connect/Tests.antt =====
-- The start of the daemon by crates/flip-client/src/daemon.rs in a concrete system.
use flip_link.Base.{
  ℕ, zero, suc, ◌+◌, ◌≡◌, refl, arith, true, false, List, [], ◌∷◌, none, some, codes, text_eq,
}
use flip_link.Base.Results.{ok}
use flip_link.Client.Daemon.Connect.{
  System, null, log, spawn_daemon, socket_path, log_path, join, directory, Attempt, connect,
}
use flip_link.Client.Daemon.Connect.Settles.{IsPaced, Connected, connect_settles}

abbrev installed : System
installed = record {
  current_exe = some (codes "/usr/bin/flip");
  exists = λ path. text_eq path (codes "/usr/bin/flip-daemon");
  log_opens = true;
  log_clones = false;
  spawns = λ command. true;
}

paths :
    (socket_path (some (codes "/run/user/1000")) ≡ codes "/run/user/1000/flip-link.sock")
    × (log_path none ≡ codes "/tmp/flip-daemon.log")
unfolding socket_path log_path join
paths = (refl, refl)

starts_sibling :
    spawn_daemon installed
    ≡ ok (record {
      program = codes "/usr/bin/flip-daemon";
      args = codes "run" ∷ [];
      stdin = null;
      stdout = log;
      stderr = null;
    })
unfolding spawn_daemon directory
starts_sibling = refl

-- Nobody connects.
abbrev waits : ℕ → ℕ → List Attempt
waits zero now = []
waits (suc n) now = record { connects = false; now = now } ∷ waits n (now + 100)

waits-IsPaced : (n now : ℕ) → IsPaced now (waits n now)
waits-IsPaced zero now = tt
waits-IsPaced (suc n) now = (omega arith, waits-IsPaced n (now + 100))

connect_settles_example :
    Connected installed false 7 (waits 51 7) (connect installed false 7 (waits 51 7))
connect_settles_example =
    connect_settles installed false 7 (waits 51 7) (waits-IsPaced 51 7) (omega arith)
