-- ===== src/Client/Daemon/Connect.antt =====
-- crates/flip-client/src/daemon.rs: `connect`, which starts the daemon when its socket is not there.
-- What the socket, the file system and the clock, in milliseconds, answer is given.
pub mod Settles
mod Tests
use flip_link.Base.{
  ℕ, ◌+◌, Bool, true, false, leb, ◌==◌, ◌&&◌, ◌||◌, if◌then◌else◌, List, [], ◌∷◌, ◌++◌, Option,
  none, some, Text, codes,
}
use flip_link.Base.Results.{Result, ok, err, ok_or, ◌>>=◌}
use flip_link.Str.{is_empty}

-- `PathBuf::join`, of a name without a slash.
abbrev ends_with_slash : Text → Bool
ends_with_slash [] = false
ends_with_slash (c ∷ []) = c == b'/'
ends_with_slash (c ∷ d ∷ path) = ends_with_slash (d ∷ path)

unfoldable pub join : Text → Text → Text
join dir name = if is_empty dir || ends_with_slash dir then dir ++ name else dir ++ (b'/' ∷ name)

-- Of the value of `XDG_RUNTIME_DIR`.
abbrev in_runtime_dir : Text → Option Text → Text
in_runtime_dir name none = codes "/tmp/" ++ name
in_runtime_dir name (some dir) = join dir name

unfoldable pub socket_path : Option Text → Text
socket_path = in_runtime_dir (codes "flip-link.sock")

unfoldable pub log_path : Option Text → Text
log_path = in_runtime_dir (codes "flip-daemon.log")

-- The directory of a path, with its slash.
unfoldable pub directory : Text → Text
directory [] = []
directory (c ∷ path) =
    let rest = directory path in
    if is_empty rest then (if c == b'/' then c ∷ [] else []) else c ∷ rest

-- `with_file_name`, of the path of a program.
abbrev with_file_name : Text → Text → Text
with_file_name path name = directory path ++ name

pub data Stdio : Type 0 where
  null log : Stdio

pub record Command : Type 0 where
  pub program : Text
  pub args : List Text
  pub stdin : Stdio
  pub stdout : Stdio
  pub stderr : Stdio

pub data ConnectError : Type 0 where
  no_current_exe not_spawned did_not_come_up : ConnectError

-- The path of this program, if it is known; which files there are; whether the log opens, whether
-- its handle can be cloned, and whether the command starts.
pub record System : Type 0 where
  pub current_exe : Option Text
  pub exists : Text → Bool
  pub log_opens : Bool
  pub log_clones : Bool
  pub spawns : Command → Bool

abbrev program_for : System → Text → Text
program_for s exe =
    let candidate = with_file_name exe (codes "flip-daemon") in
    if s.exists candidate then candidate else codes "flip-daemon"

abbrev daemon_command : System → Text → Command
daemon_command s exe = record {
  program = program_for s exe;
  args = codes "run" ∷ [];
  stdin = null;
  stdout = if s.log_opens then log else null;
  stderr = if s.log_opens && s.log_clones then log else null;
}

-- The command that was started.
unfoldable pub spawn_daemon : System → Result Command ConnectError
spawn_daemon s = ok_or s.current_exe no_current_exe >>= λ exe.
    if s.spawns (daemon_command s exe) then ok (daemon_command s exe) else err not_spawned

-- A round of the wait: whether the socket is there, and the clock at the test of the deadline.
pub record Attempt : Type 0 where
  pub connects : Bool
  pub now : ℕ

-- The result is that of the connection; `none` when the rounds end first.
unfoldable pub wait_up : ℕ → List Attempt → Option (Result (Unit {0}) ConnectError)
wait_up deadline [] = none
wait_up deadline (a ∷ rest) =
    let later = wait_up deadline rest in
    if a.connects
    then some (ok tt)
    else if leb deadline a.now
    then some (err did_not_come_up)
    else later

abbrev after_spawn :
    ℕ → List Attempt → Result Command ConnectError → Option (Result (Unit {0}) ConnectError)
after_spawn spawned_at rest (err e) = some (err e)
after_spawn spawned_at rest (ok _) = wait_up (spawned_at + 5000) rest

-- Whether the socket is there at first, the clock once the daemon is started, and the rounds.
unfoldable pub connect : System → Bool → ℕ → List Attempt → Option (Result (Unit {0}) ConnectError)
connect s at_once spawned_at rest =
    if at_once then some (ok tt) else after_spawn spawned_at rest (spawn_daemon s)
