-- ===== src/Daemon/Program.antt =====
-- hw10/src/main.c: `main`, by its tests: the path of the configuration, the forks of `daemonize`, the
-- lock, the watched file, the handler and the server.
use otus_c.Prelude.{ℕ, Bool, true, false, ◌||◌, List, [], ◌∷◌, Option, none, some, if◌then◌else◌}
use otus_c.Prelude.Bytes.{CString, same}
use otus_c.Daemon.{
  Round, Action, Ending, failed, stopped, killed, waiting, unix_socket_server, Lock,
  validate_is_already_worked,
}

-- The path of the configuration, and whether to become a daemon: `none` where there is no path.
abbrev pub path_of : Bool → List CString → Option (Bool × CString)
path_of daemon [] = none
path_of daemon (path_conf ∷ argv) = some (daemon, path_conf)

unfoldable pub path_conf : List CString → Option (Bool × CString)
path_conf [] = none
path_conf (d ∷ argv) =
    if same d (b'-' ∷ b'd' ∷ [])
      || same d (b'-' ∷ b'-' ∷ b'd' ∷ b'a' ∷ b'e' ∷ b'm' ∷ b'o' ∷ b'n' ∷ [])
    then path_of true argv
    else some (false, d)

-- What `fork` gives
pub data Fork : Type 0 where
  no_fork : Fork
  parent : Fork
  child : Fork

-- Whether `daemonize`, if it is called, ends this process, as the parent of one of its two forks
unfoldable pub leaves : Bool → Fork → Fork → Bool
leaves false first second = false
leaves true parent second = true
leaves true no_fork parent = true
leaves true child parent = true
leaves true no_fork no_fork = false
leaves true no_fork child = false
leaves true child no_fork = false
leaves true child child = false

-- How `main` ends; `served` is what `unix_socket_server` came to.
pub data Exit : Type 0 where
  no_conf : Exit
  left : Exit
  already_open : Exit
  no_file : Exit
  no_handler : Exit
  served : Ending → Exit

-- `EXIT_SUCCESS`
unfoldable pub succeeds : Exit → Bool
succeeds (served stopped) = true
succeeds (served failed) = false
succeeds (served killed) = false
succeeds (served waiting) = false
succeeds left = true
succeeds no_conf = false
succeeds already_open = false
succeeds no_file = false
succeeds no_handler = false

-- What `main` asks of its surroundings: the two forks of `daemonize`, the lock file and the lock
-- on it, the path that the configuration gives, `access`, `sigaction`, `socket`, and whether the
-- socket's name exists
pub record World : Type 0 where
  pub first_fork : Fork
  pub second_fork : Fork
  pub lock_fd : Option ℕ
  pub lock : Lock
  pub init_conf : CString → Option CString
  pub accessible : CString → Bool
  pub handler : Bool
  pub sock : Option ℕ
  pub exists : Bool

-- `main` behind the two tests on the path: whether it can be reached, and whether the handler is set
unfoldable pub listen : Bool → Bool → World → List Round → CString → List Action × Exit
listen false handler w rounds look_f = ([], no_file)
listen true false w rounds look_f = ([], no_handler)
listen true true w rounds look_f =
    let r = unix_socket_server w.sock w.exists look_f rounds in (r.0, served r.1)

-- `main` behind `init_conf`
unfoldable pub watch : World → List Round → Option CString → List Action × Exit
watch w rounds none = ([], no_file)
watch w rounds (some look_f) = listen (w.accessible look_f) w.handler w rounds look_f

-- `main` behind `validate_is_already_worked`
unfoldable pub configure : Bool → World → List Round → CString → List Action × Exit
configure true w rounds path = ([], already_open)
configure false w rounds path = watch w rounds (w.init_conf path)

-- `main` behind `daemonize`
unfoldable pub go_on : Bool → World → List Round → CString → List Action × Exit
go_on true w rounds path = ([], left)
go_on false w rounds path = configure (validate_is_already_worked w.lock_fd w.lock) w rounds path

unfoldable pub start : World → List Round → Option (Bool × CString) → List Action × Exit
start w rounds none = ([], no_conf)
start w rounds (some (daemon, path)) =
    go_on (leaves daemon w.first_fork w.second_fork) w rounds path

unfoldable pub main : World → List Round → List CString → List Action × Exit
main w rounds argv = start w rounds (path_conf argv)
