-- ===== src/Daemon.antt =====
-- hw10/src/main.c: the daemon that tells the size of a file. The answers of the system calls are
-- arguments; what the program does is the list of its actions. What goes to the system log is left
-- out.
pub mod Program
pub mod Server
pub mod Reply
pub mod Restart
pub mod Descriptors
pub mod Main
pub mod Single
pub mod Checks
use otus_c.Prelude.{
  ℕ, zero, suc, ◌+◌, ◌==◌, Bool, true, false, not, ◌||◌, ◌&&◌, List, [], ◌∷◌, ◌++◌, Option, none,
  some, if◌then◌else◌, take, get_elem?, set, length, leb, ltb,
}
use otus_c.Prelude.Bytes.{CString, same}
use otus_c.LogParser.Apache.Decimal.{decimal}

-- "File size "
abbrev pub file_size : CString
file_size = b'F' ∷ b'i' ∷ b'l' ∷ b'e' ∷ b' ' ∷ b's' ∷ b'i' ∷ b'z' ∷ b'e' ∷ b' ' ∷ []

-- ": " and " byte\n"
abbrev pub colon : CString
colon = b':' ∷ b' ' ∷ []

abbrev pub byte : CString
byte = b' ' ∷ b'b' ∷ b'y' ∷ b't' ∷ b'e' ∷ 10 ∷ []

-- "Not access to file "
abbrev pub not_access : CString
not_access =
    b'N' ∷ b'o' ∷ b't' ∷ b' ' ∷ b'a' ∷ b'c' ∷ b'c' ∷ b'e' ∷ b's' ∷ b's' ∷ b' ' ∷ b't' ∷ b'o' ∷ b' '
    ∷ b'f' ∷ b'i' ∷ b'l' ∷ b'e' ∷ b' ' ∷ []

-- The text that `snprintf` is to write: the size, or that `stat` fails
abbrev pub message : CString → Option ℕ → CString
message look_f (some size) = file_size ++ (look_f ++ (colon ++ (decimal size ++ byte)))
message look_f none = not_access ++ (look_f ++ (10 ∷ []))

-- What `buf` holds, which has 100 bytes
abbrev pub reply : CString → Option ℕ → CString
reply look_f st_size = take 99 (message look_f st_size)

-- A round of the loop: whether `flag` is set before it, what `accept` gives, the size that `stat`
-- finds, and whether `send` ends the process by a signal, since the client has gone.
pub record Round : Type 0 where
  pub flag : Bool
  pub msgsock : Option ℕ
  pub st_size : Option ℕ
  pub gone : Bool

pub data Action : Type 0 where
  opened : ℕ → Action
  bound : Action
  listening : Action
  sent : ℕ → CString → Action
  closed : ℕ → Action
  unlinked : Action

-- `failed` and `stopped` are the two values that `unix_socket_server` returns; `waiting` is that it
-- waits in `accept` after the last round.
pub data Ending : Type 0 where
  failed : Ending
  stopped : Ending
  killed : Ending
  waiting : Ending

-- The loop, and what follows it
unfoldable pub serve : ℕ → CString → List Round → List Action × Ending
serve sock look_f [] = ([], waiting)
serve sock look_f (r ∷ rounds) =
    let after : List Action × Ending = (closed sock ∷ unlinked ∷ [], stopped) in
    let rest = serve sock look_f rounds in
    if r.flag then after else elim r.msgsock [
      | none ↦ after
      | some fd ↦
          (let text = reply look_f r.st_size in
            if r.gone
            then (opened fd ∷ sent fd text ∷ [], killed)
            else (opened fd ∷ sent fd text ∷ closed fd ∷ rest.0, rest.1))
    ]

-- `unix_socket_server`; `bind` fails where the name of the socket exists.
unfoldable pub unix_socket_server : Option ℕ → Bool → CString → List Round → List Action × Ending
unix_socket_server none exists look_f rounds = ([], failed)
unix_socket_server (some sock) exists look_f rounds =
    if exists
    then (opened sock ∷ [], failed)
    else (let (actions, end) = serve sock look_f rounds in
        (opened sock ∷ bound ∷ listening ∷ actions, end))

-- `lockfile` and the branches after it: what `open` gives, and what `fcntl` says
pub data Lock : Type 0 where
  taken : Lock
  held_by_other : Lock
  error : Lock

unfoldable pub validate_is_already_worked : Option ℕ → Lock → Bool
validate_is_already_worked none lock = true
validate_is_already_worked (some fd) taken = false
validate_is_already_worked (some fd) held_by_other = true
validate_is_already_worked (some fd) error = true

-- What a descriptor stands for
pub data Target : Type 0 where
  dev_null : Target
  other_file : Target

-- `close(i)`
abbrev pub close : List (Option Target) → ℕ → List (Option Target)
close files i = set files i none

-- The loop that closes `rounds` descriptors from `i` on
abbrev pub close_from : ℕ → ℕ → List (Option Target) → List (Option Target)
close_from zero i files = files
close_from (suc rounds) i files = close_from rounds (suc i) (close files i)

-- `rlim_max`, which is `none` for `RLIM_INFINITY`
abbrev pub limit : Option ℕ → ℕ
limit none = 1024
limit (some rlim_max) = rlim_max

-- The lowest free descriptor
abbrev pub lowest : List (Option Target) → ℕ
lowest [] = 0
lowest (none ∷ files) = 0
lowest (some g ∷ files) = suc (lowest files)

-- The lowest free descriptor comes to stand for `f`.
abbrev pub put_lowest : Target → List (Option Target) → List (Option Target)
put_lowest f [] = some f ∷ []
put_lowest f (none ∷ files) = some f ∷ files
put_lowest f (some g ∷ files) = some g ∷ put_lowest f files

-- A new descriptor for `f`, where the process may have `n`; the result `none` is -1.
abbrev pub open_lowest : ℕ → Target → List (Option Target) → Option ℕ × List (Option Target)
open_lowest n f files =
    if ltb (lowest files) n then (some (lowest files), put_lowest f files) else (none, files)

-- `open("/dev/null", O_RDWR)`, where the device can be opened or not
abbrev pub open_null : Bool → ℕ → List (Option Target) → Option ℕ × List (Option Target)
open_null there n files = if there then open_lowest n dev_null files else (none, files)

-- `dup(0)`
abbrev pub dup_zero : ℕ → List (Option Target) → Option ℕ × List (Option Target)
dup_zero n [] = (none, [])
dup_zero n (none ∷ files) = (none, none ∷ files)
dup_zero n (some f ∷ files) = open_lowest n f (some f ∷ files)

-- `fd != n`
abbrev pub differs : Option ℕ → ℕ → Bool
differs none n = true
differs (some fd) n = not (fd == n)

-- What the end of `daemonize` comes to: whether it reports wrong descriptors, and the table
pub record Detached : Type 0 where
  pub reports : Bool
  pub files : List (Option Target)

abbrev pub reopen : Bool → ℕ → List (Option Target) → Detached
reopen there n files =
    let (fd0, files0) = open_null there n files in
    let (fd1, files1) = dup_zero n files0 in
    let (fd2, files2) = dup_zero n files1 in
    record { reports = differs fd0 0 || differs fd1 1 || differs fd2 2; files = files2 }

-- `daemonize` from the closing of the descriptors on. `nofile` is how many descriptors the process may
-- have, which is not the hard limit that the loop goes up to.
unfoldable pub detach : Bool → ℕ → Option ℕ → List (Option Target) → Detached
detach there nofile rlim_max files = reopen there nofile (close_from (limit rlim_max) 0 files)
