-- ===== src/Logger.antt =====
-- hw9: the file logger (hw9/src/logger.c, hw9/src/logger.h), one call at a time. What the system
-- answers (fopen, stat, clock_gettime, rename, the sizes that fprintf returns) are arguments.
pub mod Silent
pub mod Rotation
pub mod Checks
use otus_c.Prelude.{
  ◌≡◌, ℕ, ◌+◌, ◌*◌, Bool, true, false, List, [], ◌∷◌, ◌++◌, ltb, if◌then◌else◌, take,
}
use otus_c.Prelude.Words.{u64}
use otus_c.Prelude.Bytes.{CString}

pub data LogLevel : Type 0 where
  trace : LogLevel
  debug : LogLevel
  info : LogLevel
  warn : LogLevel
  error : LogLevel
  fatal : LogLevel

abbrev pub get_level_char : LogLevel → ℕ
get_level_char trace = b'T'
get_level_char debug = b'D'
get_level_char info = b'I'
get_level_char warn = b'W'
get_level_char error = b'E'
get_level_char fatal = b'F'

-- `s_flog.output`: a null pointer, an open file, or a file that has been closed
pub data Output : Type 0 where
  null : Output
  opened : Output
  closed : Output

-- A line of the log: the level's letter, the file, the line and the message; and whether a backtrace
-- follows.
pub record Entry : Type 0 where
  pub letter : ℕ
  pub file : CString
  pub line : ℕ
  pub message : CString
  pub backtrace : Bool

-- The variables of logger.c, whether the mutex is held, and what has been written to the log.
pub record Logger : Type 0 where
  pub is_init : Bool
  pub locked : Bool
  pub output : Output
  pub filename : CString
  pub max_file_size : ℕ
  pub current_file_size : ℕ
  pub written : List Entry

-- How a call ends; a thread that waits for a mutex that nobody will release waits for good.
pub data Ending (A : Type 0) : Type 0 where
  done : A → Ending A
  waiting : Ending A
  undefined : Ending A

-- Before any call: static variables are zero.
abbrev pub start : Logger
start = record {
  is_init = false;
  locked = false;
  output = null;
  filename = [];
  max_file_size = 0;
  current_file_size = 0;
  written = [];
}

-- `fopen` answers with a file or not, and `stat` with a size. A second `pthread_mutex_init`, after a
-- failure, is taken to make the mutex free again.
pub init_logger : Bool → ℕ → CString → Logger → Bool × Logger
init_logger opens size f s =
    if s.is_init
    then (true, s)
    else if opens
    then (
      true,
      record s {
        is_init = true;
        locked = false;
        output = opened;
        filename = take 256 f;
        max_file_size = 1024 * 1024 * 10;
        current_file_size = size;
      },
    )
    else (false, record s { locked = true })

-- What `clock_gettime`, `rename` and `fopen` answer in `log_rotate`: whether they fail.
pub record Answers : Type 0 where
  pub clock_fails : Bool
  pub rename_fails : Bool
  pub open_fails : Bool

abbrev pub is_null : Output → Bool
is_null null = true
is_null opened = false
is_null closed = false

-- `log_rotate` after `fclose`
pub reopen : Answers → Logger → Bool × Logger
reopen answers s =
    if answers.clock_fails
    then (true, record s { output = closed })
    else if answers.rename_fails
    then (false, record s { output = closed })
    else if answers.open_fails
    then (false, record s { output = null })
    else (true, record s { output = opened })

-- `fclose` of a null pointer or of a closed file is undefined.
pub close_and_reopen : Answers → Output → Logger → Ending (Bool × Logger)
close_and_reopen answers null s = undefined
close_and_reopen answers closed s = undefined
close_and_reopen answers opened s = done (reopen answers s)

pub log_rotate : Answers → Logger → Ending (Bool × Logger)
log_rotate answers s =
    if ltb s.current_file_size s.max_file_size
    then done (if is_null s.output then false else true, s)
    else close_and_reopen answers s.output s

-- The three writes of `logger_log`, whose sizes as `size_t` are given; a write to a closed file is
-- undefined, and `log_rotate` does not return true with a null pointer.
pub write_entry : Entry → List ℕ → Output → Logger → Ending Logger
write_entry entry sizes null s = undefined
write_entry entry sizes closed s = undefined
write_entry entry sizes opened s = done (record s {
  locked = false;
  written = s.written ++ (entry ∷ []);
  current_file_size = u64 (s.current_file_size + total sizes);
})
  where
    total : List ℕ → ℕ
    total [] = 0
    total (n ∷ ns) = u64 (n + total ns)

pub after_rotate : Entry → List ℕ → Ending (Bool × Logger) → Ending Logger
after_rotate entry sizes (done (true, s)) = write_entry entry sizes s.output s
after_rotate entry sizes (done (false, s)) = done (record s { locked = false })
after_rotate entry sizes waiting = waiting
after_rotate entry sizes undefined = undefined

abbrev pub is_error : LogLevel → Bool
is_error error = true
is_error _ = false

pub logger_log : Answers → List ℕ → LogLevel → CString → ℕ → CString → Logger → Ending Logger
logger_log answers sizes level file line message s =
    let entry : Entry = record {
      letter = get_level_char level;
      file = file;
      line = line;
      message = message;
      backtrace = is_error level;
    } in
    if s.is_init
    then done s
    else if s.locked
    then waiting
    else after_rotate entry sizes (log_rotate answers (record s { locked = true }))

-- The states that calls of the logger can come to.
pub data Reach : Logger → Type 0 where
  here : Reach start
  init :
      {s : Logger} (opens : Bool) (size : ℕ) (f : CString)
      → Reach s
      → Reach ((init_logger opens size f s).1)
  log :
      {s s' : Logger} (answers : Answers) (sizes : List ℕ) (level : LogLevel) (file : CString)
      (line : ℕ) (message : CString)
      → Reach s
      → logger_log answers sizes level file line message s ≡ done s'
      → Reach s'
