-- ===== src/LogParser/Main.antt =====
-- hw12/src/main.c: `main`, before the pool starts and after it has stopped; what the threads do in
-- between is ThreadPool. Where the allocations of the tables and of the pool fail is left out.
pub mod Reorder
pub mod Output
pub mod Finish
pub mod Totals
pub mod Order
pub mod Checks
use otus_c.Prelude.{
  ℕ, zero, suc, ◌+◌, ◌/◌, ◌==◌, Bool, true, false, ◌||◌, List, [], ◌∷◌, ◌++◌, Option, none, some,
  if◌then◌else◌, ltb, take, ◌>>=◌,
}
use otus_c.Prelude.Bytes.{CString}
use otus_c.LogParser.CirBuffer.{Task, Slot, Buffer, create_cir_buffer}
use otus_c.LogParser.HashTable.{Bucket, Table, create_hash_t}
use otus_c.LogParser.HashTable.Outcome.{Run, ok, blocked, fault}
use otus_c.LogParser.ThreadPool.{System, create_pool}
use otus_c.LogParser.Apache.{Tables, process_file, strtoull}

-- `struct dirent`: whether `d_type` is `DT_REG`, and `d_name`
pub record Dirent : Type 0 where
  pub is_regular : Bool
  pub name : CString

-- The first loop over the directory
abbrev pub count_files : List Dirent → ℕ
count_files [] = 0
count_files (entry ∷ dir) = let n = count_files dir in if entry.is_regular then n + 1 else n

-- `num_thread`, from the number on the command line
abbrev pub choose_threads : ℕ → ℕ → ℕ
choose_threads num_thread file_count =
    if num_thread == 0 || ltb file_count num_thread then file_count else num_thread

-- `snprintf` into the 120 bytes of `full_path`
abbrev pub full_path : CString → CString → CString
full_path dirname name = take 119 (dirname ++ (b'/' ∷ name))

-- `process_file` as the function of a task
abbrev pub process_file_id : ℕ
process_file_id = 1

-- The tasks that the second loop over the directory adds
abbrev pub file_tasks : CString → List Dirent → List Task
file_tasks dirname [] = []
file_tasks dirname (entry ∷ dir) =
    let rest = file_tasks dirname dir in
    if entry.is_regular
    then record { function = process_file_id; arg = full_path dirname entry.name } ∷ rest
    else rest

-- What memory held: in the ring, where it can be had, and in the arrays of buckets
pub record Memory : Type 0 where
  pub ring : Option (List Slot)
  pub refer : List Bucket
  pub uri : List Bucket

pub record Setup : Type 0 where
  pub num_thread : ℕ
  pub buf : Buffer
  pub tables : Tables
  pub files : List Task

-- `main` up to the pool, on the arguments behind the program's name, with the two answers of `opendir`
-- and `readdir`; `atoi` is read as `strtoull`, for a number that fits an `int`. `none` is
-- `EXIT_FAILURE`.
pub set_up :
    Memory
    → (CString → Option (List Dirent))
    → (CString → Option (List Dirent))
    → List CString
    → Option Setup
set_up memory opendir opendir_again (n_thread ∷ dirname ∷ []) = do
  dir ← opendir dirname
  buf ← create_cir_buffer true memory.ring 10
  dir' ← opendir_again dirname
  some (record {
    num_thread = choose_threads (strtoull n_thread) (count_files dir);
    buf = buf;
    tables = record { refer = create_hash_t 100 memory.refer; uri = create_hash_t 100 memory.uri };
    files = file_tasks dirname dir';
  })
set_up memory opendir opendir_again argv = none

-- The state in which the threads of the pool and the loop over the directory start
abbrev pub pool_of : Setup → System
pool_of m = create_pool m.num_thread m.buf m.files

-- The tasks, executed one after the other: the total `bytes` and the tables. `none` is that `fuel` ran
-- out.
abbrev pub then_run :
    (ℕ → Tables → Option (Run (ℕ × Tables))) → Option (Run (ℕ × Tables)) → Option (Run (ℕ × Tables))
then_run k none = none
then_run k (some (ok (bytes, t))) = k bytes t
then_run k (some blocked) = some blocked
then_run k (some fault) = some fault

pub run_tasks :
    (CString → Option (List ℕ))
    → (ℕ → Bool × Bool)
    → ℕ
    → Tables
    → ℕ
    → List Task
    → Option (Run (ℕ × Tables))
run_tasks open_read memory fuel t bytes [] = some (ok (bytes, t))
run_tasks open_read memory fuel t bytes (task ∷ tasks) =
    then_run (λ bytes' t'. run_tasks open_read memory fuel t' bytes' tasks)
      (process_file open_read memory fuel t bytes (some task.arg))
