-- ===== src/LogParser/CirBuffer.antt =====
-- hw12/src/circular_buffer.c and hw12/include/circular_buffer.h. A pointer of the array `tasks` is a
-- `Slot`; the result `none` of an operation is undefined behaviour: an index outside of the array, a
-- remainder by zero, a wild pointer given to `free`. The allocations in `cir_buffer_put` succeed.
pub mod Window
pub mod Queue
pub mod Refine
pub mod Release
pub mod Checks
use otus_c.Prelude.{
  ℕ, zero, suc, ◌+◌, ◌-◌, Bool, true, false, List, [], ◌∷◌, Option, none, some, leb, ◌==◌,
  if◌then◌else◌, get_elem?, store, ◌>>=◌, mod?,
}
use otus_c.Prelude.Words.{u64, sub64}
use otus_c.Prelude.Bytes.{CString}

-- `task_t`: the function by a number, the argument by the string that `strdup` copies.
pub record Task : Type 0 where
  pub function : ℕ
  pub arg : CString

-- `task_t *`: what `malloc` left there, NULL, or a task.
pub data Slot : Type 0 where
  garbage : Slot
  null : Slot
  held : Task → Slot

-- `cir_buffer_t`
pub record Buffer : Type 0 where
  pub tasks : List Slot
  pub head : ℕ
  pub tail : ℕ
  pub max : ℕ
  pub full : Bool

-- The answers of the two calls of `malloc` are arguments: whether the first gives memory, and the
-- contents of the memory that the second gives.
unfoldable pub create_cir_buffer : Bool → Option (List Slot) → ℕ → Option Buffer
create_cir_buffer false array max = none
create_cir_buffer true none max = none
create_cir_buffer true (some slots) max =
    some (record { tasks = slots; head = 0; tail = 0; max = max; full = false })

unfoldable pub cir_buffer_put : Buffer → Task → Option (Bool × Buffer)
cir_buffer_put buf t = if buf.full then some (false, buf) else do
  tasks ← store buf.tasks buf.head (held t)
  head ← mod? (u64 (buf.head + 1)) buf.max
  some (true, record buf { tasks = tasks; head = head; full = head == buf.tail })

unfoldable pub cir_buffer_get : Buffer → Option (Slot × Buffer)
cir_buffer_get buf = do
  t ← get_elem? buf.tasks buf.tail
  tasks ← store buf.tasks buf.tail null
  tail ← mod? (u64 (buf.tail + 1)) buf.max
  some (t, record buf { tasks = tasks; tail = tail; full = false })

unfoldable pub cir_buffer_size : Buffer → ℕ
cir_buffer_size buf =
    if buf.full
    then buf.max
    else if leb buf.tail buf.head
    then sub64 buf.head buf.tail
    else sub64 (u64 (buf.max + buf.head)) buf.tail

-- One round of `task_free`: the tasks freed so far, and the slot afterwards.
abbrev pub free_slot : Slot → List Task → Option (List Task)
free_slot garbage freed = none
free_slot null freed = some freed
free_slot (held t) freed = some (t ∷ freed)

-- The loop of `task_free` with a number of rounds left; the result is what was freed.
pub task_free : ℕ → List Slot → Option (List Task)
task_free zero slots = some []
task_free (suc n) [] = none
task_free (suc n) (s ∷ slots) = do freed ← task_free n slots; free_slot s freed

-- `none` as the argument is a null pointer.
pub cir_buffer_free : Option Buffer → Option (List Task)
cir_buffer_free none = some []
cir_buffer_free (some buf) = task_free buf.max buf.tasks
