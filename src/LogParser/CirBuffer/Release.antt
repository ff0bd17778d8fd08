-- ===== src/LogParser/CirBuffer/Release.antt =====
-- What `cir_buffer_free` of hw12 gives back, and what goes wrong at the edges of the interface.
use otus_c.Prelude.{
  ℕ, zero, suc, ◌+◌, ◌<◌, ◌≡◌, refl, List, [], ◌∷◌, some, none, arith, length, get_elem?,
  Bool-cases, inl, inr,
}
use otus_c.LogParser.CirBuffer.{
  Task, Slot, garbage, null, held, Buffer, cir_buffer_get, cir_buffer_size, task_free,
  cir_buffer_free,
}
use otus_c.Prelude.Ring.{next_place}
use otus_c.LogParser.CirBuffer.Refine.{
  IsValid, Represents, size-Represents, taken, get_runs, taken-IsValid, size-eq-steps, size_of_full,
}

-- A get on an empty buffer is not refused: it moves the tail past the head, and from then on a
-- buffer of `max` slots reports `max - 1` tasks that nobody put in.
pub get-empty :
    {b : Buffer}
    → Represents b []
    → (s : Slot) × (b' : Buffer) × (cir_buffer_get b ≡ some (s, b'))
      × (cir_buffer_size b' + 1 ≡ b.max)
get-empty {b} r = (_, taken r.valid, get_runs r.valid, left)
  where
    left : cir_buffer_size (taken r.valid) + 1 ≡ b.max
    left = elim (Bool-cases b.full) [
      | inl f ↦ absurd (omega (arith, size-Represents r, size_of_full b f))
      | inr f ↦ ground (
        arith,
        size-Represents r,
        size-eq-steps r.valid f,
        size-eq-steps {b = taken r.valid} (taken-IsValid r.valid) refl,
        next_place b.max b.tail,
      )
    ]

-- The tasks among the slots.
abbrev pub tasks_of : List Slot → List Task
tasks_of [] = []
tasks_of (held t ∷ slots) = t ∷ tasks_of slots
tasks_of (null ∷ slots) = tasks_of slots
tasks_of (garbage ∷ slots) = tasks_of slots

-- Every slot was set, to null or to a task.
abbrev pub AllSet : List Slot → Type 0
AllSet [] = Unit {0}
AllSet (garbage ∷ slots) = ⊥
AllSet (null ∷ slots) = AllSet slots
AllSet (held t ∷ slots) = AllSet slots

task_free-AllSet :
    (slots : List Slot) → AllSet slots → task_free (length slots) slots ≡ some (tasks_of slots)
unfolding task_free
task_free-AllSet [] h = refl
task_free-AllSet (garbage ∷ slots) h = absurd h
task_free-AllSet (null ∷ slots) h = rw (task_free-AllSet slots h) refl
task_free-AllSet (held t ∷ slots) h = rw (task_free-AllSet slots h) refl

task_free-garbage :
    (n : ℕ) (slots : List Slot) (i : ℕ)
    → i < n
    → get_elem? slots i ≡ some garbage
    → task_free n slots ≡ none
unfolding task_free
task_free-garbage zero slots i low g = absurd (omega arith)
task_free-garbage (suc n) [] i low g = refl
task_free-garbage (suc n) (s ∷ slots) zero low g = ground (arith)
task_free-garbage (suc n) (s ∷ slots) (suc i) low g =
    rw (task_free-garbage n slots i (omega arith) g) refl

-- `cir_buffer_free` on a valid buffer: if every slot was set, the tasks in the slots are freed, each
-- once; if `malloc` left some slot as it found it, a wild pointer is freed, also on a buffer that
-- represents a queue.
pub cir_buffer_free_lem :
    {b : Buffer}
    → IsValid b
    → (AllSet b.tasks → cir_buffer_free (some b) ≡ some (tasks_of b.tasks))
      × ((i : ℕ) → get_elem? b.tasks i ≡ some garbage → i < b.max → cir_buffer_free (some b) ≡ none)
unfolding cir_buffer_free
cir_buffer_free_lem {b} v = (
  λ h. rw (← v.stored) (task_free-AllSet b.tasks h),
  λ i g low. task_free-garbage b.max b.tasks i low g,
)
