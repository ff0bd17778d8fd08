-- ===== src/LogParser/CirBuffer/Checks.antt =====
-- The circular buffer of hw12 at concrete tasks, in the manner of hw12/test/test_circular_buffer.c.
use otus_c.Prelude.{ℕ, ◌+◌, ◌<◌, ◌≡◌, refl, true, false, [], ◌∷◌, some, none, arith, get_elem?}
use otus_c.LogParser.CirBuffer.{
  Task, Slot, garbage, null, held, Buffer, create_cir_buffer, cir_buffer_put, cir_buffer_get,
  cir_buffer_size, cir_buffer_free,
}
use otus_c.LogParser.CirBuffer.Queue.{push}
use otus_c.LogParser.CirBuffer.Refine.{
  Represents, create-Represents, put-Represents, get-Represents, size-Represents,
}
use otus_c.LogParser.CirBuffer.Release.{get-empty, AllSet, cir_buffer_free_lem}

abbrev task_a : Task
task_a = record { function = 1; arg = b'a' ∷ [] }

abbrev task_b : Task
task_b = record { function = 1; arg = b'b' ∷ [] }

abbrev fresh : Buffer
fresh = record {
  tasks = garbage ∷ garbage ∷ garbage ∷ [];
  head = 0;
  tail = 0;
  max = 3;
  full = false;
}

-- `task_b` was put in first, at the last place, then `task_a` at place 0.
abbrev wrapped : Buffer
wrapped = record {
  tasks = held task_a ∷ null ∷ held task_b ∷ [];
  head = 1;
  tail = 2;
  max = 3;
  full = false;
}

wrapped-Represents : Represents wrapped (task_b ∷ task_a ∷ [])
unfolding cir_buffer_size
wrapped-Represents = record {
  valid = record {
    stored = refl;
    small = omega arith;
    head_in = omega arith;
    tail_in = omega arith;
    full_met = λ h. cc;
  };
  holds = refl;
}

fresh-Represents : Represents fresh []
unfolding create_cir_buffer
fresh-Represents =
    create-Represents (garbage ∷ garbage ∷ garbage ∷ []) 3 refl (omega arith) (omega arith) refl

fills_up :
    cir_buffer_put
      (record wrapped {
        tasks = held task_a ∷ held task_a ∷ held task_b ∷ [];
        head = 2;
        full = true;
      })
      task_a
    ≡ some (
      false,
      record wrapped {
        tasks = held task_a ∷ held task_a ∷ held task_b ∷ [];
        head = 2;
        full = true;
      },
    )
unfolding cir_buffer_put
fills_up = refl

new_ring : Represents fresh []
unfolding create_cir_buffer
new_ring =
    create-Represents (garbage ∷ garbage ∷ garbage ∷ []) 3 refl (omega arith) (omega arith) refl

size-Represents_example : cir_buffer_size wrapped ≡ 2
size-Represents_example = size-Represents wrapped-Represents

put-Represents_example :
    (b : Buffer) × (cir_buffer_put wrapped task_a
      ≡ some ((push 3 (task_b ∷ task_a ∷ []) task_a).0, b))
    × Represents b (push 3 (task_b ∷ task_a ∷ []) task_a).1
    × (b.max ≡ 3)
put-Represents_example = put-Represents task_a wrapped-Represents

get-Represents_example :
    (b : Buffer) × (cir_buffer_get wrapped ≡ some (held task_b, b))
    × Represents b (task_a ∷ [])
    × (b.max ≡ 3)
get-Represents_example = get-Represents task_b wrapped-Represents

got_from_none :
    (s : Slot) × (b : Buffer) × (cir_buffer_get fresh ≡ some (s, b)) × (cir_buffer_size b + 1 ≡ 3)
got_from_none = get-empty fresh-Represents

cir_buffer_free_lem_test :
    (AllSet wrapped.tasks → cir_buffer_free (some wrapped) ≡ some (task_a ∷ task_b ∷ []))
    × ((i : ℕ)
        → get_elem? wrapped.tasks i ≡ some garbage
        → i < 3
        → cir_buffer_free (some wrapped) ≡ none)
cir_buffer_free_lem_test = cir_buffer_free_lem wrapped-Represents.valid
