-- ===== src/LogParser/CirBuffer/Refine.antt =====
-- The buffer of hw12 behaves as the bounded queue of the tasks that it holds.
use mathlib.Core.List.{map-append}
use mathlib.Core.Option.{some-injective}
use otus_c.Prelude.Words.{u64}
use otus_c.Prelude.{
  ℕ, suc, ◌+◌, ◌%◌, ◌^◌, ◌≤◌, ◌<◌, ◌≡◌, refl, sym, ap, subst, ◌∙◌, true, false, List, [], ◌∷◌, ◌++◌,
  map, some, arith, length, set, length-set, length-map, store-eq-set, get_elem?-eq-get_or, get_or,
  Bool-cases, inl, inr, ◌==◌,
}
use otus_c.LogParser.CirBuffer.{
  Task, Slot, null, held, Buffer, create_cir_buffer, cir_buffer_put, cir_buffer_get,
  cir_buffer_size,
}
use otus_c.LogParser.CirBuffer.Queue.{push}
use otus_c.Prelude.Ring.{steps, next_place}
use otus_c.LogParser.CirBuffer.Window.{window, length-window, window-set_apart, window-set_end}

-- The largest array of pointers whose size in bytes fits `size_t`.
abbrev pub max_slots : ℕ
max_slots = 2 ^ 61

pub record IsValid (b : Buffer) : Type 0 where
  pub stored : length b.tasks ≡ b.max
  pub small : b.max < max_slots
  pub head_in : b.head < b.max
  pub tail_in : b.tail < b.max
  pub full_met : b.full ≡ true → b.head ≡ b.tail

-- `b` is valid, and its slots from the tail on hold the tasks of `q` in order.
pub record Represents (b : Buffer) (q : List Task) : Type 0 where
  pub valid : IsValid b
  pub holds : window b.tasks b.max b.tail (cir_buffer_size b) ≡ map held q

pub size_of_full : (b : Buffer) → b.full ≡ true → cir_buffer_size b ≡ b.max
unfolding cir_buffer_size
size_of_full b f = rw f refl

-- The wrap-around of `size_t` plays no part in the size.
pub size-eq-steps :
    {b : Buffer} → IsValid b → b.full ≡ false → cir_buffer_size b ≡ steps b.max b.tail b.head
unfolding cir_buffer_size
size-eq-steps {b} v f = ground arith

pub size-le-max : {b : Buffer} → IsValid b → cir_buffer_size b ≤ b.max
size-le-max {b} v = elim (Bool-cases b.full) [
  | inl f ↦ omega (arith, size_of_full b f)
  | inr f ↦ ground (arith, size-eq-steps v f)
]

pub size-lt-max : {b : Buffer} → IsValid b → b.full ≡ false → cir_buffer_size b < b.max
size-lt-max {b} v f = ground (arith, size-eq-steps v f)

-- `cir_buffer_size` is the number of tasks.
pub size-Represents : {b : Buffer} {q : List Task} → Represents b q → cir_buffer_size b ≡ length q
size-Represents {b} {q} r =
    sym (length-window b.tasks b.max b.tail (cir_buffer_size b))
    ∙ ap length r.holds
    ∙ length-map q held

-- A buffer of at least one slot, freshly made, is an empty queue, whatever the memory holds.
pub create-Represents :
    (slots : List Slot) (max : ℕ) {b : Buffer}
    → length slots ≡ max
    → 0 < max
    → max < max_slots
    → create_cir_buffer true (some slots) max ≡ some b
    → Represents b []
unfolding create_cir_buffer cir_buffer_size
create-Represents slots max {b} e pos small made =
    subst (λ c. Represents c []) (some-injective _ _ made)
      (record {
        valid = record {
          stored = e;
          small = small;
          head_in = pos;
          tail_in = pos;
          full_met = λ h. cc;
        };
        holds = refl;
      })

module _ {b : Buffer} (v : IsValid b) (t : Task) where
  -- The buffer after a task was put in.
  abbrev added : Buffer
  added = record b {
    tasks = set b.tasks b.head (held t);
    head = (b.head + 1) % b.max;
    full = (b.head + 1) % b.max == b.tail;
  }

  put_runs : b.full ≡ false → cir_buffer_put b t ≡ some (true, added)
  unfolding cir_buffer_put
  put_runs f =
      let e : u64 (b.head + 1) ≡ b.head + 1 = omega arith in
      rw (f, store-eq-set b.tasks b.head (held t) (omega arith), e) (ground arith)

  added-IsValid : IsValid added
  added-IsValid = record {
    stored = length-set b.tasks b.head (held t) ∙ v.stored;
    small = v.small;
    head_in = omega arith;
    tail_in = v.tail_in;
    full_met = λ h. ground arith;
  }

  size-added : b.full ≡ false → cir_buffer_size added ≡ suc (cir_buffer_size b)
  size-added f = elim (Bool-cases ((b.head + 1) % b.max == b.tail)) [
    | inl e ↦ ground (arith, size_of_full added e, size-eq-steps v f, next_place b.max b.head)
    | inr e ↦ ground (
      arith,
      size-eq-steps {b = added} added-IsValid e,
      size-eq-steps v f,
      next_place b.max b.head,
    )
  ]

  added-holds :
      (q : List Task)
      → b.full ≡ false
      → window b.tasks b.max b.tail (cir_buffer_size b) ≡ map held q
      → window added.tasks b.max b.tail (cir_buffer_size added) ≡ map held (q ++ (t ∷ []))
  added-holds q f h = rw (size-added f) (
      window-set_end b.tasks b.max b.head (held t) b.tail (cir_buffer_size b) (omega arith)
        v.tail_in v.head_in (size-eq-steps v f)
      ∙ ap (λ l. l ++ (held t ∷ [])) h
      ∙ sym (map-append held q (t ∷ [])))

-- On a buffer that represents a queue, `cir_buffer_put` meets no undefined behaviour: it answers
-- as a push to the bounded queue does, and leaves a buffer that represents the queue after it.
pub put-Represents :
    {b : Buffer} {q : List Task} (t : Task)
    → Represents b q
    → (b' : Buffer) × (cir_buffer_put b t ≡ some ((push b.max q t).0, b'))
      × Represents b' (push b.max q t).1
      × (b'.max ≡ b.max)
unfolding push
put-Represents {b} {q} t r = elim (Bool-cases b.full) [
  | inl f ↦
      let e : (length q == b.max) ≡ true = ground (arith, size_of_full b f, size-Represents r) in
      (b, rw e (unfold cir_buffer_put in rw f refl), rw e r, refl)
  | inr f ↦
      let e : (length q == b.max) ≡ false =
        ground (arith, size-eq-steps r.valid f, size-Represents r) in
      (
        added r.valid t,
        rw e (put_runs r.valid t f),
        rw e
            (record { valid = added-IsValid r.valid t; holds = added-holds r.valid t q f r.holds }),
        refl,
      )
]

module _ {b : Buffer} (v : IsValid b) where
  -- The buffer after its oldest slot was taken.
  abbrev pub taken : Buffer
  taken = record b { tasks = set b.tasks b.tail null; tail = (b.tail + 1) % b.max; full = false }

  pub get_runs : cir_buffer_get b ≡ some (get_or b.tasks b.tail null, taken)
  unfolding cir_buffer_get
  get_runs =
      let e : u64 (b.tail + 1) ≡ b.tail + 1 = omega arith in
      rw
        (
          get_elem?-eq-get_or b.tasks b.tail null (omega arith),
          store-eq-set b.tasks b.tail null (omega arith),
          e,
        )
        (ground arith)

  pub taken-IsValid : IsValid taken
  taken-IsValid = record {
    stored = length-set b.tasks b.tail null ∙ v.stored;
    small = v.small;
    head_in = v.head_in;
    tail_in = omega arith;
    full_met = λ h. cc;
  }

  size-taken : 0 < cir_buffer_size b → suc (cir_buffer_size taken) ≡ cir_buffer_size b
  size-taken pos = elim (Bool-cases b.full) [
    | inl f ↦ ground (
      arith,
      size_of_full b f,
      size-eq-steps {b = taken} taken-IsValid refl,
      next_place b.max b.tail,
    )
    | inr f ↦ ground (
      arith,
      size-eq-steps v f,
      size-eq-steps {b = taken} taken-IsValid refl,
      next_place b.max b.tail,
    )
  ]

-- On a buffer that represents a queue with a first task, `cir_buffer_get` meets no undefined
-- behaviour: it gives that task, and leaves a buffer that represents the rest.
pub get-Represents :
    {b : Buffer} {q : List Task} (t : Task)
    → Represents b (t ∷ q)
    → (b' : Buffer) × (cir_buffer_get b ≡ some (held t, b')) × Represents b' q × (b'.max ≡ b.max)
get-Represents {b} {q} t r =
    let v = r.valid in
    let more : suc (cir_buffer_size (taken v)) ≡ cir_buffer_size b =
      size-taken v (omega (arith, size-Represents r)) in
    let whole = ap (window b.tasks b.max b.tail) more ∙ r.holds in
    (
      taken v,
      get_runs v ∙ ap (λ s. some (s, taken v)) (cc whole),
      record {
        valid = taken-IsValid v;
        holds =
            window-set_apart b.tasks b.max b.tail null ((b.tail + 1) % b.max)
              (cir_buffer_size (taken v)) (omega arith) v.tail_in
              (ground (arith, size-le-max v, next_place b.max b.tail))
            ∙ cc whole;
      },
      refl,
    )
