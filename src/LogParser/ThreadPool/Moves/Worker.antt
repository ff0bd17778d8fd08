-- ===== src/LogParser/ThreadPool/Moves/Worker.antt =====
-- The steps of a worker of hw12.
use mathlib.Core.List.{append_assoc}
use otus_c.Prelude.{
  ℕ, suc, ◌+◌, ◌≡◌, ◌≢◌, inl, inr, refl, sym, ap, subst, ◌∙◌, Bool, true, false, List, [], ◌∷◌,
  ◌++◌, some, arith, length, get_elem?, set, get_elem?-set_inv,
}
use otus_c.LogParser.CirBuffer.{Task, held, Buffer, cir_buffer_get}
use otus_c.LogParser.CirBuffer.Refine.{Represents, get-Represents, size-Represents}
use otus_c.LogParser.ThreadPool.{Pc, Shared, System, WorkerMove, exited, taking}
use otus_c.LogParser.ThreadPool.Workers.{
  count, count-append, in_hand, all_in_hand-set, exited_at, taking_or_not,
}
use otus_c.LogParser.ThreadPool.Invariant.{Inv, holds, is_putting, putting_holds, pending}

-- A get on a queue that is not empty.
pub get_gives :
    (b : Buffer) (q : List Task)
    → Represents b q
    → q ≢ []
    → (t : Task) × (q' : List Task) × (b' : Buffer) × (q ≡ t ∷ q')
      × (cir_buffer_get b ≡ some (held t, b'))
      × Represents b' q'
      × (b'.max ≡ b.max)
get_gives b [] r h = absurd (h refl)
get_gives b (t ∷ q) r h =
    let (b', run, r', max) = get-Represents t r in (t, q, b', refl, run, r', max)

-- What a worker's step from `p` to `p'` does to the queue and to the records.
record QueueEffect (m : Shared) (p : Pc) (q : List Task) (m' : Shared) (p' : Pc) : Type 0 where
  after : List Task
  repr : Represents m'.buf after
  order : m'.taken ++ after ≡ m.taken ++ q
  submitted : m'.submitted ≡ m.submitted
  same_max : m'.buf.max ≡ m.buf.max
  stays : (p ≢ taking → after ≡ q) × (p ≢ taking → m'.buf ≡ m.buf)
  needs : p ≡ taking → q ≢ []
  fills : p' ≡ taking → after ≢ []
  counts :
      (has : Task → Bool)
      → count has m'.taken + count has m.done + in_hand has p
        ≡ count has m.taken + count has m'.done + in_hand has p'

-- A step that leaves the queue and the records alone.
unmoved :
    {m m' : Shared} {p p' : Pc} {q : List Task}
    → Represents m.buf q
    → m'.buf ≡ m.buf
    → m'.taken ≡ m.taken
    → m'.submitted ≡ m.submitted
    → m'.done ≡ m.done
    → p ≢ taking
    → (p' ≡ taking → q ≢ [])
    → ((has : Task → Bool) → in_hand has p ≡ in_hand has p')
    → QueueEffect m p q m' p'
unmoved {q} r b t s d n f h = record {
  after = q;
  repr = subst (λ c. Represents c q) (sym b) r;
  order = ap (λ l. l ++ q) t;
  submitted = s;
  same_max = ap (λ c. c.max) b;
  stays = (λ _. refl, λ _. b);
  needs = λ e. absurd (n e);
  fills = f;
  counts = λ has. omega (arith, ap (count has) t, ap (count has) d, h has);
}

queue_effect :
    {i : ℕ} {m m' : Shared} {p p' : Pc} {q : List Task}
    → WorkerMove i m p m' p'
    → Represents m.buf q
    → (p ≡ taking → q ≢ [])
    → QueueEffect m p q m' p'
queue_effect (WorkerMove.lock g) r ready =
    unmoved r refl refl refl refl (λ e. cc) (λ e. cc) (λ has. refl)
queue_effect (WorkerMove.wait g h) r ready =
    unmoved r refl refl refl refl (λ e. cc) (λ e. cc) (λ has. refl)
queue_effect (WorkerMove.wake g) r ready =
    unmoved r refl refl refl refl (λ e. cc) (λ e. cc) (λ has. refl)
queue_effect (WorkerMove.quit g) r ready =
    unmoved r refl refl refl refl (λ e. cc) (λ e. cc) (λ has. refl)
queue_effect (WorkerMove.pass g h) r ready =
    unmoved r refl refl refl refl (λ e. cc)
      (λ e none_left. g (size-Represents r ∙ ap length none_left)) (λ has. refl)
queue_effect {m} {q} (WorkerMove.take {t} {b} g) r ready =
    let (first, rest, b', e, run, r', max) = get_gives m.buf q r (ready refl) in
    let same_task : first ≡ t = cc in
    let same_buf : b' ≡ b = cc in
    record {
      after = rest;
      repr = subst (λ c. Represents c rest) same_buf r';
      order =
          append_assoc m.taken (t ∷ []) rest
          ∙ ap (λ l. m.taken ++ l) (ap (λ x. x ∷ rest) (sym same_task) ∙ sym e);
      submitted = refl;
      same_max = sym (ap (λ c. c.max) same_buf) ∙ max;
      stays = (λ n. absurd (n refl), λ n. absurd (n refl));
      needs = ready;
      fills = λ f. cc;
      counts = λ has. omega (arith, count-append has m.taken (t ∷ []));
    }
queue_effect {m} {q} (WorkerMove.take_null g) r ready =
    let (first, rest, b', e, run, r', max) = get_gives m.buf q r (ready refl) in cc
queue_effect WorkerMove.leave r ready =
    unmoved r refl refl refl refl (λ e. cc) (λ e. cc) (λ has. refl)
queue_effect {m} {q} (WorkerMove.execute {t}) r ready = record {
  after = q;
  repr = r;
  order = refl;
  submitted = refl;
  same_max = refl;
  stays = (λ _. refl, λ _. refl);
  needs = λ e. cc;
  fills = λ e. cc;
  counts = λ has. omega (arith, count-append has m.done (t ∷ []));
}

-- The mutex: the worker's own claim, and that it takes it from nobody.
mutex_effect :
    {i : ℕ} {m m' : Shared} {p p' : Pc}
    → WorkerMove i m p m' p'
    → (holds p ≡ true → m.mu ≡ some (suc i))
    → (holds p' ≡ true → m'.mu ≡ some (suc i))
      × ((k : ℕ) → k ≢ suc i → m.mu ≡ some k → m'.mu ≡ some k)
mutex_effect (WorkerMove.lock g) own = (λ _. refl, λ k n e. cc)
mutex_effect (WorkerMove.wait g h) own = (λ e. cc, λ k n e. ground (arith, own refl))
mutex_effect (WorkerMove.wake g) own = (λ _. refl, λ k n e. cc)
mutex_effect (WorkerMove.quit g) own = (λ e. cc, λ k n e. ground (arith, own refl))
mutex_effect (WorkerMove.pass g h) own = (λ _. own refl, λ k n e. e)
mutex_effect (WorkerMove.take g) own = (λ _. own refl, λ k n e. e)
mutex_effect (WorkerMove.take_null g) own = (λ e. cc, λ k n e. ground (arith, own refl))
mutex_effect WorkerMove.leave own = (λ e. cc, λ k n e. ground (arith, own refl))
mutex_effect WorkerMove.execute own = (λ e. cc, λ k n e. e)

-- An exited worker makes no step.
not_exited : {i : ℕ} {m m' : Shared} {p p' : Pc} → WorkerMove i m p m' p' → p ≢ exited
not_exited (WorkerMove.lock g) e = cc
not_exited (WorkerMove.wait g h) e = cc
not_exited (WorkerMove.wake g) e = cc
not_exited (WorkerMove.quit g) e = cc
not_exited (WorkerMove.pass g h) e = cc
not_exited (WorkerMove.take g) e = cc
not_exited (WorkerMove.take_null g) e = cc
not_exited WorkerMove.leave e = cc
not_exited WorkerMove.execute e = cc

-- A step of a worker keeps the invariant.
pub worker-Inv :
    {files q : List Task} {s : System} (i : ℕ) {p p' : Pc} {m : Shared}
    → Inv files q s
    → get_elem? s.workers i ≡ some p
    → WorkerMove i s.shared p m p'
    → (q' : List Task) × Inv files q' (record s { shared = m; workers = set s.workers i p' })
worker-Inv {files} {q} {s} i {p} {p'} {m} inv at mv = (
  eff.after,
  record {
    repr = eff.repr;
    order = eff.order ∙ inv.order ∙ sym eff.submitted;
    supply = ap (λ l. l ++ (pending s.main ++ s.todo)) eff.submitted ∙ inv.supply;
    owners = λ j r there h. elim (get_elem?-set_inv s.workers i j p' there) [
      | inl (e, f) ↦ mutex.0 (ap holds f ∙ h) ∙ ap (λ k. some (suc k)) e
      | inr (n, old) ↦ mutex.1 (suc j) (omega arith) (inv.owners j r old h)
    ];
    main_owner = λ h. mutex.1 0 (omega arith) (inv.main_owner h);
    ready = λ j there. elim (get_elem?-set_inv s.workers i j p' there) [
      | inl (e, f) ↦ eff.fills f
      | inr (n, old) ↦ still_queued j n old
    ];
    roomy = λ h. buffer_kept h;
    supplied = inv.supplied;
    drained = λ h few. nothing_left (inv.drained h (omega (arith, few, eff.same_max)));
    counted = λ has.
        omega (arith, inv.counted has, eff.counts has, all_in_hand-set has s.workers i p' at);
    joined = λ h. absurd (not_exited mv (exited_at s.workers i (inv.joined h) at));
  },
)
  where
    needs_task : p ≡ taking → q ≢ []
    needs_task e = inv.ready i (at ∙ ap some e)

    eff : QueueEffect s.shared p q m p'
    eff = queue_effect mv inv.repr needs_task

    mutex :
        (holds p' ≡ true → m.mu ≡ some (suc i))
        × ((k : ℕ) → k ≢ suc i → s.shared.mu ≡ some k → m.mu ≡ some k)
    mutex = mutex_effect mv (inv.owners i p at)

    -- If this worker takes, it has the mutex, and so no other thread has it.
    mine : p ≡ taking → s.shared.mu ≡ some (suc i)
    mine e = inv.owners i taking (at ∙ ap some e) refl

    still_queued : (j : ℕ) → j ≢ i → get_elem? s.workers j ≡ some taking → eff.after ≢ []
    still_queued j n there = elim (taking_or_not p) [
      | inl e ↦ absurd (n (ground (arith, mine e, inv.owners j taking there refl)))
      | inr other ↦ λ none_left. inv.ready j there (sym (eff.stays.0 other) ∙ none_left)
    ]

    buffer_kept : is_putting s.main ≡ true → m.buf.full ≡ false
    buffer_kept h = elim (taking_or_not p) [
      | inl e ↦ absurd (ground (arith, mine e, inv.main_owner (putting_holds s.main h)))
      | inr other ↦ ap (λ b. b.full) (eff.stays.1 other) ∙ inv.roomy h
    ]

    nothing_left : q ≡ [] → eff.after ≡ []
    nothing_left e = elim (taking_or_not p) [
      | inl f ↦ absurd (needs_task f e)
      | inr other ↦ eff.stays.0 other ∙ e
    ]

-- The buffer keeps its size.
pub worker-max :
    {files q : List Task} {s : System} (i : ℕ) {p p' : Pc} {m : Shared}
    → Inv files q s
    → get_elem? s.workers i ≡ some p
    → WorkerMove i s.shared p m p'
    → m.buf.max ≡ s.shared.buf.max
worker-max i inv at mv =
    let eff = queue_effect mv inv.repr (λ e. inv.ready i (at ∙ ap some e)) in eff.same_max

-- A worker that is about to take a task is given one: the get meets no undefined behaviour, and what
-- it gives is the first task of the queue.
pub taking_gets :
    {files q : List Task} {s : System} (i : ℕ)
    → Inv files q s
    → get_elem? s.workers i ≡ some taking
    → (t : Task) × (q' : List Task) × (b : Buffer) × (q ≡ t ∷ q')
      × (cir_buffer_get s.shared.buf ≡ some (held t, b))
taking_gets {q} {s} i inv at =
    let (t, q', b, e, run, _, _) = get_gives s.shared.buf q inv.repr (inv.ready i at) in
    (t, q', b, e, run)
