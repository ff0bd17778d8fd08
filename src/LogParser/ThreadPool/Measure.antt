-- ===== src/LogParser/ThreadPool/Measure.antt =====
-- How far the pool of hw12 is from its end: a number that some step of any state makes smaller.
use otus_c.Prelude.{
  ℕ, zero, suc, ◌+◌, ◌-◌, ◌*◌, ◌<◌, ◌≡◌, ◌≢◌, refl, ap, Bool, false, not, ◌&&◌, List, [], ◌∷◌,
  Option, some, arith, length, get_elem?, set, ◌==◌, if◌then◌else◌,
}
use otus_c.LogParser.CirBuffer.{Task, cir_buffer_size}
use otus_c.LogParser.ThreadPool.{
  Pc, start, checking, waiting, taking, got, running, exited, MainPc, Shared, System, WorkerMove,
  MainMove, Step, worker, main_thread,
}
use otus_c.LogParser.ThreadPool.Invariant.{main_holds}

-- There is nothing to do for a worker.
abbrev pub idle : Shared → Bool
idle m = cir_buffer_size m.buf == 0 && not m.stop

-- A worker at the test goes on to take a task or to exit, or it has to wait.
abbrev pub weight : Bool → Pc → ℕ
weight b start = 3
weight b checking = if b then 4 else 2
weight b waiting = 3
weight b taking = 1
weight b (got t) = 5
weight b (running t) = 4
weight b exited = 0

abbrev pub total : Bool → List Pc → ℕ
total b [] = 0
total b (w ∷ ws) = weight b w + total b ws

-- The main thread, with the tasks that it has still to add; `full` is that of the buffer.
abbrev pub main_weight : Bool → MainPc → List Task → ℕ
main_weight full MainPc.next ts = 11 * length ts + 5
main_weight full (MainPc.checking t) ts = 11 * length ts + (if full then 15 else 13)
main_weight full (MainPc.waiting t) ts = 11 * length ts + 14
main_weight full (MainPc.putting t) ts = 11 * length ts + 12
main_weight full MainPc.leaving ts = 11 * length ts + 6
main_weight full MainPc.draining ts = 4
main_weight full MainPc.stopping ts = 3
main_weight full MainPc.setting ts = 2
main_weight full MainPc.joining ts = 1
main_weight full MainPc.finished ts = 0

-- The tasks put in and not yet taken out
abbrev pub backlog : Shared → ℕ
backlog m = length m.submitted - length m.taken

abbrev pub measure : System → ℕ
measure s =
    5 * backlog s.shared
    + main_weight s.shared.buf.full s.main s.todo
    + total (idle s.shared) s.workers

pub total-set :
    (b : Bool) (ws : List Pc) (i : ℕ) {p : Pc} (p' : Pc)
    → get_elem? ws i ≡ some p
    → total b (set ws i p') + weight b p ≡ total b ws + weight b p'
total-set b [] i p' e = cc
total-set b (w ∷ ws) zero p' e = ground arith
total-set b (w ∷ ws) (suc i) p' e = omega (arith, total-set b ws i p' e)

-- Only a worker at the test looks at what there is to do.
pub weight-idle : (b c : Bool) (p : Pc) → p ≢ checking → weight b p ≡ weight c p
weight-idle b c checking n = absurd (n refl)
weight-idle b c start n = refl
weight-idle b c waiting n = refl
weight-idle b c taking n = refl
weight-idle b c (got t) n = refl
weight-idle b c (running t) n = refl
weight-idle b c exited n = refl

pub total-idle :
    (b c : Bool) (ws : List Pc)
    → ((j : ℕ) → get_elem? ws j ≢ some checking)
    → total b ws ≡ total c ws
total-idle b c [] n = refl
total-idle b c (w ∷ ws) n =
    omega (arith, weight-idle b c w (λ e. n 0 (ap some e)), total-idle b c ws (λ j. n (suc j)))

-- A step that brings the end nearer
abbrev pub Nearer : System → Type 0
Nearer s = (t : System) × Step s t × (measure t < measure s)

-- A step of a worker that leaves the tasks and `stop` alone, to a place of less weight
pub lighter_worker :
    {s : System} (i : ℕ) {p p' : Pc} {mu : Option ℕ} {done : List Task}
    → get_elem? s.workers i ≡ some p
    → WorkerMove i s.shared p (record (s.shared) { mu = mu; done = done }) p'
    → weight (idle s.shared) p' < weight (idle s.shared) p
    → Nearer s
lighter_worker {s} i {p} {p'} {mu} {done} at mv lighter = (
  record s { shared = record (s.shared) { mu = mu; done = done }; workers = set s.workers i p' },
  worker i at mv,
  omega (arith, total-set (idle s.shared) s.workers i p' at, lighter),
)

-- Such a step of the main thread
pub lighter_main :
    {s : System} (p' : MainPc) (ts' : List Task) {mu : Option ℕ}
    → MainMove s.workers s.shared s.main s.todo (record (s.shared) { mu = mu }) p' ts'
    → main_weight s.shared.buf.full p' ts' < main_weight s.shared.buf.full s.main s.todo
    → Nearer s
lighter_main {s} p' ts' {mu} mv lighter = (
  record s { shared = record (s.shared) { mu = mu }; main = p'; todo = ts' },
  main_thread mv,
  omega (arith, lighter),
)

-- Only a main thread that has the mutex looks at whether the buffer is full.
pub main_weight-full :
    (b c : Bool) (p : MainPc) (ts : List Task)
    → main_holds p ≡ false
    → main_weight b p ts ≡ main_weight c p ts
main_weight-full b c MainPc.next ts h = refl
main_weight-full b c (MainPc.checking t) ts h = cc
main_weight-full b c (MainPc.waiting t) ts h = refl
main_weight-full b c (MainPc.putting t) ts h = refl
main_weight-full b c MainPc.leaving ts h = refl
main_weight-full b c MainPc.draining ts h = refl
main_weight-full b c MainPc.stopping ts h = refl
main_weight-full b c MainPc.setting ts h = refl
main_weight-full b c MainPc.joining ts h = refl
main_weight-full b c MainPc.finished ts h = refl
