-- ===== src/LogParser/ThreadPool.antt =====
-- hw12/src/thread_pool.c with the calls that `main` of hw12/src/main.c makes of it: workers and the
-- main thread as interleaved steps over the shared pool. A step is what one thread does between two
-- points where another may come in: all of the pool is used under its mutex, but `main` reads the size
-- without it, and so may read it in the middle of a `cir_buffer_get`. Only where that get is from a full
-- buffer can it read what is the size neither before nor after: `full` is reset and `tail` is not yet
-- moved, which reads as 0 (`drained_early`). A wait on a condition may end at any time, as POSIX allows,
-- whether there was a signal or not; a call of a task's function comes back.
pub mod Workers
pub mod Invariant
pub mod Moves
pub mod Safety
pub mod Live
pub mod Measure
pub mod Steps
pub mod Progress
pub mod Checks
use otus_c.Prelude.{
  ℕ, zero, suc, ◌≡◌, ◌≢◌, Bool, true, false, List, [], ◌∷◌, ◌++◌, Option, none, some, get_elem?,
  set, replicate,
}
use otus_c.LogParser.CirBuffer.{
  Task, null, held, Buffer, cir_buffer_put, cir_buffer_get, cir_buffer_size,
}

-- Where a worker stands in `thread_executor`, with the task that it has.
pub data Pc : Type 0 where
  start : Pc  -- before `pthread_mutex_lock`
  checking : Pc  -- at the test of the inner loop
  waiting : Pc  -- in `pthread_cond_wait`
  taking : Pc  -- before `cir_buffer_get`
  got : Task → Pc  -- before `pthread_cond_signal` and `pthread_mutex_unlock`
  running : Task → Pc  -- in `executeTask`
  exited : Pc

-- Where the main thread stands: in `add_to_pool`, in the loop of `main` that waits for the buffer to
-- become empty, or in `stop_pool`.
pub data MainPc : Type 0 where
  next : MainPc  -- before the next call of `add_to_pool`
  checking : Task → MainPc  -- at the test of the loop in `add_to_pool`
  waiting : Task → MainPc  -- in `pthread_cond_wait`
  putting : Task → MainPc  -- before `cir_buffer_put`
  leaving : MainPc  -- before `pthread_mutex_unlock`
  draining : MainPc  -- at `cir_buffer_size(buf) != 0`
  stopping : MainPc  -- at the start of `stop_pool`
  setting : MainPc  -- before its `pthread_mutex_unlock`
  joining : MainPc  -- in the loop of `pthread_join`
  finished : MainPc

-- What the threads share. The mutex `mu` is held by the main thread, 0, or by worker `i`, `suc i`. The
-- lists record the tasks put in, taken out and executed, in order.
pub record Shared : Type 0 where
  pub buf : Buffer
  pub stop : Bool
  pub mu : Option ℕ
  pub submitted : List Task
  pub taken : List Task
  pub done : List Task

-- `thread_executor` of worker `i`.
pub data WorkerMove (i : ℕ) (m : Shared) : Pc → Shared → Pc → Type 0 where
  lock : m.mu ≡ none → WorkerMove i m start (record m { mu = some (suc i) }) checking
  wait :
      cir_buffer_size m.buf ≡ 0
      → m.stop ≡ false
      → WorkerMove i m checking (record m { mu = none }) waiting
  wake : m.mu ≡ none → WorkerMove i m waiting (record m { mu = some (suc i) }) checking
  quit : m.stop ≡ true → WorkerMove i m checking (record m { mu = none }) exited
  pass : cir_buffer_size m.buf ≢ 0 → m.stop ≡ false → WorkerMove i m checking m taking
  take :
      {t : Task} {b : Buffer}
      → cir_buffer_get m.buf ≡ some (held t, b)
      → WorkerMove i m taking (record m { buf = b; taken = m.taken ++ (t ∷ []) }) (got t)
  take_null :
      {b : Buffer}
      → cir_buffer_get m.buf ≡ some (null, b)
      → WorkerMove i m taking (record m { buf = b; mu = none }) exited
  leave : {t : Task} → WorkerMove i m (got t) (record m { mu = none }) (running t)
  execute : {t : Task} → WorkerMove i m (running t) (record m { done = m.done ++ (t ∷ []) }) start

abbrev pub AllExited : List Pc → Type 0
AllExited [] = Unit {0}
AllExited (exited ∷ ws) = AllExited ws
AllExited (_ ∷ ws) = ⊥

-- The main thread, with the tasks that it has still to add before and after.
pub data MainMove (ws : List Pc) (m : Shared)
    : MainPc → List Task → Shared → MainPc → List Task → Type 0 where
  lock :
      {t : Task} {ts : List Task}
      → m.mu ≡ none
      → MainMove ws m next (t ∷ ts) (record m { mu = some 0 }) (checking t) ts
  wait :
      {t : Task} {ts : List Task}
      → m.buf.full ≡ true
      → MainMove ws m (checking t) ts (record m { mu = none }) (waiting t) ts
  wake :
      {t : Task} {ts : List Task}
      → m.mu ≡ none
      → MainMove ws m (waiting t) ts (record m { mu = some 0 }) (checking t) ts
  pass :
      {t : Task} {ts : List Task}
      → m.buf.full ≡ false
      → MainMove ws m (checking t) ts m (putting t) ts
  put :
      {t : Task} {ts : List Task} {b : Buffer}
      → cir_buffer_put m.buf t ≡ some (true, b)
      → MainMove ws m
          (putting t)
          ts
          (record m { buf = b; submitted = m.submitted ++ (t ∷ []) })
          leaving
          ts
  put_refused :
      {t : Task} {ts : List Task} {b : Buffer}
      → cir_buffer_put m.buf t ≡ some (false, b)
      → MainMove ws m (putting t) ts (record m { buf = b; mu = none }) next ts
  leave : {ts : List Task} → MainMove ws m leaving ts (record m { mu = none }) next ts
  drain : MainMove ws m next [] m draining []
  drained : {ts : List Task} → cir_buffer_size m.buf ≡ 0 → MainMove ws m draining ts m stopping ts
  drained_early :
      (i : ℕ) {ts : List Task}
      → get_elem? ws i ≡ some taking
      → m.buf.full ≡ true
      → MainMove ws m draining ts m stopping ts
  set_stop :
      {ts : List Task}
      → m.mu ≡ none
      → MainMove ws m stopping ts (record m { stop = true; mu = some 0 }) setting ts
  unlock : {ts : List Task} → MainMove ws m setting ts (record m { mu = none }) joining ts
  join : {ts : List Task} → AllExited ws → MainMove ws m joining ts m finished ts

pub record System : Type 0 where
  pub shared : Shared
  pub workers : List Pc
  pub main : MainPc
  pub todo : List Task

pub data Step (s : System) : System → Type 0 where
  worker :
      (i : ℕ) {p p' : Pc} {m : Shared}
      → get_elem? s.workers i ≡ some p
      → WorkerMove i s.shared p m p'
      → Step s (record s { shared = m; workers = set s.workers i p' })
  main_thread :
      {m : Shared} {p : MainPc} {ts : List Task}
      → MainMove s.workers s.shared s.main s.todo m p ts
      → Step s (record s { shared = m; main = p; todo = ts })

-- After `create_pool` with `n` threads on the buffer `b`, `main` being about to add the tasks `files`.
abbrev pub create_pool : ℕ → Buffer → List Task → System
create_pool n b files = record {
  shared = record { buf = b; stop = false; mu = none; submitted = []; taken = []; done = [] };
  workers = replicate n start;
  main = MainPc.next;
  todo = files;
}

-- The states that a run can come to.
pub data Reach (n : ℕ) (b : Buffer) (files : List Task) : System → Type 0 where
  here : Reach n b files (create_pool n b files)
  after : {s t : System} → Reach n b files s → Step s t → Reach n b files t
