-- ===== src/LogParser/ThreadPool/Checks.antt =====
-- A run of the pool of hw12 with one worker and one file, to its end.
use otus_c.Prelude.{
  ℕ, ◌≡◌, ◌++◌, refl, Bool, true, false, List, [], ◌∷◌, Option, none, some, arith, get_elem?,
}
use otus_c.LogParser.CirBuffer.{
  Task, garbage, null, held, Buffer, cir_buffer_get, cir_buffer_put, cir_buffer_size,
  create_cir_buffer,
}
use otus_c.LogParser.CirBuffer.Refine.{Represents, create-Represents}
use otus_c.LogParser.ThreadPool.{
  Pc, MainPc, System, WorkerMove, MainMove, worker, main_thread, Reach, here, after, taking,
  putting, finished,
}
use otus_c.LogParser.ThreadPool.Workers.{count}
use otus_c.LogParser.ThreadPool.Invariant.{holds, main_holds}
use otus_c.LogParser.ThreadPool.Safety.{
  mutual_exclusion, pool_calls_succeed, taken_in_order, all_executed,
}
use otus_c.LogParser.ThreadPool.Progress.{CanFinish, pool-CanFinish}

abbrev file_task : Task
file_task = record { function = 1; arg = b'f' ∷ [] }

abbrev fresh : Buffer
fresh = record { tasks = garbage ∷ garbage ∷ []; head = 0; tail = 0; max = 2; full = false }

abbrev filled : Buffer
filled = record { tasks = held file_task ∷ garbage ∷ []; head = 1; tail = 0; max = 2; full = false }

abbrev emptied : Buffer
emptied = record { tasks = null ∷ garbage ∷ []; head = 1; tail = 1; max = 2; full = false }

fresh-Represents : Represents fresh []
unfolding create_cir_buffer
fresh-Represents =
    create-Represents (garbage ∷ garbage ∷ []) 2 refl (omega arith) (omega arith) refl

-- The state of a run with the task put in (and taken, and executed, where the lists say so).
abbrev state : Buffer → Bool → Option ℕ → List Task → List Task → List Task → Pc → MainPc → System
state b stop mu submitted taken done p main = record {
  shared = record {
    buf = b;
    stop = stop;
    mu = mu;
    submitted = submitted;
    taken = taken;
    done = done;
  };
  workers = p ∷ [];
  main = main;
  todo = [];
}

abbrev one : List Task
one = file_task ∷ []

-- The main thread is about to put the task in.
run_to_put : Reach 1 fresh one (state fresh false (some 0) [] [] [] Pc.start (putting file_task))
run_to_put =
    after (after here (main_thread (MainMove.lock refl))) (main_thread (MainMove.pass refl))

-- The worker is about to take it out.
run_to_take : Reach 1 fresh one (state filled false (some 1) one [] [] taking MainPc.draining)
unfolding cir_buffer_put cir_buffer_size
run_to_take =
    after
      (after
        (after
          (after (after run_to_put (main_thread (MainMove.put {b = filled} refl)))
            (main_thread MainMove.leave))
          (main_thread MainMove.drain))
        (worker 0 refl (WorkerMove.lock refl)))
      (worker 0 refl (WorkerMove.pass (λ e. omega arith) refl))

-- The worker has executed it, and waits.
run_to_wait : Reach 1 fresh one (state emptied false none one one one Pc.waiting MainPc.draining)
unfolding cir_buffer_get cir_buffer_size
run_to_wait =
    after
      (after
        (after
          (after
            (after run_to_take (worker 0 refl (WorkerMove.take {t = file_task} {b = emptied} refl)))
            (worker 0 refl WorkerMove.leave))
          (worker 0 refl WorkerMove.execute))
        (worker 0 refl (WorkerMove.lock refl)))
      (worker 0 refl (WorkerMove.wait refl refl))

-- The pool has been stopped and joined.
run_to_end : Reach 1 fresh one (state emptied true none one one one Pc.exited finished)
unfolding cir_buffer_size
run_to_end =
    after
      (after
        (after
          (after
            (after (after run_to_wait (main_thread (MainMove.drained refl)))
              (main_thread (MainMove.set_stop refl)))
            (main_thread MainMove.unlock))
          (worker 0 refl (WorkerMove.wake refl)))
        (worker 0 refl (WorkerMove.quit refl)))
      (main_thread (MainMove.join tt))

mutual_exclusion_example :
    ((j : ℕ) (p : Pc) → get_elem? (taking ∷ []) j ≡ some p → holds p ≡ true → 0 ≡ j)
    × (main_holds MainPc.draining ≡ false)
mutual_exclusion_example = mutual_exclusion fresh-Represents run_to_take 0 taking refl refl

pool_calls_succeed_example :
    ((i : ℕ)
      → get_elem? (taking ∷ []) i ≡ some taking
      → (t : Task) × (b : Buffer) × (cir_buffer_get filled ≡ some (held t, b)))
    × ((t : Task)
        → MainPc.draining ≡ putting t
        → (b : Buffer) × (cir_buffer_put filled t ≡ some (true, b)))
pool_calls_succeed_example = pool_calls_succeed fresh-Represents run_to_take

taken_in_order_example : (rest : List Task) × (one ++ rest ≡ one)
taken_in_order_example = taken_in_order fresh-Represents run_to_wait

all_executed_example : (one ≡ one) × ((has : Task → Bool) → count has one ≡ count has one)
all_executed_example = all_executed fresh-Represents run_to_end (omega arith) refl

pool-CanFinish_test : CanFinish (state filled false (some 1) one [] [] taking MainPc.draining)
pool-CanFinish_test = pool-CanFinish (omega arith) fresh-Represents run_to_take
