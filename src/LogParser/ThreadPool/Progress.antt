-- ===== src/LogParser/ThreadPool/Progress.antt =====
-- No run of the pool of hw12 comes to a state from which it cannot be brought to its end.
use otus_c.Prelude.{ℕ, zero, suc, ◌<◌, ◌≡◌, refl, false, List, [], arith, inl, inr, ◌⊎◌}
use otus_c.LogParser.CirBuffer.{Task, Buffer}
use otus_c.LogParser.CirBuffer.Refine.{Represents}
use otus_c.LogParser.ThreadPool.{MainPc, System, Step, worker, main_thread, Reach, here, after}
use otus_c.LogParser.ThreadPool.Invariant.{Inv, is_finished}
use otus_c.LogParser.ThreadPool.Moves.{worker-Inv, main-Inv}
use otus_c.LogParser.ThreadPool.Safety.{Reach-Inv}
use otus_c.LogParser.ThreadPool.Live.{Live, Step-Live, create_pool-Live}
use otus_c.LogParser.ThreadPool.Steps.{Inv-Nearer}
use otus_c.LogParser.ThreadPool.Measure.{measure}

-- The run can go on so that the main thread comes to its end.
pub data CanFinish : System → Type 0 where
  at_end : {s : System} → s.main ≡ MainPc.finished → CanFinish s
  by : {s t : System} → Step s t → CanFinish t → CanFinish s

finished_or_not : (p : MainPc) → (p ≡ MainPc.finished) ⊎ (is_finished p ≡ false)
finished_or_not MainPc.finished = inl refl
finished_or_not MainPc.next = inr refl
finished_or_not (MainPc.checking t) = inr refl
finished_or_not (MainPc.waiting t) = inr refl
finished_or_not (MainPc.putting t) = inr refl
finished_or_not MainPc.leaving = inr refl
finished_or_not MainPc.draining = inr refl
finished_or_not MainPc.stopping = inr refl
finished_or_not MainPc.setting = inr refl
finished_or_not MainPc.joining = inr refl

Step-Inv :
    {files q : List Task} {s t : System}
    → Inv files q s
    → Step s t
    → (q' : List Task) × Inv files q' t
Step-Inv inv (worker i at mv) = worker-Inv i inv at mv
Step-Inv inv (main_thread mv) = main-Inv inv mv

finishes :
    (bound : ℕ) {files q : List Task} {s : System}
    → Inv files q s
    → Live s
    → measure s < bound
    → CanFinish s
finishes zero inv live h = absurd (omega arith)
finishes (suc bound) {s} inv live h = elim (finished_or_not s.main) [
  | inl e ↦ at_end e
  | inr n ↦
      (let (t, step, less) = Inv-Nearer inv live n in
        let (q', inv') = Step-Inv inv step in
        by step (finishes bound inv' (Step-Live inv live step) (omega arith)))
]

Reach-Live :
    {n : ℕ} {b : Buffer} {files : List Task} {s : System}
    → 0 < n
    → Represents b []
    → Reach n b files s
    → Live s
Reach-Live {n} {b} {files} h r here = create_pool-Live n b files h
Reach-Live h r (after run step) =
    let (q, inv) = Reach-Inv r run in Step-Live inv (Reach-Live h r run) step

-- A pool of at least one worker on an empty buffer comes to no deadlock, where a wait may end at any
-- time: from every state that a run reaches some further steps lead to the end of `stop_pool`.
pub pool-CanFinish :
    {n : ℕ} {b : Buffer} {files : List Task} {s : System}
    → 0 < n
    → Represents b []
    → Reach n b files s
    → CanFinish s
pool-CanFinish {s} h r run =
    let (q, inv) = Reach-Inv r run in
    finishes (suc (measure s)) inv (Reach-Live h r run) (omega arith)
