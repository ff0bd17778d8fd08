-- ===== src/LogParser/ThreadPool/Steps.antt =====
-- In every state of the pool of hw12 before its end, which thread can bring the end nearer: the
-- one that has the mutex, or else the main thread or a worker with something to do.
use otus_c.Prelude.{
  ℕ, zero, suc, ◌+◌, ◌<◌, ◌≡◌, ◌≢◌, refl, sym, ◌∙◌, ap, true, false, List, [], ◌∷◌, ◌++◌, none,
  some, arith, length, length-append, get_elem?, set, ◌==◌, Bool-cases, inl, inr, Option-cases,
}
use otus_c.LogParser.CirBuffer.{Task, Buffer, cir_buffer_size}
use otus_c.LogParser.CirBuffer.Refine.{Represents, size_of_full}
use otus_c.LogParser.ThreadPool.{
  Pc, start, checking, waiting, taking, got, running, exited, MainPc, Shared, System, WorkerMove,
  MainMove, worker, main_thread,
}
use otus_c.LogParser.ThreadPool.Invariant.{Inv, holds, main_holds, is_finished}
use otus_c.LogParser.ThreadPool.Moves.{taking_gets, putting_puts}
use otus_c.LogParser.ThreadPool.Live.{Live, state, has_stopped}
use otus_c.LogParser.ThreadPool.Workers.{AllExited-or}
use otus_c.LogParser.ThreadPool.Measure.{
  idle, total-set, total-idle, main_weight-full, Nearer, lighter_worker, lighter_main,
}

module _ {files q : List Task} {s : System} (inv : Inv files q s) (live : Live s) where
  -- The worker at the test of the inner loop
  checking-Nearer : (i : ℕ) → get_elem? s.workers i ≡ some checking → Nearer s
  checking-Nearer i at = elim (Bool-cases s.shared.stop) [
    | inl e ↦ lighter_worker i at (WorkerMove.quit e) (ground arith)
    | inr e ↦ elim (Bool-cases (cir_buffer_size s.shared.buf == 0)) [
      | inl z ↦ lighter_worker i at (WorkerMove.wait (ground arith) e) (rw (z, e) (omega arith))
      | inr z ↦ lighter_worker i at (WorkerMove.pass (λ n. ground arith) e) (ground arith)
    ]
  ]

  -- Where worker `i` is about to take, no worker is at the test.
  none_checking :
      (i : ℕ)
      → get_elem? s.workers i ≡ some taking
      → (j : ℕ) → get_elem? s.workers j ≢ some checking
  none_checking i at j there =
      let mine = inv.owners i taking at refl in
      let other = inv.owners j checking there refl in
      let same : i ≡ j = ground (arith, mine, other) in
      let both : some taking ≡ some checking = sym at ∙ ap (get_elem? s.workers) same ∙ there in cc

  main_apart : (i : ℕ) → get_elem? s.workers i ≡ some taking → main_holds s.main ≡ false
  main_apart i at = elim (Bool-cases (main_holds s.main)) [
    | inl e ↦ absurd (ground (arith, inv.owners i taking at refl, inv.main_owner e))
    | inr e ↦ e
  ]

  taking-Nearer : (i : ℕ) → get_elem? s.workers i ≡ some taking → Nearer s
  taking-Nearer i at =
      let (t, q', b, e, run) = taking_gets i inv at in
      let m : Shared = record (s.shared) { buf = b; taken = s.shared.taken ++ (t ∷ []) } in
      let lengths : length s.shared.taken + suc (length q') ≡ length s.shared.submitted =
        sym (length-append s.shared.taken (t ∷ q'))
        ∙ ap (λ l. length (s.shared.taken ++ l)) (sym e)
        ∙ ap length inv.order in
      (
        record s { shared = m; workers = set s.workers i (got t) },
        worker i at (WorkerMove.take run),
        omega (
          arith,
          lengths,
          length-append s.shared.taken (t ∷ []),
          total-set (idle m) s.workers i (got t) at,
          total-idle (idle m) (idle s.shared) s.workers (none_checking i at),
          main_weight-full b.full s.shared.buf.full s.main s.todo (main_apart i at),
        ),
      )

  holder-Nearer : (i : ℕ) (p : Pc) → get_elem? s.workers i ≡ some p → holds p ≡ true → Nearer s
  holder-Nearer i checking at h = checking-Nearer i at
  holder-Nearer i taking at h = taking-Nearer i at
  holder-Nearer i (got t) at h = lighter_worker i at WorkerMove.leave (omega arith)
  holder-Nearer i start at h = cc
  holder-Nearer i waiting at h = cc
  holder-Nearer i (running t) at h = cc
  holder-Nearer i exited at h = cc

-- The main thread, where it has the mutex
main-Nearer :
    {files q : List Task} (m : Shared) (ws : List Pc) (p : MainPc) (ts : List Task)
    → Inv files q (state m ws p ts)
    → main_holds p ≡ true
    → Nearer (state m ws p ts)
main-Nearer m ws (MainPc.checking t) ts inv h = elim (Bool-cases m.buf.full) [
  | inl e ↦ lighter_main (MainPc.waiting t) ts (MainMove.wait e) (rw e (omega arith))
  | inr e ↦ lighter_main (MainPc.putting t) ts (MainMove.pass e) (rw e (omega arith))
]
main-Nearer {files} {q} m ws (MainPc.putting t) ts inv h =
    let (b, run) = putting_puts inv refl in
    let m' : Shared = record m { buf = b; submitted = m.submitted ++ (t ∷ []) } in
    (
      state m' ws MainPc.leaving ts,
      main_thread (MainMove.put run),
      omega (
        arith,
        length-append m.submitted (t ∷ []),
        length-append m.taken q,
        ap length inv.order,
        total-idle (idle m') (idle m) ws (λ j there.
            absurd (ground (arith, inv.main_owner h, inv.owners j checking there refl))),
      ),
    )
main-Nearer m ws MainPc.leaving ts inv h = lighter_main MainPc.next ts MainMove.leave (omega arith)
main-Nearer m ws MainPc.setting ts inv h =
    lighter_main MainPc.joining ts MainMove.unlock (omega arith)
main-Nearer m ws MainPc.next ts inv h = cc
main-Nearer m ws (MainPc.waiting t) ts inv h = cc
main-Nearer m ws MainPc.draining ts inv h = cc
main-Nearer m ws MainPc.stopping ts inv h = cc
main-Nearer m ws MainPc.joining ts inv h = cc
main-Nearer m ws MainPc.finished ts inv h = cc

-- A worker, where nobody has the mutex and there is something to do
worker-Nearer :
    {files q : List Task} {s : System}
    → Inv files q s
    → s.shared.mu ≡ none
    → idle s.shared ≡ false
    → (i : ℕ) (p : Pc) → get_elem? s.workers i ≡ some p
    → p ≢ exited
    → Nearer s
worker-Nearer inv free busy i start at n =
    lighter_worker i at (WorkerMove.lock free) (rw busy (omega arith))
worker-Nearer inv free busy i waiting at n =
    lighter_worker i at (WorkerMove.wake free) (rw busy (omega arith))
worker-Nearer inv free busy i (running t) at n =
    lighter_worker i at WorkerMove.execute (omega arith)
worker-Nearer inv free busy i exited at n = absurd (n refl)
worker-Nearer inv free busy i checking at n = absurd (ground (arith, inv.owners i checking at refl))
worker-Nearer inv free busy i taking at n = absurd (ground (arith, inv.owners i taking at refl))
worker-Nearer inv free busy i (got t) at n = absurd (ground (arith, inv.owners i (got t) at refl))

-- Before `stop_pool` some worker is there, and none has exited.
first_worker : (ws : List Pc) → 0 < length ws → (p : Pc) × (get_elem? ws 0 ≡ some p)
first_worker [] h = absurd (omega arith)
first_worker (w ∷ ws) h = (w, refl)

running-Nearer :
    {files q : List Task} {s : System}
    → Inv files q s
    → Live s
    → s.shared.mu ≡ none
    → has_stopped s.main ≡ false
    → (cir_buffer_size s.shared.buf == 0) ≡ false
    → Nearer s
running-Nearer {s} inv live free before filled =
    let (p, at) = first_worker s.workers live.present in
    worker-Nearer inv free (ground arith) 0 p at
      (λ e. ground (arith, live.flag, live.gone 0 (at ∙ ap some e)))

-- A full buffer is not empty.
full_filled :
    {b : Buffer} {q : List Task} → Represents b q → b.full ≡ true → (cir_buffer_size b == 0) ≡ false
full_filled {b} r e = ground (arith, size_of_full b e, r.valid.head_in)

-- The main thread, or a worker for it, where nobody has the mutex
free-Nearer :
    {files q : List Task} (m : Shared) (ws : List Pc) (p : MainPc) (ts : List Task)
    → Inv files q (state m ws p ts)
    → Live (state m ws p ts)
    → m.mu ≡ none
    → is_finished p ≡ false
    → Nearer (state m ws p ts)
free-Nearer m ws MainPc.next [] inv live free n =
    lighter_main MainPc.draining [] MainMove.drain (omega arith)
free-Nearer m ws MainPc.next (t ∷ ts) inv live free n =
    lighter_main (MainPc.checking t) ts (MainMove.lock free) (ground arith)
free-Nearer m ws (MainPc.waiting t) ts inv live free n = elim (Bool-cases m.buf.full) [
  | inl e ↦ running-Nearer inv live free refl (full_filled inv.repr e)
  | inr e ↦ lighter_main (MainPc.checking t) ts (MainMove.wake free) (rw e (omega arith))
]
free-Nearer m ws MainPc.draining ts inv live free n =
    elim (Bool-cases (cir_buffer_size m.buf == 0)) [
      | inl e ↦ lighter_main MainPc.stopping ts (MainMove.drained (ground arith)) (omega arith)
      | inr e ↦ running-Nearer inv live free refl e
    ]
free-Nearer m ws MainPc.stopping ts inv live free n =
    let m' : Shared = record m { stop = true; mu = some 0 } in
    (
      state m' ws MainPc.setting ts,
      main_thread (MainMove.set_stop free),
      omega (
        arith,
        total-idle (idle m') (idle m) ws
            (λ j there. absurd (ground (arith, free, inv.owners j checking there refl))),
      ),
    )
free-Nearer m ws MainPc.joining ts inv live free n = elim (AllExited-or ws) [
  | inl all ↦ lighter_main MainPc.finished ts (MainMove.join all) (omega arith)
  | inr (i, p, at, k) ↦ worker-Nearer inv free (ground (arith, live.flag)) i p at k
]
free-Nearer m ws MainPc.finished ts inv live free n = cc
free-Nearer m ws (MainPc.checking t) ts inv live free n =
    absurd (ground (arith, inv.main_owner refl))
free-Nearer m ws (MainPc.putting t) ts inv live free n =
    absurd (ground (arith, inv.main_owner refl))
free-Nearer m ws MainPc.leaving ts inv live free n = absurd (ground (arith, inv.main_owner refl))
free-Nearer m ws MainPc.setting ts inv live free n = absurd (ground (arith, inv.main_owner refl))

-- In every state before the end some step brings the end nearer.
pub Inv-Nearer :
    {files q : List Task} {s : System}
    → Inv files q s
    → Live s
    → is_finished s.main ≡ false
    → Nearer s
Inv-Nearer {s} inv live n = elim (Option-cases s.shared.mu) [
  | inl free ↦ free-Nearer s.shared s.workers s.main s.todo inv live free n
  | inr (zero, e) ↦ main-Nearer s.shared s.workers s.main s.todo inv (live.main_owner e)
  | inr (suc i, e) ↦ (let (p, at, h) = live.worker_owner i e in holder-Nearer inv live i p at h)
]
