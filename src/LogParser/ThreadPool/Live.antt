-- ===== src/LogParser/ThreadPool/Live.antt =====
-- What keeps the pool of hw12 from standing still: the mutex is held by a thread that will release it,
-- and workers exit only after `stop_pool` has said so.
use mathlib.Core.Option.{some-injective}
use otus_c.Prelude.{
  ℕ, zero, suc, ◌<◌, ◌≡◌, ◌≢◌, refl, sym, subst, ◌∙◌, ap, Bool, true, false, List, [], ◌∷◌, Option,
  none, some, arith, length, get_elem?, set, inl, inr, get_elem?-set_inv, Bool-cases, ◌==◌,
  get_elem?-set_self, get_elem?-set_ne, length-set, replicate,
}
use otus_c.LogParser.CirBuffer.{Task, Buffer, held, cir_buffer_get}
use otus_c.LogParser.ThreadPool.{
  Pc, start, exited, taking, MainPc, Shared, System, WorkerMove, MainMove, Step, worker,
  main_thread, create_pool,
}
use otus_c.LogParser.ThreadPool.Invariant.{Inv, holds, main_holds}
use otus_c.LogParser.ThreadPool.Moves.{taking_gets}

-- The main thread has set `stop`.
abbrev pub has_stopped : MainPc → Bool
has_stopped MainPc.setting = true
has_stopped MainPc.joining = true
has_stopped MainPc.finished = true
has_stopped _ = false

pub record Live (s : System) : Type 0 where
  pub worker_owner :
      (i : ℕ)
      → s.shared.mu ≡ some (suc i)
      → (p : Pc) × (get_elem? s.workers i ≡ some p) × (holds p ≡ true)
  pub main_owner : s.shared.mu ≡ some 0 → main_holds s.main ≡ true
  pub flag : s.shared.stop ≡ has_stopped s.main
  pub gone : (j : ℕ) → get_elem? s.workers j ≡ some exited → s.shared.stop ≡ true
  pub present : 0 < length s.workers

-- The mutex after a step of worker `i`: nobody has it, or the worker, or it is as before.
data Handed (i : ℕ) (before : Option ℕ) (p p' : Pc) : Option ℕ → Type 0 where
  free : Handed i before p p' none
  mine : holds p' ≡ true → Handed i before p p' (some (suc i))
  kept : (holds p ≡ true → holds p' ≡ true) → Handed i before p p' before

handed : {i : ℕ} {m m' : Shared} {p p' : Pc} → WorkerMove i m p m' p' → Handed i m.mu p p' m'.mu
handed (WorkerMove.lock g) = mine refl
handed (WorkerMove.wait g h) = free
handed (WorkerMove.wake g) = mine refl
handed (WorkerMove.quit g) = free
handed (WorkerMove.pass g h) = kept (λ _. refl)
handed (WorkerMove.take g) = kept (λ _. refl)
handed (WorkerMove.take_null g) = free
handed WorkerMove.leave = free
handed WorkerMove.execute = kept (λ e. cc)

-- A worker does not touch `stop`, and exits only where it is set, unless it got a null pointer.
stop_kept : {i : ℕ} {m m' : Shared} {p p' : Pc} → WorkerMove i m p m' p' → m'.stop ≡ m.stop
stop_kept (WorkerMove.lock g) = refl
stop_kept (WorkerMove.wait g h) = refl
stop_kept (WorkerMove.wake g) = refl
stop_kept (WorkerMove.quit g) = refl
stop_kept (WorkerMove.pass g h) = refl
stop_kept (WorkerMove.take g) = refl
stop_kept (WorkerMove.take_null g) = refl
stop_kept WorkerMove.leave = refl
stop_kept WorkerMove.execute = refl

index_bound : (ws : List Pc) (i : ℕ) {p : Pc} → get_elem? ws i ≡ some p → i < length ws
index_bound [] i e = cc
index_bound (w ∷ ws) zero e = omega arith
index_bound (w ∷ ws) (suc i) e = omega (arith, index_bound ws i e)

module _ {s : System} (live : Live s) (i : ℕ) {p : Pc} (p' : Pc)
    (at : get_elem? s.workers i ≡ some p) where
  owner_kept :
      (k : ℕ)
      → (holds p ≡ true → holds p' ≡ true)
      → s.shared.mu ≡ some (suc k)
      → (r : Pc) × (get_elem? (set s.workers i p') k ≡ some r) × (holds r ≡ true)
  owner_kept k h e =
      let (r, there, inside) = live.worker_owner k e in
      elim (Bool-cases (i == k)) [
        | inl y ↦
            (let same : i ≡ k = ground arith in
              let same_pc : p ≡ r =
                some-injective p r (sym at ∙ ap (get_elem? s.workers) same ∙ there) in
              (
                p',
                subst (λ j. get_elem? (set s.workers i p') j ≡ some p') same
                    (get_elem?-set_self s.workers i p' (index_bound s.workers i at)),
                h (ap holds same_pc ∙ inside),
              ))
        | inr n ↦ (r, get_elem?-set_ne s.workers p' (λ e. ground arith) ∙ there, inside)
      ]

  owner_after :
      {mu : Option ℕ}
      → Handed i s.shared.mu p p' mu
      → (k : ℕ) → mu ≡ some (suc k)
      → (r : Pc) × (get_elem? (set s.workers i p') k ≡ some r) × (holds r ≡ true)
  owner_after free k e = cc
  owner_after (mine h) k e =
      let same : i ≡ k = ground (arith, e) in
      (
        p',
        subst (λ j. get_elem? (set s.workers i p') j ≡ some p') same
            (get_elem?-set_self s.workers i p' (index_bound s.workers i at)),
        h,
      )
  owner_after (kept h) k e = owner_kept k h e

  main_owner_after :
      {mu : Option ℕ} → Handed i s.shared.mu p p' mu → mu ≡ some 0 → main_holds s.main ≡ true
  main_owner_after free e = cc
  main_owner_after (mine h) e = absurd (ground (arith, e))
  main_owner_after (kept h) e = live.main_owner e

-- A worker with a task to take exits only where `stop` is set.
exits_stopped :
    {i : ℕ} {m m' : Shared} {p : Pc}
    → WorkerMove i m p m' exited
    → ((p ≡ taking) → (t : Task) × (b : Buffer) × (cir_buffer_get m.buf ≡ some (held t, b)))
    → m.stop ≡ true
exits_stopped (WorkerMove.quit g) h = g
exits_stopped (WorkerMove.take_null g) h = let (t, b, run) = h refl in cc

pub worker-Live :
    {files q : List Task} {s : System} (i : ℕ) {p p' : Pc} {m : Shared}
    → Inv files q s
    → Live s
    → get_elem? s.workers i ≡ some p
    → WorkerMove i s.shared p m p'
    → Live (record s { shared = m; workers = set s.workers i p' })
worker-Live {s} i {p} {p'} {m} inv live at mv = record {
  worker_owner = owner_after live i p' at (handed mv);
  main_owner = main_owner_after live i p' at (handed mv);
  flag = stop_kept mv ∙ live.flag;
  gone = λ j there. stop_kept mv ∙ elim (get_elem?-set_inv s.workers i j p' there) [
    | inl (e, f) ↦
        exits_stopped (subst (λ x. WorkerMove i s.shared p m x) f mv)
          (λ y. (let (t, q', b, _, run) = taking_gets i inv (at ∙ ap some y) in (t, b, run)))
    | inr (n, old) ↦ live.gone j old
  ];
  present = omega (arith, live.present, length-set s.workers i p');
}

-- A step of the main thread that keeps the mutex or lets it go, or takes it when it is free.
abbrev pub state : Shared → List Pc → MainPc → List Task → System
state m ws p ts = record { shared = m; workers = ws; main = p; todo = ts }

module _ {m m' : Shared} {ws : List Pc} {p p' : MainPc} {ts ts' : List Task}
    (live : Live (state m ws p ts)) where
  moved :
      ((k : ℕ) → m'.mu ≡ some (suc k) → m.mu ≡ some (suc k))
      → (m'.mu ≡ some 0 → main_holds p' ≡ true)
      → m'.stop ≡ has_stopped p'
      → (m.stop ≡ true → m'.stop ≡ true)
      → Live (state m' ws p' ts')
  moved others own flag still = record {
    worker_owner = λ k e. live.worker_owner k (others k e);
    main_owner = own;
    flag = flag;
    gone = λ j there. still (live.gone j there);
    present = live.present;
  }

main_step :
    {m m' : Shared} {ws : List Pc} {p p' : MainPc} {ts ts' : List Task}
    → MainMove ws m p ts m' p' ts'
    → Live (state m ws p ts)
    → Live (state m' ws p' ts')
main_step (MainMove.lock g) l =
    moved l (λ k e. absurd (ground (arith, e))) (λ e. refl) l.flag (λ e. e)
main_step (MainMove.wait g) l = moved l (λ k e. cc) (λ e. cc) l.flag (λ e. e)
main_step (MainMove.wake g) l =
    moved l (λ k e. absurd (ground (arith, e))) (λ e. refl) l.flag (λ e. e)
main_step (MainMove.pass g) l = moved l (λ k e. e) (λ e. refl) l.flag (λ e. e)
main_step (MainMove.put g) l = moved l (λ k e. e) (λ e. refl) l.flag (λ e. e)
main_step (MainMove.put_refused g) l = moved l (λ k e. cc) (λ e. cc) l.flag (λ e. e)
main_step MainMove.leave l = moved l (λ k e. cc) (λ e. cc) l.flag (λ e. e)
main_step MainMove.drain l = moved l (λ k e. e) (λ e. l.main_owner e) l.flag (λ e. e)
main_step (MainMove.drained g) l = moved l (λ k e. e) (λ e. l.main_owner e) l.flag (λ e. e)
main_step (MainMove.drained_early i at g) l =
    moved l (λ k e. e) (λ e. l.main_owner e) l.flag (λ e. e)
main_step (MainMove.set_stop g) l =
    moved l (λ k e. absurd (ground (arith, e))) (λ e. refl) refl (λ e. refl)
main_step MainMove.unlock l = moved l (λ k e. cc) (λ e. cc) l.flag (λ e. e)
main_step (MainMove.join g) l = moved l (λ k e. e) (λ e. l.main_owner e) l.flag (λ e. e)

pub Step-Live : {files q : List Task} {s t : System} → Inv files q s → Live s → Step s t → Live t
Step-Live inv live (worker i at mv) = worker-Live i inv live at mv
Step-Live inv live (main_thread mv) = main_step mv live

length-replicate : (n : ℕ) → length (replicate n start) ≡ n
length-replicate zero = refl
length-replicate (suc n) = ap suc (length-replicate n)

none_exited : (n j : ℕ) → get_elem? (replicate n start) j ≢ some exited
none_exited zero j e = cc
none_exited (suc n) zero e = cc
none_exited (suc n) (suc j) e = none_exited n j e

pub create_pool-Live :
    (n : ℕ) (b : Buffer) (files : List Task) → 0 < n → Live (create_pool n b files)
create_pool-Live n b files h = record {
  worker_owner = λ i e. cc;
  main_owner = λ e. cc;
  flag = refl;
  gone = λ j there. absurd (none_exited n j there);
  present = omega (arith, h, length-replicate n);
}
