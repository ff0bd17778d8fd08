-- ===== src/LogParser/ThreadPool/Safety.antt =====
-- What holds of every run of the pool of hw12.
use otus_c.Prelude.{
  length, ◌<◌, ℕ, zero, suc, ◌≡◌, ◌≢◌, refl, sym, ap, ◌∙◌, Bool, true, false, List, [], ◌++◌, some,
  arith, get_elem?, replicate, Bool-cases, inl, inr,
}
use mathlib.Core.List.{append-nil, append_assoc}
use otus_c.LogParser.CirBuffer.{Task, Buffer, held, cir_buffer_get, cir_buffer_put}
use otus_c.LogParser.CirBuffer.Refine.{Represents}
use otus_c.LogParser.ThreadPool.{
  Pc, start, taking, finished, putting, System, worker, main_thread, create_pool, Reach, here,
  after,
}
use otus_c.LogParser.ThreadPool.Workers.{count, all_in_hand, all_in_hand-exited}
use otus_c.LogParser.ThreadPool.Invariant.{
  Inv, holds, main_holds, is_finished, is_stopping, is_ending, pending,
}
use otus_c.LogParser.ThreadPool.Moves.{
  worker-Inv, worker-max, main-Inv, main-max, taking_gets, putting_puts,
}

start_at : (n j : ℕ) {p : Pc} → get_elem? (replicate n start) j ≡ some p → p ≡ start
start_at zero j e = cc
start_at (suc n) zero e = cc
start_at (suc n) (suc j) e = start_at n j e

none_in_hand : (has : Task → Bool) (n : ℕ) → all_in_hand has (replicate n start) ≡ 0
none_in_hand has zero = refl
none_in_hand has (suc n) = omega (arith, none_in_hand has n)

not_held : {p : Pc} → p ≡ start → holds p ≢ true
not_held e h = absurd (ground arith)

create_pool-Inv :
    (n : ℕ) (b : Buffer) (files : List Task)
    → Represents b []
    → Inv files [] (create_pool n b files)
create_pool-Inv n b files r = record {
  repr = r;
  order = refl;
  supply = refl;
  owners = λ j p there h. absurd (not_held (start_at n j there) h);
  main_owner = λ h. cc;
  ready = λ j there. absurd (ground (arith, start_at n j there));
  roomy = λ h. cc;
  supplied = λ h. cc;
  drained = λ h few. cc;
  counted = λ has. omega (arith, none_in_hand has n);
  joined = λ h. cc;
}

pub Reach-Inv :
    {n : ℕ} {b : Buffer} {files : List Task} {s : System}
    → Represents b []
    → Reach n b files s
    → (q : List Task) × Inv files q s
Reach-Inv {n} {b} {files} r here = ([], create_pool-Inv n b files r)
Reach-Inv r (after run (worker i at mv)) = let (q, inv) = Reach-Inv r run in worker-Inv i inv at mv
Reach-Inv r (after run (main_thread mv)) = let (q, inv) = Reach-Inv r run in main-Inv inv mv

-- The buffer keeps its size.
Reach-max :
    {n : ℕ} {b : Buffer} {files : List Task} {s : System}
    → Represents b []
    → Reach n b files s
    → s.shared.buf.max ≡ b.max
Reach-max r here = refl
Reach-max r (after run (worker i at mv)) = worker-max i (Reach-Inv r run).1 at mv ∙ Reach-max r run
Reach-max r (after run (main_thread mv)) = main-max (Reach-Inv r run).1 mv ∙ Reach-max r run

module _ {n : ℕ} {b : Buffer} {files : List Task} {s : System} (r : Represents b [])
    (run : Reach n b files s) where
  -- In every state that a run from an empty buffer comes to, at most one thread is between the lock
  -- of the pool's mutex and its unlock: no two workers, and no worker beside the main thread.
  pub mutual_exclusion :
      (i : ℕ) (p : Pc)
      → get_elem? s.workers i ≡ some p
      → holds p ≡ true
      → ((j : ℕ) (p' : Pc) → get_elem? s.workers j ≡ some p' → holds p' ≡ true → i ≡ j)
        × (main_holds s.main ≡ false)
  mutual_exclusion i p at h =
      let (q, inv) = Reach-Inv r run in
      let mine = inv.owners i p at h in
      (
        λ j p' at' h'. ground (arith, mine, inv.owners j p' at' h'),
        elim (Bool-cases (main_holds s.main)) [
          | inl e ↦ absurd (ground (arith, mine, inv.main_owner e))
          | inr e ↦ e
        ],
      )

  -- In every such state a worker that is about to take a task is given one, and a task that the main
  -- thread is about to put in is accepted: neither call meets undefined behaviour, no worker finds a
  -- null pointer and no task is dropped.
  pub pool_calls_succeed :
      ((i : ℕ)
        → get_elem? s.workers i ≡ some taking
        → (t : Task) × (b' : Buffer) × (cir_buffer_get s.shared.buf ≡ some (held t, b')))
      × ((t : Task)
          → s.main ≡ putting t
          → (b' : Buffer) × (cir_buffer_put s.shared.buf t ≡ some (true, b')))
  pool_calls_succeed = (
    λ i at.
        (let (q, inv) = Reach-Inv r run in
          let (t, q', b', _, g) = taking_gets i inv at in (t, b', g)),
    λ t at. (let (q, inv) = Reach-Inv r run in putting_puts inv at),
  )

  -- In every such state the tasks taken so far are a first part of the tasks of `main`, in order.
  pub taken_in_order : (rest : List Task) × (s.shared.taken ++ rest ≡ files)
  taken_in_order =
      let (q, inv) = Reach-Inv r run in
      (
        q ++ (pending s.main ++ s.todo),
        sym (append_assoc s.shared.taken q _)
            ∙ ap (λ l. l ++ (pending s.main ++ s.todo)) inv.order
            ∙ inv.supply,
      )

  -- Where `main` has fewer tasks than the buffer has slots: when `stop_pool` has joined the threads,
  -- the workers have taken the tasks of `main` in order, and have executed each exactly as often as it
  -- was added: of every kind of task, however it is told apart, as many were executed as `main` had.
  pub all_executed :
      length files < b.max
      → s.main ≡ finished
      → (s.shared.taken ≡ files) × ((has : Task → Bool) → count has s.shared.done ≡ count has files)
  all_executed few end =
      let (q, inv) = Reach-Inv r run in
      let empty : q ≡ [] = inv.drained (ap is_stopping end) (omega (arith, few, Reach-max r run)) in
      let all : s.shared.taken ≡ files =
        sym (append-nil s.shared.taken)
        ∙ ap (λ l. s.shared.taken ++ l) (sym empty)
        ∙ inv.order
        ∙ sym (append-nil s.shared.submitted)
        ∙ ap (λ l. s.shared.submitted ++ l)
            (sym (ap (λ p. pending p ++ s.todo) end ∙ inv.supplied (ap is_ending end)))
        ∙ inv.supply in
      (
        all,
        λ has. omega (
          arith,
          inv.counted has,
          all_in_hand-exited has s.workers (inv.joined (ap is_finished end)),
          ap (count has) all,
        ),
      )
