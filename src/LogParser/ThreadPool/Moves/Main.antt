-- ===== src/LogParser/ThreadPool/Moves/Main.antt =====
-- The steps of the main thread of hw12.
use mathlib.Core.List.{append_assoc}
use otus_c.Prelude.{
  ◌<◌, ◌≤◌, length-append, ℕ, suc, ◌≡◌, ◌≢◌, refl, sym, ap, subst, ◌∙◌, Bool, true, false, List, [],
  ◌∷◌, ◌++◌, Option, none, some, arith, length, ◌==◌,
}
use otus_c.LogParser.CirBuffer.{Task, Buffer, cir_buffer_put}
use otus_c.LogParser.CirBuffer.Queue.{push}
use otus_c.LogParser.CirBuffer.Refine.{
  Represents, put-Represents, size-Represents, size_of_full, size-lt-max,
}
use otus_c.LogParser.ThreadPool.{Pc, MainPc, Shared, System, AllExited, MainMove, putting}
use otus_c.LogParser.ThreadPool.Invariant.{
  Inv, is_putting, is_ending, is_stopping, is_finished, main_holds, pending,
}

-- A put on a buffer that is not full.
pub put_stores :
    (b : Buffer) (q : List Task) (t : Task)
    → Represents b q
    → b.full ≡ false
    → (b' : Buffer) × (cir_buffer_put b t ≡ some (true, b'))
      × Represents b' (q ++ (t ∷ []))
      × (b'.max ≡ b.max)
unfolding push
put_stores b q t r f =
    let (b', run, r', max) = put-Represents t r in
    let room : (length q == b.max) ≡ false =
      ground (arith, size-Represents r, size-lt-max r.valid f) in
    (b', rw room at run, rw room at r', max)

append-ne-nil : (q : List Task) (t : Task) → q ++ (t ∷ []) ≢ []
append-ne-nil [] t e = cc
append-ne-nil (x ∷ q) t e = cc

no_tasks : (q : List Task) → length q ≡ 0 → q ≡ []
no_tasks [] h = refl
no_tasks (t ∷ q) h = absurd (omega arith)

-- A step that takes the mutex, keeps it or lets it go, and changes nothing else that is shared.
module _ {files q : List Task} {s : System} (inv : Inv files q s) where
  -- The rest of the invariant, for the new state `p`, `ts` of the main thread and the mutex `mu`.
  relocate :
      (p : MainPc) (ts : List Task) (mu : Option ℕ) (stop : Bool)
      → pending p ++ ts ≡ pending s.main ++ s.todo
      → ((k : ℕ) → s.shared.mu ≡ some (suc k) → mu ≡ some (suc k))
      → (main_holds p ≡ true → mu ≡ some 0)
      → (is_putting p ≡ true → s.shared.buf.full ≡ false)
      → (is_ending p ≡ true → ts ≡ [])
      → (is_stopping p ≡ true → length files < s.shared.buf.max → q ≡ [])
      → (is_finished p ≡ true → AllExited s.workers)
      → Inv files q
          (record s { shared = record (s.shared) { mu = mu; stop = stop }; main = p; todo = ts })
  relocate p ts mu stop same others own room ended empty joined = record {
    repr = inv.repr;
    order = inv.order;
    supply = ap (λ l. s.shared.submitted ++ l) same ∙ inv.supply;
    owners = λ j r there h. others j (inv.owners j r there h);
    main_owner = own;
    ready = inv.ready;
    roomy = room;
    supplied = ended;
    drained = empty;
    counted = inv.counted;
    joined = joined;
  }

abbrev state : Shared → List Pc → MainPc → List Task → System
state m ws p ts = record { shared = m; workers = ws; main = p; todo = ts }

-- A mutex that is free is held by no worker.
free_of_workers : {mu mu' : Option ℕ} → mu ≡ none → (k : ℕ) → mu ≡ some (suc k) → mu' ≡ some (suc k)
free_of_workers e k f = cc

-- Nor is one that the main thread holds.
main_only : {mu mu' : Option ℕ} → mu ≡ some 0 → (k : ℕ) → mu ≡ some (suc k) → mu' ≡ some (suc k)
main_only e k f = absurd (ground arith)

module _ {files q : List Task} {m : Shared} {ws : List Pc} {ts : List Task} where
  stored_Inv :
      (t : Task) (b : Buffer)
      → Inv files q (state m ws (putting t) ts)
      → cir_buffer_put m.buf t ≡ some (true, b)
      → Inv files
          (q ++ (t ∷ []))
          (state (record m { buf = b; submitted = m.submitted ++ (t ∷ []) }) ws MainPc.leaving ts)
  stored_Inv t b inv g =
      let (b', run, r, _) = put_stores m.buf q t inv.repr (inv.roomy refl) in
      let same_buf : b' ≡ b = cc in
      record {
        repr = subst (λ c. Represents c (q ++ (t ∷ []))) same_buf r;
        order = sym (append_assoc m.taken q (t ∷ [])) ∙ ap (λ l. l ++ (t ∷ [])) inv.order;
        supply = append_assoc m.submitted (t ∷ []) ts ∙ inv.supply;
        owners = inv.owners;
        main_owner = λ h. inv.main_owner refl;
        ready = λ j there. append-ne-nil q t;
        roomy = λ h. cc;
        supplied = λ h. cc;
        drained = λ h. cc;
        counted = inv.counted;
        joined = λ h. cc;
      }

-- A full buffer holds as many tasks as it has slots, and no more than `main` has in all.
full_buffer :
    {files q : List Task} {s : System}
    → Inv files q s
    → s.shared.buf.full ≡ true
    → s.shared.buf.max ≤ length files
full_buffer {files} {q} {s} inv g = omega (
  arith,
  size_of_full s.shared.buf g,
  size-Represents inv.repr,
  length-append s.shared.taken q,
  ap length inv.order,
  length-append s.shared.submitted (pending s.main ++ s.todo),
  ap length inv.supply,
)

-- A step of the main thread keeps the invariant.
main_step :
    {files q : List Task} {m m' : Shared} {ws : List Pc} {p p' : MainPc} {ts ts' : List Task}
    → MainMove ws m p ts m' p' ts'
    → Inv files q (state m ws p ts)
    → (q' : List Task) × Inv files q' (state m' ws p' ts')
main_step {q} {m} (MainMove.lock {t} {ts} g) inv = (
  q,
  relocate inv (MainPc.checking t) ts (some 0) m.stop refl (free_of_workers g) (λ h. refl) (λ h. cc)
      (λ h. cc) (λ h. cc) (λ h. cc),
)
main_step {q} {m} (MainMove.wait {t} {ts} g) inv = (
  q,
  relocate inv (MainPc.waiting t) ts none m.stop refl (main_only (inv.main_owner refl)) (λ h. cc)
      (λ h. cc) (λ h. cc) (λ h. cc) (λ h. cc),
)
main_step {q} {m} (MainMove.wake {t} {ts} g) inv = (
  q,
  relocate inv (MainPc.checking t) ts (some 0) m.stop refl (free_of_workers g) (λ h. refl) (λ h. cc)
      (λ h. cc) (λ h. cc) (λ h. cc),
)
main_step {q} {m} (MainMove.pass {t} {ts} g) inv = (
  q,
  relocate inv (putting t) ts m.mu m.stop refl (λ k e. e) (λ h. inv.main_owner refl) (λ h. g)
      (λ h. cc) (λ h. cc) (λ h. cc),
)
main_step {q} (MainMove.put {t} {b} g) inv = (q ++ (t ∷ []), stored_Inv t b inv g)
main_step {q} {m} (MainMove.put_refused {t} g) inv =
    let (b', run, r, _) = put_stores m.buf q t inv.repr (inv.roomy refl) in absurd (ground arith)
main_step {q} {m} (MainMove.leave {ts}) inv = (
  q,
  relocate inv MainPc.next ts none m.stop refl (main_only (inv.main_owner refl)) (λ h. cc) (λ h. cc)
      (λ h. cc) (λ h. cc) (λ h. cc),
)
main_step {q} {m} MainMove.drain inv = (
  q,
  relocate inv MainPc.draining [] m.mu m.stop refl (λ k e. e) (λ h. cc) (λ h. cc) (λ h. refl)
      (λ h. cc) (λ h. cc),
)
main_step {q} {m} (MainMove.drained {ts} g) inv = (
  q,
  relocate inv MainPc.stopping ts m.mu m.stop refl (λ k e. e) (λ h. cc) (λ h. cc)
      (λ h. inv.supplied refl) (λ h few. no_tasks q (sym (size-Represents inv.repr) ∙ g)) (λ h. cc),
)
main_step {files} {q} {m} (MainMove.drained_early i {ts} at g) inv = (
  q,
  relocate inv MainPc.stopping ts m.mu m.stop refl (λ k e. e) (λ h. cc) (λ h. cc)
      (λ h. inv.supplied refl) (λ h few. absurd (omega (arith, few, full_buffer inv g))) (λ h. cc),
)
main_step {q} {m} (MainMove.set_stop {ts} g) inv = (
  q,
  relocate inv MainPc.setting ts (some 0) true refl (free_of_workers g) (λ h. refl) (λ h. cc)
      (λ h. inv.supplied refl) (λ h. inv.drained refl) (λ h. cc),
)
main_step {q} {m} (MainMove.unlock {ts}) inv = (
  q,
  relocate inv MainPc.joining ts none m.stop refl (main_only (inv.main_owner refl)) (λ h. cc)
      (λ h. cc) (λ h. inv.supplied refl) (λ h. inv.drained refl) (λ h. cc),
)
main_step {q} {m} (MainMove.join {ts} g) inv = (
  q,
  relocate inv MainPc.finished ts m.mu m.stop refl (λ k e. e) (λ h. cc) (λ h. cc)
      (λ h. inv.supplied refl) (λ h. inv.drained refl) (λ h. g),
)

move_max :
    {files q : List Task} {m m' : Shared} {ws : List Pc} {p p' : MainPc} {ts ts' : List Task}
    → MainMove ws m p ts m' p' ts'
    → Inv files q (state m ws p ts)
    → m'.buf.max ≡ m.buf.max
move_max (MainMove.lock g) inv = refl
move_max (MainMove.wait g) inv = refl
move_max (MainMove.wake g) inv = refl
move_max (MainMove.pass g) inv = refl
move_max {q} {m} (MainMove.put {t} {b} g) inv =
    let (b', run, _, max) = put_stores m.buf q t inv.repr (inv.roomy refl) in
    let same_buf : b' ≡ b = cc in sym (ap (λ c. c.max) same_buf) ∙ max
move_max {q} {m} (MainMove.put_refused {t} g) inv =
    let (b', run, _, _) = put_stores m.buf q t inv.repr (inv.roomy refl) in absurd (ground arith)
move_max MainMove.leave inv = refl
move_max MainMove.drain inv = refl
move_max (MainMove.drained g) inv = refl
move_max (MainMove.drained_early i at g) inv = refl
move_max (MainMove.set_stop g) inv = refl
move_max MainMove.unlock inv = refl
move_max (MainMove.join g) inv = refl

-- The buffer keeps its size.
pub main-max :
    {files q : List Task} {s : System} {m : Shared} {p : MainPc} {ts : List Task}
    → Inv files q s
    → MainMove s.workers s.shared s.main s.todo m p ts
    → m.buf.max ≡ s.shared.buf.max
main-max inv mv = move_max mv inv

-- The main thread at any state.
pub main-Inv :
    {files q : List Task} {s : System} {m : Shared} {p : MainPc} {ts : List Task}
    → Inv files q s
    → MainMove s.workers s.shared s.main s.todo m p ts
    → (q' : List Task) × Inv files q' (record s { shared = m; main = p; todo = ts })
main-Inv inv mv = main_step mv inv

-- A task that the main thread is about to put in is not refused, and the put meets no undefined
-- behaviour.
pub putting_puts :
    {files q : List Task} {s : System} {t : Task}
    → Inv files q s
    → s.main ≡ putting t
    → (b : Buffer) × (cir_buffer_put s.shared.buf t ≡ some (true, b))
putting_puts {q} {s} {t} inv at =
    let (b, run, _, _) = put_stores s.shared.buf q t inv.repr (inv.roomy (ap is_putting at)) in
    (b, run)
