-- ===== src/LogParser/ThreadPool/Invariant.antt =====
-- What holds of the pool of hw12 between any two steps.
use otus_c.Prelude.{
  length, ◌<◌, ℕ, suc, ◌+◌, ◌≡◌, ◌≢◌, refl, Bool, true, false, List, [], ◌∷◌, ◌++◌, some, get_elem?,
}
use otus_c.LogParser.CirBuffer.{Task}
use otus_c.LogParser.CirBuffer.Refine.{Represents}
use otus_c.LogParser.ThreadPool.{Pc, MainPc, System, AllExited}
use otus_c.LogParser.ThreadPool.Workers.{count, all_in_hand}

-- The worker is between the lock of the mutex and its unlock.
abbrev pub holds : Pc → Bool
holds Pc.checking = true
holds Pc.taking = true
holds (Pc.got t) = true
holds _ = false

-- So is the main thread.
abbrev pub main_holds : MainPc → Bool
main_holds (MainPc.checking t) = true
main_holds (MainPc.putting t) = true
main_holds MainPc.leaving = true
main_holds MainPc.setting = true
main_holds _ = false

abbrev pub is_putting : MainPc → Bool
is_putting (MainPc.putting t) = true
is_putting _ = false

pub putting_holds : (p : MainPc) → is_putting p ≡ true → main_holds p ≡ true
putting_holds (MainPc.putting t) h = refl
putting_holds MainPc.leaving h = refl
putting_holds p h = cc

-- All tasks have been added.
abbrev pub is_ending : MainPc → Bool
is_ending MainPc.draining = true
is_ending MainPc.stopping = true
is_ending MainPc.setting = true
is_ending MainPc.joining = true
is_ending MainPc.finished = true
is_ending _ = false

-- The buffer was read as empty after that.
abbrev pub is_stopping : MainPc → Bool
is_stopping MainPc.stopping = true
is_stopping MainPc.setting = true
is_stopping MainPc.joining = true
is_stopping MainPc.finished = true
is_stopping _ = false

abbrev pub is_finished : MainPc → Bool
is_finished MainPc.finished = true
is_finished _ = false

-- The task of the call of `add_to_pool` that is under way.
abbrev pub pending : MainPc → List Task
pending (MainPc.checking t) = t ∷ []
pending (MainPc.waiting t) = t ∷ []
pending (MainPc.putting t) = t ∷ []
pending _ = []

-- `files` are the tasks that `main` adds in all; the buffer holds the tasks `q`.
pub record Inv (files : List Task) (q : List Task) (s : System) : Type 0 where
  pub repr : Represents s.shared.buf q
  pub order : s.shared.taken ++ q ≡ s.shared.submitted
  pub supply : s.shared.submitted ++ (pending s.main ++ s.todo) ≡ files
  pub owners :
      (j : ℕ) (p : Pc)
      → get_elem? s.workers j ≡ some p
      → holds p ≡ true
      → s.shared.mu ≡ some (suc j)
  pub main_owner : main_holds s.main ≡ true → s.shared.mu ≡ some 0
  pub ready : (j : ℕ) → get_elem? s.workers j ≡ some Pc.taking → q ≢ []
  pub roomy : is_putting s.main ≡ true → s.shared.buf.full ≡ false
  pub supplied : is_ending s.main ≡ true → s.todo ≡ []
  pub drained : is_stopping s.main ≡ true → length files < s.shared.buf.max → q ≡ []
  pub counted :
      (has : Task → Bool)
      → count has s.shared.taken ≡ count has s.shared.done + all_in_hand has s.workers
  pub joined : is_finished s.main ≡ true → AllExited s.workers
