-- ===== src/Daemon/Single.antt =====
-- Processes of hw10 that start and end in any order, with the lock and the name of the socket.
use otus_c.Prelude.{
  subst, ◌≢◌, ℕ, ◌≤◌, ◌≡◌, refl, sym, ◌∙◌, Bool, true, false, List, [], ◌∷◌, ◌++◌, Option, none,
  some, if◌then◌else◌, length, arith, ◌==◌,
}
use otus_c.Prelude.Bytes.{CString}
use otus_c.Daemon.{Round, stopped, killed, waiting, taken}
use otus_c.Daemon.Program.{served, World, main}
use otus_c.Daemon.Server.{name_after}
use otus_c.Daemon.Main.{main-locked, main-removed, main-quiet}

-- The process that holds the lock, whether the socket's name exists, the processes that serve,
-- and whether a server was ended by a signal
pub record System : Type 0 where
  pub holder : Option ℕ
  pub exists : Bool
  pub serving : List ℕ
  pub lost : Bool

-- The lock is free once its holder has ended.
abbrev pub release : ℕ → Option ℕ → Option ℕ
release pid none = none
release pid (some h) = if h == pid then none else some h

-- What `fcntl` and the file system say in a state: the lock is given only where it is free.
pub record Sees (s : System) (w : World) : Type 0 where
  pub exclusive : w.lock ≡ taken → s.holder ≡ none
  pub name : w.exists ≡ s.exists

-- A process comes to wait for its first connection; a process ends without having served; a process
-- that serves comes to the end of its rounds.
pub data Step : System → System → Type 0 where
  begins :
      (s : System) (w : World) (argv : List CString) (pid : ℕ)
      → Sees s w
      → (main w [] argv).1 ≡ served waiting
      → Step s (record s {
        holder = some pid;
        exists = name_after w.exists (main w [] argv).0;
        serving = pid ∷ s.serving;
      })
  refuses :
      (s : System) (w : World) (argv : List CString)
      → Sees s w
      → (main w [] argv).1 ≢ served waiting
      → Step s (record s { exists = name_after w.exists (main w [] argv).0 })
  stops :
      (s : System) (w : World) (rounds : List Round) (argv : List CString) (pid : ℕ)
      (xs ys : List ℕ)
      → s.serving ≡ xs ++ (pid ∷ ys)
      → (main w rounds argv).1 ≡ served stopped
      → Step s (record s {
        holder = release pid s.holder;
        exists = name_after s.exists (main w rounds argv).0;
        serving = xs ++ ys;
      })
  dies :
      (s : System) (w : World) (rounds : List Round) (argv : List CString) (pid : ℕ)
      (xs ys : List ℕ)
      → s.serving ≡ xs ++ (pid ∷ ys)
      → (main w rounds argv).1 ≡ served killed
      → Step s (record s { holder = release pid s.holder; serving = xs ++ ys; lost = true })

-- Before the first process
abbrev pub idle : System
idle = record { holder = none; exists = false; serving = []; lost = false }

pub data Reach : System → Type 0 where
  at_first : Reach idle
  then_step : {s s' : System} → Reach s → Step s s' → Reach s'

abbrev Alone : Option ℕ → List ℕ → Type 0
Alone none [] = Unit {0}
Alone none (p ∷ pids) = ⊥
Alone (some h) [] = ⊥
Alone (some h) (p ∷ []) = h ≡ p
Alone (some h) (p ∷ q ∷ pids) = ⊥

Alone-none : (pids : List ℕ) → Alone none pids → pids ≡ []
Alone-none [] a = refl
Alone-none (p ∷ pids) a = absurd a

Alone-end :
    (holder : Option ℕ) (pid : ℕ) (xs ys : List ℕ)
    → Alone holder (xs ++ (pid ∷ ys))
    → (release pid holder ≡ none) × (xs ++ ys ≡ [])
Alone-end none pid [] ys a = absurd a
Alone-end none pid (x ∷ xs) ys a = absurd a
Alone-end (some h) pid [] [] a = (ground (arith, a), refl)
Alone-end (some h) pid [] (y ∷ ys) a = absurd a
Alone-end (some h) pid (x ∷ []) ys a = absurd a
Alone-end (some h) pid (x ∷ x' ∷ xs) ys a = absurd a

length-Alone : (holder : Option ℕ) (pids : List ℕ) → Alone holder pids → length pids ≤ 1
length-Alone none [] a = omega arith
length-Alone none (p ∷ pids) a = absurd a
length-Alone (some h) [] a = absurd a
length-Alone (some h) (p ∷ []) a = omega arith
length-Alone (some h) (p ∷ q ∷ pids) a = absurd a

record Inv (s : System) : Type 0 where
  alone : Alone s.holder s.serving
  name : s.lost ≡ false → s.serving ≡ [] → s.exists ≡ false

-- The end of a process that serves leaves nobody serving.
Alone-after :
    (s : System) (pid : ℕ) (xs ys : List ℕ)
    → Inv s
    → s.serving ≡ xs ++ (pid ∷ ys)
    → Alone (release pid s.holder) (xs ++ ys)
Alone-after s pid xs ys i e =
    let (free, empty) = Alone-end s.holder pid xs ys (subst (Alone s.holder) e i.alone) in
    subst (λ pids. Alone (release pid s.holder) pids) (sym empty)
      (subst (λ o. Alone o []) (sym free) tt)

Step-Inv : {s s' : System} → Step s s' → Inv s → Inv s'
Step-Inv (begins s w argv pid sees h) i =
    let free : s.holder ≡ none = sees.exclusive (main-locked w [] argv waiting h) in
    let nobody = Alone-none s.serving (subst (λ o. Alone o s.serving) free i.alone) in
    record {
      alone = subst (λ pids. Alone (some pid) (pid ∷ pids)) (sym nobody) refl;
      name = λ l e. absurd cc;
    }
Step-Inv (refuses s w argv sees n) i = record {
  alone = i.alone;
  name = λ l e. main-quiet w argv w.exists n ∙ sees.name ∙ i.name l e;
}
Step-Inv (stops s w rounds argv pid xs ys e h) i = record {
  alone = Alone-after s pid xs ys i e;
  name = λ l _. main-removed w rounds argv s.exists h;
}
Step-Inv (dies s w rounds argv pid xs ys e h) i = record {
  alone = Alone-after s pid xs ys i e;
  name = λ l _. absurd cc;
}

Reach-Inv : {s : System} → Reach s → Inv s
Reach-Inv at_first = record { alone = tt; name = λ l e. refl }
Reach-Inv (then_step run step) = Step-Inv step (Reach-Inv run)

-- However the processes start and end: at most one serves at a time.
pub at_most_one_serves : {s : System} → Reach s → length s.serving ≤ 1
at_most_one_serves {s} run = length-Alone s.holder s.serving (Reach-Inv run).alone

-- However the processes start and end: as long as no server was ended by a signal, the name of
-- the socket is free when nobody serves.
pub name_is_free : {s : System} → Reach s → s.lost ≡ false → s.serving ≡ [] → s.exists ≡ false
name_is_free run alive nobody = (Reach-Inv run).name alive nobody
