-- ===== src/LogParser/ThreadPool/Workers.antt =====
-- Lists of workers: sums over them, and one that changes.
use otus_c.Prelude.{
  ℕ, zero, suc, ◌+◌, ◌≡◌, ◌≢◌, ◌⊎◌, inl, inr, refl, Bool, List, [], ◌∷◌, ◌++◌, some, arith,
  if◌then◌else◌, get_elem?, set, ◌≢◌, ◌⊎◌,
}
use otus_c.LogParser.CirBuffer.{Task}
use otus_c.LogParser.ThreadPool.{
  Pc, start, checking, waiting, taking, got, running, exited, AllExited,
}

-- How many tasks of a list have a property.
abbrev pub count : (Task → Bool) → List Task → ℕ
count has [] = 0
count has (t ∷ ts) = (if has t then 1 else 0) + count has ts

pub count-append :
    (has : Task → Bool) (xs ys : List Task) → count has (xs ++ ys) ≡ count has xs + count has ys
count-append has [] ys = omega arith
count-append has (x ∷ xs) ys = omega (arith, count-append has xs ys)

-- The tasks with the property that a worker has taken and not yet executed.
abbrev pub in_hand : (Task → Bool) → Pc → ℕ
in_hand has (got t) = if has t then 1 else 0
in_hand has (running t) = if has t then 1 else 0
in_hand has _ = 0

abbrev pub all_in_hand : (Task → Bool) → List Pc → ℕ
all_in_hand has [] = 0
all_in_hand has (p ∷ ws) = in_hand has p + all_in_hand has ws

pub all_in_hand-set :
    (has : Task → Bool) (ws : List Pc) (i : ℕ) {p : Pc} (p' : Pc)
    → get_elem? ws i ≡ some p
    → all_in_hand has (set ws i p') + in_hand has p ≡ all_in_hand has ws + in_hand has p'
all_in_hand-set has [] i p' h = cc
all_in_hand-set has (w ∷ ws) zero p' h = ground arith
all_in_hand-set has (w ∷ ws) (suc i) p' h = omega (arith, all_in_hand-set has ws i p' h)

pub all_in_hand-exited : (has : Task → Bool) (ws : List Pc) → AllExited ws → all_in_hand has ws ≡ 0
all_in_hand-exited has [] h = refl
all_in_hand-exited has (exited ∷ ws) h = omega (arith, all_in_hand-exited has ws h)
all_in_hand-exited has (start ∷ ws) h = absurd h
all_in_hand-exited has (checking ∷ ws) h = absurd h
all_in_hand-exited has (waiting ∷ ws) h = absurd h
all_in_hand-exited has (taking ∷ ws) h = absurd h
all_in_hand-exited has (got t ∷ ws) h = absurd h
all_in_hand-exited has (running t ∷ ws) h = absurd h

pub exited_at :
    (ws : List Pc) (i : ℕ) {p : Pc} → AllExited ws → get_elem? ws i ≡ some p → p ≡ exited
exited_at [] i h e = cc
exited_at (exited ∷ ws) zero h e = cc
exited_at (exited ∷ ws) (suc i) h e = exited_at ws i h e
exited_at (start ∷ ws) i h e = absurd h
exited_at (checking ∷ ws) i h e = absurd h
exited_at (waiting ∷ ws) i h e = absurd h
exited_at (taking ∷ ws) i h e = absurd h
exited_at (got t ∷ ws) i h e = absurd h
exited_at (running t ∷ ws) i h e = absurd h

pub taking_or_not : (p : Pc) → (p ≡ taking) ⊎ (p ≢ taking)
taking_or_not taking = inl refl
taking_or_not start = inr (λ e. cc)
taking_or_not checking = inr (λ e. cc)
taking_or_not waiting = inr (λ e. cc)
taking_or_not (got t) = inr (λ e. cc)
taking_or_not (running t) = inr (λ e. cc)
taking_or_not exited = inr (λ e. cc)

-- All workers have exited, or some worker has not.
pub AllExited-or :
    (ws : List Pc) → AllExited ws ⊎ ((i : ℕ) × (p : Pc) × (get_elem? ws i ≡ some p) × (p ≢ exited))
AllExited-or [] = inl tt
AllExited-or (exited ∷ ws) = elim (AllExited-or ws) [
  | inl all ↦ inl all
  | inr (i, p, at, n) ↦ inr (suc i, p, at, n)
]
AllExited-or (start ∷ ws) = inr (0, start, refl, λ e. cc)
AllExited-or (checking ∷ ws) = inr (0, checking, refl, λ e. cc)
AllExited-or (waiting ∷ ws) = inr (0, waiting, refl, λ e. cc)
AllExited-or (taking ∷ ws) = inr (0, taking, refl, λ e. cc)
AllExited-or (got t ∷ ws) = inr (0, got t, refl, λ e. cc)
AllExited-or (running t ∷ ws) = inr (0, running t, refl, λ e. cc)
