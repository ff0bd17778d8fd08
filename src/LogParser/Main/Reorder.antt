-- ===== src/LogParser/Main/Reorder.antt =====
-- Sums over the tasks of hw12 do not depend on the order in which they are executed.
use otus_c.Prelude.{
  ℕ, zero, suc, ◌+◌, ◌<◌, ◌≡◌, refl, sym, ◌∙◌, Bool, List, [], ◌∷◌, arith, ltb, if◌then◌else◌,
}
use otus_c.LogParser.CirBuffer.{Task}
use otus_c.LogParser.ThreadPool.Workers.{count}

abbrev pub sum_over : (Task → ℕ) → List Task → ℕ
sum_over f [] = 0
sum_over f (t ∷ ts) = f t + sum_over f ts

-- The part of the sum that lies below `bound` in each task
abbrev below : (Task → ℕ) → ℕ → List Task → ℕ
below f zero ts = 0
below f (suc bound) ts = below f bound ts + count (λ t. ltb bound (f t)) ts

abbrev capped : ℕ → ℕ → ℕ
capped bound n = if ltb n bound then n else bound

below-nil : (f : Task → ℕ) (bound : ℕ) → below f bound [] ≡ 0
below-nil f zero = refl
below-nil f (suc bound) = omega (arith, below-nil f bound)

below-cons :
    (f : Task → ℕ) (bound : ℕ) (t : Task) (ts : List Task)
    → below f bound (t ∷ ts) ≡ capped bound (f t) + below f bound ts
below-cons f zero t ts = ground arith
below-cons f (suc bound) t ts = ground (arith, below-cons f bound t ts)

below-sum_over :
    (f : Task → ℕ) (bound : ℕ) (ts : List Task)
    → sum_over f ts < bound
    → below f bound ts ≡ sum_over f ts
below-sum_over f bound [] h = below-nil f bound
below-sum_over f bound (t ∷ ts) h =
    ground (arith, below-cons f bound t ts, below-sum_over f bound ts (omega (arith, h)))

below-same :
    (f : Task → ℕ) (bound : ℕ) (xs ys : List Task)
    → ((has : Task → Bool) → count has xs ≡ count has ys)
    → below f bound xs ≡ below f bound ys
below-same f zero xs ys h = refl
below-same f (suc bound) xs ys h =
    omega (arith, below-same f bound xs ys h, h (λ t. ltb bound (f t)))

-- Lists that hold the same tasks, each as often, have the same sums.
pub sum_over-same :
    (f : Task → ℕ) (xs ys : List Task)
    → ((has : Task → Bool) → count has xs ≡ count has ys)
    → sum_over f xs ≡ sum_over f ys
sum_over-same f xs ys h =
    let bound : ℕ = suc (sum_over f xs + sum_over f ys) in
    sym (below-sum_over f bound xs (omega arith))
    ∙ below-same f bound xs ys h
    ∙ below-sum_over f bound ys (omega arith)
