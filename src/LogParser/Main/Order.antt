-- ===== src/LogParser/Main/Order.antt =====
-- What the tasks of hw12 leave behind does not depend on the order in which the workers came to them.
use otus_c.Prelude.{
  ℕ, ◌+◌, ◌<◌, ◌≤◌, ◌≡◌, sym, ◌∙◌, ap, subst, Bool, true, ◌&&◌, List, [], ◌∷◌, ◌++◌, Option, none,
  arith, length, length-append, Bool-cases, inl, inr, ◌==◌,
}
use otus_c.Prelude.Bytes.{CString, same, same_refl, same→eq}
use otus_c.LogParser.CirBuffer.{Task}
use otus_c.LogParser.ThreadPool.Workers.{count}
use otus_c.LogParser.Apache.Line.{LogLine}
use otus_c.LogParser.Apache.Counts.{deltas, sum, added}
use otus_c.LogParser.Apache.Interleaving.{added-weight}
use otus_c.LogParser.Main.Reorder.{sum_over, sum_over-same}
use otus_c.LogParser.Main.Totals.{sum-append, deltas-append, Readable, AllReadable, all_lines}

-- The same task: the function and the argument
abbrev same_task : Task → Task → Bool
same_task a b = a.function == b.function && same a.arg b.arg

same_task_refl : (a : Task) → same_task a a ≡ true
same_task_refl a = ground (arith, same_refl a.arg)

same_task→eq : (a b : Task) → same_task a b ≡ true → a ≡ b
same_task→eq a b h =
    let f : a.function ≡ b.function = ground arith in
    let g : a.arg ≡ b.arg = same→eq a.arg b.arg (ground arith) in
    λ i. record { function = f i; arg = g i }

module _ (lines_of : Task → List LogLine) (open_read : CString → Option (List ℕ)) (fuel : ℕ) where
  Readable-in :
      (x : Task) (ys : List Task)
      → AllReadable lines_of open_read fuel ys
      → 0 < count (same_task x) ys
      → Readable lines_of open_read fuel x
  Readable-in x [] r h = absurd (omega (arith, h))
  Readable-in x (y ∷ ys) r h = elim (Bool-cases (same_task x y)) [
    | inl e ↦ subst (Readable lines_of open_read fuel) (sym (same_task→eq x y e)) r.0
    | inr e ↦ Readable-in x ys r.1 (ground (arith, h, e))
  ]

  -- Tasks that occur among readable ones are readable.
  pub readable_all :
      (xs ys : List Task)
      → ((has : Task → Bool) → count has xs ≤ count has ys)
      → AllReadable lines_of open_read fuel ys
      → AllReadable lines_of open_read fuel xs
  readable_all [] ys h r = tt
  readable_all (x ∷ xs) ys h r = (
    Readable-in x ys r (ground (arith, h (same_task x), same_task_refl x)),
    readable_all xs ys (λ has. omega (arith, h has)) r,
  )

  -- A number that adds up over the lines is a sum over the tasks.
  all_lines-sum_over :
      (g : List LogLine → ℕ)
      → g [] ≡ 0
      → ((xs ys : List LogLine) → g (xs ++ ys) ≡ g xs + g ys)
      → (tasks : List Task) → g (all_lines lines_of tasks) ≡ sum_over (λ t. g (lines_of t)) tasks
  all_lines-sum_over g z add [] = z
  all_lines-sum_over g z add (t ∷ tasks) =
      omega (arith, add (lines_of t) (all_lines lines_of tasks), all_lines-sum_over g z add tasks)

  -- So it is the same for the same tasks in another order.
  pub all_lines-same :
      (g : List LogLine → ℕ)
      → g [] ≡ 0
      → ((xs ys : List LogLine) → g (xs ++ ys) ≡ g xs + g ys)
      → (xs ys : List Task) → ((has : Task → Bool) → count has xs ≡ count has ys)
      → g (all_lines lines_of xs) ≡ g (all_lines lines_of ys)
  all_lines-same g z add xs ys h =
      all_lines-sum_over g z add xs
      ∙ sum_over-same (λ t. g (lines_of t)) xs ys h
      ∙ sym (all_lines-sum_over g z add ys)

  module _ (incs : List LogLine → List (CString × ℕ)) (none_of : incs [] ≡ [])
      (incs-append : (xs ys : List LogLine) → incs (xs ++ ys) ≡ incs xs ++ incs ys)
      (xs ys : List Task) (h : (has : Task → Bool) → count has xs ≡ count has ys) where
    -- And what the increments of the tasks make of a key
    pub added-same :
        (q : CString)
        → added none (deltas q (incs (all_lines lines_of xs)))
          ≡ added none (deltas q (incs (all_lines lines_of ys)))
    added-same q =
        added-weight none _ _
          (all_lines-same (λ ls. sum (deltas q (incs ls))) (ap (λ l. sum (deltas q l)) none_of)
            (λ a b.
              ap (λ l. sum (deltas q l)) (incs-append a b)
              ∙ ap sum (deltas-append q (incs a) (incs b))
              ∙ sum-append (deltas q (incs a)) (deltas q (incs b)))
            xs ys h)
          (all_lines-same (λ ls. length (deltas q (incs ls)))
            (ap (λ l. length (deltas q l)) none_of)
            (λ a b.
              ap (λ l. length (deltas q l)) (incs-append a b)
              ∙ ap length (deltas-append q (incs a) (incs b))
              ∙ length-append (deltas q (incs a)) (deltas q (incs b)))
            xs ys h)
