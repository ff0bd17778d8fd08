-- ===== src/OddList/Output.antt =====
-- What the program of hw5 prints.
use mathlib.Core.List.{reverse, reverse-cons, append_assoc, append-nil}
use otus_c.Prelude.{
  ℕ, ◌+◌, ◌%◌, ◌==◌, ◌≡◌, refl, sym, ap, ◌∙◌, Bool, true, List, [], ◌∷◌, ◌++◌, some, arith,
  if◌then◌else◌, length, Bool-cases, inl, inr,
}
use otus_c.OddList.{add_element, m, p, f, build, main}

-- The members that leave the remainder 1 when they are divided by 2
abbrev pub odds : List ℕ → List ℕ
odds [] = []
odds (v ∷ vs) = let rest = odds vs in if v % 2 == 1 then v ∷ rest else rest

p-odd : (v : ℕ) → p v ≡ (v % 2 == 1)
unfolding p
p-odd v = ground arith

m-id : (l : List ℕ) → m l ≡ l
unfolding m
m-id [] = refl
m-id (v ∷ l) = ap (λ x. v ∷ x) (m-id l)

-- As long as there is memory, `f` puts the odd values in front of the list, the last one first.
f-odds :
    (memory : ℕ → Bool) (n : ℕ) (head ptr : List ℕ)
    → ((k : ℕ) → memory k ≡ true)
    → f memory n head ptr p ≡ reverse (odds head) ++ ptr
unfolding f add_element
f-odds memory n [] ptr ok = refl
f-odds memory n (v ∷ head) ptr ok = elim (Bool-cases (v % 2 == 1)) [
  | inl odd ↦
      rw (p-odd v, odd, ok n)
        (f-odds memory (n + 1) head (v ∷ ptr) ok
          ∙ sym (append_assoc (reverse (odds head)) (v ∷ []) ptr)
          ∙ ap (λ l. l ++ ptr) (sym (reverse-cons v (odds head))))
  | inr even ↦ rw (p-odd v, even) (f-odds memory n head ptr ok)
]

build-all :
    (memory : ℕ → Bool) (arr : List ℕ)
    → ((k : ℕ) → memory k ≡ true)
    → build memory arr ≡ some (arr, length arr)
unfolding build add_element
build-all memory [] ok = refl
build-all memory (v ∷ arr) ok =
    rw (build-all memory arr ok, ok (length arr)) (ap (λ k. some (v ∷ arr, k)) (omega arith))

-- If malloc always succeeds, `main` prints the array in the first line and its odd elements in the
-- second, in the reverse order.
pub main-prints :
    (memory : ℕ → Bool) (arr : List ℕ)
    → ((k : ℕ) → memory k ≡ true)
    → main memory arr ≡ some (arr, reverse (odds arr))
unfolding main
main-prints memory arr ok =
    rw
      (
        build-all memory arr ok,
        m-id arr,
        m-id (f memory (length arr) arr [] p),
        f-odds memory (length arr) arr [] ok,
      )
      (ap (λ l. some (arr, l)) (append-nil (reverse (odds arr))))
