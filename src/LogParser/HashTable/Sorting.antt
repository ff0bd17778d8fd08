-- ===== src/LogParser/HashTable/Sorting.antt =====
-- `print_top` of hw12 with a `qsort` that sorts.
use mathlib.Core.List.{Mem, Perm, mem-cons_self, mem-cons_of_mem}
use mathlib.Core.List.Perm
use otus_c.Prelude.{
  ℕ, ◌+◌, ◌-◌, ◌^◌, ◌≤◌, ◌<◌, ◌≡◌, ◌↔◌, inl, inr, refl, sym, ap, ◌∙◌, subst, List, [], ◌∷◌, ◌++◌,
  map, arith, length, take, drop, take-append-drop, length-take, false, ltb, Bool-cases, ◌==◌,
}
use Prim.Native.Nat.{min}
use otus_c.LogParser.HashTable.{Entry, Table, entries, compare_pairs, print_top}
use otus_c.LogParser.HashTable.Outcome.{ok}
use otus_c.LogParser.HashTable.Effect.{IsValid}
use otus_c.LogParser.HashTable.Top.{entries-fill, IsNegative, compare_pairs_lem}

-- A comparison that puts the members of a list into an order
abbrev pub Orders : (Entry → Entry → ℕ) → (Entry → ℕ) → List Entry → Type 0
Orders compare rank l =
    (a b : Entry)
    → Mem a l
    → Mem b l
    → (IsNegative (compare a b) ↔ (rank a < rank b)) × ((compare a b ≡ 0) ↔ (rank a ≡ rank b))

-- No member comes before one that the comparison puts first.
abbrev pub Ordered : (Entry → Entry → ℕ) → List Entry → Type 0
Ordered compare [] = Unit {0}
Ordered compare (e ∷ l) =
    ((x : Entry) → Mem x l → 0 < compare e x → IsNegative (compare e x)) × Ordered compare l

-- What the code relies on: given a comparison that orders the members of an array, `qsort` puts them
-- into that order.
pub record Sorts (qsort : (Entry → Entry → ℕ) → List Entry → List Entry) : Type 0 where
  pub rearranges :
      (compare : Entry → Entry → ℕ) (rank : Entry → ℕ) (l : List Entry)
      → Orders compare rank l
      → Perm (qsort compare l) l × (length (qsort compare l) ≡ length l)
  pub sorts :
      (compare : Entry → Entry → ℕ) (rank : Entry → ℕ) (l : List Entry)
      → Orders compare rank l
      → Ordered compare (qsort compare l)

abbrev pub Descending : List Entry → Type 0
Descending [] = Unit {0}
Descending (e ∷ l) = ((x : Entry) → Mem x l → x.val ≤ e.val) × Descending l

-- The values of the members fit 64 bits and are less than `2 ^ 31` apart.
abbrev pub Close : List Entry → Type 0
Close l = (a b : Entry) → Mem a l → Mem b l → (a.val < 2 ^ 64) × (a.val < b.val + 2 ^ 31)

abbrev rank : Entry → ℕ
rank e = 2 ^ 64 - e.val

compare_pairs-Orders : (l : List Entry) → Close l → Orders compare_pairs rank l
compare_pairs-Orders l c a b ma mb =
    let (small_a, near) = c a b ma mb in
    let (small_b, near') = c b a mb ma in
    let (negative, equal) = (compare_pairs_lem a b small_a small_b).0 near near' in
    (
      (
        λ n. omega (arith, negative.0 n, small_a, small_b),
        λ n. negative.1 (omega (arith, n, small_a, small_b)),
      ),
      (λ e. omega (arith, equal.0 e), λ e. equal.1 (omega (arith, e, small_a, small_b))),
    )

ok-injective : {a b : List Entry} → ok a ≡ ok b → a ≡ b
ok-injective e = cc

Ordered-Descending :
    (l m : List Entry)
    → Close m
    → ((x : Entry) → Mem x l → Mem x m)
    → Ordered compare_pairs l
    → Descending l
Ordered-Descending [] m c sub o = tt
Ordered-Descending (e ∷ l) m c sub o = (
  λ x mx. not_above e x (sub e mem-cons_self) (sub x (mem-cons_of_mem e mx)) (o.0 x mx),
  Ordered-Descending l m c (λ x mx. sub x (mem-cons_of_mem e mx)) o.1,
)
  where
    not_above :
        (e x : Entry)
        → Mem e m
        → Mem x m
        → (0 < compare_pairs e x → IsNegative (compare_pairs e x))
        → x.val ≤ e.val
    not_above e x me mx h =
        let (negative, equal) = compare_pairs-Orders m c e x me mx in
        let small = (c e x me mx).0 in
        elim (Bool-cases (compare_pairs e x == 0)) [
          | inl z ↦ omega (arith, equal.0 (ground arith), small, (c x e mx me).0)
          | inr z ↦ omega (arith, negative.0 (h (ground arith)), small, (c x e mx me).0)
        ]

-- On a valid table whose values are less than `2 ^ 31` apart, `print_top` prints the keys of `count`
-- entries, or of all where there are fewer, in descending order of their values, and no entry that it
-- leaves out has a larger value; with a `qsort` that sorts.
pub print_top-Descending :
    (qsort : (Entry → Entry → ℕ) → List Entry → List Entry) (t : Table) (count : ℕ) (l : List Entry)
    → Sorts qsort
    → IsValid t
    → entries t.cap t.buckets ≡ ok l
    → Close l
    → (top : List Entry) × (rest : List Entry) × (print_top qsort t count
        ≡ ok (map (λ e. e.key) top))
      × Perm (top ++ rest) l
      × (length top ≡ min count t.size)
      × Descending (top ++ rest)
unfolding print_top
print_top-Descending qsort t count l q v listed c =
    let (l', run, n) = entries-fill v in
    let same : l' ≡ l = ok-injective (sym run ∙ listed) in
    let fits : ltb t.size (length l) ≡ false = ground (arith, n, ap length same) in
    let orders = compare_pairs-Orders l c in
    let sorted : List Entry = qsort compare_pairs l in
    let (perm, long) = q.rearranges compare_pairs rank l orders in
    let whole : take count sorted ++ drop count sorted ≡ sorted = take-append-drop count sorted in
    (
      take count sorted,
      drop count sorted,
      rw (listed, fits) refl,
      subst (λ x. Perm x l) (sym whole) perm,
      length-take count sorted ∙ ap (min count) (long ∙ ap length (sym same) ∙ n),
      subst Descending (sym whole) (
          Ordered-Descending sorted l c (λ x m. (Perm.mem_iff perm).0 m)
            (q.sorts compare_pairs rank l orders)),
    )
