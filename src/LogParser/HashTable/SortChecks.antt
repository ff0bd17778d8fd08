-- ===== src/LogParser/HashTable/SortChecks.antt =====
-- `print_top` of hw12 with an insertion sort in the place of `qsort`.
use mathlib.Core.Logic.Or
use mathlib.Core.List.{Mem, Mem-prop, Perm, mem-cons, not-mem-nil, mem-cons_self, mem-cons_of_mem}
use mathlib.Core.List.Perm
use native.Mathlib.Bridge.{le_prop}
use otus_c.Prelude.{
  ℕ, suc, ◌^◌, ◌≤◌, ◌<◌, ◌≡◌, inl, inr, refl, sym, ap, ◌∙◌, subst, List, [], ◌∷◌, ◌++◌, map, arith,
  length, Bool, false, leb, if◌then◌else◌, Bool-cases, ◌==◌, ◌||◌,
}
use otus_c.LogParser.HashTable.{Entry, Table, chain, entries, print_top}
use otus_c.LogParser.HashTable.Outcome.{ok}
use otus_c.LogParser.HashTable.Effect.{IsValid}
use otus_c.LogParser.HashTable.Top.{IsNegative}
use otus_c.LogParser.HashTable.Sorting.{
  Orders, Ordered, Sorts, Descending, Close, print_top-Descending,
}

abbrev precedes : (Entry → Entry → ℕ) → Entry → Entry → Bool
precedes compare e x = compare e x == 0 || leb (2 ^ 31) (compare e x)

abbrev insert_in_order : (Entry → Entry → ℕ) → Entry → List Entry → List Entry
insert_in_order compare e [] = e ∷ []
insert_in_order compare e (x ∷ l) =
    let rest = insert_in_order compare e l in if precedes compare e x then e ∷ x ∷ l else x ∷ rest

abbrev insertion_sort : (Entry → Entry → ℕ) → List Entry → List Entry
insertion_sort compare [] = []
insertion_sort compare (e ∷ l) = insert_in_order compare e (insertion_sort compare l)

insert_in_order-Perm :
    (compare : Entry → Entry → ℕ) (e : Entry) (l : List Entry)
    → Perm (insert_in_order compare e l) (e ∷ l)
insert_in_order-Perm compare e [] = Perm.refl (e ∷ [])
insert_in_order-Perm compare e (x ∷ l) = elim (Bool-cases (precedes compare e x)) [
  | inl p ↦ rw p (Perm.refl (e ∷ x ∷ l))
  | inr n ↦ rw n (Perm.trans (Perm.cons x (insert_in_order-Perm compare e l)) (Perm.swap e x l))
]

length-insert_in_order :
    (compare : Entry → Entry → ℕ) (e : Entry) (l : List Entry)
    → length (insert_in_order compare e l) ≡ suc (length l)
length-insert_in_order compare e [] = refl
length-insert_in_order compare e (x ∷ l) = elim (Bool-cases (precedes compare e x)) [
  | inl p ↦ rw p refl
  | inr n ↦ rw n (ap suc (length-insert_in_order compare e l))
]

module _ (compare : Entry → Entry → ℕ) (rank : Entry → ℕ) (m : List Entry)
    (orders : Orders compare rank m) where
  low :
      (a b : Entry)
      → Mem a m
      → Mem b m
      → (0 < compare a b → IsNegative (compare a b))
      → rank a ≤ rank b
  low a b ma mb h =
      let (negative, equal) = orders a b ma mb in
      elim (Bool-cases (compare a b == 0)) [
        | inl z ↦ omega (arith, equal.0 (ground arith))
        | inr z ↦ omega (arith, negative.0 (h (ground arith)))
      ]

  high :
      (a b : Entry)
      → Mem a m
      → Mem b m
      → rank a ≤ rank b
      → 0 < compare a b
      → IsNegative (compare a b)
  high a b ma mb h p =
      let (negative, equal) = orders a b ma mb in
      elim (Bool-cases (rank a == rank b)) [
        | inl z ↦ absurd (omega (arith, equal.1 (ground arith), p))
        | inr z ↦ negative.1 (ground (arith, h))
      ]

  insert_in_order-Ordered :
      (e : Entry) (l : List Entry)
      → Mem e m
      → ((x : Entry) → Mem x l → Mem x m)
      → Ordered compare l
      → Ordered compare (insert_in_order compare e l)
  insert_in_order-Ordered e [] me sub o = (λ x mx. absurd (not-mem-nil mx), tt)
  insert_in_order-Ordered e (x ∷ l) me sub o = elim (Bool-cases (precedes compare e x)) [
    | inl p ↦
        (let first : rank e ≤ rank x = low e x me mx (λ h. ground (arith, p, h)) in
          rw p (
            λ y my. high e y me (sub y my) (
                Or.elim le_prop (mem-cons.0 my) (λ q. omega (arith, first, ap rank q))
                  (λ q. omega (arith, first, low x y mx (sub y my) (o.0 y q)))),
            o,
          ))
    | inr n ↦
        (let last : rank x ≤ rank e = above n in
          rw n (
            λ y my. high x y mx (from y my) (
                Or.elim le_prop
                  (mem-cons.0 ((Perm.mem_iff (insert_in_order-Perm compare e l)).0 my))
                  (λ q. omega (arith, last, ap rank q))
                  (λ q. low x y mx (sub y (mem-cons_of_mem x q)) (o.0 y q))),
            insert_in_order-Ordered e l me (λ y my. sub y (mem-cons_of_mem x my)) o.1,
          ))
  ]
    where
      mx : Mem x m
      mx = sub x mem-cons_self

      from : (y : Entry) → Mem y (insert_in_order compare e l) → Mem y m
      from y my =
          Or.elim Mem-prop (mem-cons.0 ((Perm.mem_iff (insert_in_order-Perm compare e l)).0 my))
            (λ q. subst (λ z. Mem z m) (sym q) me) (λ q. sub y (mem-cons_of_mem x q))

      above : precedes compare e x ≡ false → rank x ≤ rank e
      above n =
          let (negative, equal) = orders e x me mx in
          elim (Bool-cases (leb (suc (rank e)) (rank x))) [
            | inl z ↦ absurd (ground (arith, n, negative.1 (ground arith)))
            | inr z ↦ ground arith
          ]

Orders-tail :
    {compare : Entry → Entry → ℕ} {rank : Entry → ℕ} {e : Entry} {l : List Entry}
    → Orders compare rank (e ∷ l)
    → Orders compare rank l
Orders-tail {e} o a b ma mb = o a b (mem-cons_of_mem e ma) (mem-cons_of_mem e mb)

insertion_sort-Perm :
    (compare : Entry → Entry → ℕ) (l : List Entry) → Perm (insertion_sort compare l) l
insertion_sort-Perm compare [] = Perm.refl []
insertion_sort-Perm compare (e ∷ l) =
    Perm.trans (insert_in_order-Perm compare e (insertion_sort compare l))
      (Perm.cons e (insertion_sort-Perm compare l))

length-insertion_sort :
    (compare : Entry → Entry → ℕ) (l : List Entry) → length (insertion_sort compare l) ≡ length l
length-insertion_sort compare [] = refl
length-insertion_sort compare (e ∷ l) =
    length-insert_in_order compare e (insertion_sort compare l)
    ∙ ap suc (length-insertion_sort compare l)

insertion_sort-Ordered :
    (compare : Entry → Entry → ℕ) (rank : Entry → ℕ) (l : List Entry)
    → Orders compare rank l
    → Ordered compare (insertion_sort compare l)
insertion_sort-Ordered compare rank [] o = tt
insertion_sort-Ordered compare rank (e ∷ l) o =
    insert_in_order-Ordered compare rank (e ∷ l) o e (insertion_sort compare l) mem-cons_self
      (λ x mx. mem-cons_of_mem e ((Perm.mem_iff (insertion_sort-Perm compare l)).0 mx))
      (insertion_sort-Ordered compare rank l (Orders-tail o))

insertion_sort-Sorts : Sorts insertion_sort
insertion_sort-Sorts = record {
  rearranges = λ compare rank l o. (insertion_sort-Perm compare l, length-insertion_sort compare l);
  sorts = insertion_sort-Ordered;
}

abbrev seven : Entry
seven = record { key = b'a' ∷ []; val = 7 }

abbrev nine : Entry
nine = record { key = b'b' ∷ []; val = 9 }

abbrev pair : List Entry
pair = seven ∷ nine ∷ []

-- A table of one bucket, with two entries
abbrev two_entries : Table
two_entries = record { size = 2; cap = 1; buckets = chain pair ∷ []; mus = false ∷ [] }

two_entries-IsValid : IsValid two_entries
two_entries-IsValid = record {
  some_room = omega arith;
  small = omega arith;
  width = refl;
  mutexes = refl;
  chains = tt;
  unlocked = tt;
  counted = refl;
}

value_at_most : (a : Entry) → Mem a pair → a.val ≤ 9
value_at_most a m =
    Or.elim le_prop (mem-cons.0 m) (λ q. omega (arith, ap (λ e. e.val) q))
      (λ m'.
        Or.elim le_prop (mem-cons.0 m') (λ q. omega (arith, ap (λ e. e.val) q))
          (λ none. absurd (not-mem-nil none)))

pair-Close : Close pair
pair-Close a b ma mb = (omega (arith, value_at_most a ma), omega (arith, value_at_most a ma))

print_top-Descending_example :
    (top : List Entry) × (rest : List Entry) × (print_top insertion_sort two_entries 1
      ≡ ok (map (λ e. e.key) top))
    × Perm (top ++ rest) pair
    × (length top ≡ 1)
    × Descending (top ++ rest)
unfolding entries
print_top-Descending_example =
    print_top-Descending insertion_sort two_entries 1 pair insertion_sort-Sorts two_entries-IsValid
      refl pair-Close
