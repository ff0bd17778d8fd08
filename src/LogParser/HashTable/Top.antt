-- ===== src/LogParser/HashTable/Top.antt =====
-- `print_top` of hw12: the array that it fills, and the order that it sorts by.
use otus_c.Prelude.{
  false, map, length-map, take, length-take, ltb, ℕ, ◌+◌, ◌^◌, ◌≤◌, ◌<◌, ◌≡◌, ◌↔◌, refl, sym, ap,
  ◌∙◌, List, [], ◌∷◌, ◌++◌, arith, length, length-append,
}
use otus_c.Prelude.Bytes.{CString}
use otus_c.LogParser.HashTable.{
  print_top, Entry, Bucket, wild, chain, Table, entries, compare_pairs,
}
use otus_c.LogParser.HashTable.Outcome.{ok}
use otus_c.LogParser.HashTable.Effect.{IsValid, AllChains, total}

all_entries :
    (bs : List Bucket)
    → AllChains bs
    → (l : List Entry) × (entries (length bs) bs ≡ ok l) × (length l ≡ total bs)
unfolding entries
all_entries [] h = ([], refl, refl)
all_entries (wild ∷ bs) h = absurd h
all_entries (chain c ∷ bs) h =
    let (l, run, n) = all_entries bs h in (c ++ l, rw run refl, omega (arith, length-append c l, n))

-- On a valid table the loops of `print_top` write exactly as many pairs as the array of `t->size`
-- pairs has room for.
pub entries-fill :
    {t : Table}
    → IsValid t
    → (l : List Entry) × (entries t.cap t.buckets ≡ ok l) × (length l ≡ t.size)
entries-fill {t} v =
    let (l, run, n) = all_entries t.buckets v.chains in
    (l, ap (λ k. entries k t.buckets) (sym v.width) ∙ run, n ∙ sym v.counted)

-- The result of `compare`, as an `int`, is negative.
abbrev pub IsNegative : ℕ → Type 0
IsNegative n = 2 ^ 31 ≤ n

-- Between values of 64 bits that differ by less than `2 ^ 31`, `compare` puts the larger first, and is
-- zero exactly if they are equal; where the first is the larger by more than `2 ^ 31` and less than
-- `2 ^ 32`, the sign is wrong.
pub compare_pairs_lem :
    (a b : Entry)
    → a.val < 2 ^ 64
    → b.val < 2 ^ 64
    → (a.val < b.val + 2 ^ 31
        → b.val < a.val + 2 ^ 31
        → (IsNegative (compare_pairs a b) ↔ (b.val < a.val))
          × ((compare_pairs a b ≡ 0) ↔ (a.val ≡ b.val)))
      × (b.val + 2 ^ 31 < a.val
          → a.val < b.val + 2 ^ 32
          → (0 < compare_pairs a b) × (compare_pairs a b < 2 ^ 31))
unfolding compare_pairs
compare_pairs_lem a b ha hb = (
  λ p q. ((λ n. omega arith, λ n. omega arith), (λ n. omega arith, λ n. omega arith)),
  λ p q. (omega arith, omega arith),
)

-- On a valid table `print_top` returns, whatever `qsort` does.
pub print_top-returns :
    (qsort : (Entry → Entry → ℕ) → List Entry → List Entry) (t : Table) (count : ℕ)
    → IsValid t
    → (keys : List CString) × (print_top qsort t count ≡ ok keys) × (length keys ≤ count)
unfolding print_top
print_top-returns qsort t count v =
    let (l, run, n) = entries-fill v in
    let fits : ltb t.size (length l) ≡ false = ground (arith, n) in
    let top = take count (qsort compare_pairs l) in
    (
      map (λ e. e.key) top,
      rw (run, fits) refl,
      omega (arith, length-map top (λ e. e.key), length-take count (qsort compare_pairs l)),
    )
