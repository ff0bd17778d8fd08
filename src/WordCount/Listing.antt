-- ===== src/WordCount/Listing.antt =====
-- What `iterate` of hw3 reports after the loop of hw3/src/main.c has counted the words.
use mathlib.Core.Option.{some-injective}
use otus_c.Prelude.{
  Bool, length-replicate, ℕ, zero, suc, ◌^◌, ◌≤◌, ◌<◌, ◌≡◌, ◌≢◌, inl, inr, refl, sym, ap, ◌∙◌, true,
  List, [], ◌∷◌, Option, none, some, arith, length, get_elem?, replicate, Bool-cases, Option-cases,
  if◌then◌else◌, ◌==◌,
}
use otus_c.Prelude.Bytes.{CString, same, same_iff, same_refl}
use otus_c.WordCount.{Bucket, HTable, uint32_max, vacant, new_table, count_words, iterate}
use otus_c.WordCount.Table.{occupied, Apart, Models}
use otus_c.WordCount.Counts.{times, distinct, fresh, add, count_words-Models}

-- The counts that the callback of `iterate` was called with for a word.
abbrev pub counts_of : CString → List (CString × ℕ) → List ℕ
counts_of q [] = []
counts_of q ((k, v) ∷ calls) = if same q k then v ∷ counts_of q calls else counts_of q calls

abbrev to_list : Option ℕ → List ℕ
to_list none = []
to_list (some v) = v ∷ []

iterate-absent :
    (q : CString) (values : List Bucket)
    → ((i : ℕ) (b : Bucket) → get_elem? values i ≡ some b → b.key ≢ some q)
    → counts_of q (iterate values) ≡ []
unfolding iterate
iterate-absent q [] lacks = refl
iterate-absent q (b ∷ values) lacks =
    let rest = iterate-absent q values (λ i. lacks (suc i)) in
    elim (Option-cases b.key) [
      | inl free ↦ rw free rest
      | inr (k, has) ↦ elim (Bool-cases (same q k)) [
        | inl e ↦ absurd (lacks 0 b refl (has ∙ ap some (sym ((same_iff q k).0 e))))
        | inr ne ↦ rw (has, ne) rest
      ]
    ]

iterate-once :
    (q : CString) (values : List Bucket)
    → ((i j : ℕ) (a b : Bucket)
        → get_elem? values i ≡ some a
        → get_elem? values j ≡ some b
        → a.key ≡ some q
        → b.key ≡ some q
        → i ≡ j)
    → (i : ℕ) (b : Bucket) → get_elem? values i ≡ some b
    → b.key ≡ some q
    → counts_of q (iterate values) ≡ b.v ∷ []
unfolding iterate
iterate-once q [] unique i b at has = cc
iterate-once q (x ∷ values) unique zero b at has =
    let here : x ≡ b = some-injective _ _ at in
    let key_here : x.key ≡ some q = ap (λ (y : Bucket). y.key) here ∙ has in
    let later =
      iterate-absent q values
        (λ i c at' has'. absurd (omega (arith, unique 0 (suc i) x c refl at' key_here has'))) in
    rw (key_here, same_refl q) (ap (λ l. x.v ∷ l) later ∙ ap (λ (y : Bucket). y.v ∷ []) here)
iterate-once q (x ∷ values) unique (suc i) b at has =
    let rest =
      iterate-once q values
        (λ j j' a a' at' at'' h h'. omega (arith, unique (suc j) (suc j') a a' at' at'' h h')) i b
        at has in
    elim (Option-cases x.key) [
      | inl free ↦ rw free rest
      | inr (k, has_x) ↦ elim (Bool-cases (same q k)) [
        | inl e ↦ absurd (
            omega (
              arith,
              unique 0 (suc i) x b refl at (has_x ∙ ap some (sym ((same_iff q k).0 e))) has,
            ))
        | inr ne ↦ rw (has_x, ne) rest
      ]
    ]

-- The callback of `iterate` is called once for every key of the map, with its count.
iterate-Models :
    {Known : CString → Type 0} {t : HTable} {f : CString → Option ℕ}
    → Models Known t f
    → (q : CString) → counts_of q (iterate t.values) ≡ to_list (f q)
iterate-Models {t} {f} m q = elim (Option-cases (f q)) [
  | inl gone ↦
      iterate-absent q t.values (λ i b at has. (let e = m.reads i b q at has in cc))
      ∙ ap to_list (sym gone)
  | inr (v, held) ↦
      let (i, b, at, has) = m.stored q v held in
      iterate-once q t.values (λ j j' a a'. m.unique j j' a a' q) i b at has
      ∙ ap to_list (sym (m.reads i b q at has))
]

replicate_at : (n i : ℕ) {b : Bucket} → get_elem? (replicate n vacant) i ≡ some b → vacant ≡ b
replicate_at zero i e = cc
replicate_at (suc n) zero e = some-injective _ _ e
replicate_at (suc n) (suc i) e = replicate_at n i e

pub keyless :
    {b : Bucket} {k : CString} (n i : ℕ)
    → get_elem? (replicate n vacant) i ≡ some b
    → b.key ≢ some k
keyless n i e has = let e' = ap (λ (x : Bucket). x.key) (replicate_at n i e) in cc

occupied-replicate : (n : ℕ) → occupied (replicate n vacant) ≡ 0
occupied-replicate zero = refl
occupied-replicate (suc n) = omega (arith, occupied-replicate n)

pub fresh-distinct : (words : List CString) → fresh (λ q. none) words ≡ distinct words
fresh-distinct [] = refl
fresh-distinct (w ∷ words) = ground (arith, fresh-distinct words)

pub new_table-Models :
    (Known : CString → Type 0) (size : ℕ)
    → 0 < size
    → size < 2 ^ 32
    → Models Known
        (record { size = size; cap = 0; values = replicate size vacant; collision = size })
        (λ q. none)
new_table-Models Known size some_room small = record {
  sized = record { some_room = some_room; small = small; width = length-replicate size vacant };
  whole = refl;
  counted = sym (occupied-replicate size);
  known = λ i b k at has. absurd (keyless size i at has);
  unique = λ i j a b k at at' has has'. absurd (keyless size i at has);
  reads = λ i b k at has. absurd (keyless size i at has);
  stored = λ q v e. absurd (let e' = e in cc);
}

-- In a new table with at least as many buckets as there are different words, none of them a proper
-- prefix of another, the loop of `main` counts all of the words, and `iterate` then calls its callback
-- for each word once, with the number of times that it occurs, and for nothing else.
pub count_words-counts :
    (memory : ℕ → Bool × Bool) (size : ℕ) (words : List CString)
    → ((n : ℕ) → memory n ≡ (true, true))
    → 0 < size
    → size < 2 ^ 32
    → Apart (λ w. 0 < times w words)
    → length words < uint32_max
    → distinct words ≤ size
    → (t : HTable) × (t' : HTable) × (new_table true true size size ≡ some (some t))
      × (count_words memory 0 t words ≡ some (true, t'))
      × ((q : CString)
          → counts_of q (iterate t'.values)
            ≡ (if times q words == 0 then [] else times q words ∷ []))
unfolding new_table
count_words-counts memory size words enough some_room small apart few fits =
    let (t', run, m, _, _) =
      count_words-Models apart memory 0 enough words (new_table-Models _ size some_room small)
        (λ w h. h) few (λ q v e. cc) (omega (arith, fits, fresh-distinct words)) in
    (_, t', refl, run, λ q. iterate-Models m q ∙ shown (times q words))
  where
    shown : (n : ℕ) → to_list (add none n) ≡ (if n == 0 then [] else n ∷ [])
    shown zero = refl
    shown (suc n) = ground arith
