-- ===== src/WordCount/Main/Stop.antt =====
-- `main` of hw3 at a new word for whose key there is no memory.
use otus_c.Prelude.{
  ℕ, zero, suc, ◌+◌, ◌%◌, ◌<◌, ◌≡◌, ◌∙◌, refl, ap, inl, inr, Bool, true, false, Option, none, some,
  List, [], ◌∷◌, ◌++◌, length, arith, Bool-cases, ltb, if◌then◌else◌, ◌>>=◌, replicate,
}
use otus_c.Prelude.Bytes.{CString, same, same_refl}
use otus_c.WordCount.{
  HTable, vacant, uint32_max, is_vacant, fill, insert_from, insert, grow_and_insert, put,
  count_word, count_words, new_table,
}
use otus_c.WordCount.Probe.{IsSized, bucket_at, next_index}
use otus_c.WordCount.Rehash.{place, hash-place}
use otus_c.WordCount.Table.{Apart, Models}
use otus_c.WordCount.Access.{get-Models}
use otus_c.WordCount.Counts.{times, distinct, count_words-Models}
use otus_c.WordCount.Listing.{new_table-Models, fresh-distinct}
use otus_c.WordCount.Main.{
  could_not_add, status, File, text, Memory, open_input, count_file, count_text, main,
}
use otus_c.WordCount.Main.Safe.{set_value-Kept, place-lt}
use otus_c.WordCount.Main.Run.{inputs, read_options-inputs}
use otus_c.WordCount.Main.Words.{split, tokens-eq-split}

-- The word is not added.
abbrev Refused : Option (Bool × HTable) → Type 0
Refused o = (t : HTable) × (o ≡ some (false, t))

insert_from-Refused :
    {t : HTable} (v : IsSized t) (rounds : ℕ) (key : CString) (value i : ℕ)
    → i < t.size
    → Refused (insert_from rounds false t key value i)
unfolding insert_from fill
insert_from-Refused {t} v zero key value i low = (t, refl)
insert_from-Refused {t} v (suc rounds) key value i low =
    let (b, at) = bucket_at v i low in
    let low' : (i + 1) % t.size < t.size = omega (arith, v.some_room) in
    let (t', run, _, _) = set_value-Kept v i value low in
    elim (Bool-cases (is_vacant b.key)) [
      | inl free ↦ (t', rw (at, free, run) refl)
      | inr taken ↦
          rw (at, taken, next_index v i low)
            (insert_from-Refused v rounds key value ((i + 1) % t.size) low')
    ]

count_word-Refused :
    {Known : CString → Type 0} (apart : Apart Known) {t : HTable} {f : CString → Option ℕ}
    (m : Models Known t f) (for_array : Bool) (w : CString)
    → Known w
    → f w ≡ none
    → t.cap < t.size
    → Refused (count_word (for_array, false) t w)
unfolding count_word put grow_and_insert insert
count_word-Refused apart {t} m for_array w known new room =
    let roomy : ltb t.size (t.cap + 1) ≡ false = ground (arith, room) in
    let got = get-Models apart m w known in
    let (t', run) =
      insert_from-Refused m.sized t.collision w 1 (place t.size w) (place-lt t w m.sized) in
    (t', rw (got, new, hash-place t w m.sized.some_room, roomy) run)

-- After a round that adds its word the loops go on as `k` and `k'`.
after :
    {k k' : HTable → Option (Bool × HTable)} {end : Option (Bool × HTable)} {t' : HTable}
    (o : Option (Bool × HTable))
    → (o >>= λ r. if r.0 then k r.1 else some (false, r.1)) ≡ some (true, t')
    → ((t : HTable) → k t ≡ some (true, t') → k' t ≡ end)
    → (o >>= λ r. if r.0 then k' r.1 else some (false, r.1)) ≡ end
after none h go = absurd cc
after (some (false, t)) h go = absurd cc
after (some (true, t)) h go = go t h

-- With memory for the first words the loop comes to the others.
count_words-append :
    (memory : ℕ → Bool × Bool) (n : ℕ) (early rest : List CString) (t t' : HTable)
    → ((k : ℕ) → k < n + length early → memory k ≡ (true, true))
    → count_words (λ k. (true, true)) n t early ≡ some (true, t')
    → count_words memory n t (early ++ rest) ≡ count_words memory (n + length early) t' rest
unfolding count_words
count_words-append memory n [] rest t t' enough run =
    let same_table : t ≡ t' = ap (λ o. elim o [ none ↦ t | some r ↦ r.1 ]) run in
    let same_number : n ≡ n + 0 = omega arith in
    ap (λ u. count_words memory n u rest) same_table
    ∙ ap (λ k. count_words memory k t' rest) same_number
count_words-append memory n (w ∷ early) rest t t' enough run =
    let number : n + 1 + length early ≡ n + suc (length early) = omega arith in
    rw (enough n (omega arith)) (
      after (count_word (true, true) t w) run (λ t1 h.
        count_words-append memory (n + 1) early rest t1 t' (λ k low. enough k (omega (arith, low)))
          h
        ∙ ap (λ k. count_words memory k t' rest) number))

next-Refused :
    (memory : ℕ → Bool × Bool) (n : ℕ) (t t' : HTable) (w : CString) (rest : List CString)
    → (memory n).1 ≡ false
    → count_word ((memory n).0, false) t w ≡ some (false, t')
    → count_words memory n t (w ∷ rest) ≡ some (false, t')
unfolding count_words
next-Refused memory n t t' w rest gone refused =
    let pair : memory n ≡ ((memory n).0, false) = (λ i. ((memory n).0, gone i)) in
    rw (pair, refused) refl

times-append :
    (q : CString) (early rest : List CString) → 0 < times q early → 0 < times q (early ++ rest)
times-append q [] rest h = absurd (omega (arith, h))
times-append q (u ∷ early) rest h = elim (Bool-cases (same u q)) [
  | inl hit ↦ rw hit (omega arith)
  | inr other ↦ ground (arith, times-append q early rest)
]

times-here : (early : List CString) (w : CString) → 0 < times w (early ++ w ∷ [])
times-here [] w = rw (same_refl w) (omega arith)
times-here (u ∷ early) w = omega (arith, times-here early w)

abbrev fresh_table : HTable
fresh_table = record { size = 10; cap = 0; values = replicate 10 vacant; collision = 10 }

-- Where the last "-i" names a file that can be opened, whose words begin with fewer than `2 ^ 32 - 1`, of
-- fewer than ten kinds, and then have one that is new, none of these a proper prefix of another: if there
-- is memory for all up to there but none for the copy of the new word, `main` says that it could
-- not be added and ends with status 1, whatever comes behind it.
pub main-stops :
    (memory : Memory) (fopen : CString → Option File) (paths : List CString) (pin : CString)
    (f : File) (early rest : List CString) (w : CString)
    → memory.for_buffer ≡ true
    → memory.for_table ≡ true
    → memory.for_values ≡ true
    → ((k : ℕ) → k < length early → memory.for_words k ≡ (true, true))
    → (memory.for_words (length early)).1 ≡ false
    → fopen pin ≡ some f
    → split (text f) ≡ early ++ w ∷ rest
    → times w early ≡ 0
    → Apart (λ q. 0 < times q (early ++ w ∷ []))
    → length early < uint32_max
    → distinct early < 10
    → (main memory fopen (inputs paths pin) ≡ some could_not_add) × (status could_not_add ≡ 1)
unfolding main open_input count_file count_text status new_table count_words
main-stops memory fopen paths pin f early rest w buffer table values enough gone opened words new
      apart few fits =
    let Known : CString → Type 0 = (λ q. 0 < times q (early ++ w ∷ [])) in
    let (t', run, m, cap, size) =
      count_words-Models apart (λ k. (true, true)) 0 (λ k. refl) early
        (new_table-Models Known 10 (omega arith) (omega arith))
        (λ q h. times-append q early (w ∷ []) h) few (λ q v e. cc)
        (omega (arith, fits, fresh-distinct early)) in
    let (t'', refused) =
      count_word-Refused apart m (memory.for_words (length early)).0 w (times-here early w)
        (rw new refl) (omega (arith, cap, size, fits, fresh-distinct early)) in
    let number : 0 + length early ≡ length early = omega arith in
    let stopped : count_words memory.for_words 0 (fresh_table) (early ++ w ∷ rest)
        ≡ some (false, t'') =
      count_words-append memory.for_words 0 early (w ∷ rest) fresh_table t'
        (λ k low. enough k (omega (arith, low))) run
      ∙ ap (λ k. count_words memory.for_words k t' (w ∷ rest)) number
      ∙ next-Refused memory.for_words (length early) t' t'' w rest gone refused in
    let taken = tokens-eq-split (suc (length (text f))) (text f) (omega arith) in
    (
      rw (read_options-inputs none paths pin, opened, buffer, table, values, taken, words, stopped)
          refl,
      refl,
    )
