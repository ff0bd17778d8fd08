-- ===== src/WordCount/Checks.antt =====
-- The word counter of hw3 on small tables.
use otus_c.Prelude.{
  ◌<◌, ◌≡◌, ◌⊎◌, inl, inr, refl, sym, ◌∙◌, true, false, List, [], ◌∷◌, none, some, arith,
  get_elem?-lt, ◌==◌, if◌then◌else◌, Bool-cases,
}
use otus_c.Prelude.Bytes.{CString, same, same_iff, starts}
use otus_c.WordCount.{HTable, new_table, count_words, iterate, get, grow_bucket_size, hash_from}
use otus_c.WordCount.Probe.{IsSized}
use otus_c.WordCount.Table.{Apart}
use otus_c.WordCount.Counts.{times}
use otus_c.WordCount.Listing.{counts_of, count_words-counts}
use otus_c.WordCount.Rehash.{Lacks}
use otus_c.WordCount.Growth.{grow_bucket_size-loses, grow_bucket_size-no_memory}

abbrev word_a : CString
word_a = b'a' ∷ []

abbrev word_e : CString
word_e = b'e' ∷ []

abbrev text : List CString
text = word_a ∷ word_e ∷ word_a ∷ []

in_text : (x : CString) → 0 < times x text → (x ≡ word_a) ⊎ (x ≡ word_e)
in_text x h = elim (Bool-cases (same word_a x)) [
  | inl e ↦ inl (sym ((same_iff word_a x).0 e))
  | inr n ↦ elim (Bool-cases (same word_e x)) [
    | inl e ↦ inr (sym ((same_iff word_e x).0 e))
    | inr n' ↦ absurd (ground arith)
  ]
]

pub text_apart : Apart (λ w. 0 < times w text)
text_apart x y hx hy h = go (in_text x hx) (in_text y hy)
  where
    go : (x ≡ word_a) ⊎ (x ≡ word_e) → (y ≡ word_a) ⊎ (y ≡ word_e) → x ≡ y
    go (inl p) (inl q) = p ∙ sym q
    go (inr p) (inr q) = p ∙ sym q
    go (inl p) (inr q) = absurd (let e = sym (λ i. starts (p i) (q i)) ∙ h in cc)
    go (inr p) (inl q) = absurd (let e = sym (λ i. starts (p i) (q i)) ∙ h in cc)

-- The table of `main` has ten buckets.
count_words-counts_test :
    (t : HTable) × (t' : HTable) × (new_table true true 10 10 ≡ some (some t))
    × (count_words (λ n. (true, true)) 0 t text ≡ some (true, t'))
    × ((q : CString)
        → counts_of q (iterate t'.values) ≡ (if times q text == 0 then [] else times q text ∷ []))
count_words-counts_test =
    count_words-counts (λ n. (true, true)) 10 text (λ n. refl) (omega arith) (omega arith)
      text_apart (omega arith) (omega arith)

abbrev full_table : HTable
full_table = record {
  size = 2;
  cap = 2;
  values = record { key = some word_e; v = 1 } ∷ record { key = some word_a; v = 2 } ∷ [];
  collision = 2;
}

full_table-IsSized : IsSized full_table
full_table-IsSized = record { some_room = omega arith; small = omega arith; width = refl }

grow_bucket_size-loses_example :
    (t' : HTable) × (grow_bucket_size true full_table ≡ some (true, t'))
    × (t'.size ≡ 4)
    × (t'.cap ≡ 2)
    × Lacks word_e t'.values
unfolding hash_from
grow_bucket_size-loses_example =
    grow_bucket_size-loses full_table word_e word_a (record { key = some word_a; v = 2 })
      (record { key = some word_e; v = 1 } ∷ []) [] full_table-IsSized refl refl
      (λ e. absurd (let e' : false ≡ true = λ i. same (e i) word_e in cc)) refl
      (λ i b at has. absurd (omega (arith, get_elem?-lt [] i at)))

grow_bucket_size-no_memory_example :
    (t' : HTable) × (grow_bucket_size false full_table ≡ some (false, t'))
    × (t'.values ≡ full_table.values)
    × (get t' (b'b' ∷ []) ≡ none)
unfolding hash_from
grow_bucket_size-no_memory_example =
    grow_bucket_size-no_memory full_table (b'b' ∷ []) full_table-IsSized (omega arith) (omega arith)
