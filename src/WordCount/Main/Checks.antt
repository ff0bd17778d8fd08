-- ===== src/WordCount/Main/Checks.antt =====
-- `main` of hw3 on small files.
use otus_c.Prelude.{
  ap, ◌<◌, ◌≡◌, refl, true, false, List, [], ◌∷◌, Option, some, if◌then◌else◌, arith, ◌==◌,
}
use otus_c.Prelude.Bytes.{CString}
use otus_c.WordCount.Table.{Apart}
use otus_c.WordCount.Counts.{times}
use otus_c.WordCount.Checks.{text_apart}
use otus_c.WordCount.Main.{Line, File, Memory, counted, could_not_add, status, main}
use otus_c.WordCount.Main.Words.{split, separates}
use otus_c.WordCount.Main.Stop.{main-stops}
use otus_c.WordCount.Main.Run.{lines_of, inputs, main-counts}

-- " a,e.a" and a byte behind the size
abbrev small_file : File
small_file = record { size = 6; bytes = b' ' ∷ b'a' ∷ b',' ∷ b'e' ∷ b'.' ∷ b'a' ∷ b'x' ∷ [] }

abbrev enough : Memory
enough = record {
  for_buffer = true;
  for_table = true;
  for_values = true;
  for_words = λ n. (true, true);
}

-- The second word finds no memory for its key.
abbrev short : Memory
short = record enough { for_words = λ n. (true, n == 0) }

abbrev opens : CString → Option File
opens path = some small_file

abbrev small_text : CString
small_text = b' ' ∷ b'a' ∷ b',' ∷ b'e' ∷ b'.' ∷ b'a' ∷ []

abbrev word_a : CString
word_a = b'a' ∷ []

abbrev word_e : CString
word_e = b'e' ∷ []

abbrev text_words : List CString
text_words = word_a ∷ word_e ∷ word_a ∷ []

main-counts_example :
    (listing : List Line) × (main enough opens (inputs ((b'x' ∷ []) ∷ []) (b'y' ∷ []))
      ≡ some (counted listing))
    × (status (counted listing) ≡ 0)
    × ((q : CString)
        → lines_of q listing ≡ (
            if times q (split small_text) == 0
            then []
            else record { key = q; minus = false; digits = times q (split small_text) } ∷ []))
unfolding separates
main-counts_example =
    main-counts enough opens ((b'x' ∷ []) ∷ []) (b'y' ∷ []) small_file refl refl refl (λ n. refl)
      refl text_apart (omega arith) (omega arith)

-- After the first word, the second one is new.
first_words_Apart : Apart (λ q. 0 < times q (word_a ∷ word_e ∷ []))
first_words_Apart x y hx hy = text_apart x y (in_text_too x hx) (in_text_too y hy)
  where
    in_text_too : (q : CString) → 0 < times q (word_a ∷ word_e ∷ []) → 0 < times q text_words
    in_text_too q h = omega (arith, h)

main-stops_example :
    (main short opens (inputs [] (b'y' ∷ [])) ≡ some could_not_add) × (status could_not_add ≡ 1)
unfolding separates
main-stops_example =
    main-stops short opens [] (b'y' ∷ []) small_file (word_a ∷ []) (word_a ∷ []) word_e refl refl
      refl (λ k h. ap (λ b. (true, b)) (ground (arith, h))) refl refl refl refl first_words_Apart
      (omega arith) (omega arith)
