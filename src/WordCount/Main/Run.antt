-- ===== src/WordCount/Main/Run.antt =====
-- `main` of hw3 from the command line to the listing.
use otus_c.Prelude.{
  sym, zero, inl, false, leb, ◌^◌, Bool-cases, ℕ, suc, ◌<◌, ◌≤◌, ◌≡◌, refl, ap, ◌∙◌, inr, true,
  List, [], ◌∷◌, ◌++◌, map, Option, none, some, if◌then◌else◌, length, arith, ◌==◌,
}
use otus_c.Prelude.Bytes.{CString, same, same_iff}
use otus_c.WordCount.{iterate}
use otus_c.WordCount.Table.{Apart}
use otus_c.WordCount.Counts.{times, distinct}
use otus_c.WordCount.Listing.{counts_of, count_words-counts}
use otus_c.WordCount.Main.{
  Line, print_callback, Opt, input, counted, status, read_options, File, text, Memory, open_input,
  count_file, count_text, main,
}
use otus_c.WordCount.Main.Words.{split, tokens-eq-split}

-- The paths of "-i", the last one apart
abbrev pub inputs : List CString → CString → List Opt
inputs paths pin = map input paths ++ (input pin ∷ [])

pub read_options-inputs :
    (first : Option CString) (paths : List CString) (pin : CString)
    → read_options first (inputs paths pin) ≡ inr (some pin)
unfolding read_options
read_options-inputs first [] pin = refl
read_options-inputs first (path ∷ paths) pin = read_options-inputs (some path) paths pin

-- The lines of the listing with a key
abbrev pub lines_of : CString → List Line → List Line
lines_of q [] = []
lines_of q (l ∷ lines) = let rest = lines_of q lines in if same q l.key then l ∷ rest else rest

lines_of-printed :
    (q : CString) (calls : List (CString × ℕ))
    → lines_of q (map print_callback calls) ≡ map (λ v. print_callback (q, v)) (counts_of q calls)
lines_of-printed q [] = refl
lines_of-printed q ((k, v) ∷ calls) = elim (Bool-cases (same q k)) [
  | inr other ↦ rw other (lines_of-printed q calls)
  | inl hit ↦
      (let key : k ≡ q = sym ((same_iff q k).0 hit) in
        rw hit (
          ap (λ x. print_callback (x, v) ∷ lines_of q (map print_callback calls)) key
          ∙ ap (print_callback (q, v) ∷◌) (lines_of-printed q calls)))
]

times-le-length : (q : CString) (words : List CString) → times q words ≤ length words
times-le-length q [] = omega arith
times-le-length q (w ∷ words) = ground (arith, times-le-length q words)

-- Given one or more "-i", the last of which names a file that can be opened, and memory, `main` ends with
-- status 0 and lists each word of the file's text, up to its first zero byte, once, with the number of
-- times that it occurs, without a sign, and nothing else; where the text has at most ten different words,
-- none of them a proper prefix of another, and fewer than `2 ^ 31` in all. A word is a longest part
-- without a space, comma, dot, newline or tab.
pub main-counts :
    (memory : Memory) (fopen : CString → Option File) (paths : List CString) (pin : CString)
    (f : File)
    → memory.for_buffer ≡ true
    → memory.for_table ≡ true
    → memory.for_values ≡ true
    → ((n : ℕ) → memory.for_words n ≡ (true, true))
    → fopen pin ≡ some f
    → Apart (λ w. 0 < times w (split (text f)))
    → length (split (text f)) < 2 ^ 31
    → distinct (split (text f)) ≤ 10
    → (listing : List Line) × (main memory fopen (inputs paths pin) ≡ some (counted listing))
      × (status (counted listing) ≡ 0)
      × ((q : CString)
          → lines_of q listing ≡ (
              if times q (split (text f)) == 0
              then []
              else record { key = q; minus = false; digits = times q (split (text f)) } ∷ []))
unfolding main open_input count_file count_text status
main-counts memory fopen paths pin f buffer table values enough opened apart few fits =
    let (t, t', made, run, listed) =
      count_words-counts memory.for_words 10 (split (text f)) enough (omega arith) (omega arith)
        apart (omega (arith, few)) fits in
    let words = tokens-eq-split (suc (length (text f))) (text f) (omega arith) in
    (
      map print_callback (iterate t'.values),
      ap (open_input memory fopen) (read_options-inputs none paths pin)
          ∙ ap (count_file memory) opened
          ∙ rw (buffer, table, values, made, words, run) refl,
      refl,
      λ q.
          lines_of-printed q (iterate t'.values)
          ∙ ap (map (λ v. print_callback (q, v))) (listed q)
          ∙ shown q (times q (split (text f)))
              (omega (arith, few, times-le-length q (split (text f)))),
    )
  where
    shown :
        (q : CString) (n : ℕ)
        → n < 2 ^ 31
        → map (λ v. print_callback (q, v)) (if n == 0 then [] else n ∷ [])
          ≡ (if n == 0 then [] else record { key = q; minus = false; digits = n } ∷ [])
    shown q zero small = refl
    shown q (suc n) small =
        let fits_int : leb (2 ^ 31) (suc n) ≡ false = ground arith in
        let some_words : (suc n == 0) ≡ false = ground arith in rw (some_words, fits_int) refl
