-- ===== src/LogParser/Apache/Files.antt =====
-- `process_file` of hw12 on a file of lines in the format.
use otus_c.Prelude.{
  ℕ, zero, suc, ◌+◌, ◌-◌, ◌^◌, ◌<◌, ◌≡◌, refl, ap, ◌∙◌, Bool, true, false, List, [], ◌∷◌, ◌++◌,
  Option, none, some, arith, length, ◌==◌,
}
use otus_c.Prelude.Words.{u64}
use otus_c.Prelude.Bytes.{CString}
use otus_c.LogParser.HashTable.{Table}
use otus_c.LogParser.HashTable.Outcome.{ok}
use otus_c.LogParser.Apache.{
  Tables, max_len, take_line, c_string, fgets, read_lines, parse_apache_log,
}
use otus_c.LogParser.Apache.Search.{Without, Without-append}
use otus_c.LogParser.Apache.Line.{
  LogLine, print_line, IsLine, text_of, counted_referer, inc_referer, parse-text,
}
use otus_c.LogParser.Apache.Counts.{inc_all, sum, inc_all-cons, inc_all-nil}

take_line-append :
    (n : ℕ) (xs rest : List ℕ)
    → Without b'\n' xs
    → length xs < n
    → take_line n (xs ++ (b'\n' ∷ rest)) ≡ (xs ++ (b'\n' ∷ []), rest)
unfolding take_line
take_line-append zero xs rest h low = absurd (omega arith)
take_line-append (suc n) [] rest h low = refl
take_line-append (suc n) (x ∷ xs) rest h low =
    let other : (x == b'\n') ≡ false = ground (arith, h.0) in
    rw (take_line-append n xs rest h.1 (omega arith), other) refl

c_string-Without : (line : List ℕ) → Without 0 line → c_string line ≡ line
unfolding c_string
c_string-Without [] h = refl
c_string-Without (x ∷ line) h =
    let other : (x == 0) ≡ false = ground (arith, h.0) in rw (other, c_string-Without line h.1) refl

-- A line in the format that fits into the buffer, of bytes that are neither newline nor zero
pub record IsText (l : LogLine) : Type 0 where
  pub parts : IsLine l
  pub one_line : Without b'\n' (print_line l)
  pub no_zero : Without 0 (print_line l)
  pub fits : length (print_line l) < max_len - 1

abbrev pub AllText : List LogLine → Type 0
AllText [] = Unit {0}
AllText (l ∷ ls) = IsText l × AllText ls

abbrev pub file_of : List LogLine → List ℕ
file_of [] = []
file_of (l ∷ ls) = print_line l ++ (b'\n' ∷ file_of ls)

fgets-append :
    (size : ℕ) (xs rest : List ℕ)
    → Without b'\n' xs
    → Without 0 xs
    → length xs < size - 1
    → fgets size (xs ++ (b'\n' ∷ rest)) ≡ some (xs ++ (b'\n' ∷ []), rest)
unfolding fgets c_string
fgets-append size [] rest h z low = rw (take_line-append (size - 1) [] rest h low) refl
fgets-append size (x ∷ xs) rest h z low =
    let other : (x == 0) ≡ false = ground (arith, z.0) in
    let whole =
      c_string-Without (xs ++ (b'\n' ∷ []))
        (Without-append 0 xs (b'\n' ∷ []) z.1 (λ e. absurd (omega (arith, e)), tt)) in
    rw (take_line-append (size - 1) (x ∷ xs) rest h low, other, whole) refl

abbrev pub ref_inc : Option CString → List (CString × ℕ)
ref_inc none = []
ref_inc (some ref) = (ref, 1) ∷ []

-- The increments of the table of referers and of that of URIs, and the sizes, for the lines of a file
abbrev pub refer_incs : List LogLine → List (CString × ℕ)
refer_incs [] = []
refer_incs (l ∷ ls) = ref_inc (counted_referer l) ++ refer_incs ls

abbrev pub uri_incs : List LogLine → List (CString × ℕ)
uri_incs [] = []
uri_incs (l ∷ ls) = (l.uri, l.size) ∷ uri_incs ls

abbrev pub sizes : List LogLine → List ℕ
sizes [] = []
sizes (l ∷ ls) = l.size ∷ sizes ls

first_ref :
    (o : Option CString) (t r : Table) (incs : List (CString × ℕ))
    → inc_all t (ref_inc o ++ incs) ≡ ok r
    → (t' : Table) × (inc_referer true t o ≡ ok t') × (inc_all t' incs ≡ ok r)
first_ref none t r incs e = (t, refl, e)
first_ref (some ref) t r incs e = inc_all-cons ref 1 t r incs e

fgets_end : (size : ℕ) → fgets size [] ≡ none
unfolding fgets
fgets_end size = refl

module _ (memory : ℕ → Bool × Bool) (enough : (n : ℕ) → memory n ≡ (true, true)) where
  -- The loop over a file of lines makes their increments and adds up their sizes.
  pub read_lines-incs :
      (ls : List LogLine) (fuel n : ℕ) (t : Tables) (current_bytes : ℕ) (r u : Table)
      → AllText ls
      → length ls < fuel
      → current_bytes < 2 ^ 64
      → inc_all t.refer (refer_incs ls) ≡ ok r
      → inc_all t.uri (uri_incs ls) ≡ ok u
      → read_lines memory fuel n t current_bytes (file_of ls)
        ≡ some (ok (u64 (current_bytes + sum (sizes ls)), record { refer = r; uri = u }))
  unfolding read_lines
  read_lines-incs ls zero n t b r u h low small er eu = absurd (omega arith)
  read_lines-incs [] (suc fuel) n t b r u h low small er eu =
      rw (fgets_end max_len, read_lines)
        (λ i. some (
          ok (
            below i,
            record { refer = inc_all-nil t.refer r er i; uri = inc_all-nil t.uri u eu i },
          )))
    where
      below : b ≡ u64 (b + 0)
      below = omega (arith, small)
  read_lines-incs (l ∷ ls) (suc fuel) n t b r u h low small er eu =
      let (t1, run1, rest1) = first_ref (counted_referer l) (t.refer) r (refer_incs ls) er in
      let (t2, run2, rest2) = inc_all-cons (l.uri) (l.size) (t.uri) u (uri_incs ls) eu in
      let line =
        fgets-append max_len (print_line l) (file_of ls) h.0.one_line h.0.no_zero h.0.fits in
      let counted : parse_apache_log true true t (text_of l)
          ≡ ok (l.size, record { refer = t1; uri = t2 }) =
        parse-text t l h.0.parts ∙ rw (run1, run2) refl in
      let total : u64 (u64 (b + l.size) + sum (sizes ls)) ≡ u64 (b + (l.size + sum (sizes ls))) =
        omega arith in
      rw (line, read_lines)
        (rw (enough n, counted)
          (read_lines-incs ls fuel (n + 1) (record { refer = t1; uri = t2 }) (u64 (b + l.size)) r u
              h.1 (omega (arith, low)) (omega arith) rest1 rest2
            ∙ ap (λ k. some (ok (k, record { refer = r; uri = u }))) total))
