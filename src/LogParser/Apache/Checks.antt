-- ===== src/LogParser/Apache/Checks.antt =====
-- A line and a short file for the parser of hw12.
use otus_c.Prelude.{
  ℕ, ◌≡◌, ◌≢◌, inr, refl, true, List, [], ◌∷◌, ◌++◌, Option, none, some, arith, replicate,
}
use otus_c.Prelude.Bytes.{CString}
use otus_c.LogParser.HashTable.{chain, Table, create_hash_t, hash_t_inc}
use otus_c.LogParser.HashTable.Outcome.{ok, fault, ◌>>=◌}
use otus_c.LogParser.HashTable.Effect.{IsValid, view}
use otus_c.LogParser.HashTable.Lookup.{create-IsValid}
use otus_c.LogParser.Apache.{Tables, process_file, parse_apache_log}
use otus_c.LogParser.Apache.Decimal.{decimal}
use otus_c.LogParser.Apache.Line.{
  LogLine, print_line, IsLine, counted_referer, inc_referer, parse-print,
}
use otus_c.LogParser.Apache.Counts.{inc_all, deltas, added}
use otus_c.LogParser.Apache.Interleaving.{nil, left, right, inc_all-Interleave}
use otus_c.LogParser.Apache.Files.{IsText, file_of, refer_incs, uri_incs}
use otus_c.LogParser.Apache.Totals.{process_file-totals, process_file-ends}
use otus_c.LogParser.Apache.Malformed.{parse-malformed}

-- 1.2 - "GET /a H" 200 1024 "http" "x"
abbrev pub one_line : LogLine
one_line = record {
  ip = b'1' ∷ b'.' ∷ b'2' ∷ [];
  middle = b'-' ∷ b' ' ∷ [];
  method = b'G' ∷ b'E' ∷ b'T' ∷ [];
  uri = b'/' ∷ b'a' ∷ [];
  protocol = b'H' ∷ [];
  status = b'2' ∷ b'0' ∷ b'0' ∷ [];
  size = 1024;
  referer = b'h' ∷ b't' ∷ b't' ∷ b'p' ∷ [];
  rest = b' ' ∷ b'"' ∷ b'x' ∷ b'"' ∷ [];
}

one_line-IsLine : IsLine one_line
one_line-IsLine = record {
  ip = omega arith;
  middle = omega arith;
  method = (λ e. cc, omega arith, omega arith);
  uri = (λ e. cc, omega arith, omega arith);
  protocol = omega arith;
  status = omega arith;
  size = omega arith;
  referer = omega arith;
}

abbrev new_tables : Tables
new_tables = record {
  refer = create_hash_t 100 (replicate 100 (chain []));
  uri = create_hash_t 100 (replicate 100 (chain []));
}

parse-print_example : parse_apache_log true true new_tables (print_line one_line) ≡ (
    inc_referer true new_tables.refer (counted_referer one_line) >>= λ refer.
    hash_t_inc true new_tables.uri one_line.uri one_line.size >>= λ uri.
    ok (one_line.size, record { refer = refer; uri = uri }))
parse-print_example = parse-print true true new_tables one_line one_line-IsLine

line_without_space : parse_apache_log true true new_tables (b'\n' ∷ []) ≡ fault
line_without_space = parse-malformed true true new_tables (b'\n' ∷ []) (inr (omega arith))

pub one_line-IsText : IsText one_line
unfolding print_line decimal
one_line-IsText = record {
  parts = one_line-IsLine;
  one_line = omega arith;
  no_zero = omega arith;
  fits = omega arith;
}

abbrev open_logs : CString → Option (List ℕ)
open_logs path = some (file_of (one_line ∷ one_line ∷ []))

new_table-IsValid : IsValid (create_hash_t 100 (replicate 100 (chain [])))
new_table-IsValid = (create-IsValid 100 (omega arith) (omega arith)).0

process_file-totals_example :
    (t' : Tables) × (process_file open_logs (λ n. (true, true)) 3 new_tables 7 (some (b'f' ∷ []))
      ≡ some (ok (2055, t')))
    × IsValid t'.refer
    × IsValid t'.uri
    × ((q : CString)
        → view t'.refer q
          ≡ added (view new_tables.refer q) (deltas q (refer_incs (one_line ∷ one_line ∷ []))))
    × ((q : CString)
        → view t'.uri q
          ≡ added (view new_tables.uri q) (deltas q (uri_incs (one_line ∷ one_line ∷ []))))
unfolding create_hash_t
process_file-totals_example =
    process_file-totals open_logs (λ n. (true, true)) 3 new_tables 7 (b'f' ∷ [])
      (one_line ∷ one_line ∷ []) refl (λ n. refl) (omega arith)
      (one_line-IsText, (one_line-IsText, tt)) new_table-IsValid new_table-IsValid (omega arith)
      (omega arith)

process_file-ends_test :
    process_file
      (λ path. some (b'x' ∷ b'\n' ∷ []))
      (λ n. (true, true))
      3
      new_tables
      7
      (some (b'f' ∷ []))
    ≢ none
process_file-ends_test =
    process_file-ends (λ path. some (b'x' ∷ b'\n' ∷ [])) (λ n. (true, true)) 3 new_tables 7
      (b'f' ∷ []) (b'x' ∷ b'\n' ∷ []) refl (omega arith)

abbrev some_incs : List (CString × ℕ)
some_incs = (b'a' ∷ [], 3) ∷ (b'b' ∷ [], 5) ∷ []

abbrev more_incs : List (CString × ℕ)
more_incs = (b'a' ∷ [], 11) ∷ []

inc_all-Interleave_test :
    (t' : Table) × (t'' : Table) × (inc_all new_tables.uri
        ((b'a' ∷ [], 3) ∷ (b'a' ∷ [], 11) ∷ (b'b' ∷ [], 5) ∷ [])
      ≡ ok t')
    × (inc_all new_tables.uri (some_incs ++ more_incs) ≡ ok t'')
    × ((q : CString) → view t' q ≡ view t'' q)
unfolding create_hash_t
inc_all-Interleave_test =
    inc_all-Interleave (new_tables.uri) some_incs more_incs _ new_table-IsValid (omega arith)
      (omega arith) (omega arith) (left (right (left nil)))
