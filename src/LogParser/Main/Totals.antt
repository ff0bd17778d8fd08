-- ===== src/LogParser/Main/Totals.antt =====
-- What the tasks of hw12 leave in the tables and in the total, one executed after the other.
use mathlib.Core.List.{append_assoc, append-nil}
use otus_c.Prelude.{
  ℕ, ◌+◌, ◌^◌, ◌<◌, ◌≡◌, refl, sym, ◌∙◌, ap, Bool, true, List, [], ◌∷◌, ◌++◌, Option, some, arith,
  length, length-append, Bool-cases, inl, inr,
}
use otus_c.Prelude.Words.{u64}
use otus_c.Prelude.Bytes.{CString, same}
use otus_c.LogParser.CirBuffer.{Task}
use otus_c.LogParser.HashTable.Outcome.{ok}
use otus_c.LogParser.HashTable.Effect.{IsValid, view}
use otus_c.LogParser.Apache.{Tables}
use otus_c.LogParser.Apache.Line.{counted_referer, LogLine}
use otus_c.LogParser.Apache.Counts.{deltas, sum, added}
use otus_c.LogParser.Apache.Files.{AllText, file_of, refer_incs, uri_incs, sizes, ref_inc}
use otus_c.LogParser.Apache.Totals.{process_file-incs}
use otus_c.LogParser.Main.{run_tasks}

pub sum-append : (xs ys : List ℕ) → sum (xs ++ ys) ≡ sum xs + sum ys
sum-append [] ys = omega arith
sum-append (x ∷ xs) ys = omega (arith, sum-append xs ys)

pub deltas-append :
    (q : CString) (xs ys : List (CString × ℕ)) → deltas q (xs ++ ys) ≡ deltas q xs ++ deltas q ys
deltas-append q [] ys = refl
deltas-append q ((key, delta) ∷ xs) ys = elim (Bool-cases (same key q)) [
  | inl e ↦ rw (e, deltas-append q xs ys) refl
  | inr e ↦ rw (e, deltas-append q xs ys) refl
]

added-append : (o : Option ℕ) (ds es : List ℕ) → added (added o ds) es ≡ added o (ds ++ es)
added-append o [] es = refl
added-append o (d ∷ ds) [] = ap (added o) (ap (λ l. d ∷ l) (sym (append-nil ds)))
added-append o (d ∷ ds) (e ∷ es) = ap some (omega (arith, sum-append ds (e ∷ es)))

module _ (lines_of : Task → List LogLine) where
  -- The file of each task holds its lines, which are in the format and fewer than `fuel`.
  abbrev pub Readable : (CString → Option (List ℕ)) → ℕ → Task → Type 0
  Readable open_read fuel task =
      (open_read task.arg ≡ some (file_of (lines_of task)))
      × AllText (lines_of task)
      × (length (lines_of task) < fuel)

  abbrev pub AllReadable : (CString → Option (List ℕ)) → ℕ → List Task → Type 0
  AllReadable open_read fuel [] = Unit {0}
  AllReadable open_read fuel (task ∷ tasks) =
      Readable open_read fuel task × AllReadable open_read fuel tasks

  -- The lines of all the tasks
  abbrev pub all_lines : List Task → List LogLine
  all_lines [] = []
  all_lines (task ∷ tasks) = lines_of task ++ all_lines tasks

pub uri_incs-append : (xs ys : List LogLine) → uri_incs (xs ++ ys) ≡ uri_incs xs ++ uri_incs ys
uri_incs-append [] ys = refl
uri_incs-append (l ∷ xs) ys = ap (λ r. (l.uri, l.size) ∷ r) (uri_incs-append xs ys)

pub refer_incs-append :
    (xs ys : List LogLine) → refer_incs (xs ++ ys) ≡ refer_incs xs ++ refer_incs ys
refer_incs-append [] ys = refl
refer_incs-append (l ∷ xs) ys =
    ap (λ r. ref_inc (counted_referer l) ++ r) (refer_incs-append xs ys)
    ∙ sym (append_assoc (ref_inc (counted_referer l)) (refer_incs xs) (refer_incs ys))

pub sizes-append : (xs ys : List LogLine) → sizes (xs ++ ys) ≡ sizes xs ++ sizes ys
sizes-append [] ys = refl
sizes-append (l ∷ xs) ys = ap (λ r. l.size ∷ r) (sizes-append xs ys)

module _ (lines_of : Task → List LogLine) (open_read : CString → Option (List ℕ))
    (memory : ℕ → Bool × Bool) (enough : (n : ℕ) → memory n ≡ (true, true)) (fuel : ℕ) where
  -- The tables and the total after the tasks
  pub record Counted (t : Tables) (bytes : ℕ) (tasks : List Task) : Type 0 where
    pub tables : Tables
    pub returns :
        run_tasks open_read memory fuel t bytes tasks
        ≡ some (ok (u64 (bytes + sum (sizes (all_lines lines_of tasks))), tables))
    pub refer_valid : IsValid tables.refer
    pub uri_valid : IsValid tables.uri
    pub refers :
        (q : CString)
        → view tables.refer q
          ≡ added (view t.refer q) (deltas q (refer_incs (all_lines lines_of tasks)))
    pub uris :
        (q : CString)
        → view tables.uri q ≡ added (view t.uri q) (deltas q (uri_incs (all_lines lines_of tasks)))

  pub run_tasks-Counted :
      (t : Tables) (bytes : ℕ) (tasks : List Task)
      → AllReadable lines_of open_read fuel tasks
      → IsValid t.refer
      → IsValid t.uri
      → bytes < 2 ^ 64
      → t.refer.size + length (all_lines lines_of tasks) < 2 ^ 64
      → t.uri.size + length (all_lines lines_of tasks) < 2 ^ 64
      → Counted t bytes tasks
  unfolding run_tasks
  run_tasks-Counted t bytes [] ready vr vu small room_r room_u = record {
    tables = t;
    returns = ap (λ b. some (ok (b, t))) (omega (arith, small));
    refer_valid = vr;
    uri_valid = vu;
    refers = λ q. refl;
    uris = λ q. refl;
  }
  run_tasks-Counted t bytes (task ∷ tasks) ready vr vu small room_r room_u =
      let ls : List LogLine = lines_of task in
      let more : List LogLine = all_lines lines_of tasks in
      let number = length-append ls more in
      let (t1, run, valid_r, valid_u, size_r, size_u, reads_r, reads_u) =
        process_file-incs open_read memory fuel t bytes task.arg ls ready.0.0 enough ready.0.2
          ready.0.1 vr vu (omega (arith, number, room_r)) (omega (arith, number, room_u)) in
      let bytes1 : ℕ = u64 (bytes + sum (sizes ls)) in
      let rest =
        run_tasks-Counted t1 bytes1 tasks ready.1 valid_r valid_u (omega arith)
          (omega (arith, number, room_r, size_r)) (omega (arith, number, room_u, size_u)) in
      let total : u64 (bytes1 + sum (sizes more)) ≡ u64 (bytes + sum (sizes (ls ++ more))) =
        omega (arith, ap sum (sizes-append ls more), sum-append (sizes ls) (sizes more)) in
      record {
        tables = rest.tables;
        returns = rw run (rest.returns ∙ ap (λ b. some (ok (b, rest.tables))) total);
        refer_valid = rest.refer_valid;
        uri_valid = rest.uri_valid;
        refers = λ q.
            rest.refers q
            ∙ ap (λ o. added o (deltas q (refer_incs more))) (reads_r q)
            ∙ added-append (view t.refer q) (deltas q (refer_incs ls)) (deltas q (refer_incs more))
            ∙ ap (added (view t.refer q)) (
                sym (
                  ap (deltas q) (refer_incs-append ls more)
                  ∙ deltas-append q (refer_incs ls) (refer_incs more)));
        uris = λ q.
            rest.uris q
            ∙ ap (λ o. added o (deltas q (uri_incs more))) (reads_u q)
            ∙ added-append (view t.uri q) (deltas q (uri_incs ls)) (deltas q (uri_incs more))
            ∙ ap (added (view t.uri q)) (
                sym (
                  ap (deltas q) (uri_incs-append ls more)
                  ∙ deltas-append q (uri_incs ls) (uri_incs more)));
      }
