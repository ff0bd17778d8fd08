-- ===== src/LogParser/Main/Output.antt =====
-- What `main` of hw12 prints behind `stop_pool`.
use otus_c.Prelude.{ℕ, ◌/◌, ◌^◌, ◌≤◌, ◌≡◌, refl, List, length, arith}
use otus_c.Prelude.Bytes.{CString}
use otus_c.LogParser.HashTable.{Entry, print_top}
use otus_c.LogParser.HashTable.Outcome.{Run, ok, ◌>>=◌}
use otus_c.LogParser.HashTable.Effect.{IsValid}
use otus_c.LogParser.HashTable.Top.{print_top-returns}
use otus_c.LogParser.HashTable.Release.{Freed, hash_t_free, hash_t_free-Frees}
use otus_c.LogParser.Apache.{Tables}

-- What `main` prints and frees at its end
pub record Report : Type 0 where
  pub top_refer : List CString
  pub top_uri : List CString
  pub freed_refer : List Freed
  pub freed_uri : List Freed
  pub max_size : ℕ

-- `main` behind `stop_pool`, where `qsort` is that of the C library
pub finish : ((Entry → Entry → ℕ) → List Entry → List Entry) → ℕ → Tables → Run Report
finish qsort bytes t = do
  top_refer ← print_top qsort t.refer 10
  top_uri ← print_top qsort t.uri 10
  freed_refer ← hash_t_free t.refer
  freed_uri ← hash_t_free t.uri
  ok (record {
    top_refer = top_refer;
    top_uri = top_uri;
    freed_refer = freed_refer;
    freed_uri = freed_uri;
    max_size = bytes / 1024 / 1024 / 1024;
  })

-- The report on two valid tables
pub record Reports (qsort : (Entry → Entry → ℕ) → List Entry → List Entry) (bytes : ℕ) (t : Tables)
    : Type 0 where
  pub out : Report
  pub returns : finish qsort bytes t ≡ ok out
  pub few_refer : length out.top_refer ≤ 10
  pub few_uri : length out.top_uri ≤ 10
  pub gigabytes : out.max_size ≡ bytes / 2 ^ 30

pub finish-Reports :
    (qsort : (Entry → Entry → ℕ) → List Entry → List Entry) (bytes : ℕ) (t : Tables)
    → IsValid t.refer
    → IsValid t.uri
    → Reports qsort bytes t
unfolding finish
finish-Reports qsort bytes t vr vu =
    let (refer, run_refer, few_refer) = print_top-returns qsort t.refer 10 vr in
    let (uri, run_uri, few_uri) = print_top-returns qsort t.uri 10 vu in
    let (freed_refer, _, free_refer, _, _) = hash_t_free-Frees vr in
    let (freed_uri, _, free_uri, _, _) = hash_t_free-Frees vu in
    record {
      out = record {
        top_refer = refer;
        top_uri = uri;
        freed_refer = freed_refer;
        freed_uri = freed_uri;
        max_size = bytes / 1024 / 1024 / 1024;
      };
      returns = rw (run_refer, run_uri, free_refer, free_uri) refl;
      few_refer = few_refer;
      few_uri = few_uri;
      gigabytes = omega arith;
    }
