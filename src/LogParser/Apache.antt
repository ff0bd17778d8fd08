-- ===== src/LogParser/Apache.antt =====
-- hw12/src/main.c: the counting of a line of an access log, and of a file of such lines. A pointer into
-- a C string is the string from there on. A search that finds nothing gives a null pointer, which
-- the code goes on to compute with: that is undefined.
pub mod Search
pub mod Decimal
pub mod Line
pub mod Counts
pub mod Interleaving
pub mod Files
pub mod Totals
pub mod Malformed
pub mod Checks
use otus_c.Prelude.{
  ℕ, zero, suc, ◌+◌, ◌-◌, ◌*◌, ◌^◌, ◌==◌, Bool, true, false, not, ◌&&◌, ◌||◌, List, [], ◌∷◌, Option,
  none, some, if◌then◌else◌, ltb, leb, length, get_or,
}
use otus_c.Prelude.Words.{u64}
use otus_c.Prelude.Bytes.{CString}
use otus_c.LogParser.HashTable.{Table, hash_t_inc}
use otus_c.LogParser.HashTable.Outcome.{Run, ok, blocked, fault, ◌>>=◌}

abbrev pub passed : ℕ → Option (CString × CString) → Option (CString × CString)
passed x none = none
passed x (some (before, at)) = some (x ∷ before, at)

-- `memchr(s, c, n)` of the C library: the bytes before the one found, and the string from it on.
pub memchr : ℕ → ℕ → CString → Option (CString × CString)
memchr c zero s = none
memchr c (suc n) [] = none
memchr c (suc n) (x ∷ s) = if x == c then some ([], x ∷ s) else passed x (memchr c n s)

-- Its use where the pointer is computed with at once.
abbrev pub found : Option (CString × CString) → Run (CString × CString)
found none = fault
found (some r) = ok r

-- `p + 1`
abbrev pub next : CString → CString
next [] = []
next (x ∷ s) = s

pub skip_spaces : CString → CString
skip_spaces [] = []
skip_spaces (x ∷ s) = if x == b' ' then skip_spaces s else x ∷ s

-- The bytes before the next space, and those after it.
pub word : CString → CString × CString
word [] = ([], [])
word (x ∷ s) = let (w, rest) = word s in if x == b' ' then ([], s) else (x ∷ w, rest)

abbrev pub token : CString → Option (CString × CString)
token [] = none
token (x ∷ s) = some (word (x ∷ s))

-- `strtok` of the C library with the delimiter " ": a token and what is left for the next call.
pub strtok : CString → Option (CString × CString)
strtok s = token (skip_spaces s)

abbrev pub first_token : Option (CString × CString) → Option CString
first_token none = none
first_token (some (w, rest)) = some w

abbrev pub second_token : Option (CString × CString) → Option CString
second_token none = none
second_token (some (w, rest)) = first_token (strtok rest)

abbrev pub is_digit : ℕ → Bool
is_digit c = leb b'0' c && leb c b'9'

abbrev pub is_space : ℕ → Bool
is_space c = c == b' ' || (leb 9 c && leb c 13)

-- The digits that `strtoull` reads, after the number read so far.
unfoldable pub read_digits : ℕ → CString → ℕ
read_digits n [] = n
read_digits n (c ∷ s) =
    let rest = read_digits (n * 10 + (c - b'0')) s in if is_digit c then rest else n

-- A number that does not fit is `ULLONG_MAX`; a sign negates in 64 bits.
abbrev pub fit : Bool → ℕ → ℕ
fit negative n = if leb (2 ^ 64) n then 2 ^ 64 - 1 else if negative then u64 (2 ^ 64 - n) else n

-- After the white space
unfoldable pub read_sign : CString → ℕ
read_sign [] = 0
read_sign (c ∷ s) =
    if c == b'-'
    then fit true (read_digits 0 s)
    else if c == b'+'
    then fit false (read_digits 0 s)
    else fit false (read_digits 0 (c ∷ s))

-- `strtoull(s, NULL, 10)` of the C library
unfoldable pub strtoull : CString → ℕ
strtoull [] = 0
strtoull (c ∷ s) = let rest = strtoull s in if is_space c then rest else read_sign (c ∷ s)

-- What `parse_apache_log` takes from a line: `uri`, `number` and `ref`.
pub record Fields : Type 0 where
  pub uri : Option CString
  pub number : ℕ
  pub ref : Option CString

-- The first part of `parse_apache_log`
pub read_fields : CString → Run Fields
read_fields log = do
  (ip, end) ← found (memchr b' ' (length log) log)
  (before, quote) ← found (memchr b'"' (length log) log)
  (request, end) ← found (memchr b'"' (length (next quote)) (next quote))
  (gap, space) ← found (memchr b' ' (length (next end)) (next end))
  (status, end) ← found (memchr b' ' (length (next space)) (next space))
  (gap, space) ← found (memchr b' ' (length (next end)) end)
  (bytes, end) ← found (memchr b'"' (length (next space)) (next space))
  (gap, quote) ← found (memchr b'"' (length (next end)) end)
  (referer, end) ← found (memchr b'"' (length (next quote)) (next quote))
  ok (record {
    uri = second_token (strtok request);
    number = strtoull bytes;
    ref = first_token (strtok referer);
  })

-- `refer_hash_t` and `uri_hash_t`
pub record Tables : Type 0 where
  pub refer : Table
  pub uri : Table

-- `ref != NULL && ref[0] != '-'`
abbrev pub is_counted : Option CString → Option CString
is_counted none = none
is_counted (some ref) = if get_or ref 0 0 == b'-' then none else some ref

-- A call of `hash_t_inc`, or none
abbrev pub inc_some : Bool → Table → Option CString → ℕ → Run Table
inc_some memory t none delta = ok t
inc_some memory t (some key) delta = hash_t_inc memory t key delta

-- The last part of `parse_apache_log`. Whether the two tables get memory is an argument.
pub count_fields : Bool → Bool → Tables → Fields → Run (ℕ × Tables)
count_fields refer_memory uri_memory t fields = do
  refer ← inc_some refer_memory t.refer (is_counted fields.ref) 1
  uri ← inc_some uri_memory t.uri fields.uri fields.number
  ok (fields.number, record { refer = refer; uri = uri })

pub parse_apache_log : Bool → Bool → Tables → CString → Run (ℕ × Tables)
parse_apache_log refer_memory uri_memory t log =
    read_fields log >>= λ fields. count_fields refer_memory uri_memory t fields

abbrev pub max_len : ℕ
max_len = 9216

-- The bytes that `fgets` puts into a buffer with room for `n` of them: up to a newline.
pub take_line : ℕ → List ℕ → List ℕ × List ℕ
take_line zero file = ([], file)
take_line (suc n) [] = ([], [])
take_line (suc n) (x ∷ file) =
    let (line, rest) = take_line n file in if x == b'\n' then (x ∷ [], file) else (x ∷ line, rest)

-- The buffer as a C string ends at its first zero byte.
pub c_string : List ℕ → CString
c_string [] = []
c_string (x ∷ line) = if x == 0 then [] else x ∷ c_string line

-- `fgets` of the C library: `none` at the end of the file, else the line and what is left of the file.
pub fgets : ℕ → List ℕ → Option (CString × List ℕ)
fgets size [] = none
fgets size (x ∷ file) =
    let (line, rest) = take_line (size - 1) (x ∷ file) in some (c_string line, rest)

abbrev pub continue :
    Run (ℕ × Tables) → (ℕ → Tables → Option (Run (ℕ × Tables))) → Option (Run (ℕ × Tables))
continue (ok (number, t)) k = k number t
continue blocked k = some blocked
continue fault k = some fault

-- The loop of `process_file` on `fuel`: `none` is that it ran out. `memory n` says whether the tables
-- get memory in round `n`.
pub read_lines : (ℕ → Bool × Bool) → ℕ → ℕ → Tables → ℕ → List ℕ → Option (Run (ℕ × Tables))
read_lines memory zero n t current_bytes file = none
read_lines memory (suc fuel) n t current_bytes file = elim (fgets max_len file) [
  | none ↦ some (ok (current_bytes, t))
  | some (line, rest) ↦
      continue (parse_apache_log (memory n).0 (memory n).1 t line)
        (λ number t'. read_lines memory fuel (n + 1) t' (u64 (current_bytes + number)) rest)
]

-- `atomic_fetch_add(&bytes, current_bytes)` after the loop
abbrev pub add_bytes : ℕ → Option (Run (ℕ × Tables)) → Option (Run (ℕ × Tables))
add_bytes bytes none = none
add_bytes bytes (some (ok (current_bytes, t))) = some (ok (u64 (bytes + current_bytes), t))
add_bytes bytes (some blocked) = some blocked
add_bytes bytes (some fault) = some fault

abbrev pub with_file :
    (ℕ → Bool × Bool) → ℕ → Tables → ℕ → Option (List ℕ) → Option (Run (ℕ × Tables))
with_file memory fuel t bytes none = some (ok (bytes, t))
with_file memory fuel t bytes (some file) = add_bytes bytes (read_lines memory fuel 0 t 0 file)

-- `process_file` with the total `bytes` of all files; `open_read` is `fopen`, with the file's bytes.
pub process_file :
    (CString → Option (List ℕ))
    → (ℕ → Bool × Bool)
    → ℕ
    → Tables
    → ℕ
    → Option CString
    → Option (Run (ℕ × Tables))
process_file open_read memory fuel t bytes none = some (ok (bytes, t))
process_file open_read memory fuel t bytes (some filepath) =
    with_file memory fuel t bytes (open_read filepath)
