-- ===== src/WordCount.antt =====
-- hw3: the words of a file, counted in a table with linear probing (hw3/src/hashtable.c,
-- hw3/src/hashtable.h and the loop of hw3/src/main.c). The result `none` is undefined behaviour: an
-- index outside of the array or a remainder by zero. A `memory` argument says whether `malloc` of the
-- array or of the copy of a key succeeds.
pub mod Probe
pub mod Table
pub mod Access
pub mod Counts
pub mod Listing
pub mod Rehash
pub mod Growth
pub mod Main
pub mod Checks
use otus_c.Prelude.{
  ℕ, zero, suc, ◌+◌, ◌-◌, ◌*◌, ◌%◌, ◌^◌, ◌==◌, Bool, true, false, not, ◌&&◌, List, [], ◌∷◌, Option,
  none, some, if◌then◌else◌, ltb, get_elem?, store, replicate, ◌>>=◌, mod?,
}
use otus_c.Prelude.Words.{u32, u64, char_to}
use otus_c.Prelude.Bytes.{CString, starts}

-- `bucket`; a null pointer as key is `none`.
pub record Bucket : Type 0 where
  pub key : Option CString
  pub v : ℕ

-- `HTable`
pub record HTable : Type 0 where
  pub size : ℕ
  pub cap : ℕ
  pub values : List Bucket
  pub collision : ℕ

abbrev pub uint32_max : ℕ
uint32_max = 2 ^ 32 - 1

abbrev pub size_max : ℕ
size_max = 2 ^ 64 - 1

-- A bucket after `memset`
abbrev pub vacant : Bucket
vacant = record { key = none; v = 0 }

-- Whether there is memory for the table and for its array; the first is not tested, and the second
-- `none` is the null pointer.
pub new_table : Bool → Bool → ℕ → ℕ → Option (Option HTable)
new_table for_table for_values sz collision =
    if for_table
    then some (
        if for_values
        then some
            (record { size = sz; cap = 0; values = replicate sz vacant; collision = collision })
        else none)
    else none

-- The loop of `hash`: `h * 31 + key[i]` in 32 bits.
pub hash_from : ℕ → CString → ℕ
hash_from h [] = h
hash_from h (c ∷ key) = hash_from (u32 (u32 (h * 31) + char_to (2 ^ 32) c)) key

pub hash : HTable → CString → Option ℕ
hash t key = mod? (hash_from 0 key) t.size

-- The test of `find_index`: the bucket's key, as far as it goes, is that of the argument.
abbrev pub matches : CString → Option CString → Bool
matches key none = false
matches key (some k) = starts k key

-- The loop of `find_index` with a number of rounds left.
pub find_from : ℕ → HTable → CString → ℕ → Option ℕ
find_from zero t key index = some size_max
find_from (suc rounds) t key index = do
  b ← get_elem? t.values index
  let rest = (do index' ← mod? (u64 (index + 1)) t.size; find_from rounds t key index')
  if matches key b.key then some index else rest

pub find_index : HTable → CString → ℕ → Option ℕ
find_index t key initial = find_from t.collision t key initial

-- `t->values[index].v = value`
pub set_value : HTable → ℕ → ℕ → Option HTable
set_value t index value = do
  b ← get_elem? t.values index
  values ← store t.values index (record b { v = value })
  some (record t { values = values })

pub replace_value : HTable → CString → ℕ → ℕ → Option (Bool × HTable)
replace_value t key value index = do
  found ← find_index t key index
  if found == size_max then some (false, t) else (do t' ← set_value t found value; some (true, t'))

-- `t->values[found].v`, or `UINT32_MAX` where `found` is `SIZE_MAX`
pub value_at : HTable → ℕ → Option ℕ
value_at t found =
    if found == size_max then some uint32_max else (do b ← get_elem? t.values found; some b.v)

pub get : HTable → CString → Option ℕ
get t key = do index ← hash t key; found ← find_index t key index; value_at t found

-- A vacant bucket found by `insert`: the value is written before the copy of the key is allocated.
pub fill : Bool → HTable → CString → ℕ → ℕ → Option (Bool × HTable)
fill memory t key value index = do
  t' ← set_value t index value
  if memory
      then (do
        values ← store t'.values index (record { key = some key; v = value })
        some (true, record t' { values = values; cap = t'.cap + 1 }))
      else some (false, t')

-- `key == NULL`
abbrev pub is_vacant : Option CString → Bool
is_vacant none = true
is_vacant (some k) = false

-- The loop of `insert` with a number of rounds left.
pub insert_from : ℕ → Bool → HTable → CString → ℕ → ℕ → Option (Bool × HTable)
insert_from zero memory t key value index = some (false, t)
insert_from (suc rounds) memory t key value index = do
  b ← get_elem? t.values index
  let rest = (do
    index' ← mod? (u64 (index + 1)) t.size
    insert_from rounds memory t key value index')
  if is_vacant b.key then fill memory t key value index else rest

pub insert : Bool → HTable → CString → ℕ → ℕ → Option (Bool × HTable)
insert memory t key value index = insert_from t.collision memory t key value index

-- The loop of `grow_bucket_size` over the old buckets: each goes to the place of its hash, whatever
-- stands there.
pub rehash : HTable → List Bucket → List Bucket → Option (List Bucket)
rehash t [] ptr = some ptr
rehash t (b ∷ old) ptr = elim b.key [
  | none ↦ rehash t old ptr
  | some k ↦ hash t k >>= λ idx. store ptr idx b >>= λ ptr'. rehash t old ptr'
]

-- `t->size` is doubled also if there is no memory.
pub grow_bucket_size : Bool → HTable → Option (Bool × HTable)
grow_bucket_size memory t =
    let t' = record t { size = u64 (t.size * 2) } in
    if memory
    then (do
      ptr ← rehash t' t.values (replicate t'.size vacant)
      some (true, record t' { values = ptr }))
    else some (false, t')

-- `t->cap + 1 > t->size && !grow_bucket_size(t)`, and `insert` at the index from before the growth.
pub grow_and_insert : Bool → Bool → HTable → CString → ℕ → ℕ → Option (Bool × HTable)
grow_and_insert for_array for_key t key value index =
    if ltb t.size (t.cap + 1)
    then (do
      (grown, t') ← grow_bucket_size for_array t
      if grown then insert for_key t' key value index else some (false, t'))
    else insert for_key t key value index

-- Whether there is memory for a new array and for the copy of the key is an argument.
pub put : Bool → Bool → HTable → CString → ℕ → Option (Bool × HTable)
put for_array for_key t key value = do
  index ← hash t key
  old_v ← get t key
  if ltb old_v uint32_max
      then replace_value t key value index
      else grow_and_insert for_array for_key t key value index

-- A round of the loop in `main`; `++v` is in 32 bits.
pub count_word : Bool × Bool → HTable → CString → Option (Bool × HTable)
count_word (for_array, for_key) t word = do
  v ← get t word
  put for_array for_key t word (u32 ((if v == uint32_max then 0 else v) + 1))

-- The loop of `main` over the words, which stops where a word cannot be added. `memory n` says what
-- `put` gets for word `n`, the words being numbered from `n` on.
pub count_words : (ℕ → Bool × Bool) → ℕ → HTable → List CString → Option (Bool × HTable)
count_words memory n t [] = some (true, t)
count_words memory n t (w ∷ words) = do
  (added, t') ← count_word (memory n) t w
  let rest = count_words memory (n + 1) t' words
  if added then rest else some (false, t')

-- The loop of `iterate`: the calls of the callback, in order.
pub iterate : List Bucket → List (CString × ℕ)
iterate [] = []
iterate (b ∷ values) = elim b.key [ none ↦ iterate values | some k ↦ (k, b.v) ∷ iterate values ]
