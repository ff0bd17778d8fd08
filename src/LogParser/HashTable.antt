-- ===== src/LogParser/HashTable.antt =====
-- hw12/src/hashtable.c and hw12/include/hashtable.h: a chained table with a mutex for each bucket,
-- as one thread at a time sees it. A chain of `bucket_t` is a list of entries, NULL the empty one.
pub mod Outcome
pub mod Chain
pub mod Effect
pub mod Lookup
pub mod Defects
pub mod Top
pub mod Release
pub mod Sorting
pub mod SortChecks
pub mod Checks
use otus_c.Prelude.{
  ℕ, zero, suc, ◌+◌, ◌*◌, ◌%◌, ◌^◌, ◌==◌, Bool, true, false, List, [], ◌∷◌, ◌++◌, Option, none,
  some, if◌then◌else◌, get_elem?, set, length, replicate, take, map, ltb,
}
use otus_c.Prelude.Words.{u32, u64, char_to, sub64}
use otus_c.Prelude.Bytes.{CString, same, starts}
use Outcome.{Run, ok, blocked, fault, ◌>>=◌}

-- `bucket_t`, less its link
pub record Entry : Type 0 where
  pub key : CString
  pub val : ℕ

-- `bucket_t *` in the array: what `malloc` left there, or a chain.
pub data Bucket : Type 0 where
  wild : Bucket
  chain : List Entry → Bucket

-- `hash_t`. A mutex is true while it is locked.
pub record Table : Type 0 where
  pub size : ℕ
  pub cap : ℕ
  pub buckets : List Bucket
  pub mus : List Bool

-- The memory that the second `malloc` gives holds the pointers `array`.
unfoldable pub create_hash_t : ℕ → List Bucket → Table
create_hash_t sz array = record { size = 0; cap = sz; buckets = array; mus = replicate sz false }

-- The loop of `hash`: `hash * 31 + key[i]` in 64 bits.
pub hash_from : ℕ → CString → ℕ
hash_from h [] = h
hash_from h (c ∷ key) = hash_from (u64 (u64 (h * 31) + char_to (2 ^ 64) c)) key

-- `hash`, kept as a `uint32_t`; the remainder by a capacity of 0 is undefined.
pub bucket_id : Table → CString → Run ℕ
bucket_id t key = if t.cap == 0 then fault else ok (u32 (hash_from 0 key % t.cap))

abbrev pub lock_at : Table → ℕ → Option Bool → Run Table
lock_at t i none = fault
lock_at t i (some true) = blocked
lock_at t i (some false) = ok (record t { mus = set t.mus i true })

-- `pthread_mutex_lock(&t->mus[i])`: a mutex that is held blocks for good.
pub lock : Table → ℕ → Run Table
lock t i = lock_at t i (get_elem? t.mus i)

-- `pthread_mutex_unlock(&t->mus[i])`
pub unlock : Table → ℕ → Table
unlock t i = record t { mus = set t.mus i false }

abbrev pub chain_at : Option Bucket → Run (List Entry)
chain_at none = fault
chain_at (some wild) = fault
chain_at (some (chain c)) = ok c

-- `t->buckets[i]`, with the chain behind it
pub read_chain : Table → ℕ → Run (List Entry)
read_chain t i = chain_at (get_elem? t.buckets i)

-- The loop of `hash_t_put` and of `hash_t_inc`, and what follows it: the entry of the key gets the
-- value `f` of its own; without one, an entry with the value `fresh` goes to the end if `memory`
-- can be had. The number is that of the entries added.
pub upsert : Bool → (ℕ → ℕ) → ℕ → CString → List Entry → List Entry × ℕ
upsert memory f fresh key [] =
    if memory then (record { key = key; val = fresh } ∷ [], 1) else ([], 0)
upsert memory f fresh key (e ∷ c) =
    let (c', n) = upsert memory f fresh key c in
    if same e.key key then (record e { val = f e.val } ∷ c, 0) else (e ∷ c', n)

-- The bucket and `t->size` after the loop.
pub write_chain : Table → ℕ → List Entry × ℕ → Table
write_chain t i (c, n) = record t { buckets = set t.buckets i (chain c); size = u64 (t.size + n) }

pub hash_t_put : Bool → Table → CString → ℕ → Run Table
hash_t_put memory t key value = do
  i ← bucket_id t key
  t' ← lock t i
  c ← read_chain t' i
  ok (unlock (write_chain t' i (upsert memory (λ _. value) value key c)) i)

pub hash_t_inc : Bool → Table → CString → ℕ → Run Table
hash_t_inc memory t key delta = do
  i ← bucket_id t key
  t' ← lock t i
  c ← read_chain t' i
  ok (unlock (write_chain t' i (upsert memory (λ v. u64 (v + delta)) delta key c)) i)

-- The loop of `hash_t_get`: the comparison is over the length of the stored key.
pub scan : CString → List Entry → Option ℕ
scan key [] = none
scan key (e ∷ c) = if starts e.key key then some e.val else scan key c

-- What `hash_t_get` does with the chain; an empty one returns at once, the mutex still locked.
pub get_in : Table → ℕ → CString → List Entry → Option ℕ × Table
get_in t i key [] = (none, t)
get_in t i key (e ∷ c) = (scan key (e ∷ c), unlock t i)

-- `none` is the result `false`.
pub hash_t_get : Table → CString → Run (Option ℕ × Table)
hash_t_get t key = do
  i ← bucket_id t key
  t' ← lock t i
  c ← read_chain t' i
  ok (get_in t' i key c)

-- The two nested loops of `print_top` and of `print_hash_t`: the entries in order of the buckets.
pub entries : ℕ → List Bucket → Run (List Entry)
entries zero bs = ok []
entries (suc n) [] = fault
entries (suc n) (b ∷ bs) = do c ← chain_at (some b); rest ← entries n bs; ok (c ++ rest)

-- `compare`: the difference of two values of 64 bits, returned as the bits of an `int`.
pub compare_pairs : Entry → Entry → ℕ
compare_pairs a b = u32 (sub64 b.val a.val)

-- `print_top`: the keys that it prints, `qsort` being that of the C library. A pair too many is written
-- behind the array, which malloc is taken to give.
pub print_top : ((Entry → Entry → ℕ) → List Entry → List Entry) → Table → ℕ → Run (List CString)
print_top qsort t count = do
  pairs ← entries t.cap t.buckets
  if ltb t.size (length pairs)
      then fault
      else ok (map (λ e. e.key) (take count (qsort compare_pairs pairs)))

-- `print_hash_t`: the entries in the order in which it prints their keys and values
abbrev pub print_hash_t : Table → Run (List Entry)
print_hash_t t = entries t.cap t.buckets
