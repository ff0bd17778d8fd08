-- ===== src/LogParser/HashTable/Release.antt =====
-- `hash_t_free` of hw12: what is freed and destroyed, in order.
use mathlib.Core.List.{append_assoc}
use otus_c.LogParser.HashTable.Lookup.{bucket_of, get_runs}
use otus_c.LogParser.HashTable.Defects.{stuck}
use otus_c.Prelude.{
  ℕ, zero, suc, ◌+◌, ◌≡◌, refl, sym, ap, ◌∙◌, Bool, true, false, List, [], ◌∷◌, ◌++◌, arith, length,
  map, some, none, subst, set, ◌<◌, get_elem?, get_elem?-set_self,
}
use otus_c.Prelude.Bytes.{CString}
use otus_c.LogParser.HashTable.{
  Entry, Bucket, wild, chain, chain_at, Table, entries, hash_t_get, get_in,
}
use otus_c.LogParser.HashTable.Outcome.{Run, ok, fault, ◌>>=◌}
use otus_c.LogParser.HashTable.Effect.{IsValid, AllChains, AllFree, home, home-lt}

pub data Freed : Type 0 where
  free_key : CString → Freed
  free_bucket : Entry → Freed
  mutex : ℕ → Freed
  buckets : Freed
  mus : Freed
  table : Freed

-- The inner loop
abbrev pub free_chain : List Entry → List Freed
free_chain [] = []
free_chain (current ∷ next) = free_key current.key ∷ free_bucket current ∷ free_chain next

-- `pthread_mutex_destroy`, which is undefined on a mutex that is locked
abbrev pub destroy : ℕ → Bool → Run Freed
destroy i true = fault
destroy i false = ok (mutex i)

-- The outer loop from `i` on, for `n` buckets
pub free_buckets : ℕ → ℕ → List Bucket → List Bool → Run (List Freed)
free_buckets zero i bs ms = ok []
free_buckets (suc n) i [] ms = fault
free_buckets (suc n) i (b ∷ bs) [] = fault
free_buckets (suc n) i (b ∷ bs) (m ∷ ms) = do
  current ← chain_at (some b)
  destroyed ← destroy i m
  rest ← free_buckets n (i + 1) bs ms
  ok (free_chain current ++ (destroyed ∷ rest))

pub hash_t_free : Table → Run (List Freed)
hash_t_free t = do
  freed ← free_buckets t.cap 0 t.buckets t.mus
  ok (freed ++ (buckets ∷ mus ∷ table ∷ []))

-- The entries, the keys and the mutexes among what is freed
abbrev pub entries_of : List Freed → List Entry
entries_of [] = []
entries_of (free_bucket e ∷ l) = e ∷ entries_of l
entries_of (_ ∷ l) = entries_of l

abbrev pub keys_of : List Freed → List CString
keys_of [] = []
keys_of (free_key k ∷ l) = k ∷ keys_of l
keys_of (_ ∷ l) = keys_of l

abbrev pub mutexes_of : List Freed → List ℕ
mutexes_of [] = []
mutexes_of (mutex i ∷ l) = i ∷ mutexes_of l
mutexes_of (_ ∷ l) = mutexes_of l

-- The numbers from `i` on
abbrev pub from : ℕ → ℕ → List ℕ
from i zero = []
from i (suc n) = i ∷ from (i + 1) n

-- What is freed for the entries `l` and `n` mutexes from `i` on
pub record Frees (freed : List Freed) (l : List Entry) (i n : ℕ) : Type 0 where
  pub all_entries : entries_of freed ≡ l
  pub all_keys : keys_of freed ≡ map (λ e. e.key) l
  pub all_mutexes : mutexes_of freed ≡ from i n

chain-Frees :
    (c : List Entry) {freed : List Freed} {l : List Entry} {i n : ℕ}
    → Frees freed l i n
    → Frees (free_chain c ++ freed) (c ++ l) i n
chain-Frees [] f = f
chain-Frees (e ∷ c) f =
    let rest = chain-Frees c f in
    record {
      all_entries = ap (λ l. e ∷ l) rest.all_entries;
      all_keys = ap (λ l. e.key ∷ l) rest.all_keys;
      all_mutexes = rest.all_mutexes;
    }

abbrev closing : List Freed
closing = buckets ∷ mus ∷ table ∷ []

free_buckets-Frees :
    (bs : List Bucket) (ms : List Bool) (i : ℕ)
    → AllChains bs
    → AllFree ms
    → length ms ≡ length bs
    → (freed : List Freed) × (l : List Entry) × (free_buckets (length bs) i bs ms ≡ ok freed)
      × (entries (length bs) bs ≡ ok l)
      × Frees (freed ++ closing) l i (length bs)
unfolding free_buckets entries
free_buckets-Frees [] ms i a f e =
    ([], [], refl, refl, record { all_entries = refl; all_keys = refl; all_mutexes = refl })
free_buckets-Frees (wild ∷ bs) ms i a f e = absurd a
free_buckets-Frees (chain c ∷ bs) [] i a f e = absurd (omega (arith, e))
free_buckets-Frees (chain c ∷ bs) (true ∷ ms) i a f e = absurd f
free_buckets-Frees (chain c ∷ bs) (false ∷ ms) i a f e =
    let (freed, l, run, listed, rest) = free_buckets-Frees bs ms (i + 1) a f (omega (arith, e)) in
    let all : Frees (mutex i ∷ (freed ++ closing)) l i (suc (length bs)) = record {
      all_entries = rest.all_entries;
      all_keys = rest.all_keys;
      all_mutexes = ap (λ ms. i ∷ ms) rest.all_mutexes;
    } in
    (
      free_chain c ++ (mutex i ∷ freed),
      c ++ l,
      rw run refl,
      rw listed refl,
      subst (λ x. Frees x (c ++ l) i (suc (length bs)))
          (sym (append_assoc (free_chain c) (mutex i ∷ freed) closing)) (chain-Frees c all),
    )

-- On a valid table `hash_t_free` follows no wild pointer, destroys every mutex once, none of them
-- locked, and frees every entry once with its key, in the order in which `print_top` goes over them.
pub hash_t_free-Frees :
    {t : Table}
    → IsValid t
    → (freed : List Freed) × (l : List Entry) × (hash_t_free t ≡ ok freed)
      × (entries t.cap t.buckets ≡ ok l)
      × Frees freed l 0 t.cap
unfolding hash_t_free
hash_t_free-Frees {t} v =
    let (freed, l, run, listed, all) =
      free_buckets-Frees t.buckets t.mus 0 v.chains v.unlocked (v.mutexes ∙ sym v.width) in
    let w = v.width in
    (
      freed ++ closing,
      l,
      rw (ap (λ n. free_buckets n 0 t.buckets t.mus) (sym w) ∙ run) refl,
      ap (λ n. entries n t.buckets) (sym w) ∙ listed,
      subst (λ n. Frees (freed ++ closing) l 0 n) w all,
    )

free_buckets-locked :
    (bs : List Bucket) (ms : List Bool) (i j : ℕ)
    → AllChains bs
    → j < length bs
    → get_elem? ms j ≡ some true
    → free_buckets (length bs) i bs ms ≡ fault
unfolding free_buckets
free_buckets-locked [] ms i j a h e = absurd (omega (arith, h))
free_buckets-locked (wild ∷ bs) ms i j a h e = absurd a
free_buckets-locked (chain c ∷ bs) [] i j a h e = refl
free_buckets-locked (chain c ∷ bs) (true ∷ ms) i j a h e = refl
free_buckets-locked (chain c ∷ bs) (false ∷ ms) i zero a h e = absurd (ground (arith, e))
free_buckets-locked (chain c ∷ bs) (false ∷ ms) i (suc j) a h e =
    rw (free_buckets-locked bs ms (i + 1) j a (omega (arith, h)) e) refl

-- A mutex that `hash_t_get` has left locked is destroyed all the same, which is undefined.
pub hash_t_free-stuck :
    {t : Table} (key : CString)
    → IsValid t
    → bucket_of t key ≡ []
    → (t' : Table) × (hash_t_get t key ≡ ok (none, t')) × (hash_t_free t' ≡ fault)
unfolding hash_t_get hash_t_free get_in
hash_t_free-stuck {t} key v e =
    let here = home-lt key v in
    let locked = get_elem?-set_self t.mus (home t key) true (omega (arith, here, v.mutexes)) in
    let freed =
      free_buckets-locked t.buckets (set t.mus (home t key) true) 0 (home t key) v.chains
        (omega (arith, here, v.width)) locked in
    (
      stuck t key,
      get_runs key v ∙ ap (λ c. ok (get_in (stuck t key) (home t key) key c)) e,
      rw (ap (λ n. free_buckets n 0 t.buckets (set t.mus (home t key) true)) (sym v.width) ∙ freed)
          refl,
    )
