-- ===== src/LogParser/HashTable/Effect.antt =====
-- The effect of a put or an increment on the whole table of hw12.
use native.Mathlib.Decide.{ℕ_discrete}
use otus_c.Prelude.{
  ℕ, zero, suc, ◌+◌, ◌%◌, ◌^◌, ◌≤◌, ◌<◌, ◌≡◌, refl, sym, ap, ◌∙◌, Bool, true, false, List, [], ◌∷◌,
  Option, some, arith, if◌then◌else◌, length, get_elem?, get_or, set, length-set, get_or-set_self,
  get_or-set_ne, Bool-cases, inl, inr,
}
use otus_c.Prelude.Words.{u64}
use otus_c.Prelude.Bytes.{CString, same, same_iff}
use otus_c.LogParser.HashTable.{
  Entry, Bucket, wild, chain, Table, hash_from, bucket_id, lock, unlock, read_chain, upsert,
  write_chain, hash_t_put, hash_t_inc,
}
use otus_c.LogParser.HashTable.Outcome.{Run, ok, ◌>>=◌}
use otus_c.LogParser.HashTable.Chain.{find, value_after, find-upsert, length-upsert, upsert-le-one}

abbrev pub chain_of : Bucket → List Entry
chain_of wild = []
chain_of (chain c) = c

-- The number of entries in all chains.
abbrev pub total : List Bucket → ℕ
total [] = 0
total (b ∷ bs) = length (chain_of b) + total bs

abbrev pub AllChains : List Bucket → Type 0
AllChains [] = Unit {0}
AllChains (wild ∷ bs) = ⊥
AllChains (chain c ∷ bs) = AllChains bs

abbrev pub AllFree : List Bool → Type 0
AllFree [] = Unit {0}
AllFree (true ∷ ms) = ⊥
AllFree (false ∷ ms) = AllFree ms

-- A table between two calls: its arrays have `cap` members, every bucket is a chain, no mutex is
-- held, and `size` counts the entries.
pub record IsValid (t : Table) : Type 0 where
  pub some_room : 0 < t.cap
  pub small : t.cap < 2 ^ 32
  pub width : length t.buckets ≡ t.cap
  pub mutexes : length t.mus ≡ t.cap
  pub chains : AllChains t.buckets
  pub unlocked : AllFree t.mus
  pub counted : t.size ≡ total t.buckets

-- The bucket of a key.
unfoldable pub home : Table → CString → ℕ
home t key = hash_from 0 key % t.cap

-- What the table holds under a key.
unfoldable pub view : Table → CString → Option ℕ
unfolding find home
view t key = find key (chain_of (get_or t.buckets (home t key) wild))

pub home-lt : {t : Table} (key : CString) → IsValid t → home t key < t.cap
unfolding home
home-lt key v = omega arith

pub bucket_id-eq-home : {t : Table} (key : CString) → IsValid t → bucket_id t key ≡ ok (home t key)
unfolding bucket_id home
bucket_id-eq-home {t} key v = let e : hash_from 0 key % t.cap < 2 ^ 32 = omega arith in ground arith

free_at : (ms : List Bool) (i : ℕ) → AllFree ms → i < length ms → get_elem? ms i ≡ some false
free_at [] i h low = absurd (omega arith)
free_at (true ∷ ms) i h low = absurd h
free_at (false ∷ ms) zero h low = refl
free_at (false ∷ ms) (suc i) h low = free_at ms i h (omega arith)

chain_in :
    (bs : List Bucket) (i : ℕ)
    → AllChains bs
    → i < length bs
    → get_elem? bs i ≡ some (chain (chain_of (get_or bs i wild)))
chain_in [] i h low = absurd (omega arith)
chain_in (wild ∷ bs) i h low = absurd h
chain_in (chain c ∷ bs) zero h low = refl
chain_in (chain c ∷ bs) (suc i) h low = chain_in bs i h (omega arith)

pub lock_unlock : (ms : List Bool) (i : ℕ) → AllFree ms → AllFree (set (set ms i true) i false)
lock_unlock [] i h = tt
lock_unlock (true ∷ ms) i h = absurd h
lock_unlock (false ∷ ms) zero h = h
lock_unlock (false ∷ ms) (suc i) h = lock_unlock ms i h

set-AllChains :
    (bs : List Bucket) (i : ℕ) (c : List Entry) → AllChains bs → AllChains (set bs i (chain c))
set-AllChains [] i c h = tt
set-AllChains (wild ∷ bs) i c h = absurd h
set-AllChains (chain d ∷ bs) zero c h = h
set-AllChains (chain d ∷ bs) (suc i) c h = set-AllChains bs i c h

total-set :
    (bs : List Bucket) (i : ℕ) (c : List Entry)
    → i < length bs
    → total (set bs i (chain c)) + length (chain_of (get_or bs i wild)) ≡ total bs + length c
total-set [] i c low = absurd (omega arith)
total-set (b ∷ bs) zero c low = omega arith
total-set (b ∷ bs) (suc i) c low = omega (arith, total-set bs i c (omega arith))

module _ {t : Table} (v : IsValid t) (key : CString) where
  abbrev here : List Entry
  here = chain_of (get_or t.buckets (home t key) wild)

  -- The first three steps of every operation.
  pub enter :
      {A : Type 0} (k : ℕ → Table → List Entry → Run A)
      → (do i ← bucket_id t key; t' ← lock t i; c ← read_chain t' i; k i t' c)
        ≡ k (home t key) (record t { mus = set t.mus (home t key) true }) here
  unfolding lock read_chain
  enter k =
      rw
        (
          bucket_id-eq-home key v,
          free_at t.mus (home t key) v.unlocked (omega (arith, home-lt key v)),
          chain_in t.buckets (home t key) v.chains (omega (arith, home-lt key v)),
        )
        refl

module _ {t : Table} (v : IsValid t) (key : CString) (memory : Bool) (f : ℕ → ℕ) (fresh : ℕ) where
  abbrev result : List Entry × ℕ
  result = upsert memory f fresh key (here v key)

  -- The table when the operation returns.
  abbrev pub written : Table
  written = record t {
    buckets = set t.buckets (home t key) (chain result.0);
    size = u64 (t.size + result.1);
    mus = set (set t.mus (home t key) true) (home t key) false;
  }

  one_at_most : result.1 ≤ 1
  one_at_most = upsert-le-one memory f fresh key (here v key)

  pub written-IsValid : t.size + 1 < 2 ^ 64 → IsValid written
  written-IsValid fits = record {
    some_room = v.some_room;
    small = v.small;
    width = length-set t.buckets (home t key) (chain result.0) ∙ v.width;
    mutexes = length-set _ (home t key) false ∙ length-set t.mus (home t key) true ∙ v.mutexes;
    chains = set-AllChains t.buckets (home t key) result.0 v.chains;
    unlocked = lock_unlock t.mus (home t key) v.unlocked;
    counted = omega (
      arith,
      v.counted,
      one_at_most,
      home-lt key v,
      v.width,
      total-set t.buckets (home t key) result.0,
      length-upsert memory f fresh key (here v key),
    );
  }

  pub written-grown : written.size ≤ t.size + 1
  written-grown = omega (arith, one_at_most)

  pub view-written :
      (q : CString)
      → view written q ≡ (if same key q then value_after memory f fresh (view t key) else view t q)
  unfolding view
  view-written q = elim (ℕ_discrete (home t key) (home t q)) [
    | yes e ↦
        ap (λ b. find q (chain_of b))
          (ap (λ k. get_or written.buckets k wild) (sym e)
            ∙ get_or-set_self t.buckets (home t key) (chain result.0) wild
                (omega (arith, home-lt key v)))
        ∙ find-upsert memory f fresh key q (here v key)
        ∙ ap
            (λ b.
              if same key q
              then value_after memory f fresh (find key (here v key))
              else find q (chain_of b))
            (ap (λ k. get_or t.buckets k wild) e)
    | no n ↦
        ap (λ b. find q (chain_of b)) (get_or-set_ne t.buckets (chain result.0) wild n)
        ∙ (elim (Bool-cases (same key q)) [
          | inl s ↦ absurd (n (ap (home t) ((same_iff key q).0 s)))
          | inr s ↦ rw s refl
        ])
  ]

-- What a table that was `t` has become when an operation on `key` returns: a valid table with `f` of
-- the old value under the key, or `fresh` if there was none and memory could be had, and with the old
-- value under every other key; it counts at most one entry more.
pub record Writes (t : Table) (key : CString) (memory : Bool) (f : ℕ → ℕ) (fresh : ℕ)
    (r : Run Table) : Type 0 where
  pub table : Table
  pub returns : r ≡ ok table
  pub valid : IsValid table
  pub grown : table.size ≤ t.size + 1
  pub reads :
      (q : CString)
      → view table q ≡ (if same key q then value_after memory f fresh (view t key) else view t q)

module _ {t : Table} (memory : Bool) (key : CString) (v : IsValid t)
    (fits : t.size + 1 < 2 ^ 64) where
  -- On a valid table `hash_t_put` returns, holds no mutex afterwards, and has stored the value under
  -- its key, or nothing if the key is new and there is no memory.
  pub put-Writes :
      (value : ℕ) → Writes t key memory (λ _. value) value (hash_t_put memory t key value)
  unfolding hash_t_put unlock write_chain
  put-Writes value = record {
    table = written v key memory (λ _. value) value;
    returns = enter v key _;
    valid = written-IsValid v key memory (λ _. value) value fits;
    grown = written-grown v key memory (λ _. value) value;
    reads = view-written v key memory (λ _. value) value;
  }

  -- On a valid table `hash_t_inc` returns, holds no mutex afterwards, and has added `delta` to the
  -- value of its key in 64 bits; a key that was absent has the value `delta`, if there is memory.
  pub inc-Writes :
      (delta : ℕ) → Writes t key memory (λ x. u64 (x + delta)) delta (hash_t_inc memory t key delta)
  unfolding hash_t_inc unlock write_chain
  inc-Writes delta = record {
    table = written v key memory (λ x. u64 (x + delta)) delta;
    returns = enter v key _;
    valid = written-IsValid v key memory (λ x. u64 (x + delta)) delta fits;
    grown = written-grown v key memory (λ x. u64 (x + delta)) delta;
    reads = view-written v key memory (λ x. u64 (x + delta)) delta;
  }
