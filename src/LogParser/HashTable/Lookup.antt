-- ===== src/LogParser/HashTable/Lookup.antt =====
-- `create_hash_t` and `hash_t_get` of hw12 on a valid table.
use otus_c.Prelude.{
  ℕ, zero, suc, ◌^◌, ◌<◌, ◌≡◌, ◌≢◌, refl, sym, ap, ◌∙◌, true, false, List, [], ◌∷◌, none, arith,
  get_or, set, length-set, replicate, length-replicate,
}
use otus_c.Prelude.Bytes.{CString, same, starts}
use otus_c.LogParser.HashTable.{
  Entry, wild, chain, Table, create_hash_t, unlock, scan, get_in, hash_t_get,
}
use otus_c.LogParser.HashTable.Outcome.{ok}
use otus_c.LogParser.HashTable.Chain.{find}
use otus_c.LogParser.HashTable.Effect.{
  IsValid, AllChains, AllFree, chain_of, total, home, view, enter, lock_unlock,
}

replicate-AllFree : (n : ℕ) → AllFree (replicate n false)
replicate-AllFree zero = tt
replicate-AllFree (suc n) = replicate-AllFree n

replicate-AllChains : (n : ℕ) → AllChains (replicate n (chain []))
replicate-AllChains zero = tt
replicate-AllChains (suc n) = replicate-AllChains n

total-replicate : (n : ℕ) → total (replicate n (chain [])) ≡ 0
total-replicate zero = refl
total-replicate (suc n) = omega (arith, total-replicate n)

find-replicate :
    (q : CString) (n i : ℕ) → find q (chain_of (get_or (replicate n (chain [])) i wild)) ≡ none
unfolding find
find-replicate q zero i = refl
find-replicate q (suc n) zero = refl
find-replicate q (suc n) (suc i) = find-replicate q n i

-- A new table of at least one bucket, if `malloc` gave zeroed memory for the buckets, is valid and
-- holds nothing under any key.
pub create-IsValid :
    (sz : ℕ)
    → 0 < sz
    → sz < 2 ^ 32
    → IsValid (create_hash_t sz (replicate sz (chain [])))
      × ((q : CString) → view (create_hash_t sz (replicate sz (chain []))) q ≡ none)
unfolding create_hash_t view
create-IsValid sz pos small = (
  record {
    some_room = pos;
    small = small;
    width = length-replicate sz (chain []);
    mutexes = length-replicate sz false;
    chains = replicate-AllChains sz;
    unlocked = replicate-AllFree sz;
    counted = sym (total-replicate sz);
  },
  λ q. find-replicate q sz _,
)

-- No stored key of the chain is a proper prefix of the key.
abbrev pub NoPrefix : CString → List Entry → Type 0
NoPrefix key [] = Unit {0}
NoPrefix key (e ∷ c) = (starts e.key key ≡ same e.key key) × NoPrefix key c

scan-eq-find : (key : CString) (c : List Entry) → NoPrefix key c → scan key c ≡ find key c
unfolding scan find
scan-eq-find key [] h = refl
scan-eq-find key (e ∷ c) h = rw (h.0, scan-eq-find key c h.1) refl

-- The chain of a key.
abbrev pub bucket_of : Table → CString → List Entry
bucket_of t key = chain_of (get_or t.buckets (home t key) wild)

-- The table after a get that ran to the end of its loop.
abbrev pub released : Table → CString → Table
released t key = record t { mus = set (set t.mus (home t key) true) (home t key) false }

released-IsValid : {t : Table} (key : CString) → IsValid t → IsValid (released t key)
released-IsValid {t} key v = record {
  some_room = v.some_room;
  small = v.small;
  width = v.width;
  mutexes = length-set _ (home t key) false ∙ length-set t.mus (home t key) true ∙ v.mutexes;
  chains = v.chains;
  unlocked = lock_unlock t.mus (home t key) v.unlocked;
  counted = v.counted;
}

pub get_runs :
    {t : Table} (key : CString)
    → IsValid t
    → hash_t_get t key
      ≡ ok (
          get_in
            (record t { mus = set t.mus (home t key) true })
            (home t key)
            key
            (bucket_of t key))
unfolding hash_t_get
get_runs key v = enter v key _

pub get_in-cons :
    (t : Table) (i : ℕ) (key : CString) (c : List Entry)
    → c ≢ []
    → get_in t i key c ≡ (scan key c, unlock t i)
unfolding get_in
get_in-cons t i key [] h = absurd (h refl)
get_in-cons t i key (e ∷ c) h = refl

-- On a valid table, where the key's bucket is not empty and no key stored in it is a proper prefix
-- of the key, `hash_t_get` returns what the table holds under the key, and leaves a valid table that
-- holds the same under every key.
pub get-eq-view :
    {t : Table} (key : CString)
    → IsValid t
    → bucket_of t key ≢ []
    → NoPrefix key (bucket_of t key)
    → (t' : Table) × (hash_t_get t key ≡ ok (view t key, t'))
      × IsValid t'
      × ((q : CString) → view t' q ≡ view t q)
unfolding view unlock
get-eq-view {t} key v filled apart = (
  released t key,
  get_runs key v
      ∙ ap ok (
          get_in-cons _ (home t key) key (bucket_of t key) filled
          ∙ ap (λ o. (o, released t key)) (scan-eq-find key (bucket_of t key) apart)),
  released-IsValid key v,
  λ q. refl,
)
