-- ===== src/LogParser/HashTable/Defects.antt =====
-- Where `hash_t_get` of hw12 departs from a lookup: an empty bucket, and a key that is a prefix.
use otus_c.Prelude.{
  ℕ, ◌≡◌, refl, ap, ◌∙◌, Bool, true, false, List, [], ◌∷◌, none, some, arith, set,
  get_elem?-set_self,
}
use otus_c.Prelude.Bytes.{CString, same, starts}
use otus_c.LogParser.HashTable.Chain.{find}
use otus_c.LogParser.HashTable.{
  unlock, Entry, Table, bucket_id, lock, lock_at, scan, get_in, hash_t_get, hash_t_put, hash_t_inc,
}
use otus_c.LogParser.HashTable.Outcome.{Run, ok, blocked, ◌>>=◌}
use otus_c.LogParser.HashTable.Effect.{IsValid, home, home-lt, view, bucket_id-eq-home}
use otus_c.LogParser.HashTable.Lookup.{bucket_of, released, get_runs}

-- The table after a get on an empty bucket.
abbrev pub stuck : Table → CString → Table
stuck t key = record t { mus = set t.mus (home t key) true }

bucket_id-stuck :
    {t : Table} (key q : CString)
    → IsValid t
    → home t q ≡ home t key
    → bucket_id (stuck t key) q ≡ ok (home t key)
unfolding bucket_id
bucket_id-stuck key q v e = bucket_id-eq-home q v ∙ ap ok e

lock-stuck : {t : Table} (key : CString) → IsValid t → lock (stuck t key) (home t key) ≡ blocked
unfolding lock
lock-stuck {t} key v =
    ap (lock_at (stuck t key) (home t key))
      (get_elem?-set_self t.mus (home t key) true (omega (arith, home-lt key v, v.mutexes)))

stuck-blocks :
    {t : Table} (key q : CString)
    → IsValid t
    → home t q ≡ home t key
    → {A : Type 0} (k : ℕ → Table → Run A)
    → (do i ← bucket_id (stuck t key) q; t' ← lock (stuck t key) i; k i t') ≡ blocked
stuck-blocks {t} key q v e k = rw (bucket_id-stuck key q v e, lock-stuck key v) refl

-- A get on a key whose bucket is empty answers that there is none and leaves the mutex of the bucket
-- locked: from then on every get, put and increment on a key of that bucket waits for good.
pub get-empty_blocks :
    {t : Table} (key : CString)
    → IsValid t
    → bucket_of t key ≡ []
    → (t' : Table) × (hash_t_get t key ≡ ok (none, t'))
      × ((q : CString)
          → home t q ≡ home t key
          → (hash_t_get t' q ≡ blocked)
            × ((memory : Bool) (n : ℕ)
                → (hash_t_put memory t' q n ≡ blocked) × (hash_t_inc memory t' q n ≡ blocked)))
unfolding hash_t_get hash_t_put hash_t_inc get_in
get-empty_blocks {t} key v e = (
  stuck t key,
  get_runs key v ∙ ap (λ c. ok (get_in (stuck t key) (home t key) key c)) e,
  λ q same_home. (
    stuck-blocks key q v same_home _,
    λ memory n. (stuck-blocks key q v same_home _, stuck-blocks key q v same_home _),
  ),
)

-- A get on a key whose chain begins with an entry under a proper prefix of the key returns the value
-- of that entry, though the table holds nothing under the key.
pub get-prefix :
    {t : Table} (key : CString) (e : Entry) (c : List Entry)
    → IsValid t
    → bucket_of t key ≡ e ∷ c
    → starts e.key key ≡ true
    → same e.key key ≡ false
    → find key c ≡ none
    → (hash_t_get t key ≡ ok (some e.val, released t key)) × (view t key ≡ none)
unfolding scan get_in unlock view
get-prefix {t} key e c v b p other absent = (
  get_runs key v ∙ ap (λ l. ok (get_in (stuck t key) (home t key) key l)) b ∙ rw p refl,
  ap (find key) b ∙ rw other absent,
)
