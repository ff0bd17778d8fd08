-- ===== src/LogParser/HashTable/Checks.antt =====
-- The table of hw12 at concrete keys, in the manner of hw12/test/hashtable_test.c.
use otus_c.Prelude.{
  ℕ, ◌+◌, ◌<◌, ◌≡◌, ◌↔◌, ◌^◌, refl, Bool, true, false, List, [], ◌∷◌, some, none, arith, replicate,
  length,
}
use otus_c.Prelude.Words.{u64}
use otus_c.Prelude.Bytes.{CString}
use otus_c.LogParser.HashTable.{
  Entry, chain, Table, create_hash_t, hash_t_put, hash_t_inc, hash_t_get, entries, compare_pairs,
  hash_from,
}
use otus_c.LogParser.HashTable.Outcome.{ok, blocked}
use otus_c.LogParser.HashTable.Chain.{find}
use otus_c.LogParser.HashTable.Effect.{IsValid, home, view, put-Writes, inc-Writes, Writes}
use otus_c.LogParser.HashTable.Lookup.{create-IsValid, get-eq-view, released}
use otus_c.LogParser.HashTable.Defects.{get-empty_blocks, get-prefix}
use otus_c.LogParser.HashTable.Top.{entries-fill, IsNegative, compare_pairs_lem}
use otus_c.LogParser.HashTable.Release.{Freed, Frees, hash_t_free, hash_t_free-Frees}

abbrev key_a : CString
key_a = b'a' ∷ []

abbrev key_ab : CString
key_ab = b'a' ∷ b'b' ∷ []

abbrev one_entry : Entry
one_entry = record { key = key_a; val = 7 }

-- A table of one bucket, with one entry.
abbrev single : Table
single = record { size = 1; cap = 1; buckets = chain (one_entry ∷ []) ∷ []; mus = false ∷ [] }

abbrev empty_table : Table
empty_table = create_hash_t 2 (replicate 2 (chain []))

single-IsValid : IsValid single
single-IsValid = record {
  some_room = omega arith;
  small = omega arith;
  width = refl;
  mutexes = refl;
  chains = tt;
  unlocked = tt;
  counted = refl;
}

zeroed_table : IsValid empty_table × ((q : CString) → view empty_table q ≡ none)
zeroed_table = create-IsValid 2 (omega arith) (omega arith)

put-Writes_example : Writes single key_ab true (λ v. 5) 5 (hash_t_put true single key_ab 5)
put-Writes_example = put-Writes true key_ab single-IsValid (omega arith) 5

inc-Writes_example :
    Writes single key_a false (λ v. u64 (v + 3)) 3 (hash_t_inc false single key_a 3)
inc-Writes_example = inc-Writes false key_a single-IsValid (omega arith) 3

get-eq-view_example :
    (t : Table) × (hash_t_get single key_a ≡ ok (view single key_a, t))
    × IsValid t
    × ((q : CString) → view t q ≡ view single q)
unfolding home hash_from
get-eq-view_example = get-eq-view key_a single-IsValid (λ e. cc) (refl, tt)

get-empty_blocks_example :
    (t : Table) × (hash_t_get empty_table key_a ≡ ok (none, t))
    × ((q : CString)
        → home empty_table q ≡ home empty_table key_a
        → (hash_t_get t q ≡ blocked)
          × ((memory : Bool) (n : ℕ)
              → (hash_t_put memory t q n ≡ blocked) × (hash_t_inc memory t q n ≡ blocked)))
unfolding home hash_from create_hash_t
get-empty_blocks_example =
    get-empty_blocks key_a (create-IsValid 2 (omega arith) (omega arith)).0 refl

get-prefix_test :
    (hash_t_get single key_ab ≡ ok (some 7, released single key_ab)) × (view single key_ab ≡ none)
unfolding home hash_from
get-prefix_test = get-prefix key_ab one_entry [] single-IsValid refl refl refl (unfold find in refl)

entries-fill_test : (l : List Entry) × (entries 1 single.buckets ≡ ok l) × (length l ≡ 1)
entries-fill_test = entries-fill single-IsValid

compare_pairs_lem_test :
    (7 < 3 + 2 ^ 31
      → 3 < 7 + 2 ^ 31
      → (IsNegative (compare_pairs one_entry (record one_entry { val = 3 })) ↔ (3 < 7))
        × ((compare_pairs one_entry (record one_entry { val = 3 }) ≡ 0) ↔ ◌≡◌ {A = ℕ} 7 3))
    × (3 + 2 ^ 31 < 7
        → 7 < 3 + 2 ^ 32
        → (0 < compare_pairs one_entry (record one_entry { val = 3 }))
          × (compare_pairs one_entry (record one_entry { val = 3 }) < 2 ^ 31))
compare_pairs_lem_test =
    compare_pairs_lem one_entry (record one_entry { val = 3 }) (omega arith) (omega arith)

hash_t_free-Frees_example :
    (freed : List Freed) × (l : List Entry) × (hash_t_free single ≡ ok freed)
    × (entries 1 (single.buckets) ≡ ok l)
    × Frees freed l 0 1
hash_t_free-Frees_example = hash_t_free-Frees single-IsValid
