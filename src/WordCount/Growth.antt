-- ===== src/WordCount/Growth.antt =====
-- `grow_bucket_size` of hw3: what it loses, and what it leaves where `malloc` fails.
use otus_c.Prelude.{
  ℕ, zero, suc, ◌*◌, ◌≤◌, ◌<◌, ◌≡◌, ◌≢◌, refl, ap, ◌∙◌, true, false, List, [], ◌∷◌, ◌++◌, none,
  some, arith, length, get_elem?, replicate, length-replicate,
}
use otus_c.Prelude.Words.{u64}
use otus_c.Prelude.Bytes.{CString}
use otus_c.WordCount.{Bucket, HTable, vacant, rehash, grow_bucket_size, get, find_index, find_from}
use otus_c.WordCount.Probe.{IsSized}
use otus_c.WordCount.Listing.{keyless}
use otus_c.WordCount.Rehash.{Lacks, place, hash-place, rehash-lost}

pub grow_bucket_size-rehash :
    (t : HTable) (r : List Bucket)
    → u64 (t.size * 2) ≡ t.size * 2
    → rehash (record t { size = t.size * 2 }) t.values (replicate (t.size * 2) vacant) ≡ some r
    → grow_bucket_size true t ≡ some (true, record t { size = t.size * 2; values = r })
unfolding grow_bucket_size
grow_bucket_size-rehash t r wide run = rw (wide, run) refl

-- If a later bucket has another key with the same place in the table of double size, and the key
-- itself does not come after it, `grow_bucket_size` succeeds and no bucket has the key any more.
pub grow_bucket_size-loses :
    (t : HTable) (key k : CString) (y : Bucket) (xs ys : List Bucket)
    → IsSized t
    → t.values ≡ xs ++ (y ∷ ys)
    → y.key ≡ some k
    → k ≢ key
    → place (t.size * 2) k ≡ place (t.size * 2) key
    → Lacks key ys
    → (t' : HTable) × (grow_bucket_size true t ≡ some (true, t'))
      × (t'.size ≡ t.size * 2)
      × (t'.cap ≡ t.cap)
      × Lacks key t'.values
grow_bucket_size-loses t key k y xs ys v split has other collides absent =
    let wide : u64 (t.size * 2) ≡ t.size * 2 = omega (arith, v.small) in
    let t' = record t { size = t.size * 2 } in
    let (r, run, width, lacks) =
      rehash-lost t' (omega (arith, v.some_room)) key k y xs ys (replicate (t.size * 2) vacant)
        (length-replicate (t.size * 2) vacant)
        (λ i b at has'. absurd (keyless (t.size * 2) i at has')) has other collides absent in
    let run' : rehash t' t.values (replicate (t.size * 2) vacant) ≡ some r =
      ap (λ l. rehash t' l (replicate (t.size * 2) vacant)) split ∙ run in
    (record t' { values = r }, grow_bucket_size-rehash t r wide run', refl, refl, lacks)

-- Past the end of the array there is no bucket.
beyond : (values : List Bucket) (i : ℕ) → length values ≤ i → get_elem? values i ≡ none
beyond [] i h = refl
beyond (b ∷ values) zero h = absurd (omega arith)
beyond (b ∷ values) (suc i) h = beyond values i (omega arith)

-- Where `malloc` fails, `grow_bucket_size` answers so, but the table has the double size all the same:
-- a `get` on a key whose place is in the upper half then reads outside of the array.
pub grow_bucket_size-no_memory :
    (t : HTable) (key : CString)
    → IsSized t
    → 0 < t.collision
    → t.size ≤ place (t.size * 2) key
    → (t' : HTable) × (grow_bucket_size false t ≡ some (false, t'))
      × (t'.values ≡ t.values)
      × (get t' key ≡ none)
unfolding grow_bucket_size get find_index find_from
grow_bucket_size-no_memory t key v rounds upper =
    let wide : u64 (t.size * 2) ≡ t.size * 2 = omega (arith, v.small) in
    let t' = record t { size = t.size * 2 } in
    let p = place (t.size * 2) key in
    let unread : find_from t.collision t' key p ≡ none =
      none_from t.collision t' p rounds (beyond t.values p (omega (arith, v.width, upper))) in
    (t', rw wide refl, refl, rw (hash-place t' key (omega (arith, v.some_room)), unread) refl)
  where
    none_from :
        (n : ℕ) (u : HTable) (i : ℕ)
        → 0 < n
        → get_elem? u.values i ≡ none
        → find_from n u key i ≡ none
    none_from zero u i h e = absurd (omega arith)
    none_from (suc n) u i h e = rw e refl
