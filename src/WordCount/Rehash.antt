-- ===== src/WordCount/Rehash.antt =====
-- The loop of `grow_bucket_size` of hw3, which copies the buckets to their places.
use mathlib.Core.Option.{some-injective}
use otus_c.Prelude.{
  ℕ, suc, ◌%◌, ◌<◌, ◌≡◌, ◌≢◌, inl, inr, refl, sym, ap, subst, ◌∙◌, List, [], ◌∷◌, ◌++◌, some, arith,
  length, get_elem?, set, length-set, store-eq-set, get_elem?-set_inv, Option-cases, ◌>>=◌,
}
use otus_c.Prelude.Bytes.{CString}
use otus_c.WordCount.{Bucket, HTable, hash_from, hash, rehash}

-- No bucket of the list has the key.
abbrev pub Lacks : CString → List Bucket → Type 0
Lacks key values = (i : ℕ) (b : Bucket) → get_elem? values i ≡ some b → b.key ≢ some key

-- Only the place of its hash may have the key.
abbrev pub OnlyAt : ℕ → CString → List Bucket → Type 0
OnlyAt place key values =
    (i : ℕ) (b : Bucket) → get_elem? values i ≡ some b → b.key ≡ some key → i ≡ place

-- The place of a key in a table of `size` buckets
abbrev pub place : ℕ → CString → ℕ
place size key = hash_from 0 key % size

pub hash-place : (t : HTable) (key : CString) → 0 < t.size → hash t key ≡ some (place t.size key)
unfolding hash
hash-place t key some_room = ground (arith, some_room)

OnlyAt-set :
    (size : ℕ) (key k : CString) (b : Bucket) (ptr : List Bucket)
    → b.key ≡ some k
    → OnlyAt (place size key) key ptr
    → OnlyAt (place size key) key (set ptr (place size k) b)
OnlyAt-set size key k b ptr has only i c at has' =
    elim (get_elem?-set_inv ptr (place size k) i b at) [
      | inl (e, same_bucket) ↦
          sym e
          ∙ ap (place size)
              (some-injective _ _ (sym has ∙ ap (λ (x : Bucket). x.key) same_bucket ∙ has'))
      | inr (n, old) ↦ only i c old has'
    ]

Lacks-set :
    (key k : CString) (b : Bucket) (i : ℕ) (ptr : List Bucket)
    → b.key ≡ some k
    → k ≢ key
    → Lacks key ptr
    → Lacks key (set ptr i b)
Lacks-set key k b i ptr has other lacks j c at has' = elim (get_elem?-set_inv ptr i j b at) [
  | inl (e, same_bucket) ↦
      other (some-injective _ _ (sym has ∙ ap (λ (x : Bucket). x.key) same_bucket ∙ has'))
  | inr (n, old) ↦ lacks j c old has'
]

-- A write over the only place that may have the key.
OnlyAt-Lacks :
    (p : ℕ) (key k : CString) (b : Bucket) (ptr : List Bucket)
    → b.key ≡ some k
    → k ≢ key
    → OnlyAt p key ptr
    → Lacks key (set ptr p b)
OnlyAt-Lacks p key k b ptr has other only j c at has' = elim (get_elem?-set_inv ptr p j b at) [
  | inl (e, same_bucket) ↦
      other (some-injective _ _ (sym has ∙ ap (λ (x : Bucket). x.key) same_bucket ∙ has'))
  | inr (n, old) ↦ n (only j c old has')
]

module _ (t : HTable) (some_room : 0 < t.size) where
  place-low : (key : CString) → place t.size key < t.size
  place-low key = omega (arith, some_room)

  -- A bucket with a key is copied to its place.
  rehash-cons :
      (b : Bucket) (k : CString) (old ptr : List Bucket)
      → b.key ≡ some k
      → length ptr ≡ t.size
      → rehash t (b ∷ old) ptr ≡ rehash t old (set ptr (place t.size k) b)
  unfolding rehash
  rehash-cons b k old ptr has width = simp (
    has,
    hash-place t k some_room,
    store-eq-set ptr (place t.size k) b (ground (arith, place-low k)),
  )

  pub rehash-OnlyAt :
      (key : CString) (old ptr : List Bucket)
      → length ptr ≡ t.size
      → OnlyAt (place t.size key) key ptr
      → (r : List Bucket) × (rehash t old ptr ≡ some r)
        × (length r ≡ t.size)
        × OnlyAt (place t.size key) key r
  unfolding rehash
  rehash-OnlyAt key [] ptr width only = (ptr, refl, width, only)
  rehash-OnlyAt key (b ∷ old) ptr width only = elim (Option-cases b.key) [
    | inl free ↦
        let (r, run, width', rest) = rehash-OnlyAt key old ptr width only in
        (r, rw free run, width', rest)
    | inr (k, has) ↦
        let (r, run, width', rest) =
          rehash-OnlyAt key old (set ptr (place t.size k) b) (length-set ptr _ b ∙ width)
            (OnlyAt-set t.size key k b ptr has only) in
        (r, rehash-cons b k old ptr has width ∙ run, width', rest)
  ]

  rehash-Lacks :
      (key : CString) (old ptr : List Bucket)
      → length ptr ≡ t.size
      → Lacks key old
      → Lacks key ptr
      → (r : List Bucket) × (rehash t old ptr ≡ some r) × (length r ≡ t.size) × Lacks key r
  unfolding rehash
  rehash-Lacks key [] ptr width absent lacks = (ptr, refl, width, lacks)
  rehash-Lacks key (b ∷ old) ptr width absent lacks = elim (Option-cases b.key) [
    | inl free ↦
        let (r, run, width', rest) = rehash-Lacks key old ptr width (λ i. absent (suc i)) lacks in
        (r, rw free run, width', rest)
    | inr (k, has) ↦
        let other : k ≢ key = λ e. absent 0 b refl (has ∙ ap some e) in
        let (r, run, width', rest) =
          rehash-Lacks key old (set ptr (place t.size k) b) (length-set ptr _ b ∙ width)
            (λ i. absent (suc i)) (Lacks-set key k b _ ptr has other lacks) in
        (r, rehash-cons b k old ptr has width ∙ run, width', rest)
  ]

  rehash-append :
      (xs ys ptr : List Bucket)
      → length ptr ≡ t.size
      → rehash t (xs ++ ys) ptr ≡ (rehash t xs ptr >>= λ r. rehash t ys r)
  unfolding rehash
  rehash-append [] ys ptr width = refl
  rehash-append (b ∷ xs) ys ptr width = elim (Option-cases b.key) [
    | inl free ↦ rw free (rehash-append xs ys ptr width)
    | inr (k, has) ↦
        rehash-cons b k (xs ++ ys) ptr has width
        ∙ rehash-append xs ys (set ptr (place t.size k) b) (length-set ptr _ b ∙ width)
        ∙ ap (λ o. o >>= λ r. rehash t ys r) (sym (rehash-cons b k xs ptr has width))
  ]

  -- A later key of the same place overwrites the bucket of `key`.
  pub rehash-lost :
      (key k : CString) (y : Bucket) (xs ys ptr : List Bucket)
      → length ptr ≡ t.size
      → OnlyAt (place t.size key) key ptr
      → y.key ≡ some k
      → k ≢ key
      → place t.size k ≡ place t.size key
      → Lacks key ys
      → (r : List Bucket) × (rehash t (xs ++ (y ∷ ys)) ptr ≡ some r)
        × (length r ≡ t.size)
        × Lacks key r
  rehash-lost key k y xs ys ptr width only has other collides absent =
      let (r, run, width', only') = rehash-OnlyAt key xs ptr width only in
      let (r', run', width'', lacks) =
        rehash-Lacks key ys (set r (place t.size k) y) (length-set r _ y ∙ width') absent (
          OnlyAt-Lacks (place t.size k) key k y r has other
            (subst (λ p. OnlyAt p key r) (sym collides) only')) in
      (
        r',
        rehash-append xs (y ∷ ys) ptr width
            ∙ ap (λ o. o >>= λ l. rehash t (y ∷ ys) l) run
            ∙ rehash-cons y k ys r has width'
            ∙ run',
        width'',
        lacks,
      )
