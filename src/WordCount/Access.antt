-- ===== src/WordCount/Access.antt =====
-- `get` and `put` of hw3 on a table with room read and write the map that it holds.
use otus_c.Prelude.{
  ℕ, ◌+◌, ◌%◌, ◌≤◌, ◌<◌, ◌≡◌, ◌⊎◌, inl, inr, refl, ap, ◌∙◌, Bool, true, false, Option, none, some,
  arith, get_elem?, set, store-eq-set, get_elem?-lt, length-set, set-set, Option-cases,
  if◌then◌else◌, ◌==◌, ltb,
}
use otus_c.Prelude.Bytes.{CString, starts_refl}
use otus_c.WordCount.{
  Bucket, HTable, size_max, uint32_max, matches, is_vacant, hash_from, hash, find_index, value_at,
  get, set_value, replace_value, fill, insert, put, grow_and_insert,
}
use otus_c.WordCount.Probe.{find_from-Found, insert_from-fill}
use otus_c.WordCount.Table.{vacant_place, Apart, Models, update, matches_inv, Models-set}

abbrev pub is_none : Option ℕ → Bool
is_none none = true
is_none (some v) = false

-- What `get` gives for an entry of the map.
abbrev pub value_of : Option ℕ → ℕ
value_of none = uint32_max
value_of (some v) = v

module _ {Known : CString → Type 0} (apart : Apart Known) {t : HTable} {f : CString → Option ℕ}
    (m : Models Known t f) where
  hash_place : (key : CString) → (index : ℕ) × (hash t key ≡ some index) × (index < t.size)
  unfolding hash
  hash_place key = (
    hash_from 0 key % t.size,
    ground (arith, m.sized.some_room),
    omega (arith, m.sized.some_room),
  )

  -- The outcome of `find_index` for a known key.
  find_index_lem :
      (key : CString) (index : ℕ)
      → Known key
      → index < t.size
      → (r : ℕ) × (find_index t key index ≡ some r)
        × (((b : Bucket) × (r < t.size)
              × (get_elem? t.values r ≡ some b)
              × (b.key ≡ some key)
              × (f key ≡ some b.v))
            ⊎ ((r ≡ size_max) × (f key ≡ none)))
  unfolding find_index
  find_index_lem key index known low =
      let (r, run, res) = find_from-Found t key m.sized t.collision index low in
      elim res [
        | inl (small, (b, at, hit)) ↦
            let (k, has, pre) = matches_inv key b.key hit in
            let same_key : k ≡ key = apart k key (m.known r b k at has) known pre in
            let has_key : b.key ≡ some key = has ∙ ap some same_key in
            (r, run, inl (b, small, at, has_key, m.reads r b key at has_key))
        | inr (e, all) ↦ (
          r,
          run,
          inr (
            e,
            elim (Option-cases (f key)) [
              | inl gone ↦ gone
              | inr (v, held) ↦
                  let (j, b, at, has) = m.stored key v held in
                  let low_j : j < t.size =
                    omega (arith, get_elem?-lt t.values j at, m.sized.width) in
                  absurd (
                    ground
                      (arith, all j b at (ap (matches key) has ∙ starts_refl key) low_j, m.whole))
            ],
          ),
        )
      ]

  not_max : (r : ℕ) → r < t.size → (r == size_max) ≡ false
  not_max r low = ground (arith, m.sized.small)

  pub get-Models : (key : CString) → Known key → get t key ≡ some (value_of (f key))
  unfolding get value_at
  get-Models key known =
      let (index, hashed, low) = hash_place key in
      let (r, found, res) = find_index_lem key index known low in
      elim res [
        | inl (b, small, at, has, held) ↦ rw (hashed, found, not_max r small, at, held) refl
        | inr (e, gone) ↦ rw (hashed, found, e, gone) refl
      ]

  set_value-at :
      (r value : ℕ) (b : Bucket)
      → r < t.size
      → get_elem? t.values r ≡ some b
      → set_value t r value ≡ some (record t { values = set t.values r (record b { v = value }) })
  unfolding set_value
  set_value-at r value b low at =
      rw (at, store-eq-set t.values r (record b { v = value }) (omega (arith, low, m.sized.width)))
        refl

  -- The table after `value` is written under `key` at place `r`.
  abbrev written : CString → ℕ → ℕ → Bucket → HTable
  written key value r b = record t {
    values = set t.values r (record { key = some key; v = value });
    cap = t.cap + (if is_vacant b.key then 1 else 0);
  }

  replace-Models :
      (key : CString) (value index r : ℕ) (b : Bucket)
      → find_index t key index ≡ some r
      → r < t.size
      → get_elem? t.values r ≡ some b
      → b.key ≡ some key
      → replace_value t key value index ≡ some (true, written key value r b)
  unfolding replace_value
  replace-Models key value index r b found low at has =
      rw (found, not_max r low, set_value-at r value b low at, has)
        (ap
          (λ c. some (
            true,
            record t { cap = c; values = set t.values r (record { key = some key; v = value }) },
          ))
          (omega arith))

  fill-Models :
      (key : CString) (value r : ℕ) (b : Bucket)
      → r < t.size
      → get_elem? t.values r ≡ some b
      → is_vacant b.key ≡ true
      → fill true t key value r ≡ some (true, written key value r b)
  unfolding fill
  fill-Models key value r b low at free =
      let e =
        store-eq-set (set t.values r (record b { v = value })) r
          (record { key = some key; v = value })
          (ground (arith, m.sized.width, length-set t.values r (record b { v = value }))) in
      rw
        (
          set_value-at r value b low at,
          e,
          set-set t.values r (record b { v = value }) (record { key = some key; v = value }),
          free,
        )
        refl

  -- Without growth `insert` fills a vacant bucket.
  insert-fill :
      (key : CString) (value index : ℕ)
      → index < t.size
      → t.cap < t.size
      → (r : ℕ) × (b : Bucket) × (r < t.size)
        × (get_elem? t.values r ≡ some b)
        × (is_vacant b.key ≡ true)
        × (insert true t key value index ≡ some (true, written key value r b))
  unfolding insert
  insert-fill key value index low room =
      let (j, c, there, e) =
        vacant_place t.values (omega (arith, room, m.counted, m.sized.width)) in
      let low_j : j < t.size = omega (arith, get_elem?-lt t.values j there, m.sized.width) in
      let (r, b, small, at, free, run) =
        insert_from-fill true t key value m.sized t.collision index low j c there e low_j
          (ground (arith, m.whole)) in
      (r, b, small, at, free, run ∙ fill-Models key value r b small at free)

  -- Where the key is in the map, or a bucket is left, and no count has reached `UINT32_MAX`, `put`
  -- updates the map; a new key takes one bucket.
  pub put-Models :
      (key : CString) (value : ℕ)
      → Known key
      → ((v : ℕ) → f key ≡ some v → v < uint32_max)
      → t.cap + (if is_none (f key) then 1 else 0) ≤ t.size
      → (t' : HTable) × (put true true t key value ≡ some (true, t'))
        × Models Known t' (update f key value)
        × (t'.size ≡ t.size)
        × (t'.cap ≡ t.cap + (if is_none (f key) then 1 else 0))
  unfolding put grow_and_insert
  put-Models key value known small room =
      let (index, hashed, low) = hash_place key in
      let (r, found, res) = find_index_lem key index known low in
      let got = get-Models key known in
      elim res [
        | inl (b, low_r, at, has, held) ↦
            let old : ltb b.v uint32_max ≡ true = ground (arith, small b.v held) in
            (
              written key value r b,
              rw (hashed, got, held, old) (replace-Models key value index r b found low_r at has),
              Models-set m key value r b known at (inl has),
              refl,
              rw (has, held) refl,
            )
        | inr (e, gone) ↦
            let fits : t.cap < t.size = ground (arith, room, gone) in
            let (r', b, low_r, at, free, run) = insert-fill key value index low fits in
            let roomy : ltb t.size (t.cap + 1) ≡ false = ground (arith, fits) in
            (
              written key value r' b,
              rw (hashed, got, gone, roomy) run,
              Models-set m key value r' b known at (inr (free, gone)),
              refl,
              rw (free, gone) refl,
            )
      ]
