-- ===== src/WordCount/Main/Safe.antt =====
-- Every operation of hw3/src/hashtable.c stays inside of the array, also where the table grows.
use otus_c.Prelude.{
  ℕ, zero, suc, ◌+◌, ◌*◌, ◌%◌, ◌^◌, ◌<◌, ◌≤◌, ◌≡◌, ◌⊎◌, refl, sym, ◌∙◌, inl, inr, Bool, true, false,
  Option, some, length, arith, ◌==◌, Bool-cases, set, length-set, store-eq-set,
}
use otus_c.Prelude.Bytes.{CString}
use otus_c.WordCount.{
  Bucket, HTable, uint32_max, size_max, is_vacant, find_index, set_value, replace_value, value_at,
  get, fill, insert_from,
}
use otus_c.WordCount.Probe.{IsSized, bucket_at, next_index, find_from-Found}
use otus_c.WordCount.Rehash.{place, hash-place}

-- The table with room for `n` more words. It doubles only when it has as many entries as buckets.
pub record Fits (n : ℕ) (t : HTable) : Type 0 where
  pub sized : IsSized t
  pub grown : t.size ≤ 10 + 2 * t.cap
  pub room : t.cap + n < 2 ^ 30

-- A result, after which the table has room for `n` more words where it says that the word is added
abbrev pub Ends : ℕ → Option (Bool × HTable) → Type 0
Ends n o = (r : Bool × HTable) × (o ≡ some r) × (r.0 ≡ true → Fits n r.1)

-- A table of the same shape, with at most one more entry
pub record Kept (t t' : HTable) : Type 0 where
  size : t'.size ≡ t.size
  low : t.cap ≤ t'.cap
  high : t'.cap ≤ t.cap + 1
  width : length t'.values ≡ length t.values

pub Kept-Fits : {n : ℕ} {t t' : HTable} → Fits (suc n) t → Kept t t' → Fits n t'
Kept-Fits f k = record {
  sized = record {
    some_room = omega (arith, f.sized.some_room, k.size);
    small = omega (arith, f.sized.small, k.size);
    width = k.width ∙ f.sized.width ∙ sym k.size;
  };
  grown = omega (arith, f.grown, k.size, k.low);
  room = omega (arith, f.room, k.high);
}

Kept-refl : (t : HTable) → Kept t t
Kept-refl t = record { size = refl; low = omega arith; high = omega arith; width = refl }

-- A step that keeps the shape, where it succeeds
abbrev pub Keeps : HTable → Option (Bool × HTable) → Type 0
Keeps t o = (r : Bool × HTable) × (o ≡ some r) × (r.0 ≡ true → Kept t r.1)

pub Keeps-Ends :
    {n : ℕ} {t : HTable} (o : Option (Bool × HTable)) → Fits (suc n) t → Keeps t o → Ends n o
Keeps-Ends o f (r, run, k) = (r, run, λ e. Kept-Fits f (k e))

pub place-lt : (t : HTable) (key : CString) → IsSized t → place t.size key < t.size
place-lt t key v = omega (arith, v.some_room)

module _ {t : HTable} (v : IsSized t) where
  pub set_value-Kept :
      (i value : ℕ)
      → i < t.size
      → (t' : HTable) × (set_value t i value ≡ some t') × Kept t t' × (t'.cap ≡ t.cap)
  unfolding set_value
  set_value-Kept i value low =
      let (b, at) = bucket_at v i low in
      (
        record t { values = set t.values i (record b { v = value }) },
        rw (at, store-eq-set t.values i (record b { v = value }) (omega (arith, v.width))) refl,
        record {
          size = refl;
          low = omega arith;
          high = omega arith;
          width = length-set t.values i (record b { v = value });
        },
        refl,
      )

  find_index-cases :
      (key : CString) (i : ℕ)
      → i < t.size
      → (r : ℕ) × (find_index t key i ≡ some r) × ((r < t.size) ⊎ (r ≡ size_max))
  unfolding find_index
  find_index-cases key i low =
      let (r, run, found) = find_from-Found t key v t.collision i low in
      elim found [ inl (inside, _) ↦ (r, run, inl inside) | inr (e, _) ↦ (r, run, inr e) ]

  pub replace_value-Keeps :
      (key : CString) (value i : ℕ) → i < t.size → Keeps t (replace_value t key value i)
  unfolding replace_value
  replace_value-Keeps key value i low =
      let (r, run, inside) = find_index-cases key i low in
      elim inside [
        | inr e ↦ ((false, t), rw (run, e) refl, λ h. absurd cc)
        | inl h ↦
            (let (t', set_run, k, _) = set_value-Kept r value h in
              let other : (r == size_max) ≡ false = ground (arith, v.small) in
              ((true, t'), rw (run, other, set_run) refl, λ _. k))
      ]

  pub get-defined : (key : CString) → (n : ℕ) × (get t key ≡ some n)
  unfolding get value_at
  get-defined key =
      let (r, run, inside) = find_index-cases key (place t.size key) (place-lt t key v) in
      elim inside [
        | inr e ↦ (uint32_max, rw (hash-place t key v.some_room, run, e) refl)
        | inl h ↦
            (let (b, at) = bucket_at v r h in
              let other : (r == size_max) ≡ false = ground (arith, v.small) in
              (b.v, rw (hash-place t key v.some_room, run, other, at) refl))
      ]

  fill-Keeps :
      (memory : Bool) (key : CString) (value i : ℕ)
      → i < t.size
      → Keeps t (fill memory t key value i)
  unfolding fill
  fill-Keeps false key value i low =
      let (t', run, k, _) = set_value-Kept i value low in ((false, t'), rw run refl, λ h. absurd cc)
  fill-Keeps true key value i low =
      let (t', run, k, cap) = set_value-Kept i value low in
      let b : Bucket = record { key = some key; v = value } in
      let stored = store-eq-set t'.values i b (omega (arith, v.width, k.width)) in
      (
        (true, record t' { values = set t'.values i b; cap = t'.cap + 1 }),
        rw (run, stored) refl,
        λ _. record {
          size = k.size;
          low = omega (arith, cap);
          high = omega (arith, cap);
          width = length-set t'.values i b ∙ k.width;
        },
      )

  pub insert_from-Keeps :
      (rounds : ℕ) (memory : Bool) (key : CString) (value i : ℕ)
      → i < t.size
      → Keeps t (insert_from rounds memory t key value i)
  unfolding insert_from
  insert_from-Keeps zero memory key value i low = ((false, t), refl, λ h. absurd cc)
  insert_from-Keeps (suc rounds) memory key value i low =
      let (b, at) = bucket_at v i low in
      let low' : (i + 1) % t.size < t.size = omega (arith, v.some_room) in
      elim (Bool-cases (is_vacant b.key)) [
        | inl free ↦ rw (at, free) (fill-Keeps memory key value i low)
        | inr taken ↦
            rw (at, taken, next_index v i low)
              (insert_from-Keeps rounds memory key value ((i + 1) % t.size) low')
      ]
