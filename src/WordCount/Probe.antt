-- ===== src/WordCount/Probe.antt =====
-- The probing loops of hw3: with a round for every bucket they see the whole table.
use native.Mathlib.Decide.{ℕ_discrete}
use mathlib.Core.Option.{some-injective}
use otus_c.Prelude.{
  ℕ, zero, suc, ◌+◌, ◌%◌, ◌^◌, ◌≤◌, ◌<◌, ◌≡◌, ◌≢◌, ◌⊎◌, inl, inr, refl, sym, ap, ◌∙◌, Bool, true,
  false, some, arith, length, get_elem?, get_or, get_elem?-eq-get_or, Bool-cases, mod?,
}
use otus_c.Prelude.Words.{u64}
use otus_c.Prelude.Bytes.{CString}
use otus_c.Prelude.Ring.{steps, next_place}
use otus_c.WordCount.{
  Bucket, HTable, size_max, vacant, matches, is_vacant, find_from, fill, insert_from,
}

-- The array is as long as `size` says, and its indices fit the types of the loops.
pub record IsSized (t : HTable) : Type 0 where
  pub some_room : 0 < t.size
  pub small : t.size < 2 ^ 32
  pub width : length t.values ≡ t.size

pub bucket_at :
    {t : HTable} → IsSized t → (i : ℕ) → i < t.size → (b : Bucket) × (get_elem? t.values i ≡ some b)
bucket_at {t} v i low =
    (get_or t.values i vacant, get_elem?-eq-get_or t.values i vacant (omega (arith, v.width)))

-- The next index, as the loops compute it.
pub next_index :
    {t : HTable}
    → IsSized t
    → (i : ℕ) → i < t.size
    → mod? (u64 (i + 1)) t.size ≡ some ((i + 1) % t.size)
next_index {t} v i low = let e : u64 (i + 1) ≡ i + 1 = omega (arith, v.small) in rw e (ground arith)

-- The outcome of `find_index`: an index whose bucket matches, or `SIZE_MAX` and no bucket within the
-- rounds matches.
abbrev pub Found : HTable → CString → ℕ → ℕ → ℕ → Type 0
Found t key rounds index r =
    ((r < t.size) × ((b : Bucket) × (get_elem? t.values r ≡ some b) × (matches key b.key ≡ true)))
    ⊎ ((r ≡ size_max)
        × ((j : ℕ) (b : Bucket)
            → get_elem? t.values j ≡ some b
            → matches key b.key ≡ true
            → j < t.size
            → rounds ≤ steps t.size index j))

-- A bucket that does not match is passed over.
Found-next :
    (t : HTable) (key : CString) (rounds index r : ℕ) {b : Bucket}
    → index < t.size
    → get_elem? t.values index ≡ some b
    → matches key b.key ≡ false
    → Found t key rounds ((index + 1) % t.size) r
    → Found t key (suc rounds) index r
Found-next t key rounds index r low at miss (inl hit) = inl hit
Found-next t key rounds index r {b} low at miss (inr (e, all)) = inr (e, farther)
  where
    farther :
        (j : ℕ) (b' : Bucket)
        → get_elem? t.values j ≡ some b'
        → matches key b'.key ≡ true
        → j < t.size
        → suc rounds ≤ steps t.size index j
    farther j b' at' hit jlow = elim (ℕ_discrete j index) [
      | yes same_place ↦
          let same_bucket : b' ≡ b =
            some-injective _ _ (sym at' ∙ ap (get_elem? t.values) same_place ∙ at) in
          absurd (ground (arith, ap (λ c. matches key c.key) same_bucket))
      | no other ↦ ground (arith, all j b' at' hit jlow, next_place t.size index)
    ]

pub find_from-Found :
    (t : HTable) (key : CString)
    → IsSized t
    → (rounds index : ℕ) → index < t.size
    → (r : ℕ) × (find_from rounds t key index ≡ some r) × Found t key rounds index r
unfolding find_from
find_from-Found t key v zero index low = (size_max, refl, inr (refl, λ j b at m h. omega arith))
find_from-Found t key v (suc rounds) index low =
    let (b, at) = bucket_at v index low in
    let (r, run, res) =
      find_from-Found t key v rounds ((index + 1) % t.size)
        (ground (arith, next_place t.size index)) in
    elim (Bool-cases (matches key b.key)) [
      | inl hit ↦ (index, rw (at, hit) refl, inl (low, (b, at, hit)))
      | inr miss ↦ (
        r,
        rw (at, next_index v index low, miss) run,
        Found-next t key rounds index r low at miss res,
      )
    ]

not_vacant : {b c : Bucket} → b ≡ c → is_vacant b.key ≡ false → is_vacant c.key ≢ true
not_vacant e f g = cc (sym f ∙ ap (λ (x : Bucket). is_vacant x.key) e ∙ g)

-- `insert` meets a vacant bucket, if there is one within its rounds, and fills the first.
pub insert_from-fill :
    (memory : Bool) (t : HTable) (key : CString) (value : ℕ)
    → IsSized t
    → (rounds index : ℕ) → index < t.size
    → (j : ℕ) (b : Bucket) → get_elem? t.values j ≡ some b
    → is_vacant b.key ≡ true
    → j < t.size
    → steps t.size index j < rounds
    → (i : ℕ) × (b' : Bucket) × (i < t.size)
      × (get_elem? t.values i ≡ some b')
      × (is_vacant b'.key ≡ true)
      × (insert_from rounds memory t key value index ≡ fill memory t key value i)
unfolding insert_from
insert_from-fill memory t key value v zero index low j b at e jlow h = absurd (omega arith)
insert_from-fill memory t key value v (suc rounds) index low j b at e jlow h =
    let (first, here) = bucket_at v index low in
    elim (Bool-cases (is_vacant first.key)) [
      | inl free ↦ (index, first, low, here, free, rw (here, free) refl)
      | inr taken ↦
          let apart : j ≢ index = λ same_place.
            not_vacant
              (some-injective _ _ (sym here ∙ ap (get_elem? t.values) (sym same_place) ∙ at)) taken
              e in
          let (i, b', ilow, found, free, run) =
            insert_from-fill memory t key value v rounds ((index + 1) % t.size)
              (ground (arith, next_place t.size index)) j b at e jlow
              (ground (arith, next_place t.size index)) in
          (i, b', ilow, found, free, rw (here, taken, next_index v index low) run)
    ]
