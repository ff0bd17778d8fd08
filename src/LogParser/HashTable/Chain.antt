-- ===== src/LogParser/HashTable/Chain.antt =====
-- A chain of hw12 as a map from keys to values.
use otus_c.Prelude.{
  ℕ, ◌+◌, ◌≤◌, ◌≡◌, refl, Bool, true, false, List, [], ◌∷◌, Option, none, some, arith,
  if◌then◌else◌, length,
}
use otus_c.Prelude.Bytes.{CString, same, same_iff}
use otus_c.LogParser.HashTable.{Entry, upsert}

-- The value under a key, compared as whole strings.
unfoldable pub find : CString → List Entry → Option ℕ
find key [] = none
find key (e ∷ c) = if same e.key key then some e.val else find key c

-- The value that `hash_t_put` and `hash_t_inc` leave under their key, from the one before.
abbrev pub value_after : Bool → (ℕ → ℕ) → ℕ → Option ℕ → Option ℕ
value_after true f fresh none = some fresh
value_after false f fresh none = none
value_after memory f fresh (some v) = some (f v)

pub find-upsert :
    (memory : Bool) (f : ℕ → ℕ) (fresh : ℕ) (key q : CString) (c : List Entry)
    → find q (upsert memory f fresh key c).0
      ≡ (if same key q then value_after memory f fresh (find key c) else find q c)
unfolding find upsert
find-upsert true f fresh key q [] = refl
find-upsert false f fresh key q [] = ground arith
find-upsert memory f fresh key q (e ∷ c) = ground (
  arith,
  same_iff e.key key,
  same_iff e.key q,
  same_iff key q,
  find-upsert memory f fresh key q c,
)

-- The number that `upsert` gives counts the entries that it adds.
pub length-upsert :
    (memory : Bool) (f : ℕ → ℕ) (fresh : ℕ) (key : CString) (c : List Entry)
    → length (upsert memory f fresh key c).0 ≡ length c + (upsert memory f fresh key c).1
unfolding upsert
length-upsert memory f fresh key [] = ground arith
length-upsert memory f fresh key (e ∷ c) = ground (arith, length-upsert memory f fresh key c)

pub upsert-le-one :
    (memory : Bool) (f : ℕ → ℕ) (fresh : ℕ) (key : CString) (c : List Entry)
    → (upsert memory f fresh key c).1 ≤ 1
unfolding upsert
upsert-le-one memory f fresh key [] = ground arith
upsert-le-one memory f fresh key (e ∷ c) = ground (arith, upsert-le-one memory f fresh key c)
