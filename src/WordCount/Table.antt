-- ===== src/WordCount/Table.antt =====
-- The table of hw3 as a map from keys to counts, as long as it need not grow.
use native.Mathlib.Decide.{ℕ_discrete}
use mathlib.Core.Option.{some-injective}
use otus_c.Prelude.{
  ℕ, zero, suc, ◌+◌, ◌<◌, ◌≡◌, ◌≢◌, ◌⊎◌, inl, inr, refl, sym, ap, subst, ◌∙◌, true, false, List, [],
  ◌∷◌, Option, none, some, arith, length, get_elem?, set, length-set, get_elem?-lt,
  get_elem?-set_inv, get_elem?-set_self, get_elem?-set_ne, Bool-cases, if◌then◌else◌,
}
use otus_c.Prelude.Bytes.{CString, same, same_iff, same_refl, starts}
use otus_c.WordCount.{Bucket, HTable, matches, is_vacant}
use otus_c.WordCount.Probe.{IsSized}

abbrev pub occupied : List Bucket → ℕ
occupied [] = 0
occupied (b ∷ values) = (if is_vacant b.key then 0 else 1) + occupied values

occupied-set :
    (values : List Bucket) (i : ℕ) (new : Bucket) {b : Bucket}
    → get_elem? values i ≡ some b
    → is_vacant new.key ≡ false
    → occupied (set values i new) ≡ occupied values + (if is_vacant b.key then 1 else 0)
occupied-set [] i new h full = cc
occupied-set (x ∷ values) zero new h full = ground arith
occupied-set (x ∷ values) (suc i) new h full = omega (arith, occupied-set values i new h full)

pub vacant_place :
    (values : List Bucket)
    → occupied values < length values
    → (j : ℕ) × (b : Bucket) × (get_elem? values j ≡ some b) × (is_vacant b.key ≡ true)
vacant_place [] h = absurd (omega arith)
vacant_place (x ∷ values) h = elim (Bool-cases (is_vacant x.key)) [
  | inl free ↦ (0, x, refl, free)
  | inr taken ↦ let (j, b, at, e) = vacant_place values (ground arith) in (suc j, b, at, e)
]

-- No known key is a proper prefix of another.
abbrev pub Apart : (CString → Type 0) → Type 0
Apart Known = (a b : CString) → Known a → Known b → starts a b ≡ true → a ≡ b

-- The table holds the map `f`, each key once, all its keys being known; a probe goes through all of
-- its buckets.
pub record Models (Known : CString → Type 0) (t : HTable) (f : CString → Option ℕ) : Type 0 where
  pub sized : IsSized t
  pub whole : t.collision ≡ t.size
  pub counted : t.cap ≡ occupied t.values
  pub known :
      (i : ℕ) (b : Bucket) (k : CString) → get_elem? t.values i ≡ some b → b.key ≡ some k → Known k
  pub unique :
      (i j : ℕ) (a b : Bucket) (k : CString)
      → get_elem? t.values i ≡ some a
      → get_elem? t.values j ≡ some b
      → a.key ≡ some k
      → b.key ≡ some k
      → i ≡ j
  pub reads :
      (i : ℕ) (b : Bucket) (k : CString)
      → get_elem? t.values i ≡ some b
      → b.key ≡ some k
      → f k ≡ some b.v
  pub stored :
      (q : CString) (v : ℕ)
      → f q ≡ some v
      → (i : ℕ) × (b : Bucket) × (get_elem? t.values i ≡ some b) × (b.key ≡ some q)

abbrev pub update : (CString → Option ℕ) → CString → ℕ → CString → Option ℕ
update f key value q = if same key q then some value else f q

pub matches_inv :
    (key : CString) (o : Option CString)
    → matches key o ≡ true
    → (k : CString) × (o ≡ some k) × (starts k key ≡ true)
matches_inv key none h = cc
matches_inv key (some k) h = (k, refl, h)

key_eq :
    {key k : CString} {value : ℕ} {c : Bucket}
    → record { key = some key; v = value } ≡ c
    → c.key ≡ some k
    → key ≡ k
key_eq g has = some-injective _ _ (ap (λ (x : Bucket). x.key) g ∙ has)

pub update_self :
    (f : CString → Option ℕ) (key : CString) (value : ℕ) → update f key value key ≡ some value
update_self f key value = rw (same_refl key) refl

pub update_ne :
    (f : CString → Option ℕ) (key : CString) (value : ℕ) (k : CString)
    → k ≢ key
    → update f key value k ≡ f k
update_ne f key value k n = elim (Bool-cases (same key k)) [
  | inl e ↦ absurd (n (sym ((same_iff key k).0 e)))
  | inr e ↦ rw e refl
]

not_replaced :
    (b : Bucket) (key q : CString) (f : CString → Option ℕ)
    → (b.key ≡ some key) ⊎ ((is_vacant b.key ≡ true) × (f key ≡ none))
    → b.key ≡ some q
    → ¬ (q ≢ key)
not_replaced b key q f (inl h) has n = n (some-injective _ _ (sym has ∙ h))
not_replaced b key q f (inr (h, gone)) has n = absurd (let e = ap is_vacant has in cc)

module _ {Known : CString → Type 0} {t : HTable} {f : CString → Option ℕ}
    (m : Models Known t f) where
  -- A place other than the one written has another key.
  other_key :
      (key : CString) (i : ℕ) (b : Bucket)
      → get_elem? t.values i ≡ some b
      → (b.key ≡ some key) ⊎ ((is_vacant b.key ≡ true) × (f key ≡ none))
      → (j : ℕ) (c : Bucket) (k : CString) → j ≢ i
      → get_elem? t.values j ≡ some c
      → c.key ≡ some k
      → k ≢ key
  other_key key i b at (inl h) j c k n old has =
      λ e. n (m.unique j i c b k old at has (h ∙ ap some (sym e)))
  other_key key i b at (inr (h, gone)) j c k n old has = λ e.
      let x : f k ≡ some c.v = m.reads j c k old has in let y : f k ≡ none = ap f e ∙ gone in cc

  -- A write of `value` under `key` at a place that has the key, or that is vacant while the map has no
  -- such key.
  pub Models-set :
      (key : CString) (value i : ℕ) (b : Bucket)
      → Known key
      → get_elem? t.values i ≡ some b
      → (b.key ≡ some key) ⊎ ((is_vacant b.key ≡ true) × (f key ≡ none))
      → Models Known
          (record t {
            values = set t.values i (record { key = some key; v = value });
            cap = t.cap + (if is_vacant b.key then 1 else 0);
          })
          (update f key value)
  Models-set key value i b known_key at either = record {
    sized = record {
      some_room = m.sized.some_room;
      small = m.sized.small;
      width = length-set t.values i _ ∙ m.sized.width;
    };
    whole = m.whole;
    counted =
        ap (λ c. c + (if is_vacant b.key then 1 else 0)) m.counted
        ∙ sym (occupied-set t.values i _ at refl);
    known = λ j c k there has. elim (get_elem?-set_inv t.values i j _ there) [
      | inl (e, g) ↦ subst Known (key_eq g has) known_key
      | inr (n, old) ↦ m.known j c k old has
    ];
    unique = λ j j' a a' k there there' has has'. elim (get_elem?-set_inv t.values i j _ there) [
      | inl (e, g) ↦ elim (get_elem?-set_inv t.values i j' _ there') [
        | inl (e', g') ↦ sym e ∙ e'
        | inr (n', old') ↦ absurd (other j' a' k n' old' has' (sym (key_eq g has)))
      ]
      | inr (n, old) ↦ elim (get_elem?-set_inv t.values i j' _ there') [
        | inl (e', g') ↦ absurd (other j a k n old has (sym (key_eq g' has')))
        | inr (n', old') ↦ m.unique j j' a a' k old old' has has'
      ]
    ];
    reads = λ j c k there has. elim (get_elem?-set_inv t.values i j _ there) [
      | inl (e, g) ↦
          ap (update f key value) (sym (key_eq g has))
          ∙ update_self f key value
          ∙ ap (λ (x : Bucket). some x.v) g
      | inr (n, old) ↦ update_ne f key value k (other j c k n old has) ∙ m.reads j c k old has
    ];
    stored = λ q v e. elim (Bool-cases (same key q)) [
      | inl eq ↦ (
        i,
        _,
        get_elem?-set_self t.values i _ (get_elem?-lt t.values i at),
        ap some ((same_iff key q).0 eq),
      )
      | inr ne ↦
          let other_word : q ≢ key =
            λ e'. absurd (ground (arith, ap (λ x. same key x) e', same_refl key)) in
          let (j, c, there, has) = m.stored q v (sym (update_ne f key value q other_word) ∙ e) in
          elim (ℕ_discrete i j) [
            | yes here ↦ absurd (
                not_replaced b key q f either
                  (ap (λ (x : Bucket). x.key)
                      (some-injective _ _ (sym at ∙ ap (get_elem? t.values) here ∙ there))
                    ∙ has)
                  other_word)
            | no far ↦ (j, c, get_elem?-set_ne t.values _ far ∙ there, has)
          ]
    ];
  }
    where
      other :
          (j : ℕ) (c : Bucket) (k : CString)
          → j ≢ i
          → get_elem? t.values j ≡ some c
          → c.key ≡ some k
          → k ≢ key
      other = other_key key i b at either
