-- ===== src/WordCount/Counts.antt =====
-- What the loop of hw3/src/main.c leaves in the table: how often each word occurs.
use otus_c.Prelude.{
  ℕ, ◌+◌, ◌≤◌, ◌<◌, ◌≡◌, ◌≢◌, inl, inr, refl, sym, ap, subst, Bool, true, List, [], ◌∷◌, Option,
  none, some, arith, length, Bool-cases, Option-cases, if◌then◌else◌, ◌==◌, ◌&&◌,
}
use otus_c.Prelude.Words.{u32}
use otus_c.Prelude.Bytes.{CString, same, same_iff, same_refl}
use otus_c.WordCount.{HTable, uint32_max, count_word, count_words}
use otus_c.WordCount.Table.{Apart, Models, update, update_self, update_ne}
use otus_c.WordCount.Access.{is_none, value_of, get-Models, put-Models}

-- How often `word` is among `words`
abbrev pub times : CString → List CString → ℕ
times word [] = 0
times word (w ∷ words) = (if same w word then 1 else 0) + times word words

-- How many different words there are
abbrev pub distinct : List CString → ℕ
distinct [] = 0
distinct (w ∷ words) = (if times w words == 0 then 1 else 0) + distinct words

-- How many of the words are different and not in the map
abbrev pub fresh : (CString → Option ℕ) → List CString → ℕ
fresh f [] = 0
fresh f (w ∷ words) = (if is_none (f w) && times w words == 0 then 1 else 0) + fresh f words

abbrev pub bump : Option ℕ → ℕ
bump none = 1
bump (some v) = v + 1

abbrev pub add : Option ℕ → ℕ → Option ℕ
add none n = if n == 0 then none else some n
add (some v) n = some (v + n)

-- The map after the words are counted
abbrev pub plus : (CString → Option ℕ) → List CString → CString → Option ℕ
plus f words q = add (f q) (times q words)

fresh-update :
    (f : CString → Option ℕ) (w : CString) (n : ℕ) (words : List CString)
    → fresh (update f w n) words + (if is_none (f w) then 1 else 0) ≡ fresh f (w ∷ words)
fresh-update f w n [] = ground arith
fresh-update f w n (x ∷ words) = elim (Bool-cases (same x w)) [
  | inl e ↦
      let p : x ≡ w = (same_iff x w).0 e in
      rw p (ground (arith, fresh-update f w n words, update_self f w n, same_refl w))
  | inr ne ↦
      let other : x ≢ w = λ p. absurd (ground (arith, ap (λ y. same y w) p, same_refl w)) in
      ground (arith, fresh-update f w n words, update_ne f w n x other, ne)
]

plus-update :
    (f : CString → Option ℕ) (w : CString) (words : List CString) (q : CString)
    → plus (update f w (bump (f w))) words q ≡ plus f (w ∷ words) q
plus-update f w words q = elim (Bool-cases (same w q)) [
  | inl e ↦
      let p : q ≡ w = sym ((same_iff w q).0 e) in
      rw p (ground (arith, update_self f w (bump (f w)), same_refl w, Option-cases (f w)))
  | inr ne ↦
      let other : q ≢ w = λ p. absurd (ground (arith, ap (λ y. same w y) p, same_refl w)) in
      ground (arith, update_ne f w (bump (f w)) q other, ne)
]

bump_bound :
    (f : CString → Option ℕ) (w : CString) (words : List CString)
    → length (w ∷ words) < uint32_max
    → ((q : CString) (v : ℕ) → f q ≡ some v → v + length (w ∷ words) < uint32_max)
    → (q : CString) (v : ℕ) → update f w (bump (f w)) q ≡ some v
    → v + length words < uint32_max
bump_bound f w words few small q v e = elim (Bool-cases (same w q)) [
  | inr ne ↦ ground (arith, small q v)
  | inl eq ↦ elim (Option-cases (f w)) [
    | inl gone ↦ ground arith
    | inr (n, held) ↦ ground (arith, small w n held)
  ]
]

module _ {Known : CString → Type 0} (apart : Apart Known) where
  -- A round of the loop.
  count_word-Models :
      {t : HTable} {f : CString → Option ℕ} (m : Models Known t f) (w : CString)
      → Known w
      → ((v : ℕ) → f w ≡ some v → v + 1 < uint32_max)
      → t.cap + (if is_none (f w) then 1 else 0) ≤ t.size
      → (t' : HTable) × (count_word (true, true) t w ≡ some (true, t'))
        × Models Known t' (update f w (bump (f w)))
        × (t'.size ≡ t.size)
        × (t'.cap ≡ t.cap + (if is_none (f w) then 1 else 0))
  unfolding count_word
  count_word-Models {t} {f} m w known small room =
      let (t', run, m', size, cap) =
        put-Models apart m w (bump (f w)) known (λ v e. omega (arith, small v e)) room in
      (t', rw (get-Models apart m w known, next (f w) small) run, m', size, cap)
    where
      next :
          (o : Option ℕ)
          → ((v : ℕ) → o ≡ some v → v + 1 < uint32_max)
          → u32 ((if value_of o == uint32_max then 0 else value_of o) + 1) ≡ bump o
      next none small = refl
      next (some v) small = ground (arith, small v refl)

  pub count_words-Models :
      (memory : ℕ → Bool × Bool) (n : ℕ)
      → ((k : ℕ) → memory k ≡ (true, true))
      → (words : List CString) {t : HTable} {f : CString → Option ℕ} (m : Models Known t f)
      → ((w : CString) → 0 < times w words → Known w)
      → length words < uint32_max
      → ((q : CString) (v : ℕ) → f q ≡ some v → v + length words < uint32_max)
      → t.cap + fresh f words ≤ t.size
      → (t' : HTable) × (count_words memory n t words ≡ some (true, t'))
        × Models Known t' (plus f words)
        × (t'.cap ≡ t.cap + fresh f words)
        × (t'.size ≡ t.size)
  unfolding count_words
  count_words-Models memory n enough [] {t} {f} m known few small room =
      (t, refl, subst (Models Known t) (λ i q. same_map (f q) i) m, omega arith, refl)
    where
      same_map : (o : Option ℕ) → o ≡ add o 0
      same_map none = refl
      same_map (some v) = ground arith
  count_words-Models memory n enough (w ∷ words) {t} {f} m known few small room =
      let (t', run, m', size, cap) =
        count_word-Models m w (known w (ground (arith, same_refl w)))
          (λ v e. omega (arith, small w v e))
          (omega (arith, room, fresh-update f w (bump (f w)) words)) in
      let (t'', run', m'', cap', size') =
        count_words-Models memory (n + 1) enough words m' (λ q h. known q (omega (arith, h)))
          (omega (arith, few)) (bump_bound f w words few small)
          (omega (arith, room, size, cap, fresh-update f w (bump (f w)) words)) in
      (
        t'',
        rw (enough n, run) run',
        subst (Models Known t'') (λ i q. plus-update f w words q i) m'',
        omega (arith, cap, cap', fresh-update f w (bump (f w)) words),
        omega (arith, size, size'),
      )
