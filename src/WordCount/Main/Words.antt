-- ===== src/WordCount/Main/Words.antt =====
-- The words that `main` of hw3 takes from the text with `strtok`.
use otus_c.Prelude.{
  Bool, ◌==◌, ◌||◌, ℕ, zero, suc, ◌<◌, ◌≤◌, ◌≡◌, refl, sym, ap, ◌∙◌, inl, inr, true, false, List,
  [], ◌∷◌, if◌then◌else◌, length, arith, Bool-cases, ◌⊎◌,
}
use otus_c.Prelude.Bytes.{CString}
use otus_c.WordCount.Main.{is_delimiter, skip, word_at, token, strtok, tokens, and_rest}

-- A word that has begun is among the words unless it is empty.
abbrev pub close : CString × List CString → List CString
close ([], words) = words
close (c ∷ w, words) = (c ∷ w) ∷ words

abbrev among : List ℕ → ℕ → Bool
among [] c = false
among (x ∷ l) c = x == c || among l c

-- The bytes that separate words: space, comma, dot, newline and tab
unfoldable pub separates : ℕ → Bool
separates c = among (32 ∷ 44 ∷ 46 ∷ 10 ∷ 9 ∷ []) c

is_delimiter-separates : (c : ℕ) → is_delimiter c ≡ separates c
unfolding separates
is_delimiter-separates c = ground arith

separates-same : (c : ℕ) (b : Bool) → is_delimiter c ≡ b → separates c ≡ b
separates-same c b e = sym (is_delimiter-separates c) ∙ e

-- The characters before the first byte that separates words, and the words behind it
abbrev pub parts : CString → CString × List CString
parts [] = ([], [])
parts (c ∷ s) = if separates c then ([], close (parts s)) else (c ∷ (parts s).0, (parts s).1)

-- The longest parts of a text without a byte that separates words, in order
abbrev pub split : CString → List CString
split s = close (parts s)

split-skip : (s : CString) → split (skip s) ≡ split s
split-skip [] = refl
split-skip (c ∷ s) = elim (Bool-cases (is_delimiter c)) [
  | inl d ↦ rw (d, separates-same c true d) (split-skip s)
  | inr n ↦ (let whole : skip (c ∷ s) ≡ c ∷ s = rw n refl in ap split whole)
]

parts-word_at : (s : CString) → parts s ≡ ((word_at s).0, split (word_at s).1)
parts-word_at [] = refl
parts-word_at (c ∷ s) = elim (Bool-cases (is_delimiter c)) [
  | inl d ↦ rw (d, separates-same c true d) refl
  | inr n ↦
      rw (n, separates-same c false n) (λ i. (c ∷ (parts-word_at s i).0, (parts-word_at s i).1))
]

length-word_at : (s : CString) → length (word_at s).1 ≤ length s
length-word_at [] = omega arith
length-word_at (c ∷ s) = ground (arith, length-word_at s)

length-skip : (s : CString) → length (skip s) ≤ length s
length-skip [] = omega arith
length-skip (c ∷ s) = ground (arith, length-skip s)

skip-cases :
    (s : CString)
    → (skip s ≡ []) ⊎ ((c : ℕ) × (r : CString) × (skip s ≡ c ∷ r) × (is_delimiter c ≡ false))
skip-cases [] = inl refl
skip-cases (c ∷ s) = elim (Bool-cases (is_delimiter c)) [
  | inl d ↦ rw d (skip-cases s)
  | inr n ↦ inr (c, s, rw n refl, n)
]

-- The word of a character that is no delimiter
begun :
    (c : ℕ) (r : CString)
    → is_delimiter c ≡ false
    → (word_at (c ∷ r)).0 ∷ split (word_at (c ∷ r)).1 ≡ split (c ∷ r)
begun c r n =
    let start : (word_at (c ∷ r)).0 ≡ c ∷ (word_at r).0 = rw n refl in
    let words : List CString = split (word_at (c ∷ r)).1 in
    ap (λ w. w ∷ words) start
    ∙ ap (λ w. close (w, words)) (sym start)
    ∙ ap close (sym (parts-word_at (c ∷ r)))

length-after :
    (c : ℕ) (r : CString) → is_delimiter c ≡ false → length (word_at (c ∷ r)).1 ≤ length r
length-after c r n = rw n (length-word_at r)

pub tokens-eq-split : (fuel : ℕ) (s : CString) → length s < fuel → tokens fuel s ≡ split s
unfolding tokens strtok
tokens-eq-split zero s h = absurd (omega arith)
tokens-eq-split (suc fuel) s h = elim (skip-cases s) [
  | inl e ↦ ap (λ x. and_rest (tokens fuel) (token x)) e ∙ ap split (sym e) ∙ split-skip s
  | inr (c, r, e, n) ↦
      (let again =
          tokens-eq-split fuel (word_at (c ∷ r)).1
            (omega (arith, h, length-after c r n, length-skip s, ap length e)) in
        ap (λ x. and_rest (tokens fuel) (token x)) e
        ∙ ap (λ words. (word_at (c ∷ r)).0 ∷ words) again
        ∙ begun c r n
        ∙ ap split (sym e)
        ∙ split-skip s)
]
