-- ===== src/LogParser/Apache/Search.antt =====
-- `memchr` and `strtok` on a text whose parts are known.
use otus_c.Prelude.{
  ℕ, zero, suc, ◌<◌, ◌≡◌, ◌≢◌, refl, ap, false, [], ◌∷◌, ◌++◌, some, arith, length, ◌==◌,
}
use otus_c.Prelude.Bytes.{CString}
use otus_c.LogParser.Apache.{memchr, skip_spaces, word, strtok}

abbrev pub Without : ℕ → CString → Type 0
Without c [] = Unit {0}
Without c (x ∷ s) = (x ≢ c) × Without c s

pub Without-append : (c : ℕ) (xs ys : CString) → Without c xs → Without c ys → Without c (xs ++ ys)
Without-append c [] ys hx hy = hy
Without-append c (x ∷ xs) ys hx hy = (hx.0, Without-append c xs ys hx.1 hy)

pub memchr-append :
    (c n : ℕ) (xs rest : CString)
    → Without c xs
    → length xs < n
    → memchr c n (xs ++ (c ∷ rest)) ≡ some (xs, c ∷ rest)
unfolding memchr
memchr-append c zero xs rest h low = absurd (omega arith)
memchr-append c (suc n) [] rest h low = ground arith
memchr-append c (suc n) (x ∷ xs) rest h low =
    let other : (x == c) ≡ false = ground (arith, h.0) in
    rw (other, memchr-append c n xs rest h.1 (omega arith)) refl

pub word-append : (w rest : CString) → Without b' ' w → word (w ++ (b' ' ∷ rest)) ≡ (w, rest)
unfolding word
word-append [] rest h = refl
word-append (x ∷ w) rest h =
    let other : (x == b' ') ≡ false = ground (arith, h.0) in rw (word-append w rest h.1, other) refl

-- A token that a space ends.
pub strtok-append :
    (w rest : CString) → w ≢ [] → Without b' ' w → strtok (w ++ (b' ' ∷ rest)) ≡ some (w, rest)
unfolding strtok skip_spaces
strtok-append [] rest some_byte h = absurd (some_byte refl)
strtok-append (x ∷ w) rest some_byte h =
    let other : (x == b' ') ≡ false = ground (arith, h.0) in
    rw other (ap some (word-append (x ∷ w) rest h))
