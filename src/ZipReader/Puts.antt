-- ===== src/ZipReader/Puts.antt =====
-- hw1: what `puts` writes of the names of an archive.
use mathlib.Core.Logic.Or
use mathlib.Core.List.{Mem, mem-cons, not-mem-nil}
use otus_c.Prelude.{ℕ, ◌≡◌, ◌≢◌, refl, sym, Option, none, some, false, List, [], ◌∷◌, ◌++◌, arith}
use otus_c.Prelude.Bytes.{CString}
use otus_c.ZipReader.{puts, put_next, put_all, put_names, printed, undefined}

-- No byte is a zero.
abbrev pub Nonzero : List ℕ → Type 0
Nonzero [] = Unit
Nonzero (b ∷ bs) = (b ≢ 0) × Nonzero bs

-- Each name is a text without a zero byte, then a zero byte, and whatever comes after it.
abbrev pub Hold : List CString → List (List ℕ) → Type 0
Hold [] [] = Unit
Hold [] (_ ∷ _) = ⊥
Hold (_ ∷ _) [] = ⊥
Hold (t ∷ ts) (b ∷ bs) = ((rest : List ℕ) × (b ≡ t ++ 0 ∷ rest)) × Nonzero t × Hold ts bs

puts-zero : (t rest : List ℕ) → Nonzero t → puts (t ++ 0 ∷ rest) ≡ some t
unfolding puts
puts-zero [] rest h = refl
puts-zero (b ∷ t) rest h = ground (arith, puts-zero t rest h.1)

puts-Nonzero : (t : List ℕ) → Nonzero t → puts t ≡ none
unfolding puts
puts-Nonzero [] h = refl
puts-Nonzero (b ∷ t) h = ground (arith, puts-Nonzero t h.1)

pub put_all-Hold : (ts : List CString) (bs : List (List ℕ)) → Hold ts bs → put_all bs ≡ some ts
unfolding put_all
put_all-Hold [] [] h = refl
put_all-Hold [] (_ ∷ _) h = absurd h
put_all-Hold (_ ∷ _) [] h = absurd h
put_all-Hold (t ∷ ts) (b ∷ bs) ((rest, same), n, h) =
    rw (same, put_all, puts-zero t rest n, put_all-Hold ts bs h) refl

put_next-none : (t : Option CString) → put_next t none ≡ none
put_next-none none = refl
put_next-none (some _) = refl

pub put_all-Mem : (t : List ℕ) (bs : List (List ℕ)) → Nonzero t → Mem t bs → put_all bs ≡ none
unfolding put_all
put_all-Mem t [] n m = absurd (not-mem-nil m)
put_all-Mem t (b ∷ bs) n m =
    Or.elim (hlevel) (mem-cons.0 m) (λ e. rw (sym e, put_all, puts-Nonzero t n) refl)
      (λ m'. rw (put_all, put_all-Mem t bs n m') (put_next-none (puts b)))

pub put_names-some :
    (ts : List CString) (bs : List (List ℕ))
    → put_all bs ≡ some ts
    → put_names false bs ≡ printed false ts
put_names-some ts bs h = rw (put_names, h) refl

pub put_names-none : (bs : List (List ℕ)) → put_all bs ≡ none → put_names false bs ≡ undefined
put_names-none bs h = rw (put_names, h) refl
