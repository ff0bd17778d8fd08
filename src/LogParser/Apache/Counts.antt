-- ===== src/LogParser/Apache/Counts.antt =====
-- Many calls of `hash_t_inc` on one table of hw12, in one order or another.
use otus_c.Prelude.{
  ℕ, ◌+◌, ◌^◌, ◌<◌, ◌≤◌, ◌≡◌, refl, ap, ◌∙◌, true, List, [], ◌∷◌, Option, none, some, arith, length,
  if◌then◌else◌, Bool-cases, inl, inr,
}
use otus_c.Prelude.Words.{u64}
use otus_c.Prelude.Bytes.{CString, same, same_iff}
use otus_c.LogParser.HashTable.{Table, hash_t_inc}
use otus_c.LogParser.HashTable.Outcome.{Run, ok, blocked, fault, ◌>>=◌}
use otus_c.LogParser.HashTable.Chain.{value_after}
use otus_c.LogParser.HashTable.Effect.{IsValid, view, inc-Writes}

-- The calls of `hash_t_inc` by key and delta, in order, while there is memory
pub inc_all : Table → List (CString × ℕ) → Run Table
inc_all t [] = ok t
inc_all t ((key, delta) ∷ incs) = hash_t_inc true t key delta >>= λ t'. inc_all t' incs

bind-eq-ok :
    {A B : Type 0} (r : Run A) (k : A → Run B) {b : B}
    → (r >>= k) ≡ ok b
    → (a : A) × (r ≡ ok a) × (k a ≡ ok b)
bind-eq-ok (ok a) k e = (a, refl, e)
bind-eq-ok blocked k e = cc
bind-eq-ok fault k e = cc

pub inc_all-nil : (t r : Table) → inc_all t [] ≡ ok r → t ≡ r
unfolding inc_all
inc_all-nil t r e = cc

-- Where all calls return, the first does, and the others from the table after it.
pub inc_all-cons :
    (key : CString) (delta : ℕ) (t r : Table) (incs : List (CString × ℕ))
    → inc_all t ((key, delta) ∷ incs) ≡ ok r
    → (t' : Table) × (hash_t_inc true t key delta ≡ ok t') × (inc_all t' incs ≡ ok r)
unfolding inc_all
inc_all-cons key delta t r incs e =
    bind-eq-ok (hash_t_inc true t key delta) (λ t'. inc_all t' incs) e

-- The deltas of one key
abbrev pub deltas : CString → List (CString × ℕ) → List ℕ
deltas q [] = []
deltas q ((key, delta) ∷ incs) = if same key q then delta ∷ deltas q incs else deltas q incs

abbrev pub sum : List ℕ → ℕ
sum [] = 0
sum (d ∷ ds) = d + sum ds

abbrev value : Option ℕ → ℕ
value none = 0
value (some v) = v

-- What a key holds after deltas are added, the number being kept in 64 bits
abbrev pub added : Option ℕ → List ℕ → Option ℕ
added o [] = o
added o (d ∷ ds) = some (u64 (value o + (d + sum ds)))

abbrev pub AllSmall : List (CString × ℕ) → Type 0
AllSmall [] = Unit {0}
AllSmall ((key, delta) ∷ incs) = (delta < 2 ^ 64) × AllSmall incs

added-cons :
    (o : Option ℕ) (d : ℕ) (ds : List ℕ)
    → d < 2 ^ 64
    → added (value_after true (λ v. u64 (v + d)) d o) ds ≡ added o (d ∷ ds)
added-cons none d [] small = ap some (omega arith)
added-cons none d (e ∷ ds) small = ap some (omega arith)
added-cons (some v) d [] small = ap some (omega arith)
added-cons (some v) d (e ∷ ds) small = ap some (omega arith)

added-first :
    (key : CString) (delta : ℕ) (incs : List (CString × ℕ)) (t : Table) (q : CString)
    → delta < 2 ^ 64
    → added
        (if same key q
          then value_after true (λ v. u64 (v + delta)) delta (view t key)
          else view t q)
        (deltas q incs)
      ≡ added (view t q) (deltas q ((key, delta) ∷ incs))
added-first key delta incs t q small = elim (Bool-cases (same key q)) [
  | inl e ↦ rw e (
      added-cons (view t key) delta (deltas q incs) small
      ∙ ap (λ k. added (view t k) (delta ∷ deltas q incs)) ((same_iff key q).0 e))
  | inr ne ↦ rw ne refl
]

-- On a valid table with room the calls all return and leave a valid table, in which each key holds what
-- it held before and its deltas.
pub inc_all-added :
    (t : Table) (incs : List (CString × ℕ))
    → IsValid t
    → AllSmall incs
    → t.size + length incs < 2 ^ 64
    → (t' : Table) × (inc_all t incs ≡ ok t')
      × IsValid t'
      × (t'.size ≤ t.size + length incs)
      × ((q : CString) → view t' q ≡ added (view t q) (deltas q incs))
unfolding inc_all
inc_all-added t [] v small room = (t, refl, v, omega arith, λ q. refl)
inc_all-added t ((key, delta) ∷ incs) v small room =
    let w = inc-Writes true key v (omega (arith, room)) delta in
    let (t', run, v', size, reads) =
      inc_all-added (w.table) incs (w.valid) small.1 (omega (arith, room, w.grown)) in
    (
      t',
      rw (w.returns) run,
      v',
      omega (arith, size, w.grown),
      λ q.
          reads q
          ∙ ap (λ o. added o (deltas q incs)) (w.reads q)
          ∙ added-first key delta incs t q small.0,
    )
