-- ===== src/Daemon/Descriptors.antt =====
-- The descriptors of hw10 after `daemonize`.
use otus_c.Prelude.{
  true, false, ltb, ℕ, zero, suc, ◌≤◌, ◌≡◌, refl, sym, subst, List, [], ◌∷◌, Option, none, some,
  length, arith,
}
use otus_c.Daemon.{Detached, Target, dev_null, limit, close, close_from, reopen, detach}

abbrev pub AllClosed : List (Option Target) → Type 0
AllClosed [] = Unit {0}
AllClosed (f ∷ files) = (f ≡ none) × AllClosed files

close_from-nil : (rounds i : ℕ) → close_from rounds i [] ≡ []
close_from-nil zero i = refl
close_from-nil (suc rounds) i = close_from-nil rounds (suc i)

close_from-cons :
    (rounds i : ℕ) (f : Option Target) (files : List (Option Target))
    → close_from rounds (suc i) (f ∷ files) ≡ f ∷ close_from rounds i files
close_from-cons zero i f files = refl
close_from-cons (suc rounds) i f files = close_from-cons rounds (suc i) f (close files i)

close_from-AllClosed :
    (rounds : ℕ) (files : List (Option Target))
    → length files ≤ rounds
    → AllClosed (close_from rounds 0 files)
close_from-AllClosed rounds [] h = subst AllClosed (sym (close_from-nil rounds 0)) tt
close_from-AllClosed zero (f ∷ files) h = absurd (omega arith)
close_from-AllClosed (suc rounds) (f ∷ files) h =
    subst AllClosed (sym (close_from-cons rounds 0 none files))
      (refl, close_from-AllClosed rounds files (omega arith))

-- The first three descriptors stand for /dev/null, and no other is open.
abbrev pub OnlyNull : List (Option Target) → Type 0
OnlyNull files =
    (rest : List (Option Target)) × (files ≡ some dev_null ∷ some dev_null ∷ some dev_null ∷ rest)
    × AllClosed rest

abbrev RunsTo : Detached → Type 0
RunsTo r = (r.reports ≡ false) × OnlyNull r.files

reopen-OnlyNull :
    (n : ℕ) (files : List (Option Target)) → 3 ≤ n → AllClosed files → RunsTo (reopen true n files)
reopen-OnlyNull n files few = go files
  where
    zero_lt : ltb 0 n ≡ true
    zero_lt = ground arith

    one_lt : ltb 1 n ≡ true
    one_lt = ground arith

    two_lt : ltb 2 n ≡ true
    two_lt = ground arith

    go : (files : List (Option Target)) → AllClosed files → RunsTo (reopen true n files)
    go [] h = rw (zero_lt, one_lt, two_lt) (refl, ([], refl, tt))
    go (some f ∷ files) h = absurd (let e = h.0 in cc)
    go (none ∷ []) h = rw (zero_lt, one_lt, two_lt) (refl, ([], refl, tt))
    go (none ∷ some f ∷ files) h = absurd (let e = h.1.0 in cc)
    go (none ∷ none ∷ []) h = rw (zero_lt, one_lt, two_lt) (refl, ([], refl, tt))
    go (none ∷ none ∷ some f ∷ files) h = absurd (let e = h.1.1.0 in cc)
    go (none ∷ none ∷ none ∷ files) h = rw (zero_lt, one_lt, two_lt) (refl, (files, refl, h.1.1.1))

-- Where /dev/null can be opened, the process may have three descriptors, and none is open that reaches
-- the hard limit, or 1024 where there is none: `daemonize` reports no wrong descriptors, 0, 1 and 2 stand
-- for /dev/null, and no other is left open.
pub detach-OnlyNull :
    (nofile : ℕ) (rlim_max : Option ℕ) (files : List (Option Target))
    → 3 ≤ nofile
    → length files ≤ limit rlim_max
    → ((detach true nofile rlim_max files).reports ≡ false)
      × OnlyNull (detach true nofile rlim_max files).files
unfolding detach
detach-OnlyNull nofile rlim_max files few h =
    reopen-OnlyNull nofile (close_from (limit rlim_max) 0 files) few
      (close_from-AllClosed (limit rlim_max) files h)
