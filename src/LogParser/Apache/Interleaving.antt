-- ===== src/LogParser/Apache/Interleaving.antt =====
-- The increments of two threads on one table of hw12: each is made under the mutex of its bucket, so a
-- run of both is one of the interleavings of their calls.
use otus_c.Prelude.{
  ℕ, ◌+◌, ◌^◌, ◌<◌, ◌≡◌, refl, sym, ◌∙◌, List, [], ◌∷◌, ◌++◌, Option, arith, length, length-append,
}
use otus_c.Prelude.Bytes.{CString}
use otus_c.LogParser.HashTable.{Table}
use otus_c.LogParser.HashTable.Outcome.{ok}
use otus_c.LogParser.HashTable.Effect.{IsValid, view}
use otus_c.LogParser.Apache.Counts.{inc_all, deltas, sum, added, AllSmall, inc_all-added}

-- The third list has the elements of the first two, those of each in their order.
pub data Interleave : List (CString × ℕ) → List (CString × ℕ) → List (CString × ℕ) → Type 0 where
  nil : Interleave [] [] []
  left :
      {x : CString × ℕ} {xs ys zs : List (CString × ℕ)}
      → Interleave xs ys zs
      → Interleave (x ∷ xs) ys (x ∷ zs)
  right :
      {y : CString × ℕ} {xs ys zs : List (CString × ℕ)}
      → Interleave xs ys zs
      → Interleave xs (y ∷ ys) (y ∷ zs)

AllSmall-Interleave :
    {xs ys zs : List (CString × ℕ)} → Interleave xs ys zs → AllSmall xs → AllSmall ys → AllSmall zs
AllSmall-Interleave nil hx hy = tt
AllSmall-Interleave (left i) hx hy = (hx.0, AllSmall-Interleave i hx.1 hy)
AllSmall-Interleave (right i) hx hy = (hy.0, AllSmall-Interleave i hx hy.1)

AllSmall-append : (xs ys : List (CString × ℕ)) → AllSmall xs → AllSmall ys → AllSmall (xs ++ ys)
AllSmall-append [] ys hx hy = hy
AllSmall-append (x ∷ xs) ys hx hy = (hx.0, AllSmall-append xs ys hx.1 hy)

length-Interleave :
    {xs ys zs : List (CString × ℕ)} → Interleave xs ys zs → length zs ≡ length xs + length ys
length-Interleave nil = omega arith
length-Interleave (left i) = omega (arith, length-Interleave i)
length-Interleave (right i) = omega (arith, length-Interleave i)

-- The sum and the number of the deltas of a key
abbrev weight : CString → List (CString × ℕ) → ℕ × ℕ
weight q l = (sum (deltas q l), length (deltas q l))

weight-Interleave :
    (q : CString) {xs ys zs : List (CString × ℕ)}
    → Interleave xs ys zs
    → (sum (deltas q zs) ≡ sum (deltas q xs) + sum (deltas q ys))
      × (length (deltas q zs) ≡ length (deltas q xs) + length (deltas q ys))
weight-Interleave q nil = (omega arith, omega arith)
weight-Interleave q (left {x} {xs} {ys} {zs} i) = let (a, b) = weight-Interleave q i in ground arith
weight-Interleave q (right {y} {xs} {ys} {zs} i) =
    let (a, b) = weight-Interleave q i in ground arith

weight-append :
    (q : CString) (xs ys : List (CString × ℕ))
    → (sum (deltas q (xs ++ ys)) ≡ sum (deltas q xs) + sum (deltas q ys))
      × (length (deltas q (xs ++ ys)) ≡ length (deltas q xs) + length (deltas q ys))
weight-append q [] ys = (omega arith, omega arith)
weight-append q (x ∷ xs) ys = let (a, b) = weight-append q xs ys in ground arith

pub added-weight :
    (o : Option ℕ) (ds es : List ℕ)
    → sum ds ≡ sum es
    → length ds ≡ length es
    → added o ds ≡ added o es
added-weight o [] [] a b = refl
added-weight o [] (e ∷ es) a b = absurd (omega (arith, b))
added-weight o (d ∷ ds) [] a b = absurd (omega (arith, b))
added-weight o (d ∷ ds) (e ∷ es) a b = ground (arith, a)

-- On a valid table with room, however the increments of two threads interleave, all of them return, and
-- every key then holds what it holds when one thread makes all of its increments after the other.
pub inc_all-Interleave :
    (t : Table) (xs ys zs : List (CString × ℕ))
    → IsValid t
    → AllSmall xs
    → AllSmall ys
    → t.size + (length xs + length ys) < 2 ^ 64
    → Interleave xs ys zs
    → (t' : Table) × (t'' : Table) × (inc_all t zs ≡ ok t')
      × (inc_all t (xs ++ ys) ≡ ok t'')
      × ((q : CString) → view t' q ≡ view t'' q)
inc_all-Interleave t xs ys zs v hx hy room i =
    let (t', run, _, _, reads) =
      inc_all-added t zs v (AllSmall-Interleave i hx hy)
        (omega (arith, room, length-Interleave i)) in
    let (t'', run', _, _, reads') =
      inc_all-added t (xs ++ ys) v (AllSmall-append xs ys hx hy)
        (omega (arith, room, length-append xs ys)) in
    (t', t'', run, run', λ q. reads q ∙ same_sum q ∙ sym (reads' q))
  where
    same_sum :
        (q : CString) → added (view t q) (deltas q zs) ≡ added (view t q) (deltas q (xs ++ ys))
    same_sum q =
        added-weight (view t q) (deltas q zs) (deltas q (xs ++ ys))
          (omega (arith, (weight-Interleave q i).0, (weight-append q xs ys).0))
          (omega (arith, (weight-Interleave q i).1, (weight-append q xs ys).1))
