-- ===== src/Weather/Response.antt =====
-- hw4: what `write_response` does with the response of a server.
use otus_c.Prelude.{
  ℕ, zero, suc, ◌+◌, ◌<◌, ◌≤◌, ◌≡◌, ◌≢◌, ◌⊎◌, inl, inr, refl, true, List, [], ◌∷◌, ◌++◌, Option,
  none, some, get_elem?, length, length-append, length-take, length-drop, take, drop, store, ◌>>=◌,
  arith, ◌==◌, leb, leb→le, Bool-cases, Option-cases,
}
use otus_c.Weather.{leading, strlen, append_contents, write_response}

abbrev pub NoZero : List ℕ → Type 0
NoZero [] = Unit
NoZero (x ∷ xs) = (x ≢ 0) × NoZero xs

leading-NoZero : (xs r : List ℕ) → NoZero xs → length xs ≤ leading (xs ++ r)
leading-NoZero [] r h = omega arith
leading-NoZero (x ∷ xs) r h = ground (arith, leading-NoZero xs r h.1, h.0)

leading-take : (b r : List ℕ) → leading (take (leading b) b ++ r) ≡ leading b + leading r
leading-take [] r = omega arith
leading-take (x ∷ b) r = elim (Bool-cases (x == 0)) [
  | inl e ↦ rw e (omega arith)
  | inr e ↦ rw (e, e) (omega (arith, leading-take b r))
]

store-beyond : (xs : List ℕ) (i v : ℕ) → length xs ≤ i → store xs i v ≡ none
store-beyond [] i v h = refl
store-beyond (x ∷ xs) zero v h = absurd (omega (arith, h))
store-beyond (x ∷ xs) (suc i) v h = rw (store-beyond xs i v (omega (arith, h))) refl

leading-agree :
    (j : ℕ) (b o : List ℕ)
    → ((i : ℕ) → i < j → get_elem? b i ≡ get_elem? o i)
    → j ≤ leading o
    → j ≤ leading b
leading-agree zero b o h g = omega arith
leading-agree (suc j) b [] h g = absurd (omega (arith, g))
leading-agree (suc j) [] (x ∷ o) h g = absurd (ground (arith, h 0 (omega arith)))
leading-agree (suc j) (y ∷ b) (x ∷ o) h g =
    ground (arith, h 0 (omega arith), g, leading-agree j b o (λ i k. h (suc i) (omega (arith, k))))

leading-length : (b : List ℕ) → leading b ≤ length b
leading-length [] = omega arith
leading-length (x ∷ b) = ground (arith, leading-length b)

-- The block after the copy
abbrev written : List ℕ → List ℕ → List ℕ
written b contents = take (leading b) b ++ (contents ++ drop (leading b + length contents) b)

length-written :
    (b contents : List ℕ)
    → leading b + length contents ≤ length b
    → length (written b contents) ≡ length b
length-written b contents h =
    let rest : List ℕ = drop (leading b + length contents) b in
    omega (
      arith,
      h,
      length-append (take (leading b) b) (contents ++ rest),
      length-append contents rest,
      length-take (leading b) b,
      length-drop (leading b + length contents) b,
    )

-- What follows the copy
abbrev closing : List ℕ → List ℕ → Option (ℕ × Option (List ℕ))
closing w contents = do
  n' ← strlen w
  closed ← store w (n' + length contents) 0
  some (length contents, some closed)

-- The contents leave no zero byte in the place of the old end, so that the second `strlen` goes
-- past them.
closing-none :
    (b contents : List ℕ) (start : ℕ)
    → NoZero contents
    → 0 < length contents
    → start ≤ leading b
    → length b ≡ start + length contents + 1
    → leb (leading b + length contents) (length b) ≡ true
    → closing (written b contents) contents ≡ none
closing-none b contents start z k s l fits =
    let w : List ℕ = written b contents in
    let rest : List ℕ = drop (leading b + length contents) b in
    let same : length w ≡ length b =
      length-written b contents (leb→le (leading b + length contents) (length b) fits) in
    let long : leading b + length contents ≤ leading w =
      omega (arith, leading-take b (contents ++ rest), leading-NoZero contents rest z) in
    elim (Bool-cases (leading w == length w)) [
      | inl e ↦ rw e refl
      | inr e ↦
          rw
            (e, store-beyond w (leading w + length contents) 0 (omega (arith, same, long, s, l, k)))
            refl
    ]

-- A block with room for the string, the contents and one byte is too small.
append_contents-none :
    (b contents : List ℕ) (start : ℕ)
    → NoZero contents
    → 0 < length contents
    → start ≤ leading b
    → length b ≡ start + length contents + 1
    → append_contents b contents ≡ none
append_contents-none b contents start z k s l = elim (Bool-cases (leading b == length b)) [
  | inl e ↦ rw e refl
  | inr e ↦ elim (Bool-cases (leb (leading b + length contents) (length b))) [
    | inl fits ↦ rw (e, fits) (closing-none b contents start z k s l fits)
    | inr out ↦ rw (e, out) refl
  ]
]

-- What the code relies on: a block that `realloc` gives has the size that was asked for, and keeps the
-- bytes of the old one.
pub record Reallocs (realloc : Option (List ℕ) → ℕ → Option (List ℕ)) : Type 0 where
  pub sized : (old : Option (List ℕ)) (n : ℕ) (b : List ℕ) → realloc old n ≡ some b → length b ≡ n
  pub kept :
      (o : List ℕ) (n : ℕ) (b : List ℕ)
      → realloc (some o) n ≡ some b
      → (i : ℕ) → i < n
      → i < length o
      → get_elem? b i ≡ get_elem? o i

-- Contents that are not empty and hold no zero byte are never stored: unless `realloc` fails, which is
-- answered by 0, the call reads or writes outside of a block, whatever was gathered before.
pub write_response-undefined :
    (realloc : Option (List ℕ) → ℕ → Option (List ℕ)) (response : Option (List ℕ))
    (contents : List ℕ)
    → Reallocs realloc
    → NoZero contents
    → 0 < length contents
    → (write_response realloc response contents ≡ none)
      ⊎ (write_response realloc response contents ≡ some (0, none))
unfolding write_response
write_response-undefined realloc none contents r z k =
    elim (Option-cases (realloc none (length contents + 1))) [
      | inl e ↦ inr (rw e refl)
      | inr (b, e) ↦
          (let sized = r.sized none (length contents + 1) b e in
            inl (rw e (append_contents-none b contents 0 z k (omega arith) (omega (arith, sized)))))
    ]
write_response-undefined realloc (some o) contents r z k =
    elim (Bool-cases (leading o == length o)) [
      | inl e ↦ inl (rw e refl)
      | inr e ↦
          (let n : ℕ = leading o + length contents + 1 in
            elim (Option-cases (realloc (some o) n)) [
              | inl f ↦ inr (rw (e, f) refl)
              | inr (b, f) ↦
                  (let longer =
                      leading-agree (leading o) b o
                        (λ i h.
                          r.kept o n b f i (omega (arith, h)) (omega (arith, h, leading-length o)))
                        (omega arith) in
                    inl (
                      rw (e, f)
                        (append_contents-none b contents (leading o) z k longer
                          (r.sized (some o) n b f))))
            ])
    ]
