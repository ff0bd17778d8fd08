-- ===== src/Prelude/Ring.antt =====
-- Places on a ring: `% cap` at the end of an array, as the buffer of hw12 and the table of hw3
-- go round.
use native.Mathlib.Nat.{mod-eq_of_lt, mod_self}
use native.Mathlib.Decide.{dec_lt}
use otus_c.Prelude.{ℕ, ◌+◌, ◌-◌, ◌%◌, ◌<◌, ◌≡◌, arith, leb, ◌⊎◌, inl, inr, if◌then◌else◌}

-- The steps from `h` to `i` on a ring of `cap` places.
abbrev pub steps : ℕ → ℕ → ℕ → ℕ
steps cap h i = if leb h i then i - h else cap + i - h

-- The place after `h`.
pub next_place :
    (cap h : ℕ)
    → h < cap
    → ((h + 1 < cap) × ((h + 1) % cap ≡ h + 1)) ⊎ ((h + 1 ≡ cap) × ((h + 1) % cap ≡ 0))
next_place cap h p = elim (dec_lt (h + 1) cap) [
  | yes q ↦ inl (q, mod-eq_of_lt q)
  | no q ↦ let e : h + 1 ≡ cap = omega arith in inr (e, rw e (mod_self cap))
]
