-- ===== src/LogParser/CirBuffer/Window.antt =====
-- The slots from one index of a ring on, and how writes change them.
use mathlib.Core.Path.{ap₂}
use otus_c.Prelude.{
  ℕ, zero, suc, ◌+◌, ◌%◌, ◌≤◌, ◌<◌, ◌≡◌, refl, ap, List, [], ◌∷◌, ◌++◌, arith, length, get_or, set,
  get_or-set_self, get_or-set_ne,
}
use otus_c.Prelude.Ring.{steps, next_place}
use otus_c.LogParser.CirBuffer.{Slot, null}

abbrev pub window : List Slot → ℕ → ℕ → ℕ → List Slot
window slots cap h zero = []
window slots cap h (suc n) = get_or slots h null ∷ window slots cap ((h + 1) % cap) n

pub length-window : (slots : List Slot) (cap h n : ℕ) → length (window slots cap h n) ≡ n
length-window slots cap h zero = refl
length-window slots cap h (suc n) = ap suc (length-window slots cap ((h + 1) % cap) n)

-- A write at a place that the window does not reach leaves it alone.
pub window-set_apart :
    (slots : List Slot) (cap i : ℕ) (v : Slot) (h n : ℕ)
    → h < cap
    → i < cap
    → n ≤ steps cap h i
    → window (set slots i v) cap h n ≡ window slots cap h n
window-set_apart slots cap i v h zero ph pi pn = refl
window-set_apart slots cap i v h (suc n) ph pi pn =
    ap₂ ◌∷◌ (get_or-set_ne slots {i = i} {j = h} v null (ground arith)) (
      window-set_apart slots cap i v ((h + 1) % cap) n (ground (arith, next_place cap h)) pi
        (ground (arith, next_place cap h)))

-- A write at the place just behind the window extends it.
pub window-set_end :
    (slots : List Slot) (cap i : ℕ) (v : Slot) (h n : ℕ)
    → cap ≤ length slots
    → h < cap
    → i < cap
    → n ≡ steps cap h i
    → window (set slots i v) cap h (suc n) ≡ window slots cap h n ++ (v ∷ [])
window-set_end slots cap i v h zero fits ph pi pn =
    let e : i ≡ h = ground arith in rw (← e, get_or-set_self slots i v null (omega arith)) refl
window-set_end slots cap i v h (suc n) fits ph pi pn =
    ap₂ ◌∷◌ (get_or-set_ne slots {i = i} {j = h} v null (ground arith)) (
      window-set_end slots cap i v ((h + 1) % cap) n fits (ground (arith, next_place cap h)) pi
        (ground (arith, next_place cap h)))
