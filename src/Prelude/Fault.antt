-- ===== src/Prelude/Fault.antt =====
-- C code that may run into undefined behaviour: `none` is such a run.
use Prim.Native.Nat.{ℕ, zero, suc, ◌%◌, ◌<◌}
use mathlib.Core.Path.{◌≡◌, refl}
use mathlib.Core.List.{List, [], ◌∷◌}
use mathlib.Core.Option.{Option, none, some}
use native.Mathlib.Omega.{arith}
use otus_c.Prelude.Tests.{◌==◌, if◌then◌else◌}
use otus_c.Prelude.Lists.{length, set}

infixl 5 ◌>>=◌
abbrev pub ◌>>=◌ {ℓ κ} : {A : Type ℓ} {B : Type κ} → Option A → (A → Option B) → Option B
none >>= f = none
some a >>= f = f a

-- Where a chain returns, its first step does.
pub bind-eq-some {ℓ κ} :
    {A : Type ℓ} {B : Type κ} (o : Option A) (f : A → Option B) {b : B}
    → (o >>= f) ≡ some b
    → (a : A) × (o ≡ some a) × (f a ≡ some b)
bind-eq-some none f e = cc
bind-eq-some (some a) f e = (a, refl, e)

-- `a % b` of unsigned numbers; the remainder by 0 is undefined.
abbrev pub mod? : ℕ → ℕ → Option ℕ
mod? a b = if b == 0 then none else some (a % b)

-- A write to an array; outside of it, it is undefined.
module _ {ℓ} {A : Type ℓ} where
  abbrev pub store : List A → ℕ → A → Option (List A)
  store [] i v = none
  store (x ∷ xs) zero v = some (v ∷ xs)
  store (x ∷ xs) (suc i) v = store xs i v >>= λ rest. some (x ∷ rest)

  pub store-eq-set :
      (xs : List A) (i : ℕ) (v : A) → i < length xs → store xs i v ≡ some (set xs i v)
  store-eq-set [] i v h = absurd (omega arith)
  store-eq-set (x ∷ xs) zero v h = refl
  store-eq-set (x ∷ xs) (suc i) v h = ground (arith, store-eq-set xs i v)
