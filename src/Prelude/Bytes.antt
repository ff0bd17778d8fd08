-- ===== src/Prelude/Bytes.antt =====
-- C strings as the list of their bytes, without the closing zero.
use Prim.Native.Nat.{ℕ}
use mathlib.Core.Path.{◌≡◌, refl}
use mathlib.Core.Logic.{◌↔◌}
use mathlib.Core.Bool.{Bool, true, false, ◌&&◌}
use mathlib.Core.List.{List, [], ◌∷◌, ◌++◌}
use native.Mathlib.Omega.{arith}
use otus_c.Prelude.Tests.{◌==◌}

abbrev pub CString : Type 0
CString = List ℕ

-- `strcmp(a, b) == 0`
abbrev pub same : CString → CString → Bool
same [] [] = true
same [] (_ ∷ _) = false
same (_ ∷ _) [] = false
same (x ∷ xs) (y ∷ ys) = x == y && same xs ys

-- `strncmp(p, s, strlen(p)) == 0`
abbrev pub starts : CString → CString → Bool
starts [] _ = true
starts (_ ∷ _) [] = false
starts (x ∷ xs) (y ∷ ys) = x == y && starts xs ys

pub same_refl : (a : CString) → same a a ≡ true
same_refl [] = refl
same_refl (x ∷ xs) = ground (arith, same_refl xs)

pub same→eq : (a b : CString) → same a b ≡ true → a ≡ b
same→eq [] [] h = refl
same→eq [] (_ ∷ _) h = cc
same→eq (_ ∷ _) [] h = cc
same→eq (x ∷ xs) (y ∷ ys) h = ground (arith, same→eq xs ys)

pub same_iff : (a b : CString) → (same a b ≡ true) ↔ (a ≡ b)
same_iff a b = (same→eq a b, λ e. rw e (same_refl b))

pub starts_refl : (a : CString) → starts a a ≡ true
starts_refl [] = refl
starts_refl (x ∷ xs) = ground (arith, starts_refl xs)

-- A prefix of `s` is what `starts` accepts.
pub starts-append : (p r : CString) → starts p (p ++ r) ≡ true
starts-append [] r = refl
starts-append (x ∷ p) r = ground (arith, starts-append p r)
