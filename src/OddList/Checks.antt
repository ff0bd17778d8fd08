-- ===== src/OddList/Checks.antt =====
-- The array of hw5/src/main.c.
use mathlib.Core.List.{reverse}
use otus_c.Prelude.{ℕ, ◌≡◌, refl, true, List, [], ◌∷◌, some}
use otus_c.OddList.{main}
use otus_c.OddList.Output.{odds, main-prints}

abbrev array : List ℕ
array = 4 ∷ 8 ∷ 15 ∷ 16 ∷ 23 ∷ 42 ∷ []

odds_of_array : reverse (odds array) ≡ 23 ∷ 15 ∷ []
unfolding otus_c.OddList.p
odds_of_array = refl

main-prints_example : main (λ n. true) array ≡ some (array, reverse (odds array))
main-prints_example = main-prints (λ n. true) array (λ k. refl)
