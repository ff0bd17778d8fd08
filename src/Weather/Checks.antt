-- ===== src/Weather/Checks.antt =====
-- hw4: the theorems at a small response and at a direction.
use otus_c.Prelude.{
  ℕ, zero, suc, ◌+◌, ◌*◌, ◌/◌, ◌%◌, ◌<◌, ◌≡◌, ◌⊎◌, refl, sym, ap, List, [], ◌∷◌, Option, none, some,
  get_elem?, length, arith, ◌∙◌,
}
use mathlib.Core.Option.{some-injective}
use otus_c.Weather.{pos, convert_to_angle, write_response}
use otus_c.Weather.Response.{Reallocs, write_response-undefined}
use otus_c.Weather.Compass.{compass, convert_to_angle-compass}

-- A block of `n` bytes that begins with those of `old`, in a memory of sevens
abbrev grow : List ℕ → ℕ → List ℕ
grow old zero = []
grow [] (suc n) = 7 ∷ grow [] n
grow (x ∷ old) (suc n) = x ∷ grow old n

length-grow : (old : List ℕ) (n : ℕ) → length (grow old n) ≡ n
length-grow [] zero = refl
length-grow (x ∷ old) zero = refl
length-grow [] (suc n) = ap suc (length-grow [] n)
length-grow (x ∷ old) (suc n) = ap suc (length-grow old n)

get_elem?-grow :
    (old : List ℕ) (n i : ℕ) → i < n → i < length old → get_elem? (grow old n) i ≡ get_elem? old i
get_elem?-grow [] n i h k = absurd (omega (arith, k))
get_elem?-grow (x ∷ old) zero i h k = absurd (omega (arith, h))
get_elem?-grow (x ∷ old) (suc n) zero h k = refl
get_elem?-grow (x ∷ old) (suc n) (suc i) h k =
    get_elem?-grow old n i (omega (arith, h)) (omega (arith, k))

abbrev old_bytes : Option (List ℕ) → List ℕ
old_bytes none = []
old_bytes (some o) = o

abbrev pub realloc : Option (List ℕ) → ℕ → Option (List ℕ)
realloc old n = some (grow (old_bytes old) n)

pub realloc-Reallocs : Reallocs realloc
realloc-Reallocs = record {
  sized = λ old n b e. ap length (sym (some-injective _ _ e)) ∙ length-grow (old_bytes old) n;
  kept = λ o n b e i h k.
      ap (λ l. get_elem? l i) (sym (some-injective _ _ e)) ∙ get_elem?-grow o n i h k;
}

write_response-undefined_test :
    (write_response realloc (some (b'a' ∷ 0 ∷ [])) (b'b' ∷ []) ≡ none)
    ⊎ (write_response realloc (some (b'a' ∷ 0 ∷ [])) (b'b' ∷ []) ≡ some (0, none))
write_response-undefined_test =
    write_response-undefined realloc (some (b'a' ∷ 0 ∷ [])) (b'b' ∷ []) realloc-Reallocs
      (λ e. absurd (omega (arith, e)), tt) (omega arith)

convert_to_angle-compass_example :
    get_elem? compass ((2 * 350 + 45) / 90 % 8) ≡ some (convert_to_angle (pos 350))
convert_to_angle-compass_example = convert_to_angle-compass 350 (omega arith)
