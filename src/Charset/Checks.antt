-- ===== src/Charset/Checks.antt =====
-- The translation of hw2 on short inputs.
use mathlib.Core.Option.{some-injective}
use otus_c.Prelude.{
  ℕ, zero, suc, ◌≡◌, ◌↔◌, refl, subst, Bool, true, false, List, [], ◌∷◌, Option, none, some, arith,
  get_elem?, get_elem?-lt,
}
use otus_c.Prelude.Bytes.{CString, starts}
use otus_c.Charset.Tables.{cp_1251, koi8}
use otus_c.Charset.{CodingType, coding_name, written, main}
use otus_c.Charset.Utf8.{decode}
use otus_c.Charset.Decoding.{character, characters, main-decode, character-dropped, main-unknown}

abbrev file_in : CString
file_in = b'i' ∷ b'n' ∷ []

abbrev file_out : CString
file_out = b'o' ∷ b'u' ∷ b't' ∷ []

-- A letter, a Cyrillic letter, the byte without a character, and the euro sign of cp1251
abbrev some_bytes : List ℕ
some_bytes = 0x41 ∷ 0xcf ∷ 0x98 ∷ 0x88 ∷ []

abbrev open_read : CString → Option (List ℕ)
open_read path = some some_bytes

abbrev open_write : CString → Bool
open_write path = true

some_bytes-characters : characters cp_1251 some_bytes ≡ 0x41 ∷ 0x41f ∷ 0x20ac ∷ []
some_bytes-characters = refl

main-decode_example :
    (out : List ℕ) × (main open_read open_write
        (some file_in)
        (some file_out)
        (some (b'k' ∷ b'o' ∷ b'i' ∷ b'8' ∷ []))
      ≡ some (written out))
    × (decode out ≡ some (characters koi8 some_bytes))
main-decode_example =
    main-decode open_read open_write file_in file_out some_bytes 1 _ refl refl refl refl

character-dropped_test : (character cp_1251 0x98 ≡ []) ↔ (◌≡◌ {A = ℕ} 0 0 × ◌≡◌ {A = ℕ} 0x98 0x98)
character-dropped_test = character-dropped 0 _ 0x98 refl (omega arith)

abbrev utf_8 : CString
utf_8 = b'u' ∷ b't' ∷ b'f' ∷ b'8' ∷ []

utf_8-differs :
    (i : ℕ) (c : CodingType) → get_elem? coding_name i ≡ some c → starts utf_8 c.name ≡ false
utf_8-differs zero c at = subst (λ x. starts utf_8 x.name ≡ false) (some-injective _ _ at) refl
utf_8-differs (suc zero) c at =
    subst (λ x. starts utf_8 x.name ≡ false) (some-injective _ _ at) refl
utf_8-differs (suc (suc zero)) c at =
    subst (λ x. starts utf_8 x.name ≡ false) (some-injective _ _ at) refl
utf_8-differs (suc (suc (suc i))) c at =
    absurd (omega (arith, get_elem?-lt coding_name (suc (suc (suc i))) at))

main-unknown_test : main open_read open_write (some file_in) (some file_out) (some utf_8) ≡ none
main-unknown_test = main-unknown open_read open_write file_in file_out utf_8 utf_8-differs
