-- ===== src/ZipReader/Jpeg.antt =====
-- hw1: `jpeg_offset` ends, and where it finds the end of the image.
use otus_c.Prelude.{
  ◌⊎◌, ℕ, zero, suc, ◌-◌, ◌<◌, ◌≤◌, ◌≡◌, refl, sym, subst, Bool, false, ◌&&◌, List, [], ◌∷◌, Option,
  some, length, drop, arith, Bool-cases, inl, inr, length-drop,
}
use otus_c.Prelude.Words.{u32}
use otus_c.ZipReader.{is_pair, find_eoi, jpeg_offset}
use otus_c.ZipReader.Stream.{File, file_at, read_bytes, tell}

-- The position that a search gives, in a file that is otherwise as before.
abbrev pub EndsIn : List ℕ → Option (ℕ × File) → Type 0
EndsIn content r = (p : ℕ × File) × (r ≡ some p) × (p.1.content ≡ content)

-- What a round does: it goes on after two bytes, or it ends the search.
find_eoi-cases :
    (rounds : ℕ) (b : Bool) (c r : List ℕ)
    → ((find_eoi (suc rounds) b (file_at c r) ≡ find_eoi rounds b (file_at c (drop 2 r)))
        × (2 ≤ length r))
      ⊎ EndsIn c (find_eoi (suc rounds) b (file_at c r))
unfolding read_bytes tell find_eoi
find_eoi-cases rounds b c [] = inr ((0, _), refl, refl)
find_eoi-cases rounds b c (x ∷ []) = inr ((0, _), refl, refl)
find_eoi-cases rounds b c (x ∷ y ∷ r) = elim (Bool-cases (is_pair 0xff 0xd9 (x ∷ y ∷ []) && b)) [
  | inl e ↦ inr ((u32 (length c - length r), file_at c r), rw e refl, refl)
  | inr e ↦ inl (rw e refl, omega arith)
]

find_eoi-ends :
    (rounds : ℕ) (b : Bool) (c r : List ℕ)
    → length r < rounds
    → EndsIn c (find_eoi rounds b (file_at c r))
find_eoi-ends zero b c r h = ground arith
find_eoi-ends (suc rounds) b c r h = elim (find_eoi-cases rounds b c r) [
  | inl e ↦
      subst (EndsIn c) (sym e.0)
        (find_eoi-ends rounds b c (drop 2 r) (omega (arith, length-drop 2 r, e.1, h)))
  | inr e ↦ e
]

-- With more rounds than the file has bytes the search ends, and the bytes stay.
pub jpeg_offset-ends :
    (rounds : ℕ) (buffer content : List ℕ)
    → length content < rounds
    → EndsIn content (jpeg_offset rounds buffer (file_at content content))
unfolding read_bytes jpeg_offset find_eoi
jpeg_offset-ends rounds buffer content h =
    find_eoi-ends rounds _ content (drop 2 content) (omega (arith, length-drop 2 content, h))

abbrev pub bytes_of : List (ℕ × ℕ) → List ℕ → List ℕ
bytes_of [] r = r
bytes_of (p ∷ ps) r = p.0 ∷ p.1 ∷ bytes_of ps r

-- No pair of bytes is the marker of the end.
abbrev pub NoEoi : List (ℕ × ℕ) → Type 0
NoEoi [] = Unit
NoEoi (p ∷ ps) = (is_pair 0xff 0xd9 (p.0 ∷ p.1 ∷ []) ≡ false) × NoEoi ps

abbrev pub image : List (ℕ × ℕ) → List ℕ → List ℕ
image ps r = 0xff ∷ 0xd8 ∷ bytes_of ps (0xff ∷ 0xd9 ∷ r)
