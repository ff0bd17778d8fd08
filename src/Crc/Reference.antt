-- ===== src/Crc/Reference.antt =====
-- The table-driven round of hw11 against the bit-by-bit division by the reflected polynomial.
use Prim.Native.Nat.{bit_xor}
use native.Mathlib.Nat.{pow-suc}
use otus_c.Prelude.{
  ℕ, zero, suc, ◌+◌, ◌*◌, ◌/◌, ◌%◌, ◌^◌, ◌<◌, ◌≡◌, refl, ap, ◌∙◌, Bool, true, ◌&&◌, List, [], ◌∷◌,
  ◌++◌, arith, ◌==◌, if◌then◌else◌, get_or, some, length,
}
use otus_c.Prelude.Bits.{
  xor_half, xor_lowest, xor_comm, xor_assoc, xor_self, xor-zero, zero-xor, xor_fields, xor_drop,
  and_255,
}
use otus_c.Crc.{crc32_tab, crc_round, crc32}

-- The polynomial of CRC-32, its digits in reverse order.
abbrev pub poly : ℕ
poly = 0xedb88320

-- One digit of the division.
pub shift_digit : ℕ → ℕ
shift_digit a = if a % 2 == 1 then bit_xor (a / 2) poly else a / 2

pub shift_digits : ℕ → ℕ → ℕ
shift_digits zero a = a
shift_digits (suc n) a = shift_digits n (shift_digit a)

-- The round that takes in one byte, digit by digit.
pub reference_round : ℕ → ℕ → ℕ
reference_round crc b = shift_digits 8 (bit_xor crc b)

unfoldable pub reference : List ℕ → ℕ → ℕ
reference [] crc = crc
reference (b ∷ bs) crc = reference bs (reference_round crc b)

xor_cancel_right : (a b c : ℕ) → bit_xor (bit_xor a c) (bit_xor b c) ≡ bit_xor a b
xor_cancel_right a b c =
    rw (xor_assoc a c (bit_xor b c), xor_comm b c, ← xor_assoc c c b, xor_self c, zero-xor b) refl

xor_swap_right : (a b c : ℕ) → bit_xor (bit_xor a c) b ≡ bit_xor (bit_xor a b) c
xor_swap_right a b c = rw (xor_assoc a c b, xor_comm c b, ← xor_assoc a b c) refl

-- A digit of the division distributes over exclusive or.
shift_digit-xor : (a b : ℕ) → shift_digit (bit_xor a b) ≡ bit_xor (shift_digit a) (shift_digit b)
unfolding shift_digit
shift_digit-xor a b =
    rw (xor_half a b, xor_lowest a b)
      (ground (
        arith,
        xor_cancel_right (a / 2) (b / 2) poly,
        xor_swap_right (a / 2) (b / 2) poly,
        xor_assoc (a / 2) (b / 2) poly,
      ))

shift_digits-xor :
    (n a b : ℕ) → shift_digits n (bit_xor a b) ≡ bit_xor (shift_digits n a) (shift_digits n b)
unfolding shift_digits
shift_digits-xor zero a b = refl
shift_digits-xor (suc n) a b =
    rw (shift_digit-xor a b) (shift_digits-xor n (shift_digit a) (shift_digit b))

shift_digit-even : (q n : ℕ) → shift_digit (q * 2 ^ suc n) ≡ q * 2 ^ n
unfolding shift_digit
shift_digit-even q n = ground (arith, ap (λ (t : ℕ). q * t) (pow-suc 2 n))

-- Digits that are zero are shifted out.
shift_digits-pow : (n q : ℕ) → shift_digits n (q * 2 ^ n) ≡ q
unfolding shift_digits
shift_digits-pow zero q = omega arith
shift_digits-pow (suc n) q = rw (shift_digit-even q n) (shift_digits-pow n q)

-- The entries of a table are the divisions of the indices from `i` on.
entries_agree : ℕ → List ℕ → Bool
entries_agree i [] = true
entries_agree i (e ∷ table) = e == shift_digits 8 i && entries_agree (suc i) table

entries_agree-get_or :
    (table : List ℕ) (i k : ℕ)
    → k < length table
    → entries_agree i table ≡ true
    → get_or table k 0 ≡ shift_digits 8 (i + k)
unfolding entries_agree
entries_agree-get_or [] i k low h = absurd (omega arith)
entries_agree-get_or (e ∷ table) i zero low h =
    let at_head : e ≡ shift_digits 8 i = ground arith in at_head ∙ ap (shift_digits 8) (omega arith)
entries_agree-get_or (e ∷ table) i (suc k) low h =
    entries_agree-get_or table (suc i) k (omega arith) (ground arith)
    ∙ ap (shift_digits 8) (omega arith)

table_checked : entries_agree 0 crc32_tab ≡ true
unfolding entries_agree shift_digits shift_digit
table_checked = refl

-- Each entry of the table is the division of its index.
pub table_lem : (i : ℕ) → i < 256 → get_or crc32_tab i 0 ≡ shift_digits 8 i
table_lem i h =
    entries_agree-get_or crc32_tab 0 i h table_checked ∙ ap (shift_digits 8) (omega arith)

shift_digits-bytes : (x : ℕ) → shift_digits 8 x ≡ bit_xor (get_or crc32_tab (x % 256) 0) (x / 256)
shift_digits-bytes x =
    ap (shift_digits 8) split
    ∙ shift_digits-xor 8 (x / 256 * 2 ^ 8) (x % 256)
    ∙ rw
        (
          shift_digits-pow 8 (x / 256),
          ← table_lem (x % 256) (omega arith),
          xor_comm (x / 256) (get_or crc32_tab (x % 256) 0),
        )
        refl
  where
    split : x ≡ bit_xor (x / 256 * 2 ^ 8) (x % 256)
    split = omega (arith, xor_fields 8 (x / 256) (x % 256) (omega arith))

xor_high : (crc b : ℕ) → b < 256 → bit_xor crc b / 256 ≡ crc / 256
xor_high crc b h = omega (arith, xor_drop 8 crc b, no_bits, xor-zero (crc / 256))
  where
    no_bits : bit_xor (crc / 256) (b / 256) ≡ bit_xor (crc / 256) 0
    no_bits = ap (bit_xor (crc / 256)) (omega arith)

-- A round of `crc32` is the division of its byte.
pub round-eq-reference : (crc b : ℕ) → b < 256 → crc_round crc b ≡ reference_round crc b
unfolding crc_round reference_round
round-eq-reference crc b h =
    rw (shift_digits-bytes (bit_xor crc b), and_255 (bit_xor crc b), xor_high crc b h) refl

pub reference-append :
    (xs ys : List ℕ) (crc : ℕ) → reference (xs ++ ys) crc ≡ reference ys (reference xs crc)
unfolding reference
reference-append [] ys crc = refl
reference-append (x ∷ xs) ys crc = reference-append xs ys _

-- Every member of a list is a byte.
abbrev pub IsBytes : List ℕ → Type 0
IsBytes [] = Unit {0}
IsBytes (b ∷ bs) = (b < 256) × IsBytes bs

-- `crc32` over a buffer of `size` bytes reads nothing out of range and returns the remainder that
-- the bit-by-bit division of those bytes leaves, from any starting value.
pub crc32-eq-reference :
    (p : List ℕ) (crc : ℕ) → IsBytes p → crc32 p (length p) crc ≡ some (reference p crc)
unfolding crc32 reference
crc32-eq-reference [] crc h = refl
crc32-eq-reference (b ∷ bs) crc h =
    ap (crc32 bs (length bs)) (round-eq-reference crc b h.0)
    ∙ crc32-eq-reference bs (reference_round crc b) h.1
