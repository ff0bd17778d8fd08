-- ===== src/Charset.antt =====
-- hw2: the translation of a file from an 8-bit charset to UTF-8 (hw2/src/main.c). The result `none`
-- is undefined behaviour: an index outside of a table.
pub mod Tables
pub mod Utf8
pub mod Decoding
pub mod Checks
use Prim.Native.Nat.{bit_and, bit_or}
use otus_c.Prelude.{
  ℕ, zero, suc, ◌+◌, ◌-◌, ◌/◌, ◌^◌, Bool, true, false, ◌&&◌, List, [], ◌∷◌, ◌++◌, Option, none,
  some, if◌then◌else◌, ltb, leb, get_elem?, ◌>>=◌,
}
use otus_c.Prelude.Words.{u8}
use otus_c.Prelude.Bytes.{CString, starts}
use otus_c.Charset.Tables.{cp_1251, koi8, iso_8859_5}

-- `coding_type`
pub record CodingType : Type 0 where
  pub name : CString
  pub table : List ℕ

abbrev pub coding_name : List CodingType
coding_name =
    record { name = b'c' ∷ b'p' ∷ b'1' ∷ b'2' ∷ b'5' ∷ b'1' ∷ []; table = cp_1251 }
    ∷ record { name = b'k' ∷ b'o' ∷ b'i' ∷ b'8' ∷ []; table = koi8 }
    ∷ record {
      name = b'i' ∷ b's' ∷ b'o' ∷ b'-' ∷ b'8' ∷ b'8' ∷ b'5' ∷ b'9' ∷ b'-' ∷ b'5' ∷ [];
      table = iso_8859_5;
    }
    ∷ []

-- `sizeof(coding_name)`: three pairs of pointers of eight bytes
abbrev pub sizeof_coding_name : ℕ
sizeof_coding_name = 48

-- The loop that looks for the charset, with a number of rounds left; `some none` is the null pointer.
pub find_charset : ℕ → CString → ℕ → Option (Option CodingType)
find_charset zero charset i = some none
find_charset (suc rounds) charset i = do
  temp ← get_elem? coding_name i
  let rest = find_charset rounds charset (i + 1)
  if starts charset temp.name then some (some temp) else rest

-- What the loop over the bytes writes for `out_val`.
pub encode : ℕ → List ℕ
encode out_val =
    if leb 0x80 out_val && leb out_val 0x7ff
    then u8 (bit_or 0xc0 (out_val / 2 ^ 6)) ∷ u8 (bit_or 0x80 (bit_and out_val 0x3f)) ∷ []
    else if leb 0x800 out_val && leb out_val 0xffff
    then u8 (bit_or 0xe0 (out_val / 2 ^ 12))
      ∷ u8 (bit_or 0x80 (bit_and (out_val / 2 ^ 6) 0x3f))
      ∷ u8 (bit_or 0x80 (bit_and out_val 0x3f))
      ∷ []
    else []

-- A round of that loop: the bytes written for `buf_8`.
pub write_byte : List ℕ → ℕ → Option (List ℕ)
write_byte table buf_8 =
    if ltb buf_8 0x80
    then some (buf_8 ∷ [])
    else (do out_val ← get_elem? table (buf_8 - 0x80); some (encode out_val))

-- The loop: all that is written for the bytes of the file.
pub convert : List ℕ → List ℕ → Option (List ℕ)
convert table [] = some []
convert table (buf_8 ∷ input) = do
  out ← write_byte table buf_8
  rest ← convert table input
  some (out ++ rest)

-- How `main` ends: with `EXIT_FAILURE`, or with what it has written.
pub data Ending : Type 0 where
  failure : Ending
  written : List ℕ → Ending

-- After the charset is found; the file's bytes, if it can be opened, and whether the output can be.
pub with_files : CodingType → Option (List ℕ) → Bool → Option Ending
with_files charset_table none fout = some failure
with_files charset_table (some input) false = some failure
with_files charset_table (some input) true = do
  out ← convert charset_table.table input
  some (written out)

-- What follows the loop that looks for the charset.
pub with_charset : Option CodingType → Option (List ℕ) → Bool → Option Ending
with_charset none f fout = some failure
with_charset (some charset_table) f fout = with_files charset_table f fout

-- `main` after `getopt`, by the options `-i`, `-o` and `-c`; `fopen` is a parameter: the bytes of a
-- file that can be read, and whether one can be written.
pub main :
    (CString → Option (List ℕ))
    → (CString → Bool)
    → Option CString
    → Option CString
    → Option CString
    → Option Ending
main open_read open_write none pout charset = some failure
main open_read open_write (some pin) none charset = some failure
main open_read open_write (some pin) (some pout) none = some failure
main open_read open_write (some pin) (some pout) (some charset) = do
  charset_table ← find_charset sizeof_coding_name charset 0
  with_charset charset_table (open_read pin) (open_write pout)
