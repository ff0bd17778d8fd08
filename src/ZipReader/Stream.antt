-- ===== src/ZipReader/Stream.antt =====
-- hw1: a FILE of the C library that is read. A file is its bytes and those from the position on; the
-- machine is little-endian.
use otus_c.Prelude.{
  ℕ, zero, suc, ◌+◌, ◌-◌, ◌*◌, ◌/◌, ◌%◌, ◌^◌, ◌==◌, List, [], ◌∷◌, if◌then◌else◌, ltb, length, take,
  drop,
}

pub record File : Type 0 where
  pub content : List ℕ
  pub rest : List ℕ

abbrev pub file_at : List ℕ → List ℕ → File
file_at content rest = record { content = content; rest = rest }

-- Code that reads the file
abbrev pub Reader : Type 0 → Type 0
Reader A = File → A × File

infixl 5 ◌>>=◌ ◌>>◌
abbrev pub ◌>>=◌ : {A B : Type 0} → Reader A → (A → Reader B) → Reader B
◌>>=◌ m k f = let (a, f') = m f in k a f'

abbrev pub ◌>>◌ : {B : Type 0} → Reader (Unit {0}) → Reader B → Reader B
◌>>◌ m k = m >>= λ _. k

abbrev pub pure : {A : Type 0} → A → Reader A
pure a f = (a, f)

-- The number in memory after the low bytes of one of `size` bytes are overwritten by those read.
abbrev pub overlay : ℕ → List ℕ → ℕ → ℕ
overlay zero bytes old = 0
overlay (suc size) [] old = old % 256 + 256 * overlay size [] (old / 256)
overlay (suc size) (b ∷ bytes) old = b + 256 * overlay size bytes (old / 256)

-- `fread(&x, size, 1, f)` of the C library, `old` being the value of `x` before: the result and the
-- value after it.
unfoldable pub fread : ℕ → ℕ → Reader (ℕ × ℕ)
fread size old f =
    let got = take size f.rest in
    (
      (if length got == size then 1 else 0, overlay size got old),
      record f { rest = drop size f.rest },
    )

-- The same where the result is not looked at.
unfoldable pub read : ℕ → ℕ → Reader ℕ
read size old = do (n, x) ← fread size old; pure x

-- `fread(buffer, 1, n, f)`: what is read
unfoldable pub read_bytes : ℕ → Reader (List ℕ)
read_bytes n f = (take n f.rest, record f { rest = drop n f.rest })

-- `fseek(f, offset, SEEK_SET)` of the C library; a negative offset is refused.
unfoldable pub seek : ℕ → Reader (Unit {0})
seek offset f = (tt, if ltb offset (2 ^ 63) then record f { rest = drop offset f.content } else f)

-- `ftell(f)` at a position within the file
unfoldable pub tell : Reader ℕ
tell f = (length f.content - length f.rest, f)
