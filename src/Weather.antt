-- ===== src/Weather.antt =====
-- hw4: of the weather client the arrow for a wind direction (hw4/src/main.c), and the buffer in which
-- the response of the server is gathered (hw4/src/curl.c). An access outside of a block is `none`.
pub mod Response
pub mod Compass
pub mod Main
pub mod Checks
use otus_c.Prelude.{
  ℕ, zero, suc, ◌+◌, ◌*◌, ◌==◌, Bool, true, false, ◌&&◌, List, [], ◌∷◌, Option, none, some,
  if◌then◌else◌, ltb, leb, length, take, drop, ◌++◌, store, ◌>>=◌,
}

-- `int`
pub data ℤ : Type 0 where
  pos : ℕ → ℤ
  negsuc : ℕ → ℤ

-- The arrows that are printed, by the letters of the direction
pub data Arrow : Type 0 where
  north : Arrow  -- 2191
  north_east : Arrow  -- 2197
  east : Arrow  -- 2192
  south_east : Arrow  -- 2198
  south : Arrow  -- 2193
  south_west : Arrow  -- 2199
  west : Arrow  -- 2190
  north_west : Arrow  -- 2196

-- `angle >= low && angle < high` for bounds that are given twofold, since they are halves
abbrev pub between : ℕ → ℕ → ℤ → Bool
between low high (pos angle) = leb low (2 * angle) && ltb (2 * angle) high
between low high (negsuc n) = false

pub convert_to_angle : ℤ → Arrow
convert_to_angle angle =
    if between 0 45 angle
    then north
    else if between 45 135 angle
    then north_east
    else if between 135 225 angle
    then east
    else if between 225 315 angle
    then south_east
    else if between 315 405 angle
    then south
    else if between 405 495 angle
    then south_west
    else if between 495 585 angle
    then west
    else if between 585 675 angle
    then north_west
    else north

abbrev pub leading : List ℕ → ℕ
leading [] = 0
leading (x ∷ block) = let n = leading block in if x == 0 then 0 else suc n

-- `strlen` of the C library on a block
abbrev pub strlen : List ℕ → Option ℕ
strlen block = let n = leading block in if n == length block then none else some n

-- `memcpy` of the C library to the place `i` of a block
abbrev pub copy_to : List ℕ → ℕ → List ℕ → Option (List ℕ)
copy_to block i bytes =
    if leb (i + length bytes) (length block)
    then some (take i block ++ (bytes ++ drop (i + length bytes) block))
    else none

-- The size that `realloc` is asked for
abbrev pub new_size : Option (List ℕ) → ℕ → Option ℕ
new_size none realsize = some (realsize + 1)
new_size (some response) realsize = do n ← strlen response; some (n + realsize + 1)

-- After `realloc`: the bytes are put behind the string, and a zero byte as far again behind that.
abbrev pub append_contents : List ℕ → List ℕ → Option (ℕ × Option (List ℕ))
append_contents response contents = do
  n ← strlen response
  written ← copy_to response n contents
  n' ← strlen written
  closed ← store written (n' + length contents) 0
  some (length contents, some closed)

abbrev pub after_realloc : Option (List ℕ) → List ℕ → Option (ℕ × Option (List ℕ))
after_realloc none contents = some (0, none)
after_realloc (some response) contents = append_contents response contents

-- `write_response`: its result and the new `response`. `realloc` gives the new block, with what memory
-- held in the bytes that are added.
pub write_response :
    (Option (List ℕ) → ℕ → Option (List ℕ))
    → Option (List ℕ)
    → List ℕ
    → Option (ℕ × Option (List ℕ))
write_response realloc response contents = do
  size ← new_size response (length contents)
  after_realloc (realloc response size) contents
