-- ===== src/Weather/Compass.antt =====
-- hw4: the arrows are those of the eight sectors of the compass.
use otus_c.Prelude.{ℕ, ◌+◌, ◌*◌, ◌/◌, ◌%◌, ◌<◌, ◌≡◌, List, [], ◌∷◌, some, get_elem?, arith}
use otus_c.Weather.{
  pos, Arrow, north, north_east, east, south_east, south, south_west, west, north_west,
  convert_to_angle,
}

-- The directions clockwise from the north
abbrev pub compass : List Arrow
compass = north ∷ north_east ∷ east ∷ south_east ∷ south ∷ south_west ∷ west ∷ north_west ∷ []

-- For a direction in degrees the arrow is that of the nearest of the eight points, the later of
-- two that are as near.
pub convert_to_angle-compass :
    (angle : ℕ)
    → angle < 360
    → get_elem? compass ((2 * angle + 45) / 90 % 8) ≡ some (convert_to_angle (pos angle))
unfolding convert_to_angle
convert_to_angle-compass angle h = ground arith
