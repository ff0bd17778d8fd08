-- ===== src/Weather/Main/Checks.antt =====
-- `main` of hw4, asked for a city.
use otus_c.Prelude.{◌≡◌, ◌⊎◌, inr, refl, true, List, [], ◌∷◌, none, some, arith}
use otus_c.Prelude.Bytes.{CString}
use otus_c.LogParser.Apache.{read_digits}
use otus_c.Weather.{south, convert_to_angle}
use otus_c.Weather.Checks.{realloc, realloc-Reallocs}
use otus_c.Weather.Main.{
  Jansson, Setting, Opt, input, no_client, request_error, main, read_options, conditions,
  condition_field, atoi,
}
use otus_c.Weather.Main.Request.{main-no_weather}

-- Values that are strings or, with one element each, arrays and objects
abbrev strings : Jansson CString
strings = record {
  loads = λ text. some text;
  object_get = λ o key. o;
  array_size = λ o. 1;
  array_get = λ o n. o;
  is_string = λ o. true;
  string_value = λ o. o;
}

abbrev setting : Setting
setting = record {
  for_client = true;
  for_curl = true;
  realloc = realloc;
  code = true;
  pieces = (b'o' ∷ b'k' ∷ []) ∷ [];
}

abbrev options : List Opt
options = input (b'x' ∷ []) ∷ []

options-city : read_options none options ≡ inr (some (b'x' ∷ []))
unfolding read_options
options-city = refl

main-no_weather_example :
    (main strings setting options ≡ none)
    ⊎ ((main strings setting options ≡ some no_client)
        ⊎ (main strings setting options ≡ some request_error))
main-no_weather_example =
    main-no_weather strings setting options (b'x' ∷ []) options-city realloc-Reallocs
      ((λ e. absurd (omega (arith, e)), (λ e. absurd (omega (arith, e)), tt)), omega arith, tt)

-- A degree of 180 is south.
south_at_180 :
    conditions strings (some (b'1' ∷ b'8' ∷ b'0' ∷ []))
    ≡ some (record {
      temp_c = some (b'1' ∷ b'8' ∷ b'0' ∷ []);
      weather_desc = some (b'1' ∷ b'8' ∷ b'0' ∷ []);
      wind_speed = some (b'1' ∷ b'8' ∷ b'0' ∷ []);
      wind_degree = south;
    })
unfolding conditions condition_field atoi read_digits convert_to_angle
south_at_180 = refl
