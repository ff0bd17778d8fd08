-- ===== src/Weather/Main.antt =====
-- hw4: the client of hw4/src/curl.c and `main` of hw4/src/main.c. libcurl, the JSON library, `getopt`
-- and the memory are arguments. A null pointer is `none`; as a result of `main` and of what it calls,
-- `none` is undefined behaviour.
pub mod Request
pub mod Checks
use otus_c.Prelude.{
  ℕ, zero, suc, ◌+◌, ◌==◌, Bool, true, false, ◌&&◌, List, [], ◌∷◌, ◌++◌, Option, none, some, ◌⊎◌,
  inl, inr, take, if◌then◌else◌, ltb, leb, length, ◌>>=◌,
}
use otus_c.Prelude.Bytes.{CString}
use otus_c.LogParser.Apache.{is_space, read_digits}
use otus_c.Weather.{ℤ, pos, negsuc, Arrow, convert_to_angle, write_response}

-- `HTTPCli`, less the handle of libcurl
pub record HttpCli : Type 0 where
  pub response : Option (List ℕ)

-- Whether there is memory for the client and for its handle
pub new_http_cli : Bool → Bool → Option HttpCli
new_http_cli for_client for_curl =
    if for_client && for_curl then some (record { response = none }) else none

-- The calls of `write_response` in `curl_easy_perform`, which stops where the result is not the number
-- of bytes given. `code` says whether libcurl finds no other error.
unfoldable pub perform :
    (Option (List ℕ) → ℕ → Option (List ℕ))
    → Bool
    → HttpCli
    → List (List ℕ)
    → Option (Bool × HttpCli)
perform realloc code cli [] = some (code, cli)
perform realloc code cli (contents ∷ pieces) = do
  (n, response) ← write_response realloc cli.response contents
  let rest = perform realloc code (record { response = response }) pieces
  if n == length contents then rest else some (false, record { response = response })

-- The response, or a null pointer where there is an error
pub do_request :
    (Option (List ℕ) → ℕ → Option (List ℕ))
    → Bool
    → HttpCli
    → List (List ℕ)
    → Option (Option (List ℕ))
do_request realloc code cli pieces = do
  (ok, cli') ← perform realloc code cli pieces
  some (if ok then cli'.response else none)

-- What the program uses of jansson, over its type of values
pub record Jansson (Json : Type 0) : Type 0 where
  pub loads : List ℕ → Option Json
  pub object_get : Option Json → CString → Option Json
  pub array_size : Option Json → ℕ
  pub array_get : Option Json → ℕ → Option Json
  pub is_string : Option Json → Bool
  pub string_value : Option Json → Option CString

-- "request", "query", "value", "current_condition"
abbrev pub request_key : CString
request_key = b'r' ∷ b'e' ∷ b'q' ∷ b'u' ∷ b'e' ∷ b's' ∷ b't' ∷ []

abbrev pub query_key : CString
query_key = b'q' ∷ b'u' ∷ b'e' ∷ b'r' ∷ b'y' ∷ []

abbrev pub value_key : CString
value_key = b'v' ∷ b'a' ∷ b'l' ∷ b'u' ∷ b'e' ∷ []

abbrev pub current_condition_key : CString
current_condition_key =
    b'c' ∷ b'u' ∷ b'r' ∷ b'r' ∷ b'e' ∷ b'n' ∷ b't' ∷ b'_' ∷ b'c' ∷ b'o' ∷ b'n' ∷ b'd' ∷ b'i' ∷ b't'
    ∷ b'i' ∷ b'o' ∷ b'n' ∷ []

-- "temp_C", "weatherDesc", "windspeedKmph", "winddirDegree"
abbrev pub temp_key : CString
temp_key = b't' ∷ b'e' ∷ b'm' ∷ b'p' ∷ b'_' ∷ b'C' ∷ []

abbrev pub desc_key : CString
desc_key = b'w' ∷ b'e' ∷ b'a' ∷ b't' ∷ b'h' ∷ b'e' ∷ b'r' ∷ b'D' ∷ b'e' ∷ b's' ∷ b'c' ∷ []

abbrev pub speed_key : CString
speed_key =
    b'w' ∷ b'i' ∷ b'n' ∷ b'd' ∷ b's' ∷ b'p' ∷ b'e' ∷ b'e' ∷ b'd' ∷ b'K' ∷ b'm' ∷ b'p' ∷ b'h' ∷ []

abbrev pub degree_key : CString
degree_key =
    b'w' ∷ b'i' ∷ b'n' ∷ b'd' ∷ b'd' ∷ b'i' ∷ b'r' ∷ b'D' ∷ b'e' ∷ b'g' ∷ b'r' ∷ b'e' ∷ b'e' ∷ []

-- `atoi` of the C library, for a number that fits an `int`
abbrev pub negative : ℕ → ℤ
negative zero = pos 0
negative (suc n) = negsuc n

unfoldable pub atoi : CString → ℤ
atoi [] = pos 0
atoi (c ∷ s) =
    let rest = atoi s in
    if is_space c
    then rest
    else if c == b'-'
    then negative (read_digits 0 s)
    else if c == b'+'
    then pos (read_digits 0 s)
    else pos (read_digits 0 (c ∷ s))

-- What `main` prints of the weather; a null pointer is printed too.
pub record Conditions : Type 0 where
  pub temp_c : Option CString
  pub weather_desc : Option CString
  pub wind_speed : Option CString
  pub wind_degree : Arrow

pub data Exit : Type 0 where
  usage : Exit
  invalid_option : ℕ → Exit
  missing_options : Exit
  no_client : Exit
  request_error : Exit
  no_json : Exit
  reported : CString → Option CString → Option Conditions → Exit

-- What a call of `getopt` with "c:h" gives, before it gives -1; `other` is any other character.
pub data Opt : Type 0 where
  input : CString → Opt
  help : Opt
  other : ℕ → Opt

-- The loop over the options, with the value of `city`
unfoldable pub read_options : Option CString → List Opt → Exit ⊎ Option CString
read_options city [] = inr city
read_options city (input optarg ∷ opts) = read_options (some optarg) opts
read_options city (help ∷ opts) = inl usage
read_options city (other c ∷ opts) = inl (invalid_option c)

-- What the surroundings of `main` answer: the memory, and what comes from the server
pub record Setting : Type 0 where
  pub for_client : Bool
  pub for_curl : Bool
  pub realloc : Option (List ℕ) → ℕ → Option (List ℕ)
  pub code : Bool
  pub pieces : List (List ℕ)

-- The length of "https://wttr.in/", of "?format=j1" and of the closing zero, in the 100 bytes of `url`
abbrev pub url_fits : CString → Bool
url_fits city = leb (16 + length city + 10 + 1) 100

module _ {Json : Type 0} (jansson : Jansson Json) where
  unfoldable pub wheather_location : Option Json → Option CString
  wheather_location root =
      let request = jansson.object_get root request_key in
      let query = jansson.object_get (jansson.array_get request 0) query_key in
      if ltb 0 (jansson.array_size request) && jansson.is_string query
      then jansson.string_value query
      else none

  unfoldable pub condition_field : Option Json → CString → Option CString
  condition_field current_condition key =
      let field_val = jansson.object_get (jansson.array_get current_condition 0) key in
      let value = jansson.object_get (jansson.array_get field_val 0) value_key in
      if jansson.is_string field_val
      then jansson.string_value field_val
      else if ltb 0 (jansson.array_size field_val) && jansson.is_string value
      then jansson.string_value value
      else none

  -- The fields of the first condition; `atoi` of a null pointer is undefined.
  unfoldable pub conditions : Option Json → Option Conditions
  conditions current_condition = do
    degree ← condition_field current_condition degree_key
    some (record {
      temp_c = condition_field current_condition temp_key;
      weather_desc = condition_field current_condition desc_key;
      wind_speed = condition_field current_condition speed_key;
      wind_degree = convert_to_angle (atoi degree);
    })

  -- `main` on the text of the response
  unfoldable pub report : CString → Option Json → Option Exit
  report city none = some no_json
  report city (some root) =
      let current_condition = jansson.object_get (some root) current_condition_key in
      let location = wheather_location (some root) in
      if ltb 0 (jansson.array_size current_condition)
      then (do c ← conditions current_condition; some (reported city location (some c)))
      else some (reported city location none)

  unfoldable pub on_response : CString → Option (List ℕ) → Option Exit
  on_response city none = some request_error
  on_response city (some response) = report city (jansson.loads response)

  -- `main` with a client
  unfoldable pub ask : Setting → CString → Option HttpCli → Option Exit
  ask w city none = some no_client
  ask w city (some cli) =
      if url_fits city
      then (do response ← do_request w.realloc w.code cli w.pieces; on_response city response)
      else none

  unfoldable pub with_city : Setting → Exit ⊎ Option CString → Option Exit
  with_city w (inl e) = some e
  with_city w (inr none) = some missing_options
  with_city w (inr (some city)) = ask w city (new_http_cli w.for_client w.for_curl)

  unfoldable pub main : Setting → List Opt → Option Exit
  main w opts = with_city w (read_options none opts)
