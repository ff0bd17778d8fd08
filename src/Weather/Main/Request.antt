-- ===== src/Weather/Main/Request.antt =====
-- hw4: the weather that never comes.
use mathlib.Core.Option.{some-injective}
use otus_c.Prelude.{
  subst, ℕ, ◌<◌, ◌≡◌, ◌⊎◌, inl, inr, refl, sym, ap, Bool, true, false, List, [], ◌∷◌, Option, none,
  some, length, arith, ◌==◌, Bool-cases,
}
use otus_c.Prelude.Bytes.{CString}
use otus_c.Weather.Response.{NoZero, Reallocs, write_response-undefined}
use otus_c.Weather.Main.{
  HttpCli, new_http_cli, perform, do_request, Jansson, Exit, no_client, request_error, on_response,
  Opt, read_options, Setting, url_fits, ask, with_city, main,
}

-- Every piece that the server sends is text.
abbrev pub AllText : List (List ℕ) → Type 0
AllText [] = Unit {0}
AllText (piece ∷ pieces) = NoZero piece × (0 < length piece) × AllText pieces

-- A client has no response yet.
abbrev IsNew : HttpCli → Type 0
IsNew cli = cli.response ≡ none

-- The request is undefined, or it gives a null pointer.
do_request-none :
    (realloc : Option (List ℕ) → ℕ → Option (List ℕ)) (code : Bool) (cli : HttpCli)
    (pieces : List (List ℕ))
    → Reallocs realloc
    → IsNew cli
    → AllText pieces
    → (do_request realloc code cli pieces ≡ none) ⊎ (do_request realloc code cli pieces ≡ some none)
unfolding do_request perform
do_request-none realloc true cli [] r new text = inr (ap some new)
do_request-none realloc false cli [] r new text = inr refl
do_request-none realloc code cli (piece ∷ pieces) r new (z, long, text) =
    elim (write_response-undefined realloc cli.response piece r z long) [
      | inl e ↦ inl (rw e refl)
      | inr e ↦
          (let short : (0 == length piece) ≡ false = ground (arith, long) in
            inr (rw (e, short) refl))
    ]

new_http_cli-IsNew :
    (for_client for_curl : Bool) (cli : HttpCli)
    → new_http_cli for_client for_curl ≡ some cli
    → IsNew cli
unfolding new_http_cli
new_http_cli-IsNew true true cli e = sym (ap (λ c. c.response) (some-injective _ _ e))
new_http_cli-IsNew true false cli e = absurd (let e' = e in cc)
new_http_cli-IsNew false for_curl cli e = absurd (let e' = e in cc)

-- Whatever text the server sends, in pieces that are not empty: given a city, `main` never comes
-- to read a JSON value, since the request is undefined, the client or the request fails; where
-- `realloc` keeps what a block holds.
pub main-no_weather :
    {Json : Type 0} (jansson : Jansson Json) (w : Setting) (opts : List Opt) (city : CString)
    → read_options none opts ≡ inr (some city)
    → Reallocs w.realloc
    → AllText w.pieces
    → (main jansson w opts ≡ none)
      ⊎ ((main jansson w opts ≡ some no_client) ⊎ (main jansson w opts ≡ some request_error))
unfolding main with_city ask on_response
main-no_weather jansson w opts city given r text =
    subst Ended (sym (ap (with_city jansson w) given))
      (asked (new_http_cli w.for_client w.for_curl) refl)
  where
    Ended : Option Exit → Type 0
    Ended e = (e ≡ none) ⊎ ((e ≡ some no_client) ⊎ (e ≡ some request_error))

    asked :
        (o : Option HttpCli)
        → new_http_cli w.for_client w.for_curl ≡ o
        → Ended (ask jansson w city o)
    asked none e = inr (inl refl)
    asked (some cli) e = elim (Bool-cases (url_fits city)) [
      | inr long ↦ inl (rw long refl)
      | inl fits ↦
          elim (do_request-none w.realloc w.code cli w.pieces r (new_http_cli-IsNew _ _ cli e)
            text) [ inl n ↦ inl (rw (fits, n) refl) | inr n ↦ inr (inr (rw (fits, n) refl)) ]
    ]
