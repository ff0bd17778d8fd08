-- ===== src/LogParser/Apache/Line.antt =====
-- A line of an access log in the format that hw12 reads, and what `parse_apache_log` makes of it.
use mathlib.Core.List.{append_assoc}
use otus_c.Prelude.{
  Option, none, if◌then◌else◌, ◌==◌, ℕ, ◌^◌, ◌<◌, ◌≡◌, ◌≢◌, refl, ap, subst, ◌∙◌, Bool, true, [],
  ◌∷◌, ◌++◌, some, arith, length, length-append,
}
use otus_c.Prelude.Bytes.{CString}
use otus_c.LogParser.HashTable.{Table, hash_t_inc}
use otus_c.LogParser.HashTable.Outcome.{Run, ok, ◌>>=◌}
use otus_c.LogParser.Apache.{
  Fields, Tables, memchr, strtok, first_token, second_token, read_fields, is_counted, inc_some,
  count_fields, parse_apache_log,
}
use otus_c.LogParser.Apache.Search.{Without, Without-append, memchr-append, strtok-append}
use otus_c.LogParser.Apache.Decimal.{
  decimal, decimal-AllDigits, AllDigits-Without, strtoull-decimal,
}

-- The parts of a line of the combined log format: the address, what stands before the request, the
-- request's method, URI and protocol, the status, the size, the referer and what stands after it.
pub record LogLine : Type 0 where
  pub ip : CString
  pub middle : CString
  pub method : CString
  pub uri : CString
  pub protocol : CString
  pub status : CString
  pub size : ℕ
  pub referer : CString
  pub rest : CString

abbrev pub request_of : LogLine → CString
request_of l = l.method ++ (b' ' ∷ (l.uri ++ (b' ' ∷ l.protocol)))

-- The text from the referer on, and so on backwards
abbrev referer_part : LogLine → CString
referer_part l = l.referer ++ (b'"' ∷ l.rest)

abbrev size_part : LogLine → CString
size_part l = (decimal l.size ++ (b' ' ∷ [])) ++ (b'"' ∷ referer_part l)

abbrev status_part : LogLine → CString
status_part l = l.status ++ (b' ' ∷ size_part l)

abbrev request_part : LogLine → CString
request_part l = request_of l ++ (b'"' ∷ (b' ' ∷ status_part l))

-- `ip middle"method uri protocol" status size "referer"rest`
unfoldable pub print_line : LogLine → CString
print_line l = l.ip ++ (b' ' ∷ (l.middle ++ (b'"' ∷ request_part l)))

-- No part holds the byte that ends it, and the words of the request and of the referer are not empty.
pub record IsLine (l : LogLine) : Type 0 where
  pub ip : Without b' ' l.ip × Without b'"' l.ip
  pub middle : Without b'"' l.middle
  pub method : (l.method ≢ []) × Without b' ' l.method × Without b'"' l.method
  pub uri : (l.uri ≢ []) × Without b' ' l.uri × Without b'"' l.uri
  pub protocol : Without b'"' l.protocol
  pub status : Without b' ' l.status
  pub size : l.size < 2 ^ 64
  pub referer : Without b'"' l.referer

-- What is to be counted.
abbrev pub fields_of : LogLine → Fields
fields_of l = record { uri = some l.uri; number = l.size; ref = first_token (strtok l.referer) }

length-cons : (xs : CString) (c : ℕ) (ys : CString) → length xs < length (xs ++ (c ∷ ys))
length-cons xs c ys = omega (arith, length-append xs (c ∷ ys))

second-request : (l : LogLine) → IsLine l → second_token (strtok (request_of l)) ≡ some l.uri
second-request l v =
    rw
      (
        strtok-append l.method (l.uri ++ (b' ' ∷ l.protocol)) v.method.0 v.method.1,
        strtok-append l.uri l.protocol v.uri.0 v.uri.1,
      )
      refl

-- A search over the whole of a text for the byte after its first part.
find-part :
    (c : ℕ) (xs rest : CString)
    → Without c xs
    → memchr c (length (xs ++ (c ∷ rest))) (xs ++ (c ∷ rest)) ≡ some (xs, c ∷ rest)
find-part c xs rest h = memchr-append c _ xs rest h (length-cons xs c rest)

find-quote :
    (l : LogLine)
    → IsLine l
    → memchr b'"' (length (print_line l)) (print_line l)
      ≡ some (l.ip ++ (b' ' ∷ l.middle), b'"' ∷ request_part l)
unfolding print_line
find-quote l v =
    subst
      (λ text.
        memchr b'"' (length text) text ≡ some (l.ip ++ (b' ' ∷ l.middle), b'"' ∷ request_part l))
      (append_assoc l.ip (b' ' ∷ l.middle) (b'"' ∷ request_part l))
      (find-part b'"' (l.ip ++ (b' ' ∷ l.middle)) (request_part l) (
        Without-append b'"' l.ip (b' ' ∷ l.middle) v.ip.1
          (λ e. absurd (omega (arith, e)), v.middle)))

request-Without : (l : LogLine) → IsLine l → Without b'"' (request_of l)
request-Without l v =
    Without-append b'"' l.method (b' ' ∷ (l.uri ++ (b' ' ∷ l.protocol))) v.method.2 (
      λ e. absurd (omega (arith, e)),
      Without-append b'"' l.uri (b' ' ∷ l.protocol) v.uri.2
          (λ e. absurd (omega (arith, e)), v.protocol),
    )

size-Without : (n : ℕ) → Without b'"' (decimal n ++ (b' ' ∷ []))
size-Without n =
    Without-append b'"' (decimal n) (b' ' ∷ [])
      (AllDigits-Without b'"' (decimal n) refl (decimal-AllDigits n))
      (λ e. absurd (omega (arith, e)), tt)

read_fields-print : (l : LogLine) → IsLine l → read_fields (print_line l) ≡ ok (fields_of l)
unfolding read_fields
read_fields-print l v =
    let address : memchr b' ' (length (print_line l)) (print_line l)
        ≡ some (l.ip, b' ' ∷ (l.middle ++ (b'"' ∷ request_part l))) =
      unfold print_line in find-part b' ' l.ip (l.middle ++ (b'"' ∷ request_part l)) v.ip.0 in
    let request = find-part b'"' (request_of l) (b' ' ∷ status_part l) (request-Without l v) in
    let gap = find-part b' ' [] (status_part l) tt in
    let status = find-part b' ' l.status (size_part l) v.status in
    let size_gap =
      memchr-append b' ' (length (size_part l)) [] (size_part l) tt
        (omega (arith, length-cons (decimal l.size ++ (b' ' ∷ [])) b'"' (referer_part l))) in
    let size =
      find-part b'"' (decimal l.size ++ (b' ' ∷ [])) (referer_part l) (size-Without l.size) in
    let quote =
      memchr-append b'"' (length (referer_part l)) [] (referer_part l) tt
        (omega (arith, length-cons l.referer b'"' l.rest)) in
    let referer = find-part b'"' l.referer l.rest v.referer in
    let value = strtoull-decimal l.size b' ' [] v.size refl in
    rw
      (
        address,
        find-quote l v,
        request,
        gap,
        status,
        size_gap,
        size,
        quote,
        referer,
        second-request l v,
        value,
      )
      refl

-- The first word of the referer, where it has one that does not begin with a dash
abbrev no_dash : Option CString → Option CString
no_dash none = none
no_dash (some []) = some []
no_dash (some (c ∷ w)) = if c == b'-' then none else some (c ∷ w)

abbrev pub counted_referer : LogLine → Option CString
counted_referer l = no_dash (first_token (strtok l.referer))

pub is_counted-referer :
    (l : LogLine) → is_counted (first_token (strtok l.referer)) ≡ counted_referer l
is_counted-referer l = go (first_token (strtok l.referer))
  where
    go : (o : Option CString) → is_counted o ≡ no_dash o
    go none = refl
    go (some []) = refl
    go (some (c ∷ w)) = refl

-- One more for a referer, if there is one
abbrev pub inc_referer : Bool → Table → Option CString → Run Table
inc_referer memory t none = ok t
inc_referer memory t (some ref) = hash_t_inc memory t ref 1

inc_some-referer :
    (memory : Bool) (t : Table) (o : Option CString)
    → inc_some memory t o 1 ≡ inc_referer memory t o
inc_some-referer memory t none = refl
inc_some-referer memory t (some ref) = refl

-- A line in the format is counted by its parts: one more under the first word of the referer, if there
-- is one and it does not begin with a dash, and the size more under its URI; the result is the size.
pub parse-print :
    (refer_memory uri_memory : Bool) (t : Tables) (l : LogLine)
    → IsLine l
    → parse_apache_log refer_memory uri_memory t (print_line l) ≡ (
        inc_referer refer_memory t.refer (counted_referer l) >>= λ refer.
        hash_t_inc uri_memory t.uri l.uri l.size >>= λ uri.
        ok (l.size, record { refer = refer; uri = uri }))
unfolding parse_apache_log count_fields
parse-print refer_memory uri_memory t l v =
    rw
      (
        read_fields-print l v,
        is_counted-referer l,
        inc_some-referer refer_memory t.refer (counted_referer l),
      )
      refl

-- The text of a line as `fgets` gives it, with its newline
abbrev pub text_of : LogLine → CString
text_of l = print_line l ++ (b'\n' ∷ [])

-- The newline is part of what stands after the referer.
text-rest : (l : LogLine) → text_of l ≡ print_line (record l { rest = l.rest ++ (b'\n' ∷ []) })
unfolding print_line
text-rest l = simp append_assoc

pub parse-text :
    (t : Tables) (l : LogLine)
    → IsLine l
    → parse_apache_log true true t (text_of l) ≡ (
        inc_referer true t.refer (counted_referer l) >>= λ refer.
        hash_t_inc true t.uri l.uri l.size >>= λ uri.
        ok (l.size, record { refer = refer; uri = uri }))
parse-text t l v =
    ap (parse_apache_log true true t) (text-rest l)
    ∙ parse-print true true t (record l { rest = l.rest ++ (b'\n' ∷ []) })
        (record {
          ip = v.ip;
          middle = v.middle;
          method = v.method;
          uri = v.uri;
          protocol = v.protocol;
          status = v.status;
          size = v.size;
          referer = v.referer;
        })
