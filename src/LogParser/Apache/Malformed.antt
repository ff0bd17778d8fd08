-- ===== src/LogParser/Apache/Malformed.antt =====
-- Lines that `parse_apache_log` of hw12 cannot take apart.
use otus_c.Prelude.{
  ℕ, zero, suc, ◌≡◌, ◌⊎◌, inl, inr, refl, Bool, [], ◌∷◌, none, arith, length, ◌==◌, Option-cases,
  false,
}
use otus_c.Prelude.Bytes.{CString}
use otus_c.LogParser.HashTable.Outcome.{fault}
use otus_c.LogParser.Apache.{Tables, memchr, read_fields, parse_apache_log}
use otus_c.LogParser.Apache.Search.{Without}

memchr-none : (c n : ℕ) (s : CString) → Without c s → memchr c n s ≡ none
unfolding memchr
memchr-none c zero s h = refl
memchr-none c (suc n) [] h = refl
memchr-none c (suc n) (x ∷ s) h =
    let other : (x == c) ≡ false = ground (arith, h.0) in rw (other, memchr-none c n s h.1) refl

read_fields-no_quote : (log : CString) → Without b'"' log → read_fields log ≡ fault
unfolding read_fields
read_fields-no_quote log h = elim (Option-cases (memchr b' ' (length log) log)) [
  | inl lost ↦ rw lost refl
  | inr ((ip, end), e) ↦ rw (e, memchr-none b'"' (length log) log h) refl
]

read_fields-no_space : (log : CString) → Without b' ' log → read_fields log ≡ fault
unfolding read_fields
read_fields-no_space log h = rw (memchr-none b' ' (length log) log h) refl

-- A line without a space or without a double quote, such as an empty one, is not refused: the code
-- computes with the null pointer that its search gives, whatever the tables hold.
pub parse-malformed :
    (refer_memory uri_memory : Bool) (t : Tables) (log : CString)
    → Without b' ' log ⊎ Without b'"' log
    → parse_apache_log refer_memory uri_memory t log ≡ fault
unfolding parse_apache_log
parse-malformed refer_memory uri_memory t log (inl h) = rw (read_fields-no_space log h) refl
parse-malformed refer_memory uri_memory t log (inr h) = rw (read_fields-no_quote log h) refl
