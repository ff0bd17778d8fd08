-- ===== src/ZipReader/Archive.antt =====
-- hw1: the archives that `is_zip` accepts. It starts a header's size before the closing record and goes
-- back over the entries, each time by the lengths of the entry that it has just read.
use mathlib.Core.List.{append_assoc, Mem}
use otus_c.Prelude.{
  ℕ, ◌+◌, ◌-◌, ◌^◌, ◌<◌, ◌≤◌, ◌≡◌, refl, sym, ◌∙◌, ap, Bool, false, List, [], ◌∷◌, ◌++◌, some,
  length, take, length-append, arith,
}
use otus_c.Prelude.Words.{sub32, sub64}
use otus_c.Prelude.Bytes.{CString}
use otus_c.ZipReader.{
  walk, read_archive, archive_names, put_names, Printed, printed, undefined, is_zip,
}
use otus_c.ZipReader.Stream.{file_at, tell}
use otus_c.ZipReader.Structs.{cfh_base_sz, Eocdr, Cfh}
use otus_c.ZipReader.Layout.{cfh_bytes, eocdr_bytes}
use otus_c.ZipReader.Headers.{read_eocdr-bytes, read_cfh-bytes, seek-append, behind}
use otus_c.ZipReader.Puts.{Nonzero, Hold, put_all-Hold, put_all-Mem, put_names-some, put_names-none}
use otus_c.ZipReader.Jpeg.{jpeg_offset-ends}

-- Headers with the bytes behind each, the last in the file first, before `r`
abbrev pub directory : List (Cfh × List ℕ) → List ℕ → List ℕ
directory [] r = r
directory ((h, tail) ∷ es) r = directory es (cfh_bytes h (tail ++ r))

-- The size of an entry, as its header tells it
abbrev size_of : Cfh → ℕ
size_of h = cfh_base_sz + h.name_len + h.comment_len + h.extra_len

-- Each entry takes as many bytes as the header after it in the file says of itself; the last takes `d`.
abbrev pub Steps : ℕ → List (Cfh × List ℕ) → Type 0
Steps d [] = Unit
Steps d ((h, tail) ∷ es) = (cfh_base_sz + length tail ≡ d) × Steps (size_of h) es

-- The names that are handed to `puts`
abbrev pub names_of : List (Cfh × List ℕ) → List ℕ → List (List ℕ)
names_of [] r = []
names_of ((h, tail) ∷ es) r = take h.name_len (tail ++ r) ∷ names_of es (cfh_bytes h (tail ++ r))

directory-append : (es : List (Cfh × List ℕ)) (r : List ℕ) → directory es r ≡ directory es [] ++ r
directory-append [] r = refl
directory-append ((h, tail) ∷ es) r =
    let whole : List ℕ = cfh_bytes h (tail ++ []) in
    directory-append es (cfh_bytes h (tail ++ r))
    ∙ ap (λ d. directory es [] ++ cfh_bytes h d) (sym (append_assoc tail [] r))
    ∙ sym (append_assoc (directory es []) whole r)
    ∙ ap (λ d. d ++ r) (sym (directory-append es whole))

abbrev front : List ℕ → List (Cfh × List ℕ) → List ℕ
front pre es = pre ++ directory es []

front-append :
    (pre : List ℕ) (es : List (Cfh × List ℕ)) (r : List ℕ)
    → pre ++ directory es r ≡ front pre es ++ r
front-append pre es r =
    ap (λ d. pre ++ d) (directory-append es r) ∙ sym (append_assoc pre (directory es []) r)

length-front :
    (pre : List ℕ) (h : Cfh) (tail : List ℕ) (es : List (Cfh × List ℕ))
    → length (front pre ((h, tail) ∷ es)) ≡ length (front pre es) + (46 + length tail)
length-front pre h tail es =
    let entry : List ℕ = cfh_bytes h (tail ++ []) in
    omega (
      arith,
      ap length (front-append pre es entry),
      length-append (front pre es) entry,
      length-append tail [],
    )

walk-directory :
    (es : List (Cfh × List ℕ)) (d : ℕ) (pre r at : List ℕ) (c : ℕ → Cfh) (size : ℕ)
    → Steps d es
    → length (front pre es) ≤ size
    → size < 2 ^ 32
    → walk (length es) c size (sub32 (length (front pre es)) d) (file_at (pre ++ directory es r) at)
      ≡ (false, names_of es r)
walk-directory [] d pre r at c size s l b = refl
walk-directory ((h, tail) ∷ es) d pre r at c size s l b =
    let here : length (front pre ((h, tail) ∷ es)) ≡ length (front pre es) + (46 + length tail) =
      length-front pre h tail es in
    let offset : sub32 (length (front pre ((h, tail) ∷ es))) d ≡ length (front pre es) =
      omega (arith, here, s.0, l, b) in
    let file = front-append pre es (cfh_bytes h (tail ++ r)) in
    let read =
      read_cfh-bytes (front pre es) h (c (length es)) (tail ++ r) at size (omega (arith, here, l))
        (omega (arith, here, l, b)) in
    let rest =
      walk-directory es (size_of h) pre (cfh_bytes h (tail ++ r)) (behind h (tail ++ r)) c size s.1
        (omega (arith, here, l)) b in
    rw (offset, file, read, sym file, rest) refl

-- The file of an archive: what stands before it, its entries, and the closing record
abbrev pub archive : List ℕ → List (Cfh × List ℕ) → Eocdr → List ℕ
archive pre es e = pre ++ directory es (eocdr_bytes e [])

read_archive-archive :
    (pre at : List ℕ) (es : List (Cfh × List ℕ)) (e old : Eocdr) (c : ℕ → Cfh)
    → Steps cfh_base_sz es
    → e.cd_entries ≡ length es
    → length (archive pre es e) < 2 ^ 32
    → read_archive old c (length (archive pre es e)) (file_at (archive pre es e) at)
      ≡ (false, names_of es (eocdr_bytes e []))
unfolding tell
read_archive-archive pre at es e old c s n b =
    let closing : List ℕ = eocdr_bytes e [] in
    let split : archive pre es e ≡ front pre es ++ closing = front-append pre es closing in
    let l : length (archive pre es e) ≡ length (front pre es) + 22 =
      ap length split ∙ length-append (front pre es) closing in
    let read = read_eocdr-bytes (front pre es) e old at (omega (arith, ap length split, b)) in
    let start : sub64 (length (front pre es ++ closing)) 22 ≡ length (front pre es) =
      omega (arith, ap length split, l, b) in
    let sought = seek-append (front pre es) closing [] (omega (arith, l, b)) in
    let position : length (front pre es ++ closing) - 22 ≡ length (front pre es) =
      omega (arith, ap length split, l) in
    let content : List ℕ = front pre es ++ closing in
    let rest =
      walk-directory es 46 pre closing closing c (length content) s
        (omega (arith, ap length split, l)) (omega (arith, ap length split, b)) in
    let run : ℕ → List ℕ → Bool × List (List ℕ) = (λ k file.
      walk k c (length content) (sub32 (length (front pre es)) 46) (file_at file closing)) in
    rw (split, read, start, sought, position)
      (ap (λ k. run k content) n ∙ ap (run (length es)) (sym split) ∙ rest)

names-archive :
    (rounds : ℕ) (buffer pre : List ℕ) (es : List (Cfh × List ℕ)) (e old : Eocdr) (c : ℕ → Cfh)
    → length (archive pre es e) < rounds
    → Steps cfh_base_sz es
    → e.cd_entries ≡ length es
    → length (archive pre es e) < 2 ^ 32
    → archive_names rounds buffer old c (archive pre es e)
      ≡ some (false, names_of es (eocdr_bytes e []))
unfolding archive_names
names-archive rounds buffer pre es e old c h s n b =
    let content : List ℕ = archive pre es e in
    let ((p, at), found, same) = jpeg_offset-ends rounds buffer content h in
    let read = read_archive-archive pre at.rest es e old c s n b in
    rw (found, archive_names)
      (ap some (ap (λ x. read_archive old c (length content) (file_at x at.rest)) same ∙ read))

-- A file in which each entry is as long as the header after it says of itself, the last one a
-- bare header, is accepted, and the names of all its entries are printed, each up to its first
-- zero byte, whatever stands before the archive; where every name has a zero byte, the file is
-- below 2^32 bytes, and more rounds are allowed than it has bytes.
pub is_zip-archive :
    (rounds : ℕ) (buffer pre : List ℕ) (es : List (Cfh × List ℕ)) (e old : Eocdr) (c : ℕ → Cfh)
    (texts : List CString)
    → length (archive pre es e) < rounds
    → Steps cfh_base_sz es
    → e.cd_entries ≡ length es
    → length (archive pre es e) < 2 ^ 32
    → Hold texts (names_of es (eocdr_bytes e []))
    → is_zip rounds buffer old c (archive pre es e) ≡ some (printed false texts)
unfolding is_zip
is_zip-archive rounds buffer pre es e old c texts h s n b z =
    rw (is_zip, names-archive rounds buffer pre es e old c h s n b)
      (ap some (
        put_names-some texts (names_of es (eocdr_bytes e []))
          (put_all-Hold texts (names_of es (eocdr_bytes e [])) z)))

-- In such a file, where a name has no zero byte, as the format has it, the call of puts on it is
-- undefined.
pub is_zip-unclosed :
    (rounds : ℕ) (buffer pre : List ℕ) (es : List (Cfh × List ℕ)) (e old : Eocdr) (c : ℕ → Cfh)
    (name : List ℕ)
    → length (archive pre es e) < rounds
    → Steps cfh_base_sz es
    → e.cd_entries ≡ length es
    → length (archive pre es e) < 2 ^ 32
    → Mem name (names_of es (eocdr_bytes e []))
    → Nonzero name
    → is_zip rounds buffer old c (archive pre es e) ≡ some undefined
unfolding is_zip
is_zip-unclosed rounds buffer pre es e old c name h s n b m z =
    rw (is_zip, names-archive rounds buffer pre es e old c h s n b)
      (ap some (
        put_names-none (names_of es (eocdr_bytes e []))
          (put_all-Mem name (names_of es (eocdr_bytes e [])) z m)))

-- With more rounds than the file has bytes the program ends, on any file.
pub is_zip-ends :
    (rounds : ℕ) (buffer content : List ℕ) (e : Eocdr) (c : ℕ → Cfh)
    → length content < rounds
    → (r : Printed) × (is_zip rounds buffer e c content ≡ some r)
unfolding is_zip archive_names
is_zip-ends rounds buffer content e c h =
    let ((p, f), found, same) = jpeg_offset-ends rounds buffer content h in
    let r : Bool × List (List ℕ) = read_archive e c (length content) f in
    let ends : archive_names rounds buffer e c content ≡ some r = rw (found, archive_names) refl in
    (put_names r.0 r.1, rw (is_zip, ends) refl)
