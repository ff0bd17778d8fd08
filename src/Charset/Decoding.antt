-- ===== src/Charset/Decoding.antt =====
-- hw2 as a whole: the output is UTF-8 for the characters of the input.
use mathlib.Core.Option.{some-injective}
use otus_c.Prelude.{
  ◌==◌, ==_iff, not, subst, ◌↔◌, get_elem?-lt, ℕ, zero, suc, ◌-◌, ◌^◌, ◌<◌, ◌≡◌, inl, inr, refl,
  sym, ap, ◌∙◌, Bool, true, false, ◌&&◌, List, [], ◌∷◌, ◌++◌, Option, none, some, arith,
  if◌then◌else◌, ltb, length, get_elem?, get_or, get_elem?-eq-get_or, Bool-cases,
}
use otus_c.Prelude.Bytes.{CString, starts}
use otus_c.Charset.Tables.{cp_1251, koi8, iso_8859_5}
use otus_c.Charset.{
  CodingType, coding_name, sizeof_coding_name, find_charset, encode, write_byte, convert, written,
  with_charset, with_files, main,
}
use otus_c.Charset.Utf8.{decode, decode_from, decode-ascii, decode-encode, all_below, all_below_lem}

-- All numbers of a list pass a test.
abbrev pub all_in : (ℕ → Bool) → List ℕ → Bool
all_in test [] = true
all_in test (v ∷ vs) = test v && all_in test vs

all_in-get_or :
    (test : ℕ → Bool) (vs : List ℕ) (i d : ℕ)
    → all_in test vs ≡ true
    → i < length vs
    → test (get_or vs i d) ≡ true
all_in-get_or test [] i d h low = absurd (omega arith)
all_in-get_or test (v ∷ vs) zero d h low = ground arith
all_in-get_or test (v ∷ vs) (suc i) d h low = all_in-get_or test vs i d (ground arith) (omega arith)

-- The character of a byte in a charset, as a list: a table's entry below 0x80 stands for none.
abbrev pub character : List ℕ → ℕ → List ℕ
character table b =
    if ltb b 0x80
    then b ∷ []
    else let v = get_or table (b - 0x80) 0 in if ltb v 0x80 then [] else v ∷ []

abbrev pub characters : List ℕ → List ℕ → List ℕ
characters table [] = []
characters table (b ∷ input) = character table b ++ characters table input

-- A table for the bytes from 0x80 on, of 16-bit numbers
pub record IsTable (table : List ℕ) : Type 0 where
  pub width : length table ≡ 128
  pub small : all_in (λ v. ltb v (2 ^ 16)) table ≡ true

encode-ascii : (v : ℕ) → v < 0x80 → encode v ≡ []
unfolding encode
encode-ascii v low = ground arith

-- A byte is written as its character.
write_byte-decode :
    (table : List ℕ) (b : ℕ) (bytes chars : List ℕ)
    → IsTable table
    → b < 256
    → decode bytes ≡ some chars
    → (out : List ℕ) × (write_byte table b ≡ some out)
      × (decode (out ++ bytes) ≡ some (character table b ++ chars))
unfolding write_byte
write_byte-decode table b bytes chars ok byte e = elim (Bool-cases (ltb b 0x80)) [
  | inl low ↦ (b ∷ [], rw low refl, rw (decode-ascii b bytes (ground arith), e, low) refl)
  | inr high ↦
      let i = b - 0x80 in
      let inside : i < length table = ground (arith, ok.width) in
      let v = get_or table i 0 in
      let at : get_elem? table i ≡ some v = get_elem?-eq-get_or table i 0 inside in
      let small : v < 2 ^ 16 =
        ground (arith, all_in-get_or (λ w. ltb w (2 ^ 16)) table i 0 ok.small inside) in
      elim (Bool-cases (ltb v 0x80)) [
        | inl lost ↦
            (encode v, rw (high, at) refl, rw (encode-ascii v (ground arith), high, lost) e)
        | inr kept ↦ (
          encode v,
          rw (high, at) refl,
          rw (decode-encode v bytes (ground arith) small, e, high, kept) refl,
        )
      ]
]

convert-decode :
    (table input : List ℕ)
    → IsTable table
    → all_in (λ b. ltb b 256) input ≡ true
    → (out : List ℕ) × (convert table input ≡ some out)
      × (decode out ≡ some (characters table input))
unfolding convert decode_from
convert-decode table [] ok bytes = ([], refl, refl)
convert-decode table (b ∷ input) ok bytes =
    let (rest, run, e) = convert-decode table input ok (ground arith) in
    let (out, run', e') =
      write_byte-decode table b rest (characters table input) ok (ground arith) e in
    (out ++ rest, rw (run', run) refl, e')

coding_name-IsTable : (i : ℕ) (c : CodingType) → get_elem? coding_name i ≡ some c → IsTable c.table
coding_name-IsTable zero c at =
    subst IsTable (ap (λ (x : CodingType). x.table) (some-injective _ _ at))
      (record { width = refl; small = refl })
coding_name-IsTable (suc zero) c at =
    subst IsTable (ap (λ (x : CodingType). x.table) (some-injective _ _ at))
      (record { width = refl; small = refl })
coding_name-IsTable (suc (suc zero)) c at =
    subst IsTable (ap (λ (x : CodingType). x.table) (some-injective _ _ at))
      (record { width = refl; small = refl })
coding_name-IsTable (suc (suc (suc i))) c at =
    absurd (omega (arith, get_elem?-lt coding_name (suc (suc (suc i))) at))

found_by_name :
    (i : ℕ) (c : CodingType)
    → get_elem? coding_name i ≡ some c
    → find_charset sizeof_coding_name c.name 0 ≡ some (some c)
unfolding find_charset
found_by_name zero c at =
    subst (λ x. find_charset sizeof_coding_name x.name 0 ≡ some (some x)) (some-injective _ _ at)
      refl
found_by_name (suc zero) c at =
    subst (λ x. find_charset sizeof_coding_name x.name 0 ≡ some (some x)) (some-injective _ _ at)
      refl
found_by_name (suc (suc zero)) c at =
    subst (λ x. find_charset sizeof_coding_name x.name 0 ≡ some (some x)) (some-injective _ _ at)
      refl
found_by_name (suc (suc (suc i))) c at =
    absurd (omega (arith, get_elem?-lt coding_name (suc (suc (suc i))) at))

-- For the name of a charset of the program, a file of bytes that can be read and an output that can be
-- written, `main` reads nothing out of range and writes UTF-8, which decodes to the characters that
-- the charset's table has for the bytes, in order, the entries below 0x80 left out.
pub main-decode :
    (open_read : CString → Option (List ℕ)) (open_write : CString → Bool) (pin pout : CString)
    (input : List ℕ) (i : ℕ) (c : CodingType)
    → get_elem? coding_name i ≡ some c
    → open_read pin ≡ some input
    → open_write pout ≡ true
    → all_in (λ b. ltb b 256) input ≡ true
    → (out : List ℕ) × (main open_read open_write (some pin) (some pout) (some c.name)
        ≡ some (written out))
      × (decode out ≡ some (characters c.table input))
unfolding main with_charset with_files
main-decode open_read open_write pin pout input i c at readable writable bytes =
    let (out, run, e) = convert-decode c.table input (coding_name-IsTable i c at) bytes in
    (out, rw (found_by_name i c at, readable, writable, run) refl, e)

abbrev is_empty : List ℕ → Bool
is_empty [] = true
is_empty (v ∷ vs) = false

abbrev Dropped : ℕ → CodingType → ℕ → Type 0
Dropped i c b = (character c.table b ≡ []) ↔ ((i ≡ 0) × (b ≡ 0x98))

only :
    (table : List ℕ) (n : ℕ)
    → all_below 256 (λ k. if is_empty (character table k) then k == n else true) ≡ true
    → (b : ℕ) → b < 256
    → character table b ≡ []
    → b ≡ n
only table n all b byte e =
    let tested =
      all_below_lem 256 (λ k. if is_empty (character table k) then k == n else true) all b byte in
    let same : (b == n) ≡ true = sym (ap (λ l. if is_empty l then b == n else true) e) ∙ tested in
    (==_iff b n).0 same

never :
    (i : ℕ) (table : List ℕ)
    → all_below 256 (λ n. not (is_empty (character table n))) ≡ true
    → (b : ℕ) → b < 256
    → (character table b ≡ []) ↔ ((suc i ≡ 0) × (b ≡ 0x98))
never i table all b byte = (
  λ e. absurd (
      ground (
        arith,
        all_below_lem 256 (λ n. not (is_empty (character table n))) all b byte,
        ap is_empty e,
      )),
  λ e. absurd (omega (arith, e.0)),
)

-- Of all bytes only 0x98 in cp1251 has no character: its entry is the space, which is below 0x80, so
-- that the byte is dropped from the output.
pub character-dropped :
    (i : ℕ) (c : CodingType) (b : ℕ)
    → get_elem? coding_name i ≡ some c
    → b < 256
    → (character c.table b ≡ []) ↔ ((i ≡ 0) × (b ≡ 0x98))
character-dropped zero c b at byte =
    subst (λ x. Dropped 0 x b) (some-injective _ _ at)
      (λ e. (refl, only cp_1251 0x98 refl b byte e), λ e. ap (character cp_1251) e.1)
character-dropped (suc zero) c b at byte =
    subst (λ x. Dropped 1 x b) (some-injective _ _ at) (never 0 koi8 refl b byte)
character-dropped (suc (suc zero)) c b at byte =
    subst (λ x. Dropped 2 x b) (some-injective _ _ at) (never 1 iso_8859_5 refl b byte)
character-dropped (suc (suc (suc i))) c b at byte =
    absurd (omega (arith, get_elem?-lt coding_name (suc (suc (suc i))) at))

-- For a charset that is no prefix of a name in `coding_name` the loop of `main` does not stop at the
-- end of the array: it reads past it.
pub main-unknown :
    (open_read : CString → Option (List ℕ)) (open_write : CString → Bool)
    (pin pout charset : CString)
    → ((i : ℕ) (c : CodingType) → get_elem? coding_name i ≡ some c → starts charset c.name ≡ false)
    → main open_read open_write (some pin) (some pout) (some charset) ≡ none
unfolding main find_charset
main-unknown open_read open_write pin pout charset differs =
    rw (differs 0 _ refl, differs 1 _ refl, differs 2 _ refl) refl
