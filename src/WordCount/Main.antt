-- ===== src/WordCount/Main.antt =====
-- hw3/src/main.c: `main`, from the options to the listing. `getopt`, `fopen` and the memory are
-- arguments; `strtok` of the C library is written out for the delimiters that `main` gives it.
pub mod Words
pub mod Run
pub mod Safe
pub mod Ending
pub mod Stop
pub mod Checks
use otus_c.Prelude.{
  ℕ, zero, suc, leb, ◌-◌, ◌^◌, map, ◌==◌, Bool, true, false, ◌||◌, List, [], ◌∷◌, Option, none,
  some, if◌then◌else◌, take, ◌⊎◌, inl, inr, ◌>>=◌, length, ◌++◌,
}
use otus_c.Prelude.Bytes.{CString}
use otus_c.WordCount.{HTable, new_table, count_words, iterate}

-- What a call of `getopt` with "i:h" gives, before it gives -1; `other` is any other character.
pub data Opt : Type 0 where
  input : CString → Opt
  help : Opt
  other : ℕ → Opt

-- A line of the listing: the key, whether a minus sign is printed, and the number behind it
pub record Line : Type 0 where
  pub key : CString
  pub minus : Bool
  pub digits : ℕ

-- `printCallback` prints a value of 32 bits as an `int`.
abbrev pub print_callback : CString × ℕ → Line
print_callback (key, value) =
    let big = leb (2 ^ 31) value in
    record { key = key; minus = big; digits = if big then 2 ^ 32 - value else value }

-- The ways in which `main` ends
pub data Exit : Type 0 where
  usage : Exit
  invalid_option : ℕ → Exit
  missing_options : Exit
  open_failed : Exit
  no_buffer : Exit
  no_table : Exit
  could_not_add : Exit
  counted : List Line → Exit

-- The value that `main` returns
unfoldable pub status : Exit → ℕ
status usage = 0
status (counted listing) = 0
status (invalid_option c) = 1
status missing_options = 1
status open_failed = 1
status no_buffer = 1
status no_table = 1
status could_not_add = 1

-- What `main` allocates itself, and the two blocks of the table
pub data Block : Type 0 where
  file : Block
  buffer : Block
  table : Block
  array : Block

-- The blocks that `clear` frees: the copies of the keys are not among them.
abbrev pub clear : List Block
clear = array ∷ table ∷ []

-- The blocks that are freed, in order
unfoldable pub freed : Exit → List Block
freed usage = []
freed (invalid_option c) = []
freed missing_options = []
freed open_failed = []
freed no_buffer = file ∷ []
freed no_table = file ∷ buffer ∷ []
freed could_not_add = []
freed (counted listing) = clear ++ (file ∷ buffer ∷ [])

-- The loop over the options, with the value of `pin`
unfoldable pub read_options : Option CString → List Opt → Exit ⊎ Option CString
read_options pin [] = inr pin
read_options pin (input optarg ∷ opts) = read_options (some optarg) opts
read_options pin (help ∷ opts) = inl usage
read_options pin (other c ∷ opts) = inl (invalid_option c)

-- An open file: what `ftell` answers at its end, and the bytes that `fread` can give
pub record File : Type 0 where
  pub size : ℕ
  pub bytes : List ℕ

-- The string in the buffer, behind which `main` writes a zero
abbrev pub text_from : List ℕ → CString
text_from [] = []
text_from (c ∷ bytes) = let s = text_from bytes in if c == 0 then [] else c ∷ s

abbrev pub text : File → CString
text f = text_from (take f.size f.bytes)

-- One of " ,.\n\t"
abbrev pub is_delimiter : ℕ → Bool
is_delimiter c = c == b' ' || c == b',' || c == b'.' || c == 10 || c == 9

abbrev pub skip : CString → CString
skip [] = []
skip (c ∷ s) = let rest = skip s in if is_delimiter c then rest else c ∷ s

-- A word, and what stands behind the delimiter that ends it
abbrev pub word_at : CString → CString × CString
word_at [] = ([], [])
word_at (c ∷ s) = let (w, rest) = word_at s in if is_delimiter c then ([], s) else (c ∷ w, rest)

abbrev pub token : CString → Option (CString × CString)
token [] = none
token (c ∷ s) = some (word_at (c ∷ s))

unfoldable pub strtok : CString → Option (CString × CString)
strtok s = token (skip s)

abbrev pub and_rest : (CString → List CString) → Option (CString × CString) → List CString
and_rest k none = []
and_rest k (some (w, rest)) = w ∷ k rest

-- What the calls of `strtok` give until one gives a null pointer; a call for each byte and one more
-- are enough.
unfoldable pub tokens : ℕ → CString → List CString
tokens zero s = []
tokens (suc fuel) s = and_rest (tokens fuel) (strtok s)

-- Whether there is memory for the buffer, for the table and its array, and for each word for a new array
-- and the copy of its key
pub record Memory : Type 0 where
  pub for_buffer : Bool
  pub for_table : Bool
  pub for_values : Bool
  pub for_words : ℕ → Bool × Bool

abbrev pub ending : Bool × HTable → Exit
ending (added, t) = if added then counted (map print_callback (iterate t.values)) else could_not_add

-- The loop over the words, in the table where there is one
unfoldable pub count_text : (ℕ → Bool × Bool) → CString → Option HTable → Option Exit
count_text for_words s none = some no_table
count_text for_words s (some t) = do
  r ← count_words for_words 0 t (tokens (suc (length s)) s)
  some (ending r)

-- `main` on what `fopen` gives
unfoldable pub count_file : Memory → Option File → Option Exit
count_file memory none = some open_failed
count_file memory (some f) =
    if memory.for_buffer
    then (do
      t ← new_table memory.for_table memory.for_values 10 10
      count_text memory.for_words (text f) t)
    else some no_buffer

-- `main` behind the loop over the options
unfoldable pub open_input : Memory → (CString → Option File) → Exit ⊎ Option CString → Option Exit
open_input memory fopen (inl e) = some e
open_input memory fopen (inr none) = some missing_options
open_input memory fopen (inr (some pin)) = count_file memory (fopen pin)

-- `none` is undefined behaviour.
unfoldable pub main : Memory → (CString → Option File) → List Opt → Option Exit
main memory fopen opts = open_input memory fopen (read_options none opts)
