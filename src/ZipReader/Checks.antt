-- ===== src/ZipReader/Checks.antt =====
-- hw1: runs of the readers on small files, and the theorems at such files.
use mathlib.Core.Logic.Or
use mathlib.Core.List.{Mem, mem-cons}
use otus_c.Prelude.{
  ℕ, Bool, zero, suc, ◌+◌, ◌≡◌, refl, true, false, List, [], ◌∷◌, ◌++◌, some, length, arith,
}
use otus_c.ZipReader.{
  read_eocdr, read_cfh, read_lfh, jpeg_offset, find_eoi, is_zip, archive_names, put_all, printed,
  undefined,
}
use otus_c.ZipReader.Stream.{file_at, read_bytes, fread, seek, read, tell}
use otus_c.ZipReader.Structs.{Eocdr, Cfh, Lfh}
use otus_c.ZipReader.Layout.{eocdr_bytes, cfh_bytes, lfh_bytes, le16}
use otus_c.ZipReader.Headers.{read_cfh-bytes, read_lfh-shifted, shifted}
use otus_c.ZipReader.Jpeg.{image}
use otus_c.ZipReader.Archive.{archive, names_of, is_zip-archive, is_zip-unclosed}
use otus_c.ZipReader.Puts.{Nonzero, Hold}

-- A header of a stored file with a name of `n` bytes
abbrev header : ℕ → Cfh
header n = record {
  made_by_ver = 798;
  extract_ver = 10;
  gp_flag = 0;
  method = 0;
  mod_time = 29361;
  mod_date = 22184;
  crc32 = 0x1b2c3d4e;
  comp_size = 70000;
  uncomp_size = 70000;
  name_len = n;
  extra_len = 0;
  comment_len = 0;
  disk_nbr_start = 0;
  int_attrs = 0;
  ext_attrs = 0x81a40000;
  lfh_offset = 6;
}

abbrev closing : Eocdr
closing = record {
  disk_nbr = 0;
  cd_start_disk = 0;
  disk_cd_entries = 3;
  cd_entries = 3;
  cd_size = 141;
  cd_offset = 6;
  comment_len = 0;
}

abbrev eocdr_memory : Eocdr
eocdr_memory = record {
  disk_nbr = 7;
  cd_start_disk = 7;
  disk_cd_entries = 7;
  cd_entries = 7;
  cd_size = 7;
  cd_offset = 7;
  comment_len = 7;
}

abbrev local : Lfh
local = record {
  extract_ver = 10;
  gp_flag = 0;
  method = 0;
  mod_time = 29361;
  mod_date = 22184;
  crc32 = 0x1b2c3d4e;
  comp_size = 5;
  uncomp_size = 5;
  name_len = 3;
  extra_len = 0;
}

abbrev cfh_memory : ℕ → Cfh
cfh_memory n = header (n + 9)

abbrev pairs : List (ℕ × ℕ)
pairs = (1, 0xff) ∷ (0xd9, 2) ∷ []

abbrev picture : List ℕ
picture = image pairs []

-- Three entries, the one of the last header with nothing behind it
abbrev three_entries : List (Cfh × List ℕ)
three_entries = (header 0, []) ∷ (header 3, []) ∷ (header 3, b'a' ∷ b'b' ∷ b'c' ∷ []) ∷ []

-- Three entries with a zero byte in each name, the name of the last of them in the closing record
abbrev closed_entries : List (Cfh × List ℕ)
closed_entries =
    (header 5, [])
    ∷ (header 3, b'a' ∷ b'b' ∷ 0 ∷ 1 ∷ 2 ∷ [])
    ∷ (header 3, b'c' ∷ 0 ∷ b'd' ∷ [])
    ∷ []

abbrev closed_texts : List (List ℕ)
closed_texts = (b'P' ∷ b'K' ∷ 5 ∷ 6 ∷ []) ∷ (b'a' ∷ b'b' ∷ []) ∷ (b'c' ∷ []) ∷ []

abbrev all_set : List ℕ → Bool
all_set [] = true
all_set (zero ∷ _) = false
all_set (suc _ ∷ bs) = all_set bs

nonzero : (bs : List ℕ) → all_set bs ≡ true → Nonzero bs
nonzero [] h = tt
nonzero (zero ∷ bs) h = cc
nonzero (suc b ∷ bs) h = (λ e. omega (arith, e), nonzero bs h)

closed_texts-Hold : Hold closed_texts (names_of closed_entries (eocdr_bytes closing []))
closed_texts-Hold = (
  ([], refl),
  nonzero (b'P' ∷ b'K' ∷ 5 ∷ 6 ∷ []) refl,
  (([], refl), nonzero (b'a' ∷ b'b' ∷ []) refl, ((b'd' ∷ [], refl), nonzero (b'c' ∷ []) refl, tt)),
)

abc-Mem : Mem (b'a' ∷ b'b' ∷ b'c' ∷ []) (names_of three_entries (eocdr_bytes closing []))
abc-Mem = mem-cons.1 (Or.inr (mem-cons.1 (Or.inr (mem-cons.1 (Or.inl refl)))))

is_zip-archive_example :
    is_zip 250 [] eocdr_memory cfh_memory (archive picture closed_entries closing)
    ≡ some (printed false closed_texts)
is_zip-archive_example =
    is_zip-archive 250 [] picture closed_entries closing eocdr_memory cfh_memory closed_texts
      (omega arith) (refl, (refl, (refl, tt))) refl (omega arith) closed_texts-Hold

is_zip-unclosed_example :
    is_zip 250 [] eocdr_memory cfh_memory (archive picture three_entries closing) ≡ some undefined
is_zip-unclosed_example =
    is_zip-unclosed 250 [] picture three_entries closing eocdr_memory cfh_memory
      (b'a' ∷ b'b' ∷ b'c' ∷ []) (omega arith) (refl, (refl, (refl, tt))) refl (omega arith) abc-Mem
      (nonzero (b'a' ∷ b'b' ∷ b'c' ∷ []) refl)

-- The picture, with one entry that has a name, is refused.
is_zip_named :
    is_zip 250 [] eocdr_memory cfh_memory
      (picture ++ cfh_bytes (header 1) (b'a' ∷ eocdr_bytes (record closing { cd_entries = 1 }) []))
    ≡ some (printed true [])
unfolding is_zip archive_names put_all jpeg_offset read_eocdr read_cfh find_eoi read_bytes fread
    seek read tell
is_zip_named = refl

read_cfh-bytes_example :
    read_cfh
      (header 9)
      100
      (length picture)
      (file_at (picture ++ cfh_bytes (header 1) (b'a' ∷ [])) [])
    ≡ ((true, header 1, b'a' ∷ []), file_at (picture ++ cfh_bytes (header 1) (b'a' ∷ [])) [])
read_cfh-bytes_example =
    read_cfh-bytes picture (header 1) (header 9) (b'a' ∷ []) [] 100 (omega arith) (omega arith)

read_lfh-shifted_test :
    read_lfh local 60 0 (file_at (lfh_bytes local (b'a' ∷ [])) [])
    ≡ ((true, shifted local local), file_at (lfh_bytes local (b'a' ∷ [])) (le16 0 ++ (b'a' ∷ [])))
read_lfh-shifted_test =
    read_lfh-shifted [] local local (b'a' ∷ []) [] 60 (omega arith) (omega arith)
