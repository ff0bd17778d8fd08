-- ===== src/ZipReader.antt =====
-- hw1: the reader of a zip archive behind a JPEG image (hw1/src/main.c), and another walk over the
-- archive (hw1/src/main2.c). A struct that a function fills is an argument, as memory had it before.
-- An array of no elements is taken as compilers take it: it has none.
pub mod Stream
pub mod Structs
pub mod Layout
pub mod Headers
pub mod Jpeg
pub mod Puts
pub mod Archive
pub mod Variant
pub mod Checks
use mathlib.Core.Option
use otus_c.Prelude.{
  ◌++◌, take, drop, ℕ, zero, suc, ◌+◌, ◌-◌, ◌*◌, ◌/◌, ◌%◌, ◌^◌, ◌==◌, Bool, true, false, not, ◌&&◌,
  ◌||◌, List, [], ◌∷◌, Option, none, some, if◌then◌else◌, ltb, length,
}
use otus_c.Prelude.Words.{u32, sub32, sub64}
use otus_c.Prelude.Bytes.{CString}
use otus_c.ZipReader.Stream.{
  File, file_at, Reader, ◌>>=◌, ◌>>◌, pure, fread, read, read_bytes, seek, tell,
}
use otus_c.ZipReader.Structs.{
  eocdr_base_sz, eocdr_signature, cfh_base_sz, cfh_signature, lfh_base_sz, lfh_signature, Eocdr,
  Cfh, Lfh,
}

abbrev pub eocdr_fields : Eocdr → Reader (Bool × Eocdr)
eocdr_fields r = do
  disk_nbr ← read 2 r.disk_nbr
  cd_start_disk ← read 2 r.cd_start_disk
  disk_cd_entries ← read 2 r.disk_cd_entries
  cd_entries ← read 2 r.cd_entries
  cd_size ← read 4 r.cd_size
  cd_offset ← read 4 r.cd_offset
  comment_len ← read 2 r.comment_len
  pure (
    true,
    record {
      disk_nbr = disk_nbr;
      cd_start_disk = cd_start_disk;
      disk_cd_entries = disk_cd_entries;
      cd_entries = cd_entries;
      cd_size = cd_size;
      cd_offset = cd_offset;
      comment_len = comment_len;
    },
  )

-- The size of the file is `sz`; `r` holds what memory had before.
unfoldable pub read_eocdr : Eocdr → ℕ → Reader (Bool × Eocdr)
read_eocdr r sz = do
  seek (sub64 sz eocdr_base_sz)
  (retval, signature) ← fread 4 0
  if retval == 0
      then pure (false, r)
      else if signature == eocdr_signature
      then eocdr_fields r
      else pure (false, r)

-- What `read_cfh` gives: its result, the header, and the buffer that it hands to `puts`.
abbrev pub CfhResult : Type 0
CfhResult = Bool × Cfh × List ℕ

abbrev pub cfh_fields : Cfh → Reader CfhResult
cfh_fields c = do
  made_by_ver ← read 2 c.made_by_ver
  extract_ver ← read 2 c.extract_ver
  gp_flag ← read 2 c.gp_flag
  method ← read 2 c.method
  mod_time ← read 2 c.mod_time
  mod_date ← read 2 c.mod_date
  crc32 ← read 4 c.crc32
  comp_size ← read 4 c.comp_size
  uncomp_size ← read 4 c.uncomp_size
  name_len ← read 2 c.name_len
  extra_len ← read 2 c.extra_len
  comment_len ← read 2 c.comment_len
  disk_nbr_start ← read 2 c.disk_nbr_start
  int_attrs ← read 2 c.int_attrs
  ext_attrs ← read 4 c.ext_attrs
  lfh_offset ← read 4 c.lfh_offset
  string_buf ← read_bytes name_len
  comment ← read_bytes comment_len
  pure (
    true,
    record {
      made_by_ver = made_by_ver;
      extract_ver = extract_ver;
      gp_flag = gp_flag;
      method = method;
      mod_time = mod_time;
      mod_date = mod_date;
      crc32 = crc32;
      comp_size = comp_size;
      uncomp_size = uncomp_size;
      name_len = name_len;
      extra_len = extra_len;
      comment_len = comment_len;
      disk_nbr_start = disk_nbr_start;
      int_attrs = int_attrs;
      ext_attrs = ext_attrs;
      lfh_offset = lfh_offset;
    },
    string_buf,
  )

unfoldable pub read_cfh : Cfh → ℕ → ℕ → Reader CfhResult
read_cfh c f_sz offset =
    let body : Reader CfhResult = (do
      seek offset
      (retval, signature) ← fread 4 0
      if retval == 0
          then pure (false, c, [])
          else if not (signature == cfh_signature)
          then pure (false, c, [])
          else cfh_fields c) in
    if ltb f_sz offset || ltb (f_sz - offset) cfh_base_sz then pure (false, c, []) else body

abbrev pub lfh_fields : Lfh → Reader (Bool × Lfh)
lfh_fields l = do
  extract_ver ← read 2 l.extract_ver
  gp_flag ← read 2 l.gp_flag
  method ← read 2 l.method
  mod_time ← read 2 l.mod_time
  mod_date ← read 2 l.mod_date
  low ← read 2 (l.crc32 % 2 ^ 16)
  comp_size ← read 4 l.comp_size
  uncomp_size ← read 4 l.uncomp_size
  name_len ← read 2 l.name_len
  extra_len ← read 2 l.extra_len
  pure (
    true,
    record {
      extract_ver = extract_ver;
      gp_flag = gp_flag;
      method = method;
      mod_time = mod_time;
      mod_date = mod_date;
      crc32 = low + l.crc32 / 2 ^ 16 * 2 ^ 16;
      comp_size = comp_size;
      uncomp_size = uncomp_size;
      name_len = name_len;
      extra_len = extra_len;
    },
  )

-- `crc32` is read with the size of `mod_date`, so only its low half is set.
unfoldable pub read_lfh : Lfh → ℕ → ℕ → Reader (Bool × Lfh)
read_lfh l f_sz offset =
    let body : Reader (Bool × Lfh) = (do
      seek offset
      (retval, signature) ← fread 4 0
      if retval == 0
          then pure (false, l)
          else if not (signature == lfh_signature)
          then pure (false, l)
          else lfh_fields l) in
    if ltb f_sz offset || ltb (f_sz - offset) lfh_base_sz then pure (false, l) else body

-- `memcmp(buffer, pair, 2) == 0`
abbrev pub is_pair : ℕ → ℕ → List ℕ → Bool
is_pair a b (x ∷ y ∷ []) = x == a && y == b
is_pair a b _ = false

-- The loop of `jpeg_offset` with a number of rounds left: `none` is that they ran out. A read that
-- gives fewer than two bytes ends it.
pub find_eoi : ℕ → Bool → File → Option (ℕ × File)
find_eoi zero is_start_jpeg f = none
find_eoi (suc rounds) is_start_jpeg f =
    let (buffer, f') = read_bytes 2 f in
    let rest = find_eoi rounds is_start_jpeg f' in
    if length buffer == 2
    then if is_pair 0xff 0xd9 buffer && is_start_jpeg then some (u32 (tell f').0, f') else rest
    else some (0, f')

-- `buffer` is what memory had before the first read, which may give fewer than two bytes.
pub jpeg_offset : ℕ → List ℕ → File → Option (ℕ × File)
jpeg_offset rounds buffer f =
    let (first, f') = read_bytes 2 f in
    find_eoi rounds (is_pair 0xff 0xd8 (take 2 (first ++ drop (length first) buffer))) f'

-- The loop of `is_zip` for the entries that are left: its result, and what it hands to `puts`. `c n` is
-- what memory had for the header before the round with `n` entries after it.
abbrev pub walk : ℕ → (ℕ → Cfh) → ℕ → ℕ → File → Bool × List (List ℕ)
walk zero c size offset f = (false, [])
walk (suc n) c size offset f =
    let ((is_read, h, string_buf), f') = read_cfh (c n) size offset f in
    let (result, names) =
      walk n c size (sub32 offset (cfh_base_sz + h.name_len + h.comment_len + h.extra_len)) f' in
    if is_read then (result, string_buf ∷ names) else (true, [])

-- `is_zip` behind `jpeg_offset`. `EXIT_FAILURE` is returned as the Boolean `true`.
abbrev pub read_archive : Eocdr → (ℕ → Cfh) → ℕ → File → Bool × List (List ℕ)
read_archive e c size f =
    let ((is_read, e'), f') = read_eocdr e size f in
    let (_, f'') = seek (sub64 size eocdr_base_sz) f' in
    if is_read then walk e'.cd_entries c size (sub32 (tell f'').0 cfh_base_sz) f'' else (true, [])

-- What `is_zip` hands to `puts` on a file that was opened, with its result; `buffer`, `e` and `c` are
-- what memory had before.
unfoldable pub archive_names :
    ℕ → List ℕ → Eocdr → (ℕ → Cfh) → List ℕ → Option (Bool × List (List ℕ))
archive_names rounds buffer e c content =
    elim (jpeg_offset rounds buffer (file_at content content)) [
      | none ↦ none
      | some p ↦ some (read_archive e c (length content) p.1)
    ]

-- `puts`: it writes the bytes of a buffer up to a zero. `none` is a buffer without one, behind the
-- end of which it reads.
unfoldable pub puts : List ℕ → Option CString
puts [] = none
puts (b ∷ bs) = let rest = puts bs in if b == 0 then some [] else Option.map (λ t. b ∷ t) rest

-- A line and the lines after it
abbrev pub put_next : Option CString → Option (List CString) → Option (List CString)
put_next (some t) (some ts) = some (t ∷ ts)
put_next (some _) none = none
put_next none _ = none

unfoldable pub put_all : List (List ℕ) → Option (List CString)
put_all [] = some []
put_all (b ∷ bs) = put_next (puts b) (put_all bs)

-- How `is_zip` ends: it returns, having written the lines, or a call of `puts` is undefined.
pub data Printed : Type 0 where
  printed : Bool → List CString → Printed
  undefined : Printed

abbrev pub put_names : Bool → List (List ℕ) → Printed
put_names result bufs = elim (put_all bufs) [ none ↦ undefined | some lines ↦ printed result lines ]

-- `none` is that the rounds ran out.
unfoldable pub is_zip : ℕ → List ℕ → Eocdr → (ℕ → Cfh) → List ℕ → Option Printed
is_zip rounds buffer e c content = elim (archive_names rounds buffer e c content) [
  | none ↦ none
  | some p ↦ some (put_names p.0 p.1)
]
