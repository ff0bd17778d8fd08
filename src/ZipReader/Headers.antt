-- ===== src/ZipReader/Headers.antt =====
-- hw1: the readers of the records read back what is laid out.
use otus_c.Prelude.{
  ◌||◌, ℕ, ◌+◌, ◌-◌, ◌*◌, ◌/◌, ◌%◌, ◌^◌, ◌<◌, ◌≤◌, ◌≡◌, true, false, List, [], ◌∷◌, ◌++◌, length,
  take, drop, ltb, lt→ltb, drop-append, length-append, arith,
}
use otus_c.Prelude.Words.{sub64}
use otus_c.ZipReader.{read_eocdr, read_cfh, read_lfh, eocdr_fields, cfh_fields, lfh_fields}
use otus_c.ZipReader.Stream.{file_at, fread, read, read_bytes, seek, overlay}
use otus_c.ZipReader.Structs.{Eocdr, Cfh, Lfh}
use otus_c.ZipReader.Layout.{
  le16, overlay-le16, overlay-le32, eocdr_body, eocdr_bytes, cfh_body, cfh_bytes, lfh_body,
  lfh_bytes,
}

-- The path of each field's bytes to its value
eocdr_fields-body :
    (e old : Eocdr) (c r : List ℕ)
    → eocdr_fields old (file_at c (eocdr_body e r)) ≡ ((true, e), file_at c r)
unfolding read fread
eocdr_fields-body e old c r = λ i. (
  (
    true,
    record {
      disk_nbr = overlay-le16 e.disk_nbr old.disk_nbr i;
      cd_start_disk = overlay-le16 e.cd_start_disk old.cd_start_disk i;
      disk_cd_entries = overlay-le16 e.disk_cd_entries old.disk_cd_entries i;
      cd_entries = overlay-le16 e.cd_entries old.cd_entries i;
      cd_size = overlay-le32 e.cd_size old.cd_size i;
      cd_offset = overlay-le32 e.cd_offset old.cd_offset i;
      comment_len = overlay-le16 e.comment_len old.comment_len i;
    },
  ),
  file_at c r,
)

-- What `cfh_fields` gives after the fixed part of the header: the name, and the file behind the
-- comment.
abbrev pub name_of : Cfh → List ℕ → List ℕ
name_of h r = take h.name_len r

abbrev pub behind : Cfh → List ℕ → List ℕ
behind h r = drop h.comment_len (drop h.name_len r)

cfh_fields-body :
    (h old : Cfh) (c r : List ℕ)
    → cfh_fields old (file_at c (cfh_body h r)) ≡ ((true, h, name_of h r), file_at c (behind h r))
unfolding read fread read_bytes
cfh_fields-body h old c r = λ i. (
  (
    true,
    record {
      made_by_ver = overlay-le16 h.made_by_ver old.made_by_ver i;
      extract_ver = overlay-le16 h.extract_ver old.extract_ver i;
      gp_flag = overlay-le16 h.gp_flag old.gp_flag i;
      method = overlay-le16 h.method old.method i;
      mod_time = overlay-le16 h.mod_time old.mod_time i;
      mod_date = overlay-le16 h.mod_date old.mod_date i;
      crc32 = overlay-le32 h.crc32 old.crc32 i;
      comp_size = overlay-le32 h.comp_size old.comp_size i;
      uncomp_size = overlay-le32 h.uncomp_size old.uncomp_size i;
      name_len = overlay-le16 h.name_len old.name_len i;
      extra_len = overlay-le16 h.extra_len old.extra_len i;
      comment_len = overlay-le16 h.comment_len old.comment_len i;
      disk_nbr_start = overlay-le16 h.disk_nbr_start old.disk_nbr_start i;
      int_attrs = overlay-le16 h.int_attrs old.int_attrs i;
      ext_attrs = overlay-le32 h.ext_attrs old.ext_attrs i;
      lfh_offset = overlay-le32 h.lfh_offset old.lfh_offset i;
    },
    take (overlay-le16 h.name_len old.name_len i) r,
  ),
  file_at c (
      drop (overlay-le16 h.comment_len old.comment_len i)
        (drop (overlay-le16 h.name_len old.name_len i) r)),
)

pub seek-append :
    (pre r at : List ℕ)
    → length pre < 2 ^ 63
    → seek (length pre) (file_at (pre ++ r) at) ≡ (tt, file_at (pre ++ r) r)
unfolding seek
seek-append pre r at h = rw (lt→ltb (length pre) (2 ^ 63) h, drop-append pre r)

-- The end of central directory record that closes a file is read back.
pub read_eocdr-bytes :
    (pre : List ℕ) (e old : Eocdr) (at : List ℕ)
    → length (pre ++ eocdr_bytes e []) < 2 ^ 63
    → read_eocdr old (length (pre ++ eocdr_bytes e [])) (file_at (pre ++ eocdr_bytes e []) at)
      ≡ ((true, e), file_at (pre ++ eocdr_bytes e []) [])
unfolding read_eocdr fread
read_eocdr-bytes pre e old at h =
    let content = pre ++ eocdr_bytes e [] in
    let l : length content ≡ length pre + 22 = length-append pre (eocdr_bytes e []) in
    let o : sub64 (length content) 22 ≡ length pre = omega (arith, l, h) in
    rw (o, seek-append pre (eocdr_bytes e []) at (omega (arith, l, h)))
      (eocdr_fields-body e old content [])

-- A size check that holds
inside :
    (base sz offset : ℕ) → offset + base ≤ sz → (ltb sz offset || ltb (sz - offset) base) ≡ false
inside base sz offset h = ground arith

-- A central directory header is read back, with the name behind it.
pub read_cfh-bytes :
    (pre : List ℕ) (h old : Cfh) (r at : List ℕ) (f_sz : ℕ)
    → length pre + 46 ≤ f_sz
    → length pre < 2 ^ 63
    → read_cfh old f_sz (length pre) (file_at (pre ++ cfh_bytes h r) at)
      ≡ ((true, h, name_of h r), file_at (pre ++ cfh_bytes h r) (behind h r))
unfolding read_cfh fread
read_cfh-bytes pre h old r at f_sz g l =
    rw (inside 46 f_sz (length pre) g, seek-append pre (cfh_bytes h r) at l)
      (cfh_fields-body h old (pre ++ cfh_bytes h r) r)

-- What `read_lfh` makes of a local header `l`: `crc32` gets the low half only, and each later field is
-- read two bytes early.
abbrev pub shifted : Lfh → Lfh → Lfh
shifted l old = record {
  extract_ver = l.extract_ver;
  gp_flag = l.gp_flag;
  method = l.method;
  mod_time = l.mod_time;
  mod_date = l.mod_date;
  crc32 = l.crc32 % 65536 + old.crc32 / 65536 * 65536;
  comp_size = l.crc32 / 65536 + l.comp_size % 65536 * 65536;
  uncomp_size = l.comp_size / 65536 + l.uncomp_size % 65536 * 65536;
  name_len = l.uncomp_size / 65536;
  extra_len = l.name_len;
}

low-half : (v old : ℕ) → overlay 2 (v % 256 ∷ v / 256 % 256 ∷ []) old ≡ v % 65536
low-half v old = omega arith

high-half : (v old : ℕ) → overlay 2 (v / 65536 % 256 ∷ v / 16777216 ∷ []) old ≡ v / 65536
high-half v old = omega arith

straddle :
    (v w old : ℕ)
    → overlay 4 (v / 65536 % 256 ∷ v / 16777216 ∷ w % 256 ∷ w / 256 % 256 ∷ []) old
      ≡ v / 65536 + w % 65536 * 65536
straddle v w old = omega arith

lfh_fields-body :
    (l old : Lfh) (c r : List ℕ)
    → lfh_fields old (file_at c (lfh_body l r))
      ≡ ((true, shifted l old), file_at c (le16 l.extra_len ++ r))
unfolding read fread
lfh_fields-body l old c r = λ i. (
  (
    true,
    record {
      extract_ver = overlay-le16 l.extract_ver old.extract_ver i;
      gp_flag = overlay-le16 l.gp_flag old.gp_flag i;
      method = overlay-le16 l.method old.method i;
      mod_time = overlay-le16 l.mod_time old.mod_time i;
      mod_date = overlay-le16 l.mod_date old.mod_date i;
      crc32 = low-half l.crc32 (old.crc32 % 65536) i + old.crc32 / 65536 * 65536;
      comp_size = straddle l.crc32 l.comp_size old.comp_size i;
      uncomp_size = straddle l.comp_size l.uncomp_size old.uncomp_size i;
      name_len = high-half l.uncomp_size old.name_len i;
      extra_len = overlay-le16 l.name_len old.extra_len i;
    },
  ),
  file_at c (le16 l.extra_len ++ r),
)

-- `read_lfh` reads a local header that is in the file back only up to the date: `crc32` gets its low half,
-- with what memory had in the high one, and each later field is read two bytes early.
pub read_lfh-shifted :
    (pre : List ℕ) (l old : Lfh) (r at : List ℕ) (f_sz : ℕ)
    → length pre + 30 ≤ f_sz
    → length pre < 2 ^ 63
    → read_lfh old f_sz (length pre) (file_at (pre ++ lfh_bytes l r) at)
      ≡ ((true, shifted l old), file_at (pre ++ lfh_bytes l r) (le16 l.extra_len ++ r))
unfolding read_lfh fread
read_lfh-shifted pre l old r at f_sz g h =
    rw (inside 30 f_sz (length pre) g, seek-append pre (lfh_bytes l r) at h)
      (lfh_fields-body l old (pre ++ lfh_bytes l r) r)
