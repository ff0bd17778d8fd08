-- ===== src/ZipReader/Layout.antt =====
-- hw1: the layout of the records of a zip archive, written down apart from the code that reads
-- them, and numbers as their bytes, the low one first.
use otus_c.Prelude.{ℕ, ◌/◌, ◌%◌, ◌≡◌, List, [], ◌∷◌, ◌++◌, arith}
use otus_c.ZipReader.Stream.{overlay}
use otus_c.ZipReader.Structs.{eocdr_signature, cfh_signature, lfh_signature, Eocdr, Cfh, Lfh}

abbrev pub le16 : ℕ → List ℕ
le16 v = v % 256 ∷ v / 256 ∷ []

abbrev pub le32 : ℕ → List ℕ
le32 v = v % 256 ∷ v / 256 % 256 ∷ v / 65536 % 256 ∷ v / 16777216 ∷ []

pub overlay-le16 : (v old : ℕ) → overlay 2 (le16 v) old ≡ v
overlay-le16 v old = omega arith

pub overlay-le32 : (v old : ℕ) → overlay 4 (le32 v) old ≡ v
overlay-le32 v old = omega arith

-- The fields of an end of central directory record, before `r`
abbrev pub eocdr_body : Eocdr → List ℕ → List ℕ
eocdr_body e r =
    le16 e.disk_nbr
    ++ le16 e.cd_start_disk
    ++ le16 e.disk_cd_entries
    ++ le16 e.cd_entries
    ++ le32 e.cd_size
    ++ le32 e.cd_offset
    ++ le16 e.comment_len
    ++ r

-- The record itself
abbrev pub eocdr_bytes : Eocdr → List ℕ → List ℕ
eocdr_bytes e r = le32 eocdr_signature ++ eocdr_body e r

-- The fields of a central directory file header
abbrev pub cfh_body : Cfh → List ℕ → List ℕ
cfh_body c r =
    le16 c.made_by_ver
    ++ le16 c.extract_ver
    ++ le16 c.gp_flag
    ++ le16 c.method
    ++ le16 c.mod_time
    ++ le16 c.mod_date
    ++ le32 c.crc32
    ++ le32 c.comp_size
    ++ le32 c.uncomp_size
    ++ le16 c.name_len
    ++ le16 c.extra_len
    ++ le16 c.comment_len
    ++ le16 c.disk_nbr_start
    ++ le16 c.int_attrs
    ++ le32 c.ext_attrs
    ++ le32 c.lfh_offset
    ++ r

abbrev pub cfh_bytes : Cfh → List ℕ → List ℕ
cfh_bytes c r = le32 cfh_signature ++ cfh_body c r

-- The fields of a local file header
abbrev pub lfh_body : Lfh → List ℕ → List ℕ
lfh_body l r =
    le16 l.extract_ver
    ++ le16 l.gp_flag
    ++ le16 l.method
    ++ le16 l.mod_time
    ++ le16 l.mod_date
    ++ le32 l.crc32
    ++ le32 l.comp_size
    ++ le32 l.uncomp_size
    ++ le16 l.name_len
    ++ le16 l.extra_len
    ++ r

abbrev pub lfh_bytes : Lfh → List ℕ → List ℕ
lfh_bytes l r = le32 lfh_signature ++ lfh_body l r
