-- ===== src/ZipReader/Structs.antt =====
-- hw1: the records of a zip archive as hw1/src/main.c declares them, less the pointers that
-- nothing sets.
use otus_c.Prelude.{ℕ}

abbrev pub eocdr_base_sz : ℕ
eocdr_base_sz = 22

abbrev pub eocdr_signature : ℕ
eocdr_signature = 0x06054b50

abbrev pub cfh_base_sz : ℕ
cfh_base_sz = 46

abbrev pub cfh_signature : ℕ
cfh_signature = 0x02014b50

abbrev pub lfh_base_sz : ℕ
lfh_base_sz = 30

abbrev pub lfh_signature : ℕ
lfh_signature = 0x04034b50

-- `struct eocdr`
pub record Eocdr : Type 0 where
  pub disk_nbr : ℕ
  pub cd_start_disk : ℕ
  pub disk_cd_entries : ℕ
  pub cd_entries : ℕ
  pub cd_size : ℕ
  pub cd_offset : ℕ
  pub comment_len : ℕ

-- `struct cfh`
pub record Cfh : Type 0 where
  pub made_by_ver : ℕ
  pub extract_ver : ℕ
  pub gp_flag : ℕ
  pub method : ℕ
  pub mod_time : ℕ
  pub mod_date : ℕ
  pub crc32 : ℕ
  pub comp_size : ℕ
  pub uncomp_size : ℕ
  pub name_len : ℕ
  pub extra_len : ℕ
  pub comment_len : ℕ
  pub disk_nbr_start : ℕ
  pub int_attrs : ℕ
  pub ext_attrs : ℕ
  pub lfh_offset : ℕ

-- `struct lfh`
pub record Lfh : Type 0 where
  pub extract_ver : ℕ
  pub gp_flag : ℕ
  pub method : ℕ
  pub mod_time : ℕ
  pub mod_date : ℕ
  pub crc32 : ℕ
  pub comp_size : ℕ
  pub uncomp_size : ℕ
  pub name_len : ℕ
  pub extra_len : ℕ
