-- ===== src/ZipReader/Variant.antt =====
-- hw1/src/main2.c: `is_zip`, which walks over the archive in another way. `read_eocdr` and
-- `read_cfh` are those of main.c, word for word.
use otus_c.Prelude.{
  ℕ, zero, suc, ◌-◌, ◌^◌, ◌≤◌, ◌≡◌, Bool, true, false, List, [], ◌∷◌, Option, none, some, length,
  if◌then◌else◌, ltb, leb,
}
use otus_c.Prelude.Words.{sub32, sub64}
use otus_c.ZipReader.{read_eocdr, read_cfh}
use otus_c.ZipReader.Stream.{File, file_at, seek}
use otus_c.ZipReader.Structs.{eocdr_base_sz, cfh_base_sz, Eocdr, Cfh}

-- What `fseek` returns, 0 or -1, converted to `uint32_t`
abbrev fseek_result : ℕ → ℕ
fseek_result offset = if ltb offset (2 ^ 63) then 0 else 2 ^ 32 - 1

-- The names printed before the others
abbrev prepend : List ℕ → Option (Bool × List (List ℕ)) → Option (Bool × List (List ℕ))
prepend name none = none
prepend name (some (result, names)) = some (result, name ∷ names)

-- `while(count_files >= 0)` with a number of rounds left
abbrev pub loop : ℕ → ℕ → (ℕ → Cfh) → ℕ → ℕ → File → Option (Bool × List (List ℕ))
loop zero count_files c size offset f = none
loop (suc rounds) count_files c size offset f =
    let ((is_read, h, string_buf), f') = read_cfh (c rounds) size offset f in
    let rest = loop rounds count_files c size (sub32 offset (cfh_base_sz - 4)) f' in
    if leb 0 count_files
    then (if is_read then prepend string_buf rest else some (true, []))
    else some (false, [])

-- The whole of it, on a file that was opened
pub is_zip_2 : ℕ → Eocdr → (ℕ → Cfh) → List ℕ → Option (Bool × List (List ℕ))
is_zip_2 rounds e c content =
    let size = length content in
    let ((is_read, e'), f) = read_eocdr e size (file_at content content) in
    let target = sub64 (sub64 (sub64 size eocdr_base_sz) cfh_base_sz) 4 in
    let (_, f') = seek target f in
    if is_read then loop rounds e'.cd_entries c size (fseek_result target) f' else some (true, [])

-- The result is failure, with at most `n` names printed.
abbrev pub FailsWithin : ℕ → Option (Bool × List (List ℕ)) → Type 0
FailsWithin n r = (names : List (List ℕ)) × (r ≡ some (true, names)) × (length names ≤ n)
