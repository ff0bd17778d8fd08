-- ===== src/Crc/Checks.antt =====
-- The checksum of hw11 at concrete files.
use otus_c.Prelude.{ℕ, ◌≡◌, ◌≢◌, refl, List, [], ◌∷◌, some, none, false, arith, length, take, drop}
use Prim.Native.Nat.{bit_xor}
use otus_c.Crc.{Os, main, printed, running, failed, crc32, crc_round, read_loop}
use otus_c.Crc.Reference.{reference, crc32-eq-reference}
use otus_c.Crc.Pieces.{Serves, main-checksum, main-ne-running}

-- The text `123456789`, whose CRC-32 is the check value 0xcbf43926.
abbrev digits : List ℕ
digits = b'1' ∷ b'2' ∷ b'3' ∷ b'4' ∷ b'5' ∷ b'6' ∷ b'7' ∷ b'8' ∷ b'9' ∷ []

abbrev served : Os
served = record {
  file_size = some (length digits);
  mmap = λ n offset. some (take n (drop offset digits));
  munmap_fails = λ _. false;
}

abbrev unmappable : Os
unmappable = record served { mmap = λ n offset. none }

main_check_value : main 10 served ≡ printed 0xcbf43926
unfolding main read_loop crc32 crc_round
main_check_value = refl

main-unmappable : main 10 unmappable ≡ failed
unfolding main read_loop crc32 crc_round
main-unmappable = refl

served-Serves : Serves served digits
served-Serves = record { sized = refl; mapped = λ n offset. refl; unmapped = λ offset. refl }

crc32-eq-reference_example : crc32 digits 9 0xffffffff ≡ some (reference digits 0xffffffff)
crc32-eq-reference_example = crc32-eq-reference digits 0xffffffff (omega arith)

main-checksum_example : main 10 served ≡ printed (bit_xor (reference digits 0xffffffff) 0xffffffff)
main-checksum_example = main-checksum served digits served-Serves (omega arith) 10 (omega arith)

main-ne-running_example : main 10 unmappable ≢ running
main-ne-running_example = main-ne-running unmappable 10 9 refl (omega arith)
