-- ===== src/Crc/Pieces.antt =====
-- Reading the file piece by piece changes nothing: `main` prints the checksum of the whole file.
use Prim.Native.Nat.{bit_xor}
use otus_c.Prelude.{
  ℕ, zero, suc, ◌+◌, ◌≤◌, ◌<◌, ◌≡◌, ◌≢◌, refl, ap, sym, ◌∙◌, false, List, [], ◌∷◌, Option, none,
  some, arith, ltb, length, take, drop, take-append-drop, length-take, length-drop, Bool-cases, inl,
  inr,
}
use otus_c.Crc.{
  Os, Outcome, printed, piece, crc32, after_crc, after_mmap, read_loop, gigabyte, main, after_stat,
  running,
}
use otus_c.Crc.Reference.{IsBytes, reference, reference-append, crc32-eq-reference}

take-IsBytes : (n : ℕ) (xs : List ℕ) → IsBytes xs → IsBytes (take n xs)
take-IsBytes zero xs h = tt
take-IsBytes (suc n) [] h = tt
take-IsBytes (suc n) (x ∷ xs) h = (h.0, take-IsBytes n xs h.1)

drop-IsBytes : (n : ℕ) (xs : List ℕ) → IsBytes xs → IsBytes (drop n xs)
drop-IsBytes zero xs h = h
drop-IsBytes (suc n) [] h = tt
drop-IsBytes (suc n) (x ∷ xs) h = drop-IsBytes n xs h.1

drop_none : (n : ℕ) → drop {A = ℕ} n [] ≡ []
drop_none zero = refl
drop_none (suc n) = refl

drop-add : (m n : ℕ) (xs : List ℕ) → drop (m + n) xs ≡ drop n (drop m xs)
drop-add zero n xs = ap (λ k. drop k xs) (omega arith)
drop-add (suc m) n [] = let e : suc m + n ≡ suc (m + n) = omega arith in rw (e, drop_none n)
drop-add (suc m) n (x ∷ xs) =
    let e : suc m + n ≡ suc (m + n) = omega arith in rw e (drop-add m n xs)

drop_all : (n : ℕ) (xs : List ℕ) → length xs ≤ n → drop n xs ≡ []
drop_all zero [] h = refl
drop_all zero (x ∷ xs) h = absurd (omega arith)
drop_all (suc n) [] h = refl
drop_all (suc n) (x ∷ xs) h = drop_all n xs (omega arith)

-- The file can be read to its end: `mmap` gives the bytes at the offset, and nothing fails.
pub record Serves (os : Os) (file : List ℕ) : Type 0 where
  pub sized : os.file_size ≡ some (length file)
  pub mapped : (n offset : ℕ) → os.mmap n offset ≡ some (take n (drop offset file))
  pub unmapped : (offset : ℕ) → os.munmap_fails offset ≡ false

crc32_piece :
    (n : ℕ) (xs : List ℕ) (crc : ℕ)
    → n ≤ length xs
    → IsBytes xs
    → crc32 (take n xs) n crc ≡ some (reference (take n xs) crc)
crc32_piece n xs crc h bytes =
    let e : length (take n xs) ≡ n = omega (arith, length-take n xs) in
    ap (λ (k : ℕ). crc32 (take n xs) k crc) (sym e)
    ∙ crc32-eq-reference (take n xs) crc (take-IsBytes n xs bytes)

module _ (os : Os) (file : List ℕ) (serves : Serves os file) (bytes : IsBytes file) where
  -- A round that maps `n` bytes goes on with the checksum of those bytes.
  round_lem :
      (n offset crc : ℕ) (rest : ℕ → Outcome)
      → n + offset ≤ length file
      → after_mmap os offset n crc (os.mmap n offset) rest
        ≡ rest (reference (take n (drop offset file)) crc)
  round_lem n offset crc rest h =
      rw
        (
          serves.mapped n offset,
          serves.unmapped offset,
          crc32_piece n (drop offset file) crc (omega (arith, length-drop offset file))
              (drop-IsBytes offset file bytes),
        )
        refl

  reference_rest :
      (n offset crc : ℕ)
      → reference (drop (offset + n) file) (reference (take n (drop offset file)) crc)
        ≡ reference (drop offset file) crc
  reference_rest n offset crc =
      rw (drop-add offset n file, ← reference-append (take n (drop offset file)))
        (ap (λ l. reference l crc) (take-append-drop n (drop offset file)))

  read_loop_lem :
      (fuel offset crc : ℕ)
      → offset ≤ length file
      → length file < fuel + offset
      → read_loop os gigabyte (length file) fuel offset crc
        ≡ printed (bit_xor (reference (drop offset file) crc) 0xffffffff)
  unfolding read_loop reference
  read_loop_lem zero offset crc low enough = absurd (omega arith)
  read_loop_lem (suc fuel) offset crc low enough = elim (Bool-cases (ltb offset (length file))) [
    | inl more ↦
        let n = piece gigabyte (length file) offset in
        let step : (0 < n) × (n + offset ≤ length file) = ground arith in
        rw more (
          round_lem n offset crc (read_loop os gigabyte (length file) fuel (offset + n)) step.1
          ∙ read_loop_lem fuel (offset + n) (reference (take n (drop offset file)) crc)
              (omega arith) (omega arith)
          ∙ ap (λ c. printed (bit_xor c 0xffffffff)) (reference_rest n offset crc))
    | inr over ↦ rw over (
        ap (λ l. printed (bit_xor (reference l crc) 0xffffffff))
          (sym (drop_all offset file (ground arith))))
  ]

  -- For a file of bytes that can be opened, mapped and unmapped, and with more rounds allowed than
  -- the file has bytes, `main` prints the CRC-32 of the whole file as the bit-by-bit division
  -- defines it: started from all ones and inverted at the end.
  pub main-checksum :
      (fuel : ℕ)
      → length file < fuel
      → main fuel os ≡ printed (bit_xor (reference file 0xffffffff) 0xffffffff)
  unfolding main
  main-checksum fuel h =
      ap (after_stat fuel os) serves.sized
      ∙ read_loop_lem fuel 0 0xffffffff (omega arith) (omega arith)

-- What follows a mapping runs out of rounds only if the rounds after it do.
after_mmap-ne-running :
    (os : Os) (offset n crc : ℕ) (ptr : Option (List ℕ)) (rest : ℕ → Outcome)
    → ((c : ℕ) → rest c ≢ running)
    → after_mmap os offset n crc ptr rest ≢ running
after_mmap-ne-running os offset n crc none rest h = cc
after_mmap-ne-running os offset n crc (some p) rest h = checked (crc32 p n crc)
  where
    checked : (c : Option ℕ) → after_crc (os.munmap_fails offset) c rest ≢ running
    checked none = cc
    checked (some c) = elim (Bool-cases (os.munmap_fails offset)) [
      | inl e ↦ rw e (cc)
      | inr e ↦ rw e (h c)
    ]

-- A loop that is allowed more rounds than there are bytes left does not run out of them.
read_loop-ne-running :
    (os : Os) (st_size fuel offset crc : ℕ)
    → st_size < fuel + offset
    → offset ≤ st_size
    → read_loop os gigabyte st_size fuel offset crc ≢ running
unfolding read_loop
read_loop-ne-running os st_size zero offset crc enough low = absurd (omega arith)
read_loop-ne-running os st_size (suc fuel) offset crc enough low =
    let n = piece gigabyte st_size offset in
    elim (Bool-cases (ltb offset st_size)) [
      | inr over ↦ rw over (cc)
      | inl more ↦ rw more (
          after_mmap-ne-running os offset n crc (os.mmap n offset) _
            λ c. read_loop-ne-running os st_size fuel (offset + n) c (ground arith) (ground arith))
    ]

-- Whatever the system answers, `main` comes to an end: allowed more rounds than the size that
-- `fstat` gives, it does not run out of them.
pub main-ne-running :
    (os : Os) (fuel st_size : ℕ)
    → os.file_size ≡ some st_size
    → st_size < fuel
    → main fuel os ≢ running
unfolding main
main-ne-running os fuel st_size e enough h =
    read_loop-ne-running os st_size fuel 0 0xffffffff (omega arith) (omega arith)
      (ap (after_stat fuel os) (sym e) ∙ h)
