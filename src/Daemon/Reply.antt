-- ===== src/Daemon/Reply.antt =====
-- The replies of hw10, read back by a client.
use otus_c.Prelude.{
  ℕ, zero, suc, ◌+◌, ◌^◌, ◌<◌, ◌≤◌, ◌≡◌, refl, ap, ◌∙◌, [], ◌∷◌, ◌++◌, some, length, length-append,
  take, drop, arith,
}
use otus_c.Prelude.Bytes.{CString}
use otus_c.LogParser.Apache.{strtoull}
use otus_c.LogParser.Apache.Decimal.{decimal, strtoull-decimal}
use otus_c.Daemon.{file_size, colon, byte, message, reply}

take-all : (n : ℕ) (s : CString) → length s ≤ n → take n s ≡ s
take-all zero [] h = refl
take-all zero (c ∷ s) h = absurd (omega arith)
take-all (suc n) [] h = refl
take-all (suc n) (c ∷ s) h = ap (c ∷◌) (take-all n s (omega arith))

drop-drop : (xs : CString) (n : ℕ) (ys : CString) → drop (length xs + n) (xs ++ ys) ≡ drop n ys
drop-drop [] n ys = ap (λ k. drop k ys) (omega arith)
drop-drop (x ∷ xs) n ys =
    let next : length (x ∷ xs) + n ≡ suc (length xs + n) = omega arith in
    ap (λ k. drop k (x ∷ xs ++ ys)) next ∙ drop-drop xs n ys

-- What stands behind the colon of a reply with a size
abbrev pub size_part : CString → CString → CString
size_part look_f text = drop (length file_size + (length look_f + length colon)) text

-- A client that knows the path reads the size back from the reply with `strtoull`, where the
-- path and the size are short enough for the 99 bytes that the reply may have.
pub reply-roundtrip :
    (look_f : CString) (size : ℕ)
    → size < 2 ^ 64
    → length look_f + length (decimal size) ≤ 81
    → strtoull (size_part look_f (reply look_f (some size))) ≡ size
reply-roundtrip look_f size small short =
    let digits = decimal size ++ byte in
    let long : length (message look_f (some size)) ≤ 99 =
      omega
        (arith, length-append look_f (colon ++ digits), length-append (decimal size) byte, short) in
    ap (λ s. strtoull (size_part look_f s)) (take-all 99 (message look_f (some size)) long)
    ∙ ap strtoull (
        drop-drop file_size (length look_f + length colon) (look_f ++ (colon ++ digits))
        ∙ drop-drop look_f (length colon) (colon ++ digits))
    ∙ strtoull-decimal size b' ' (drop 1 byte) small refl
