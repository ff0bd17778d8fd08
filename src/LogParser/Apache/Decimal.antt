-- ===== src/LogParser/Apache/Decimal.antt =====
-- Decimal digits of a number, and that `strtoull` reads them back.
use otus_c.Prelude.{
  ℕ, zero, suc, ◌+◌, ◌-◌, ◌*◌, ◌/◌, ◌%◌, ◌^◌, ◌<◌, ◌≡◌, refl, sym, ap, subst, ◌∙◌, true, false, [],
  ◌∷◌, ◌++◌, arith, ltb, leb, ◌==◌, if◌then◌else◌, Bool-cases, inl, inr,
}
use otus_c.Prelude.Bytes.{CString}
use otus_c.LogParser.Apache.{is_digit, is_space, read_digits, fit, read_sign, strtoull}
use otus_c.LogParser.Apache.Search.{Without}

-- The digits of `n` in front of `s`; one round for each digit.
digits : ℕ → ℕ → CString → CString
digits zero n s = s
digits (suc rounds) n s =
    let more = digits rounds (n / 10) ((b'0' + n % 10) ∷ s) in
    if ltb n 10 then (b'0' + n) ∷ s else more

unfoldable pub decimal : ℕ → CString
unfolding digits
decimal n = digits (suc n) n []

abbrev pub AllDigits : CString → Type 0
AllDigits [] = Unit {0}
AllDigits (c ∷ s) = (is_digit c ≡ true) × AllDigits s

digits-AllDigits : (rounds n : ℕ) (s : CString) → AllDigits s → AllDigits (digits rounds n s)
unfolding digits
digits-AllDigits zero n s h = h
digits-AllDigits (suc rounds) n s h = elim (Bool-cases (ltb n 10)) [
  | inl last ↦ rw last (ground arith, h)
  | inr more ↦ rw more (digits-AllDigits rounds (n / 10) ((b'0' + n % 10) ∷ s) (ground arith, h))
]

pub decimal-AllDigits : (n : ℕ) → AllDigits (decimal n)
unfolding decimal
decimal-AllDigits n = digits-AllDigits (suc n) n [] tt

-- A digit is no other byte.
pub AllDigits-Without : (c : ℕ) (s : CString) → is_digit c ≡ false → AllDigits s → Without c s
AllDigits-Without c [] h d = tt
AllDigits-Without c (x ∷ s) h d =
    (λ e. absurd (ground (arith, ap is_digit e, d.0)), AllDigits-Without c s h d.1)

digits-cons :
    (rounds n : ℕ) (s : CString) → (c : ℕ) × (t : CString) × (digits (suc rounds) n s ≡ c ∷ t)
unfolding digits
digits-cons zero n s = elim (Bool-cases (ltb n 10)) [
  | inl last ↦ (b'0' + n, s, rw last refl)
  | inr more ↦ (b'0' + n % 10, s, rw more refl)
]
digits-cons (suc rounds) n s = elim (Bool-cases (ltb n 10)) [
  | inl last ↦ (b'0' + n, s, rw last refl)
  | inr more ↦
      let (c, t, e) = digits-cons rounds (n / 10) ((b'0' + n % 10) ∷ s) in (c, t, rw more e)
]

read-digits :
    (rounds n : ℕ) (s rest : CString)
    → n < rounds
    → read_digits 0 (digits rounds n s ++ rest) ≡ read_digits n (s ++ rest)
unfolding read_digits digits
read-digits zero n s rest low = absurd (omega arith)
read-digits (suc rounds) n s rest low = elim (Bool-cases (ltb n 10)) [
  | inl last ↦
      let digit : is_digit (b'0' + n) ≡ true = ground arith in
      let value : 0 * 10 + (b'0' + n - b'0') ≡ n = omega arith in rw (last, digit, value) refl
  | inr more ↦
      let digit : is_digit (b'0' + n % 10) ≡ true = ground arith in
      let value : n / 10 * 10 + (b'0' + n % 10 - b'0') ≡ n = omega arith in
      rw more (
        read-digits rounds (n / 10) ((b'0' + n % 10) ∷ s) rest (ground arith)
        ∙ rw (digit, value) refl)
]

strtoull-digits :
    (c : ℕ) (s : CString) → is_digit c ≡ true → strtoull (c ∷ s) ≡ fit false (read_digits 0 (c ∷ s))
unfolding strtoull read_sign
strtoull-digits c s h =
    let a : is_space c ≡ false = ground arith in
    let b : (c == b'-') ≡ false = ground arith in
    let d : (c == b'+') ≡ false = ground arith in rw (a, b, d) refl

-- `strtoull` reads the digits of a number of 64 bits back, if another byte follows.
pub strtoull-decimal :
    (n c : ℕ) (rest : CString)
    → n < 2 ^ 64
    → is_digit c ≡ false
    → strtoull (decimal n ++ (c ∷ rest)) ≡ n
unfolding decimal read_digits
strtoull-decimal n c rest small other =
    let (d, t, e) = digits-cons n n [] in
    let all : AllDigits (d ∷ t) = subst AllDigits e (digits-AllDigits (suc n) n [] tt) in
    let fits : leb (2 ^ 64) n ≡ false = ground arith in
    let ended : read_digits n (c ∷ rest) ≡ n = rw other refl in
    ap (λ s. strtoull (s ++ (c ∷ rest))) e
    ∙ strtoull-digits d (t ++ (c ∷ rest)) all.0
    ∙ ap (λ s. fit false (read_digits 0 (s ++ (c ∷ rest)))) (sym e)
    ∙ ap (fit false) (read-digits (suc n) n [] (c ∷ rest) (omega arith) ∙ ended)
    ∙ rw fits refl
