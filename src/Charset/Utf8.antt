-- ===== src/Charset/Utf8.antt =====
-- UTF-8 as a decoder, independent of hw2, and that it reads back what hw2 writes for a character.
use Prim.Native.Nat.{bit_and, bit_or}
use native.Mathlib.Decide.{ℕ_discrete, dec_lt}
use otus_c.Prelude.{
  Bool-cases, inl, inr, ℕ, zero, suc, ◌+◌, ◌-◌, ◌*◌, ◌/◌, ◌%◌, ◌^◌, ◌≤◌, ◌<◌, ◌≡◌, refl, ap, ◌∙◌,
  Bool, true, false, ◌&&◌, List, [], ◌∷◌, ◌++◌, Option, none, some, arith, if◌then◌else◌, ltb, leb,
  ◌==◌, ◌>>=◌,
}
use otus_c.Prelude.Words.{u8}
use otus_c.Prelude.Bits.{and_63}
use otus_c.Charset.{encode}

-- Between the bytes of a character: how many are to come, the least character of that length, and
-- the bits so far.
pub record Decoder : Type 0 where
  pub pending : ℕ
  pub least : ℕ
  pub bits : ℕ

abbrev pub ready : Decoder
ready = record { pending = 0; least = 0; bits = 0 }

-- The first byte of a character of up to three bytes
abbrev pub lead : ℕ → Option (Decoder × List ℕ)
lead b =
    if ltb b 0x80
    then some (ready, b ∷ [])
    else if leb 0xc0 b && ltb b 0xe0
    then some (record { pending = 1; least = 0x80; bits = b - 0xc0 }, [])
    else if leb 0xe0 b && ltb b 0xf0
    then some (record { pending = 2; least = 0x800; bits = b - 0xe0 }, [])
    else none

-- A further byte; the last must complete a character that needs so many bytes.
abbrev pub further : Decoder → ℕ → Option (Decoder × List ℕ)
further d b =
    let bits = d.bits * 64 + (b - 0x80) in
    if leb 0x80 b && ltb b 0xc0
    then if ltb 1 d.pending
      then some (record d { pending = d.pending - 1; bits = bits }, [])
      else if leb d.least bits
      then some (ready, bits ∷ [])
      else none
    else none

-- The characters of the bytes, if they are UTF-8 with no more than three bytes for a character.
unfoldable pub decode_from : Decoder → List ℕ → Option (List ℕ)
decode_from d [] = if d.pending == 0 then some [] else none
decode_from d (b ∷ bytes) = do
  (d', chars) ← (if d.pending == 0 then lead b else further d b)
  rest ← decode_from d' bytes
  some (chars ++ rest)

abbrev pub decode : List ℕ → Option (List ℕ)
decode bytes = decode_from ready bytes

-- A test of all numbers below a bound
abbrev pub all_below : ℕ → (ℕ → Bool) → Bool
all_below zero test = true
all_below (suc n) test = test n && all_below n test

pub all_below_lem :
    (n : ℕ) (test : ℕ → Bool) → all_below n test ≡ true → (x : ℕ) → x < n → test x ≡ true
all_below_lem zero test h x low = absurd (omega arith)
all_below_lem (suc n) test h x low = elim (Bool-cases (test n)) [
  | inr fails ↦ absurd (ground (arith, fails))
  | inl here ↦ elim (ℕ_discrete x n) [
    | yes e ↦ ap test e ∙ here
    | no other ↦ all_below_lem n test (ground (arith, here)) x (omega arith)
  ]
]

or_192 : (x : ℕ) → x < 32 → bit_or 0xc0 x ≡ 0xc0 + x
or_192 x low = ground (arith, all_below_lem 32 (λ y. bit_or 0xc0 y == 0xc0 + y) refl x low)

or_224 : (x : ℕ) → x < 16 → bit_or 0xe0 x ≡ 0xe0 + x
or_224 x low = ground (arith, all_below_lem 16 (λ y. bit_or 0xe0 y == 0xe0 + y) refl x low)

or_128 : (x : ℕ) → x < 64 → bit_or 0x80 x ≡ 0x80 + x
or_128 x low = ground (arith, all_below_lem 64 (λ y. bit_or 0x80 y == 0x80 + y) refl x low)

-- The decoder adds what it gives for a further byte in front: nothing, but for the last.
passed_on :
    (v : ℕ) (o : Option (List ℕ))
    → (o >>= (λ rest. some (v ∷ rest)) >>= λ rest. some rest) ≡ (o >>= λ chars. some (v ∷ chars))
passed_on v none = refl
passed_on v (some chars) = refl

decode-two :
    (a b : ℕ) (bytes : List ℕ)
    → a < 32
    → b < 64
    → 0x80 ≤ a * 64 + b
    → decode ((0xc0 + a) ∷ (0x80 + b) ∷ bytes)
      ≡ (decode bytes >>= λ chars. some ((a * 64 + b) ∷ chars))
unfolding decode_from
decode-two a b bytes low_a low_b long =
    let first : lead (0xc0 + a) ≡ some (record { pending = 1; least = 0x80; bits = a }, []) =
      ground arith in
    let second : further (record { pending = 1; least = 0x80; bits = a }) (0x80 + b)
        ≡ some (ready, (a * 64 + b) ∷ []) =
      ground arith in
    rw (first, second) (passed_on (a * 64 + b) (decode bytes))

decode-three :
    (a b c : ℕ) (bytes : List ℕ)
    → a < 16
    → b < 64
    → c < 64
    → 0x800 ≤ (a * 64 + b) * 64 + c
    → decode ((0xe0 + a) ∷ (0x80 + b) ∷ (0x80 + c) ∷ bytes)
      ≡ (decode bytes >>= λ chars. some (((a * 64 + b) * 64 + c) ∷ chars))
unfolding decode_from
decode-three a b c bytes low_a low_b low_c long =
    let first : lead (0xe0 + a) ≡ some (record { pending = 2; least = 0x800; bits = a }, []) =
      ground arith in
    let second : further (record { pending = 2; least = 0x800; bits = a }) (0x80 + b)
        ≡ some (record { pending = 1; least = 0x800; bits = a * 64 + b }, []) =
      ground arith in
    let third : further (record { pending = 1; least = 0x800; bits = a * 64 + b }) (0x80 + c)
        ≡ some (ready, ((a * 64 + b) * 64 + c) ∷ []) =
      ground arith in
    rw (first, second, third)
      (ap (λ o. o >>= λ rest. some rest) (passed_on ((a * 64 + b) * 64 + c) (decode bytes))
        ∙ passed_on ((a * 64 + b) * 64 + c) (decode bytes))

-- A byte below 0x80 is a character.
pub decode-ascii :
    (b : ℕ) (bytes : List ℕ)
    → b < 0x80
    → decode (b ∷ bytes) ≡ (decode bytes >>= λ chars. some (b ∷ chars))
unfolding decode_from
decode-ascii b bytes low = let first : lead b ≡ some (ready, b ∷ []) = ground arith in rw first refl

low_byte : (v : ℕ) → u8 (bit_or 0x80 (bit_and v 0x3f)) ≡ 0x80 + v % 64
low_byte v = rw (and_63 v) (omega (arith, or_128 (v % 64) (omega arith)))

encode-two : (v : ℕ) → 0x80 ≤ v → v < 0x800 → encode v ≡ (0xc0 + v / 64) ∷ (0x80 + v % 64) ∷ []
unfolding encode
encode-two v long short =
    let least : leb 0x80 v ≡ true = ground arith in
    let most : leb v 0x7ff ≡ true = ground arith in
    let high : u8 (bit_or 0xc0 (v / 64)) ≡ 0xc0 + v / 64 =
      omega (arith, or_192 (v / 64) (omega arith)) in
    rw (least, most, high, low_byte v) refl

encode-three :
    (v : ℕ)
    → 0x800 ≤ v
    → v < 2 ^ 16
    → encode v ≡ (0xe0 + v / 4096) ∷ (0x80 + v / 64 % 64) ∷ (0x80 + v % 64) ∷ []
unfolding encode
encode-three v long short =
    let least : leb 0x80 v ≡ true = ground arith in
    let more : leb v 0x7ff ≡ false = ground arith in
    let least' : leb 0x800 v ≡ true = ground arith in
    let most : leb v 0xffff ≡ true = ground arith in
    let high : u8 (bit_or 0xe0 (v / 4096)) ≡ 0xe0 + v / 4096 =
      omega (arith, or_224 (v / 4096) (omega arith)) in
    rw (least, more, least', most, high, low_byte (v / 64), low_byte v) refl

-- What `encode` writes for a character from 0x80 on is read back as that character.
pub decode-encode :
    (v : ℕ) (bytes : List ℕ)
    → 0x80 ≤ v
    → v < 2 ^ 16
    → decode (encode v ++ bytes) ≡ (decode bytes >>= λ chars. some (v ∷ chars))
decode-encode v bytes long short = elim (dec_lt v 0x800) [
  | yes two ↦
      let whole : v / 64 * 64 + v % 64 ≡ v = omega arith in
      rw (encode-two v long two) (
        decode-two (v / 64) (v % 64) bytes (omega arith) (omega arith) (omega (arith, whole))
        ∙ ap (λ x. decode bytes >>= λ chars. some (x ∷ chars)) whole)
  | no three ↦
      let whole : (v / 4096 * 64 + v / 64 % 64) * 64 + v % 64 ≡ v = omega arith in
      rw (encode-three v (omega arith) short) (
        decode-three (v / 4096) (v / 64 % 64) (v % 64) bytes (omega arith) (omega arith)
          (omega arith) (omega (arith, whole))
        ∙ ap (λ x. decode bytes >>= λ chars. some (x ∷ chars)) whole)
]
