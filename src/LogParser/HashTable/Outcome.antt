-- ===== src/LogParser/HashTable/Outcome.antt =====
-- The runs of an operation on the table of hw12: it returns, waits for a mutex for good, or its
-- behaviour is undefined.
pub data Run {ℓ} (A : Type ℓ) : Type ℓ where
  ok : A → Run A
  blocked : Run A
  fault : Run A

infixl 5 ◌>>=◌
abbrev pub ◌>>=◌ {ℓ κ} : {A : Type ℓ} {B : Type κ} → Run A → (A → Run B) → Run B
ok a >>= f = f a
blocked >>= f = blocked
fault >>= f = fault
