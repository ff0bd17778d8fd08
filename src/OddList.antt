-- ===== src/OddList.antt =====
-- hw5: a linked list and the list of its odd elements (hw5/src/main.c). A pointer to a node is the
-- list of the values from it on, the null pointer being the empty list; an int64_t is its pattern of
-- 64 bits, so that the parity is that of the number. `memory n` says whether call `n` of malloc
-- succeeds.
pub mod Output
pub mod Checks
use otus_c.Prelude.{
  ℕ, zero, suc, ◌+◌, ◌%◌, ◌==◌, Bool, true, false, not, List, [], ◌∷◌, Option, none, some,
  if◌then◌else◌, ◌>>=◌,
}

-- Without memory the result is the null pointer, whatever `next` is.
pub add_element : Bool → ℕ → List ℕ → List ℕ
add_element memory value next = if memory then value ∷ next else []

-- The values that `m` calls its function with, in order.
pub m : List ℕ → List ℕ
m [] = []
m (value ∷ next) = value ∷ m next

pub p : ℕ → Bool
p value = not (value % 2 == 0)

-- `*ptr` after `f`, the calls of malloc being numbered from `n` on.
pub f : (ℕ → Bool) → ℕ → List ℕ → List ℕ → (ℕ → Bool) → List ℕ
f memory n [] ptr is_odd = ptr
f memory n (value ∷ next) ptr is_odd =
    let n' = if is_odd value then n + 1 else n in
    let ptr' = if is_odd value then add_element (memory n) value ptr else ptr in
    f memory n' next ptr' is_odd

-- The loop of `main` from the last element to the first: the list of the elements from here on, and the
-- number of calls of malloc; `none` is `EXIT_FAILURE`.
pub build : (ℕ → Bool) → List ℕ → Option (List ℕ × ℕ)
build memory [] = some ([], 0)
build memory (value ∷ arr) = do
  (head, n) ← build memory arr
  if memory n then some (add_element (memory n) value head, n + 1) else none

-- What `main` prints in its two lines, for any array.
pub main : (ℕ → Bool) → List ℕ → Option (List ℕ × List ℕ)
main memory arr = do (head, n) ← build memory arr; some (m head, m (f memory n head [] p))
