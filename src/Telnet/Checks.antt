-- ===== src/Telnet/Checks.antt =====
-- hw13: the theorems at a small network.
use otus_c.Prelude.{
  ℕ, ◌≤◌, ◌≡◌, refl, subst, true, List, [], ◌∷◌, Option, none, some, length, arith, if◌then◌else◌,
  leb, leb→le, get_or, Bool-cases, inl, inr,
}
use mathlib.Core.Option.{some-injective}
use otus_c.Telnet.{Network, printed, buf_size, read_reply, main}
use otus_c.Telnet.Reply.{main-reply, read_reply-Bounded, Bounded}

-- A prompt in two pieces, the second with a dot at its end; then the reply, in two pieces
abbrev pieces : List (List ℕ)
pieces = (b'h' ∷ b'i' ∷ []) ∷ (b'>' ∷ b'.' ∷ []) ∷ (b'O' ∷ []) ∷ (b'K' ∷ b'\n' ∷ []) ∷ []

abbrev answers : ℕ → ℕ → Option (List ℕ)
answers i n = let piece = get_or pieces i [] in if leb (length piece) n then some piece else some []

abbrev network : Network
network = record {
  socket = true;
  host = some (none ∷ some (b'1' ∷ []) ∷ []);
  inet_pton = λ addr. true;
  connect = true;
  recv = answers;
  send = λ bytes. true;
}

le→leb : (a b : ℕ) → a ≤ b → leb a b ≡ true
le→leb a b h = ground arith

main-reply_example :
    main 5 network ((b'f' ∷ []) ∷ (b't' ∷ []) ∷ []) ≡ printed (b'O' ∷ b'K' ∷ b'\n' ∷ [])
main-reply_example =
    main-reply 5 network (b'f' ∷ []) (b't' ∷ []) (b'1' ∷ []) ((b'h' ∷ b'i' ∷ []) ∷ [])
      (b'>' ∷ b'.' ∷ []) ((b'O', []) ∷ (b'K', b'\n' ∷ []) ∷ []) refl refl refl refl refl
      (refl, refl, (refl, refl))
      (
        (λ n h. rw (le→leb 1 n h) refl),
        ((λ n h. rw (le→leb 2 n h) refl), (λ n. rw (le→leb 0 n (omega arith)) refl)),
      )
      (omega arith) (omega arith) (omega arith)

answers-Bounded : Bounded answers
answers-Bounded i n bytes e = elim (Bool-cases (leb (length (get_or pieces i [])) n)) [
  | inl y ↦
      subst (λ b. length b ≤ n) (some-injective _ _ (rw y at e))
        (leb→le (length (get_or pieces i [])) n y)
  | inr y ↦ subst (λ b. length b ≤ n) (some-injective _ _ (rw y at e)) (omega arith)
]

read_reply-Bounded_example :
    (reply : List ℕ) × (read_reply 3000 answers 2 [] ≡ some reply) × (length reply ≤ buf_size)
read_reply-Bounded_example =
    read_reply-Bounded 3000 answers 2 [] answers-Bounded (omega arith) (omega arith)
