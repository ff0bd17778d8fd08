-- ===== src/Telnet/Reply.antt =====
-- hw13: what is printed of a reply that arrives in pieces, and where the buffer is left.
use mathlib.Core.List.{append_assoc, append-nil}
use otus_c.Prelude.{
  ℕ, zero, suc, ◌+◌, ◌-◌, ◌<◌, ◌≤◌, ◌≡◌, refl, sym, ◌∙◌, ap, true, false, List, [], ◌∷◌, ◌++◌,
  Option, some, if◌then◌else◌, ltb, length, length-append, arith, Option-cases, inl, inr,
}
use otus_c.Prelude.Words.{sub64}
use otus_c.Prelude.Bytes.{CString}
use otus_c.Telnet.{
  Network, Ending, printed, failed, undefined, buf_size, goes_on, wait_prompt, read_reply, c_string,
  message, print_reply, ip_by_hostname, main,
}

-- A piece of the reply, which is not empty
abbrev pub bytes_of : ℕ × List ℕ → List ℕ
bytes_of (x, bytes) = x ∷ bytes

abbrev pub joined : List (ℕ × List ℕ) → List ℕ
joined [] = []
joined (c ∷ cs) = bytes_of c ++ joined cs

-- From the call `i` on, `recv` gives the pieces, each where it has room, and then the end.
abbrev pub Gives : (ℕ → ℕ → Option (List ℕ)) → ℕ → List (ℕ × List ℕ) → Type 0
Gives recv i [] = (n : ℕ) → recv i n ≡ some []
Gives recv i (c ∷ cs) =
    ((n : ℕ) → length (bytes_of c) ≤ n → recv i n ≡ some (bytes_of c)) × Gives recv (i + 1) cs

read_reply-joined :
    (rounds : ℕ) (recv : ℕ → ℕ → Option (List ℕ)) (i : ℕ) (text : List ℕ) (cs : List (ℕ × List ℕ))
    → Gives recv i cs
    → length cs < rounds
    → length text + length (joined cs) ≤ buf_size
    → read_reply rounds recv i text ≡ some (text ++ joined cs)
unfolding read_reply
read_reply-joined zero recv i text cs g h b = absurd (omega (arith, h))
read_reply-joined (suc rounds) recv i text [] g h b =
    rw (g (sub64 buf_size (length text)), read_reply) (ap some (sym (append-nil text)))
read_reply-joined (suc rounds) recv i text ((x, bytes) ∷ cs) g h b =
    let sum = length-append (x ∷ bytes) (joined cs) in
    let given = g.0 (sub64 buf_size (length text)) (omega (arith, b, sum)) in
    rw (given, read_reply)
      (read_reply-joined rounds recv (i + 1) (text ++ (x ∷ bytes)) cs g.1 (omega (arith, h))
          (omega (arith, b, sum, length-append text (x ∷ bytes)))
        ∙ ap some (append_assoc text (x ∷ bytes) (joined cs)))

-- From the call `i` on, `recv` gives pieces after which the first loop goes on, and one that ends it.
abbrev pub Prompts : (ℕ → ℕ → Option (List ℕ)) → ℕ → List (List ℕ) → List ℕ → Type 0
Prompts recv i [] last = (recv i (buf_size - 1) ≡ some last) × (goes_on last ≡ some false)
Prompts recv i (b ∷ bs) last =
    (recv i (buf_size - 1) ≡ some b) × (goes_on b ≡ some true) × Prompts recv (i + 1) bs last

wait_prompt-Prompts :
    (rounds : ℕ) (recv : ℕ → ℕ → Option (List ℕ)) (i : ℕ) (after : ℕ → Ending) (bs : List (List ℕ))
    (last : List ℕ)
    → Prompts recv i bs last
    → length bs < rounds
    → wait_prompt rounds recv i after ≡ after (i + (length bs + 1))
unfolding wait_prompt
wait_prompt-Prompts zero recv i after bs last p h = absurd (omega (arith, h))
wait_prompt-Prompts (suc rounds) recv i after [] last p h = rw (p.0, p.1, wait_prompt) refl
wait_prompt-Prompts (suc rounds) recv i after (b ∷ bs) last p h =
    rw (p.0, p.1, wait_prompt)
      (wait_prompt-Prompts rounds recv (i + 1) after bs last p.2 (omega (arith, h))
        ∙ ap after (omega arith))

-- What follows the first loop
abbrev after : ℕ → Network → CString → CString → ℕ → Ending
after rounds s font text i =
    if s.send (message font text) then print_reply (read_reply rounds s.recv i []) else failed

-- Where the network does what it is asked, the prompt comes in pieces that end the first loop at some
-- point, and the reply has at most 2048 bytes, whatever its pieces are: `main` prints the reply up to
-- its first zero byte, but writes behind its buffer if the reply has all 2048 bytes.
pub main-reply :
    (rounds : ℕ) (s : Network) (font text addr : CString) (bs : List (List ℕ)) (last : List ℕ)
    (cs : List (ℕ × List ℕ))
    → s.socket ≡ true
    → ip_by_hostname s.host ≡ some addr
    → s.inet_pton addr ≡ true
    → s.connect ≡ true
    → s.send (message font text) ≡ true
    → Prompts s.recv 0 bs last
    → Gives s.recv (length bs + 1) cs
    → length bs < rounds
    → length cs < rounds
    → length (joined cs) ≤ buf_size
    → main rounds s (font ∷ text ∷ [])
      ≡ (if ltb (length (joined cs)) buf_size then printed (c_string (joined cs)) else undefined)
unfolding main
main-reply rounds s font text addr bs last cs o a n c m p g h k b =
    let prompted = wait_prompt-Prompts rounds s.recv 0 (after rounds s font text) bs last p h in
    let read = read_reply-joined rounds s.recv (length bs + 1) [] cs g k (omega (arith, b)) in
    let first : 0 + (length bs + 1) ≡ length bs + 1 = omega arith in
    rw (o, a, n, c) (prompted ∙ ap (after rounds s font text) first ∙ rw (m, read) refl)

-- A `recv` that never gives more than it has room for
abbrev pub Bounded : (ℕ → ℕ → Option (List ℕ)) → Type 0
Bounded recv = (i n : ℕ) (bytes : List ℕ) → recv i n ≡ some bytes → length bytes ≤ n

-- Whatever such a `recv` answers, the second loop ends after as many rounds as the buffer has room, and
-- never stores a byte outside of it.
pub read_reply-Bounded :
    (rounds : ℕ) (recv : ℕ → ℕ → Option (List ℕ)) (i : ℕ) (text : List ℕ)
    → Bounded recv
    → length text ≤ buf_size
    → buf_size < rounds + length text
    → (reply : List ℕ) × (read_reply rounds recv i text ≡ some reply) × (length reply ≤ buf_size)
unfolding read_reply
read_reply-Bounded zero recv i text w h k = absurd (omega (arith, h, k))
read_reply-Bounded (suc rounds) recv i text w h k =
    let room : ℕ = sub64 buf_size (length text) in
    elim (Option-cases (recv i room)) [
      | inl e ↦ (text, rw (e, read_reply) refl, h)
      | inr ([], e) ↦ (text, rw (e, read_reply) refl, h)
      | inr (x ∷ bytes, e) ↦
          (let fits = w i room (x ∷ bytes) e in
            let sum = length-append text (x ∷ bytes) in
            let (reply, run, small) =
              read_reply-Bounded rounds recv (i + 1) (text ++ (x ∷ bytes)) w
                (omega (arith, h, fits, sum)) (omega (arith, k, sum)) in
            (reply, rw (e, read_reply) run, small))
    ]
