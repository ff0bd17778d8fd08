-- ===== src/Daemon/Server.antt =====
-- `unix_socket_server` of hw10: what is open, what is sent and the socket's name at its end.
use otus_c.Prelude.{
  subst, ℕ, ◌+◌, ◌≤◌, ◌≡◌, ◌⊎◌, inl, inr, refl, sym, ap, Bool, true, false, List, [], ◌∷◌, ◌++◌,
  Option, none, some, if◌then◌else◌, length, length-take, arith, ◌==◌, Bool-cases, Option-cases,
}
use otus_c.Prelude.Bytes.{CString}
use otus_c.Daemon.{
  Round, Action, opened, bound, listening, sent, closed, unlinked, Ending, stopped, killed, message,
  reply, serve, unix_socket_server,
}

-- How often a descriptor is opened
abbrev pub opens : ℕ → List Action → ℕ
opens fd [] = 0
opens fd (opened n ∷ actions) = (if n == fd then 1 else 0) + opens fd actions
opens fd (bound ∷ actions) = opens fd actions
opens fd (listening ∷ actions) = opens fd actions
opens fd (sent n text ∷ actions) = opens fd actions
opens fd (closed n ∷ actions) = opens fd actions
opens fd (unlinked ∷ actions) = opens fd actions

-- How often it is closed
abbrev pub closes : ℕ → List Action → ℕ
closes fd [] = 0
closes fd (closed n ∷ actions) = (if n == fd then 1 else 0) + closes fd actions
closes fd (opened n ∷ actions) = closes fd actions
closes fd (bound ∷ actions) = closes fd actions
closes fd (listening ∷ actions) = closes fd actions
closes fd (sent n text ∷ actions) = closes fd actions
closes fd (unlinked ∷ actions) = closes fd actions

-- The texts sent, and where
abbrev pub texts : List Action → List (ℕ × CString)
texts [] = []
texts (sent n text ∷ actions) = (n, text) ∷ texts actions
texts (opened n ∷ actions) = texts actions
texts (bound ∷ actions) = texts actions
texts (listening ∷ actions) = texts actions
texts (closed n ∷ actions) = texts actions
texts (unlinked ∷ actions) = texts actions

-- Whether the socket's name exists after the actions
abbrev pub name_after : Bool → List Action → Bool
name_after exists [] = exists
name_after exists (bound ∷ actions) = name_after true actions
name_after exists (unlinked ∷ actions) = name_after false actions
name_after exists (opened n ∷ actions) = name_after exists actions
name_after exists (listening ∷ actions) = name_after exists actions
name_after exists (sent n text ∷ actions) = name_after exists actions
name_after exists (closed n ∷ actions) = name_after exists actions

-- Each round has a connection, and the one text sent there is the reply, of at most 99 bytes.
abbrev pub Answered : CString → List Round → List (ℕ × CString) → Type 0
Answered look_f [] [] = Unit {0}
Answered look_f [] (answer ∷ answers) = ⊥
Answered look_f (r ∷ rounds) [] = ⊥
Answered look_f (r ∷ rounds) (answer ∷ answers) =
    (r.flag ≡ false)
    × (r.msgsock ≡ some answer.0)
    × (answer.1 ≡ reply look_f r.st_size)
    × (length answer.1 ≤ 99)
    × Answered look_f rounds answers

-- The first round ends the loop.
abbrev pub Stops : List Round → Type 0
Stops [] = ⊥
Stops (r ∷ rounds) = (r.flag ≡ true) ⊎ (r.msgsock ≡ none)

pub record Served (sock : ℕ) (look_f : CString) (rounds : List Round) (actions : List Action)
    : Type 0 where
  balance : (fd : ℕ) → closes fd actions ≡ opens fd actions + (if sock == fd then 1 else 0)
  pub removed : (exists : Bool) → name_after exists actions ≡ false
  done : List Round
  rest : List Round
  split : rounds ≡ done ++ rest
  answered : Answered look_f done (texts actions)
  stops : Stops rest

Served-none :
    (sock : ℕ) (look_f : CString) (r : Round) (rounds : List Round)
    → (r.flag ≡ true) ⊎ (r.msgsock ≡ none)
    → Served sock look_f (r ∷ rounds) (closed sock ∷ unlinked ∷ [])
Served-none sock look_f r rounds end = record {
  balance = λ fd. omega arith;
  removed = λ exists. refl;
  done = [];
  rest = r ∷ rounds;
  split = refl;
  answered = tt;
  stops = end;
}

length-reply : (look_f : CString) (st_size : Option ℕ) → length (reply look_f st_size) ≤ 99
length-reply look_f st_size = omega (arith, length-take 99 (message look_f st_size))

Served-cons :
    {sock : ℕ} {look_f : CString} (r : Round) (fd : ℕ) {rounds : List Round} {actions : List Action}
    → r.flag ≡ false
    → r.msgsock ≡ some fd
    → Served sock look_f rounds actions
    → Served sock look_f
        (r ∷ rounds)
        (opened fd ∷ sent fd (reply look_f r.st_size) ∷ closed fd ∷ actions)
Served-cons {sock} {look_f} r fd clear there s = record {
  balance = λ n. omega (arith, s.balance n);
  removed = λ exists. s.removed exists;
  done = r ∷ s.done;
  rest = s.rest;
  split = ap (r ∷◌) s.split;
  answered = (clear, there, refl, length-reply look_f r.st_size, s.answered);
  stops = s.stops;
}

abbrev pub Goal : ℕ → CString → List Round → List Action × Ending → Type 0
Goal sock look_f rounds x = x.1 ≡ stopped → Served sock look_f rounds x.0

pub serve-Served :
    (sock : ℕ) (look_f : CString) (rounds : List Round)
    → Goal sock look_f rounds (serve sock look_f rounds)
unfolding serve
serve-Served sock look_f [] = λ e. absurd cc
serve-Served sock look_f (r ∷ rounds) = elim (Bool-cases r.flag) [
  | inl set ↦ ended (rw set refl) (inl set)
  | inr clear ↦ elim (Option-cases r.msgsock) [
    | inl gone ↦ ended (rw (clear, gone) refl) (inr gone)
    | inr (fd, there) ↦ elim (Bool-cases r.gone) [
      | inl lost ↦
          by_run (opened fd ∷ sent fd (reply look_f r.st_size) ∷ [], killed)
            (rw (clear, there, lost) refl) (λ e. absurd cc)
      | inr alive ↦
          by_run
            (
              opened fd
                  ∷ sent fd (reply look_f r.st_size)
                  ∷ closed fd
                  ∷ (serve sock look_f rounds).0,
              (serve sock look_f rounds).1,
            )
            (rw (clear, there, alive) refl)
            (λ e. Served-cons r fd clear there (serve-Served sock look_f rounds e))
    ]
  ]
]
  where
    by_run :
        (x : List Action × Ending)
        → serve sock look_f (r ∷ rounds) ≡ x
        → Goal sock look_f (r ∷ rounds) x
        → Goal sock look_f (r ∷ rounds) (serve sock look_f (r ∷ rounds))
    by_run x run = subst (Goal sock look_f (r ∷ rounds)) (sym run)

    ended :
        serve sock look_f (r ∷ rounds) ≡ (closed sock ∷ unlinked ∷ [], stopped)
        → (r.flag ≡ true) ⊎ (r.msgsock ≡ none)
        → Goal sock look_f (r ∷ rounds) (serve sock look_f (r ∷ rounds))
    ended run end = by_run _ run (λ e. Served-none sock look_f r rounds end)

-- Where the server stops: the rounds up to a signal or a failing `accept` each had one reply, of
-- at most 99 bytes, every descriptor is closed as often as it is opened, and the socket's name
-- is gone.
pub stopped-Closes :
    (sock : ℕ) (look_f : CString) (rounds : List Round) (actions : List Action)
    → unix_socket_server (some sock) false look_f rounds ≡ (actions, stopped)
    → (done : List Round) × (rest : List Round) × (rounds ≡ done ++ rest)
      × Answered look_f done (texts actions)
      × Stops rest
      × ((fd : ℕ) → closes fd actions ≡ opens fd actions)
      × (name_after false actions ≡ false)
unfolding unix_socket_server
stopped-Closes sock look_f rounds actions e =
    let s = serve-Served sock look_f rounds (ap (λ x. x.1) e) in
    let made : opened sock ∷ bound ∷ listening ∷ (serve sock look_f rounds).0 ≡ actions =
      ap (λ x. x.0) e in
    (
      s.done,
      s.rest,
      s.split,
      subst (λ a. Answered look_f s.done (texts a)) made s.answered,
      s.stops,
      λ fd. subst (λ a. closes fd a ≡ opens fd a) made (omega (arith, s.balance fd)),
      subst (λ a. name_after false a ≡ false) made (s.removed true),
    )
