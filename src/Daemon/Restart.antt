-- ===== src/Daemon/Restart.antt =====
-- hw10, run again after a client has gone.
use otus_c.Prelude.{subst, ℕ, ◌≡◌, refl, sym, Bool, true, false, List, [], ◌∷◌, ◌++◌, some}
use otus_c.Prelude.Bytes.{CString}
use otus_c.Daemon.{
  Round, Action, opened, sent, closed, Ending, failed, killed, reply, serve, unix_socket_server,
}
use otus_c.Daemon.Server.{name_after}

-- A round whose client has gone when it is sent to
pub record Gone (r : Round) : Type 0 where
  pub unset : r.flag ≡ false
  pub connected : (fd : ℕ) × (r.msgsock ≡ some fd)
  pub lost : r.gone ≡ true

-- Every round has a connection to a client that stays.
abbrev pub AllGood : List Round → Type 0
AllGood [] = Unit {0}
AllGood (r ∷ rounds) =
    (r.flag ≡ false) × ((fd : ℕ) × (r.msgsock ≡ some fd)) × (r.gone ≡ false) × AllGood rounds

abbrev Stays : List Action × Ending → Type 0
Stays x = (x.1 ≡ killed) × ((exists : Bool) → name_after exists x.0 ≡ exists)

serve-Stays :
    (sock : ℕ) (look_f : CString) (done rest : List Round) (r : Round)
    → AllGood done
    → Gone r
    → Stays (serve sock look_f (done ++ (r ∷ rest)))
unfolding serve
serve-Stays sock look_f [] rest r good l =
    let (fd, there) = l.connected in
    let run : serve sock look_f (r ∷ rest)
        ≡ (opened fd ∷ sent fd (reply look_f r.st_size) ∷ [], killed) =
      rw (l.unset, there, l.lost) refl in
    subst Stays (sym run) (refl, λ exists. refl)
serve-Stays sock look_f (d ∷ done) rest r (clear, (fd, there), stays, good) l =
    let again = serve-Stays sock look_f done rest r good l in
    let after = serve sock look_f (done ++ (r ∷ rest)) in
    let run : serve sock look_f (d ∷ done ++ (r ∷ rest))
        ≡ (opened fd ∷ sent fd (reply look_f d.st_size) ∷ closed fd ∷ after.0, after.1) =
      rw (clear, there, stays) refl in
    subst Stays (sym run) again

-- A client that goes before its reply is sent ends the server, whatever would come after; the socket's
-- name stays, and no later server in its place can serve, whatever its rounds.
pub lost-Blocks :
    (sock : ℕ) (look_f : CString) (done rest : List Round) (r : Round)
    → AllGood done
    → Gone r
    → ((unix_socket_server (some sock) false look_f (done ++ (r ∷ rest))).1 ≡ killed)
      × ((sock' : ℕ) (look_f' : CString) (rounds : List Round)
          → unix_socket_server
              (some sock')
              (name_after false
                (unix_socket_server (some sock) false look_f (done ++ (r ∷ rest))).0)
              look_f'
              rounds
            ≡ (opened sock' ∷ [], failed))
unfolding unix_socket_server
lost-Blocks sock look_f done rest r good l =
    let (end, name) = serve-Stays sock look_f done rest r good l in
    (end, λ sock' look_f' rounds. rw (name true) refl)
