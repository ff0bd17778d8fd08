-- ===== src/Daemon/Main.antt =====
-- `main` of hw10 up to the server: what it came to tells of the lock and of the name of the socket.
use otus_c.Prelude.{
  ℕ, ◌≡◌, ◌≢◌, refl, sym, ap, ◌∙◌, Bool, true, false, List, [], Option, none, some,
}
use otus_c.Prelude.Bytes.{CString}
use otus_c.Daemon.{
  Round, Action, Ending, failed, stopped, waiting, unix_socket_server, serve, Lock, taken,
  held_by_other, error, validate_is_already_worked,
}
use otus_c.Daemon.Program.{
  path_conf, Exit, no_conf, left, leaves, go_on, already_open, no_file, no_handler, served, World,
  listen, watch, configure, start, main,
}
use otus_c.Daemon.Server.{name_after, serve-Served}

abbrev ending_of : Exit → Ending
ending_of (served e) = e
ending_of no_conf = failed
ending_of left = failed
ending_of already_open = failed
ending_of no_file = failed
ending_of no_handler = failed

-- What `main` did where it came to the server
record FromServer (w : World) (rounds : List Round) (r : List Action × Exit) : Type 0 where
  look_f : CString
  same : r ≡ (
    (unix_socket_server w.sock w.exists look_f rounds).0,
    served (unix_socket_server w.sock w.exists look_f rounds).1,
  )

abbrev IsServed : World → List Round → List Action × Exit → Type 0
IsServed w rounds r = (e : Ending) → r.1 ≡ served e → FromServer w rounds r

listen-IsServed :
    (accessible handler : Bool) (w : World) (rounds : List Round) (look_f : CString)
    → IsServed w rounds (listen accessible handler w rounds look_f)
unfolding listen
listen-IsServed false handler w rounds look_f e h = absurd (let h' = h in cc)
listen-IsServed true false w rounds look_f e h = absurd (let h' = h in cc)
listen-IsServed true true w rounds look_f e h = record { look_f = look_f; same = refl }

watch-IsServed :
    (w : World) (rounds : List Round) (o : Option CString) → IsServed w rounds (watch w rounds o)
unfolding watch
watch-IsServed w rounds none e h = absurd (let h' = h in cc)
watch-IsServed w rounds (some look_f) e h =
    listen-IsServed (w.accessible look_f) w.handler w rounds look_f e h

configure-IsServed :
    (already : Bool) (w : World) (rounds : List Round) (path : CString) (e : Ending)
    → (configure already w rounds path).1 ≡ served e
    → (already ≡ false) × FromServer w rounds (configure already w rounds path)
unfolding configure
configure-IsServed true w rounds path e h = absurd (let h' = h in cc)
configure-IsServed false w rounds path e h = (refl, watch-IsServed w rounds (w.init_conf path) e h)

locked : (fd : Option ℕ) (lock : Lock) → validate_is_already_worked fd lock ≡ false → lock ≡ taken
unfolding validate_is_already_worked
locked none lock e = absurd (let e' = e in cc)
locked (some fd) taken e = refl
locked (some fd) held_by_other e = absurd (let e' = e in cc)
locked (some fd) error e = absurd (let e' = e in cc)

go_on-IsServed :
    (leaving : Bool) (w : World) (rounds : List Round) (path : CString) (e : Ending)
    → (go_on leaving w rounds path).1 ≡ served e
    → (w.lock ≡ taken) × FromServer w rounds (go_on leaving w rounds path)
unfolding go_on
go_on-IsServed true w rounds path e h = absurd (let h' = h in cc)
go_on-IsServed false w rounds path e h =
    let (free, server) =
      configure-IsServed (validate_is_already_worked w.lock_fd w.lock) w rounds path e h in
    (locked w.lock_fd w.lock free, server)

start-IsServed :
    (w : World) (rounds : List Round) (o : Option (Bool × CString)) (e : Ending)
    → (start w rounds o).1 ≡ served e
    → (w.lock ≡ taken) × FromServer w rounds (start w rounds o)
unfolding start
start-IsServed w rounds none e h = absurd (let h' = h in cc)
start-IsServed w rounds (some (daemon, path)) e h =
    go_on-IsServed (leaves daemon w.first_fork w.second_fork) w rounds path e h

-- Where the server has a socket and its name is free, it is bound; otherwise it fails.
server-bound :
    (sock : Option ℕ) (exists : Bool) (look_f : CString) (e : Ending)
    → (unix_socket_server sock exists look_f []).1 ≡ e
    → e ≢ failed
    → (exists ≡ false) × (name_after exists (unix_socket_server sock exists look_f []).0 ≡ true)
unfolding unix_socket_server serve
server-bound none exists look_f e h n = absurd (n (sym h))
server-bound (some sock) true look_f e h n = absurd (n (sym h))
server-bound (some sock) false look_f e h n = (refl, refl)

server-removed :
    (sock : Option ℕ) (exists b : Bool) (look_f : CString) (rounds : List Round)
    → (unix_socket_server sock exists look_f rounds).1 ≡ stopped
    → name_after b (unix_socket_server sock exists look_f rounds).0 ≡ false
unfolding unix_socket_server
server-removed none exists b look_f rounds h = absurd (let h' = h in cc)
server-removed (some sock) true b look_f rounds h = absurd (let h' = h in cc)
server-removed (some sock) false b look_f rounds h =
    (serve-Served sock look_f rounds h).removed true

pub main-locked :
    (w : World) (rounds : List Round) (argv : List CString) (e : Ending)
    → (main w rounds argv).1 ≡ served e
    → w.lock ≡ taken
unfolding main
main-locked w rounds argv e h = (start-IsServed w rounds (path_conf argv) e h).0

pub main-bound :
    (w : World) (argv : List CString)
    → (main w [] argv).1 ≡ served waiting
    → (w.exists ≡ false) × (name_after w.exists (main w [] argv).0 ≡ true)
unfolding main
main-bound w argv h =
    let (_, s) = start-IsServed w [] (path_conf argv) waiting h in
    let e = ap ending_of (sym (ap (λ r. r.1) s.same) ∙ h) in
    let (free, name) = server-bound w.sock w.exists s.look_f waiting e (λ e. absurd cc) in
    (free, ap (λ r. name_after w.exists r.0) s.same ∙ name)

pub main-removed :
    (w : World) (rounds : List Round) (argv : List CString) (b : Bool)
    → (main w rounds argv).1 ≡ served stopped
    → name_after b (main w rounds argv).0 ≡ false
unfolding main
main-removed w rounds argv b h =
    let (_, s) = start-IsServed w rounds (path_conf argv) stopped h in
    let e = ap ending_of (sym (ap (λ r. r.1) s.same) ∙ h) in
    ap (λ r. name_after b r.0) s.same ∙ server-removed w.sock w.exists b s.look_f rounds e

-- `main` that does not come to wait has not bound the socket.
abbrev Quiet : List Action × Exit → Type 0
Quiet r = r.1 ≢ served waiting → (b : Bool) → name_after b r.0 ≡ b

listen-Quiet :
    (accessible handler : Bool) (w : World) (look_f : CString)
    → Quiet (listen accessible handler w [] look_f)
unfolding listen unix_socket_server serve
listen-Quiet false handler w look_f n b = refl
listen-Quiet true false w look_f n b = refl
listen-Quiet true true w look_f n b = server w.sock w.exists n b
  where
    server :
        (sock : Option ℕ) (exists : Bool)
        → Quiet (
          (unix_socket_server sock exists look_f []).0,
          served (unix_socket_server sock exists look_f []).1,
        )
    server none exists n b = refl
    server (some fd) true n b = refl
    server (some fd) false n b = absurd (n refl)

start-Quiet : (w : World) (o : Option (Bool × CString)) → Quiet (start w [] o)
unfolding start go_on configure watch
start-Quiet w none n b = refl
start-Quiet w (some (daemon, path)) n b = gone (leaves daemon w.first_fork w.second_fork) n b
  where
    configured : (o : Option CString) → Quiet (watch w [] o)
    configured none n b = refl
    configured (some look_f) n b = listen-Quiet (w.accessible look_f) w.handler w look_f n b

    past : (already : Bool) → Quiet (configure already w [] path)
    past true n b = refl
    past false n b = configured (w.init_conf path) n b

    gone : (leaving : Bool) → Quiet (go_on leaving w [] path)
    gone true n b = refl
    gone false n b = past (validate_is_already_worked w.lock_fd w.lock) n b

pub main-quiet :
    (w : World) (argv : List CString) (b : Bool)
    → (main w [] argv).1 ≢ served waiting
    → name_after b (main w [] argv).0 ≡ b
unfolding main
main-quiet w argv b n = start-Quiet w (path_conf argv) n b
