-- ===== src/Daemon/Checks.antt =====
-- The daemon of hw10 with a file of 42 bytes.
use otus_c.Prelude.{ℕ, ◌≤◌, ◌≡◌, refl, true, false, List, [], ◌∷◌, ◌++◌, Option, none, some, arith}
use otus_c.Prelude.Bytes.{CString}
use otus_c.LogParser.Apache.{strtoull}
use otus_c.LogParser.Apache.Decimal.{decimal}
use otus_c.Daemon.{
  Round, Action, opened, failed, stopped, killed, waiting, taken, reply, serve, unix_socket_server,
  validate_is_already_worked, Target, other_file, detach,
}
use otus_c.Daemon.Program.{
  served, World, listen, watch, configure, start, go_on, leaves, child, path_conf, main,
}
use otus_c.Daemon.Server.{opens, closes, texts, name_after, Answered, Stops, stopped-Closes}
use otus_c.Daemon.Reply.{size_part, reply-roundtrip}
use otus_c.Daemon.Restart.{Gone, lost-Blocks}
use otus_c.Daemon.Descriptors.{OnlyNull, detach-OnlyNull}
use otus_c.Daemon.Single.{
  System, begins, stops, idle, Reach, at_first, then_step, at_most_one_serves, name_is_free,
}

abbrev path : CString
path = b'f' ∷ []

abbrev connection : Round
connection = record { flag = false; msgsock = some 4; st_size = some 42; gone = false }

abbrev signal : Round
signal = record { flag = true; msgsock = none; st_size = none; gone = false }

abbrev day : List Round
day = connection ∷ signal ∷ []

abbrev day_actions : List Action
unfolding unix_socket_server serve
day_actions = (unix_socket_server (some 3) false path day).0

day-stops : unix_socket_server (some 3) false path day ≡ (day_actions, stopped)
unfolding unix_socket_server serve day_actions
day-stops = refl

stopped-Closes_example :
    (done : List Round) × (rest : List Round) × (day ≡ done ++ rest)
    × Answered path done (texts day_actions)
    × Stops rest
    × ((fd : ℕ) → closes fd day_actions ≡ opens fd day_actions)
    × (name_after false day_actions ≡ false)
stopped-Closes_example = stopped-Closes 3 path day day_actions day-stops

reply-roundtrip_example : strtoull (size_part path (reply path (some 42))) ≡ 42
unfolding decimal
reply-roundtrip_example = reply-roundtrip path 42 (omega arith) (omega arith)

hasty : Round
hasty = record connection { gone = true }

hasty-Gone : Gone hasty
unfolding hasty
hasty-Gone = record { unset = refl; connected = (4, refl); lost = refl }

lost-Blocks_example :
    ((unix_socket_server (some 3) false path (connection ∷ hasty ∷ day)).1 ≡ killed)
    × ((sock' : ℕ) (look_f' : CString) (rounds : List Round)
        → unix_socket_server
            (some sock')
            (name_after false (unix_socket_server (some 3) false path (connection ∷ hasty ∷ day)).0)
            look_f'
            rounds
          ≡ (opened sock' ∷ [], failed))
lost-Blocks_example =
    lost-Blocks 3 path (connection ∷ []) day hasty (refl, (4, refl), refl, tt) hasty-Gone

-- A terminal, a closed descriptor and a file, with a limit of 4
abbrev open_files : List (Option Target)
open_files = some other_file ∷ none ∷ some other_file ∷ []

detach-OnlyNull_example :
    ((detach true 4 (some 4) open_files).reports ≡ false)
    × OnlyNull (detach true 4 (some 4) open_files).files
detach-OnlyNull_example = detach-OnlyNull 4 (some 4) open_files (omega arith) (omega arith)

-- A process that may have two descriptors gets no third one.
two_descriptors : (detach true 2 (some 4) open_files).reports ≡ true
unfolding detach
two_descriptors = refl

abbrev world : World
world = record {
  first_fork = child;
  second_fork = child;
  lock_fd = some 3;
  lock = taken;
  init_conf = λ conf. some path;
  accessible = λ file. true;
  handler = true;
  sock = some 4;
  exists = false;
}

abbrev arguments : List CString
arguments = (b'-' ∷ b'd' ∷ []) ∷ (b'c' ∷ []) ∷ []

world-waits : (main world [] arguments).1 ≡ served waiting
unfolding main start go_on leaves configure watch listen unix_socket_server serve path_conf
    validate_is_already_worked
world-waits = refl

world-stops : (main world day arguments).1 ≡ served stopped
unfolding main start go_on leaves configure watch listen unix_socket_server serve path_conf
    validate_is_already_worked
world-stops = refl

abbrev busy : System
busy = record idle {
  holder = some 7;
  exists = name_after false (main world [] arguments).0;
  serving = 7 ∷ [];
}

busy-Reach : Reach busy
busy-Reach =
    then_step at_first
      (begins idle world arguments 7 (record { exclusive = λ e. refl; name = refl }) world-waits)

at_most_one_serves_example : 1 ≤ 1
at_most_one_serves_example = at_most_one_serves busy-Reach

abbrev evening : System
evening = record busy {
  holder = none;
  exists = name_after (name_after false (main world [] arguments).0) (main world day arguments).0;
  serving = [];
}

evening-Reach : Reach evening
evening-Reach = then_step busy-Reach (stops busy world day arguments 7 [] [] refl world-stops)

name_is_free_example :
    name_after (name_after false (main world [] arguments).0) (main world day arguments).0 ≡ false
name_is_free_example = name_is_free evening-Reach refl refl
