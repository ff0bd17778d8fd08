-- ===== src/Logger/Checks.antt =====
-- hw9's logger after a start that fails, and its rotation.
use otus_c.Prelude.{◌+◌, ◌≡◌, ◌⊎◌, refl, true, false, [], ◌∷◌, arith}
use otus_c.Prelude.Bytes.{CString}
use otus_c.Logger.{
  error, Logger, Answers, opened, closed, done, waiting, undefined, start, init_logger, logger_log,
  log_rotate, reopen, Reach, here, init,
}
use otus_c.Logger.Silent.{logger_log-silent}
use otus_c.Logger.Rotation.{log_rotate-again, log_rotate-no_clock}

abbrev log_file : CString
log_file = b'a' ∷ b'.' ∷ b'l' ∷ b'o' ∷ b'g' ∷ []

abbrev all_well : Answers
all_well = record { clock_fails = false; rename_fails = false; open_fails = false }

abbrev no_clock : Answers
no_clock = record { clock_fails = true; rename_fails = false; open_fails = false }

abbrev failed_start : Logger
failed_start = record start { locked = true }

failed_start-Reach : Reach failed_start
unfolding init_logger
failed_start-Reach = init false 0 log_file here

logger_log-silent_example :
    (failed_start.written ≡ [])
    × (((failed_start.is_init ≡ true)
          × (logger_log all_well [] error log_file 7 [] failed_start ≡ done failed_start))
        ⊎ ((logger_log all_well [] error log_file 7 [] failed_start ≡ waiting)
            ⊎ (logger_log all_well [] error log_file 7 [] failed_start ≡ undefined)))
logger_log-silent_example = logger_log-silent all_well [] error log_file 7 [] failed_start-Reach

abbrev grown : Logger
grown = record {
  is_init = true;
  locked = true;
  output = opened;
  filename = log_file;
  max_file_size = 10485760;
  current_file_size = 10485761;
  written = [];
}

log_rotate-again_test :
    (s' : Logger) × (log_rotate all_well grown ≡ done (true, s'))
    × (log_rotate all_well (record s' { current_file_size = s'.current_file_size + 12 })
        ≡ done (reopen all_well (record s' { current_file_size = s'.current_file_size + 12 })))
log_rotate-again_test = log_rotate-again grown all_well 12 refl (omega arith) refl refl refl

rotated_without_clock :
    (s' : Logger) × (log_rotate no_clock grown ≡ done (true, s'))
    × (s'.output ≡ closed)
    × (log_rotate no_clock s' ≡ undefined)
rotated_without_clock = log_rotate-no_clock grown no_clock refl (omega arith) refl
