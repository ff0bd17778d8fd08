-- ===== src/Logger/Rotation.antt =====
-- The rotation of hw9's log: `log_rotate` on a file that is open.
use otus_c.Prelude.{ℕ, ◌≤◌, ◌+◌, ◌≡◌, refl, true, false, arith, ltb}
use otus_c.Logger.{
  Logger, Answers, opened, closed, done, undefined, log_rotate, close_and_reopen, reopen,
}

-- After a rotation in which nothing fails the size is as large as before, so that the next call of
-- `log_rotate`, whatever the size of the line in between, moves the new file away again.
pub log_rotate-again :
    (s : Logger) (answers : Answers) (added : ℕ)
    → s.output ≡ opened
    → s.max_file_size ≤ s.current_file_size
    → answers.clock_fails ≡ false
    → answers.rename_fails ≡ false
    → answers.open_fails ≡ false
    → (s' : Logger) × (log_rotate answers s ≡ done (true, s'))
      × (log_rotate answers (record s' { current_file_size = s'.current_file_size + added })
          ≡ done (reopen answers (record s' { current_file_size = s'.current_file_size + added })))
unfolding log_rotate close_and_reopen reopen
log_rotate-again s answers added out large clock rename reopened =
    let first : ltb s.current_file_size s.max_file_size ≡ false = ground arith in
    let again : ltb (s.current_file_size + added) s.max_file_size ≡ false = ground arith in
    (record s { output = opened }, rw (first, out, clock, rename, reopened) refl, rw again refl)

-- Where `clock_gettime` fails, `log_rotate` says that the log can be written although it has closed the
-- file; a further call closes it a second time, which is undefined.
pub log_rotate-no_clock :
    (s : Logger) (answers : Answers)
    → s.output ≡ opened
    → s.max_file_size ≤ s.current_file_size
    → answers.clock_fails ≡ true
    → (s' : Logger) × (log_rotate answers s ≡ done (true, s'))
      × (s'.output ≡ closed)
      × (log_rotate answers s' ≡ undefined)
unfolding log_rotate close_and_reopen reopen
log_rotate-no_clock s answers out large clock =
    let first : ltb s.current_file_size s.max_file_size ≡ false = ground arith in
    (record s { output = closed }, rw (first, out, clock) refl, refl, rw first refl)
