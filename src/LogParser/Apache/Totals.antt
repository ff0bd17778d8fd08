-- ===== src/LogParser/Apache/Totals.antt =====
-- What `process_file` of hw12 leaves in the two tables and in the total, and that it comes to an end.
use otus_c.Prelude.{
  ℕ, zero, suc, ◌+◌, ◌-◌, ◌^◌, ◌<◌, ◌≤◌, ◌≡◌, ◌≢◌, refl, ap, Bool, true, List, [], ◌∷◌, ◌++◌,
  Option, none, some, arith, length,
}
use otus_c.Prelude.Words.{u64}
use otus_c.Prelude.Bytes.{CString}
use otus_c.LogParser.HashTable.Outcome.{Run, ok, blocked, fault}
use otus_c.LogParser.HashTable.Effect.{IsValid, view}
use otus_c.LogParser.Apache.{
  Tables, max_len, take_line, fgets, continue, read_lines, add_bytes, process_file,
}
use otus_c.LogParser.Apache.Line.{counted_referer, LogLine}
use otus_c.LogParser.Apache.Counts.{deltas, sum, added, AllSmall, inc_all-added}
use otus_c.LogParser.Apache.Files.{
  AllText, file_of, ref_inc, refer_incs, uri_incs, sizes, read_lines-incs,
}

uri_incs-AllSmall : (ls : List LogLine) → AllText ls → AllSmall (uri_incs ls)
uri_incs-AllSmall [] h = tt
uri_incs-AllSmall (l ∷ ls) h = (h.0.parts.size, uri_incs-AllSmall ls h.1)

length-uri_incs : (ls : List LogLine) → length (uri_incs ls) ≡ length ls
length-uri_incs [] = refl
length-uri_incs (l ∷ ls) = ap suc (length-uri_incs ls)

ref_inc-append :
    (o : Option CString) (incs : List (CString × ℕ)) (n : ℕ)
    → AllSmall incs
    → length incs ≤ n
    → AllSmall (ref_inc o ++ incs) × (length (ref_inc o ++ incs) ≤ suc n)
ref_inc-append none incs n h low = (h, omega arith)
ref_inc-append (some ref) incs n h low = ((omega arith, h), omega arith)

refer_incs-small :
    (ls : List LogLine) → AllSmall (refer_incs ls) × (length (refer_incs ls) ≤ length ls)
refer_incs-small [] = (tt, omega arith)
refer_incs-small (l ∷ ls) =
    let (small, low) = refer_incs-small ls in
    ref_inc-append (counted_referer l) (refer_incs ls) (length ls) small low

-- What `process_file` does to the tables, with how many keys they have got at most
pub process_file-incs :
    (open_read : CString → Option (List ℕ)) (memory : ℕ → Bool × Bool) (fuel : ℕ) (t : Tables)
    (bytes : ℕ) (filepath : CString) (ls : List LogLine)
    → open_read filepath ≡ some (file_of ls)
    → ((n : ℕ) → memory n ≡ (true, true))
    → length ls < fuel
    → AllText ls
    → IsValid t.refer
    → IsValid t.uri
    → t.refer.size + length ls < 2 ^ 64
    → t.uri.size + length ls < 2 ^ 64
    → (t' : Tables) × (process_file open_read memory fuel t bytes (some filepath)
        ≡ some (ok (u64 (bytes + sum (sizes ls)), t')))
      × IsValid t'.refer
      × IsValid t'.uri
      × (t'.refer.size ≤ t.refer.size + length ls)
      × (t'.uri.size ≤ t.uri.size + length ls)
      × ((q : CString) → view t'.refer q ≡ added (view t.refer q) (deltas q (refer_incs ls)))
      × ((q : CString) → view t'.uri q ≡ added (view t.uri q) (deltas q (uri_incs ls)))
unfolding process_file
process_file-incs open_read memory fuel t bytes filepath ls opened enough low texts vr vu room_r
      room_u =
    let (r, run_r, valid_r, size_r, reads_r) =
      inc_all-added t.refer (refer_incs ls) vr (refer_incs-small ls).0
        (omega (arith, room_r, (refer_incs-small ls).1)) in
    let (u, run_u, valid_u, size_u, reads_u) =
      inc_all-added t.uri (uri_incs ls) vu (uri_incs-AllSmall ls texts)
        (omega (arith, room_u, length-uri_incs ls)) in
    let run = read_lines-incs memory enough ls fuel 0 t 0 r u texts low (omega arith) run_r run_u in
    let total : u64 (bytes + u64 (0 + sum (sizes ls))) ≡ u64 (bytes + sum (sizes ls)) =
      omega arith in
    (
      record { refer = r; uri = u },
      rw (opened, run) (ap (λ k. some (ok (k, record { refer = r; uri = u }))) total),
      valid_r,
      valid_u,
      omega (arith, size_r, (refer_incs-small ls).1),
      omega (arith, size_u, length-uri_incs ls),
      reads_r,
      reads_u,
    )

-- For a file of lines in the format, each of less than 9215 bytes, none of them zero or a newline,
-- valid tables, both with fewer than 2^64 keys also after as many more as there are lines, and no
-- allocation that fails: `process_file`, allowed more rounds than there are lines, adds the sizes of the
-- lines to the total in 64 bits, and leaves valid tables, in which every URI holds the sizes of its
-- lines more, and every referer the number of its lines more, those that begin with a dash or have
-- no word left out.
pub process_file-totals :
    (open_read : CString → Option (List ℕ)) (memory : ℕ → Bool × Bool) (fuel : ℕ) (t : Tables)
    (bytes : ℕ) (filepath : CString) (ls : List LogLine)
    → open_read filepath ≡ some (file_of ls)
    → ((n : ℕ) → memory n ≡ (true, true))
    → length ls < fuel
    → AllText ls
    → IsValid t.refer
    → IsValid t.uri
    → t.refer.size + length ls < 2 ^ 64
    → t.uri.size + length ls < 2 ^ 64
    → (t' : Tables) × (process_file open_read memory fuel t bytes (some filepath)
        ≡ some (ok (u64 (bytes + sum (sizes ls)), t')))
      × IsValid t'.refer
      × IsValid t'.uri
      × ((q : CString) → view t'.refer q ≡ added (view t.refer q) (deltas q (refer_incs ls)))
      × ((q : CString) → view t'.uri q ≡ added (view t.uri q) (deltas q (uri_incs ls)))
process_file-totals open_read memory fuel t bytes filepath ls opened enough low texts vr vu room_r
      room_u =
    let (t', run, valid_r, valid_u, _, _, reads_r, reads_u) =
      process_file-incs open_read memory fuel t bytes filepath ls opened enough low texts vr vu
        room_r room_u in
    (t', run, valid_r, valid_u, reads_r, reads_u)

take_line-shorter :
    (n : ℕ) (x : ℕ) (file : List ℕ) → length (take_line (suc n) (x ∷ file)).1 < length (x ∷ file)
unfolding take_line
take_line-shorter zero x file = ground arith
take_line-shorter (suc n) x [] = ground arith
take_line-shorter (suc n) x (y ∷ file) = ground (arith, take_line-shorter n y file)

continue-ne-none :
    (r : Run (ℕ × Tables)) (k : ℕ → Tables → Option (Run (ℕ × Tables)))
    → ((n : ℕ) (t : Tables) → k n t ≢ none)
    → continue r k ≢ none
continue-ne-none (ok (n, t)) k h = h n t
continue-ne-none blocked k h = λ e. cc
continue-ne-none fault k h = λ e. cc

read_lines-ne-none :
    (memory : ℕ → Bool × Bool) (fuel n : ℕ) (t : Tables) (current_bytes : ℕ) (file : List ℕ)
    → length file < fuel
    → read_lines memory fuel n t current_bytes file ≢ none
unfolding read_lines fgets
read_lines-ne-none memory zero n t b file low = absurd (omega arith)
read_lines-ne-none memory (suc fuel) n t b [] low = λ e. cc
read_lines-ne-none memory (suc fuel) n t b (x ∷ file) low = continue-ne-none _ _ (λ number t'.
    read_lines-ne-none memory fuel (n + 1) t' (u64 (b + number)) _
      (omega (arith, low, take_line-shorter (max_len - 2) x file)))

add_bytes-ne-none :
    (bytes : ℕ) (o : Option (Run (ℕ × Tables))) → o ≢ none → add_bytes bytes o ≢ none
add_bytes-ne-none bytes none h = absurd (h refl)
add_bytes-ne-none bytes (some (ok (n, t))) h = λ e. cc
add_bytes-ne-none bytes (some blocked) h = λ e. cc
add_bytes-ne-none bytes (some fault) h = λ e. cc

-- Whatever the file holds, the loop of `process_file` comes to an end: allowed more rounds than the
-- file has bytes, it does not run out of them.
pub process_file-ends :
    (open_read : CString → Option (List ℕ)) (memory : ℕ → Bool × Bool) (fuel : ℕ) (t : Tables)
    (bytes : ℕ) (filepath : CString) (file : List ℕ)
    → open_read filepath ≡ some file
    → length file < fuel
    → process_file open_read memory fuel t bytes (some filepath) ≢ none
unfolding process_file
process_file-ends open_read memory fuel t bytes filepath file opened low =
    rw opened (add_bytes-ne-none bytes _ (read_lines-ne-none memory fuel 0 t 0 file low))
