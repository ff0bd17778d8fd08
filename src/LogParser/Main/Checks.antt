-- ===== src/LogParser/Main/Checks.antt =====
-- `main` of hw12 on a directory with one log.
use otus_c.Prelude.{◌≡◌, refl, true, false, List, [], ◌∷◌, Option, some, replicate}
use otus_c.Prelude.Bytes.{CString}
use otus_c.LogParser.CirBuffer.{Task, Buffer, garbage, create_cir_buffer}
use otus_c.LogParser.HashTable.{chain, create_hash_t}
use otus_c.LogParser.Apache.{strtoull, read_sign, read_digits}
use otus_c.LogParser.Apache.Line.{LogLine}
use otus_c.LogParser.Apache.Checks.{one_line}
use otus_c.LogParser.Main.{Dirent, Memory, Setup, set_up}

abbrev memory : Memory
memory = record {
  ring = some (replicate 10 garbage);
  refer = replicate 100 (chain []);
  uri = replicate 100 (chain []);
}

abbrev folder : CString → Option (List Dirent)
folder dirname = some (
    record { is_regular = true; name = b'a' ∷ [] }
    ∷ record { is_regular = false; name = b'.' ∷ [] }
    ∷ [])

abbrev logs : CString
logs = b'l' ∷ []

abbrev ring : Buffer
ring = record { tasks = replicate 10 garbage; head = 0; tail = 0; max = 10; full = false }

abbrev files : List Task
files = record { function = 1; arg = b'l' ∷ b'/' ∷ b'a' ∷ [] } ∷ []

abbrev made : Setup
made = record {
  num_thread = 1;
  buf = ring;
  tables = record {
    refer = create_hash_t 100 (replicate 100 (chain []));
    uri = create_hash_t 100 (replicate 100 (chain []));
  };
  files = files;
}

made_for_seven : set_up memory folder folder ((b'7' ∷ []) ∷ logs ∷ []) ≡ some made
unfolding set_up create_cir_buffer strtoull read_sign read_digits
made_for_seven = refl

abbrev lines_of : Task → List LogLine
lines_of t = one_line ∷ one_line ∷ []
