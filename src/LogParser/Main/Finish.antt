-- ===== src/LogParser/Main/Finish.antt =====
-- `main` of hw12 from the directory to the totals, over every run of its threads.
use otus_c.Prelude.{◌≡◌, List, [], Option}
use otus_c.Prelude.Bytes.{CString}
use otus_c.LogParser.CirBuffer.Refine.{Represents}
use otus_c.LogParser.HashTable.{create_hash_t}
use otus_c.LogParser.Apache.{strtoull}
use otus_c.LogParser.Main.{Dirent, Memory, Setup, count_files, choose_threads}

-- What `main` has made when it starts the pool, on a directory that it can read
record Started (memory : Memory) (n_thread : CString) (dir : List Dirent) (m : Setup) : Type 0 where
  ring : Represents m.buf []
  slots : m.buf.max ≡ 10
  tables :
      m.tables
      ≡ record { refer = create_hash_t 100 memory.refer; uri = create_hash_t 100 memory.uri }
  threads : m.num_thread ≡ choose_threads (strtoull n_thread) (count_files dir)
