-- ===== src/LogParser/CirBuffer/Queue.antt =====
-- What the buffer of hw12 promises: a queue of at most `cap` tasks, oldest first.
use otus_c.Prelude.{ℕ, Bool, true, false, List, [], ◌∷◌, ◌++◌, ◌==◌, if◌then◌else◌, length}
use otus_c.LogParser.CirBuffer.{Task}

-- A task is refused if the queue is full.
unfoldable pub push : ℕ → List Task → Task → Bool × List Task
push cap q t = if length q == cap then (false, q) else (true, q ++ (t ∷ []))
