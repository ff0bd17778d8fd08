-- ===== src/LogParser/ThreadPool/Moves.antt =====
-- Every step of the pool of hw12 keeps the invariant.
mod Worker
mod Main
pub use Worker.{worker-Inv, worker-max, taking_gets}
pub use Main.{main-Inv, main-max, putting_puts}
